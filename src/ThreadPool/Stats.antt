-- ===== src/ThreadPool/Stats.antt =====
-- updateThreadStats and getOverallStats of src/ThreadPool.cpp. Times are below 2^63 microseconds.
use beatrice.Base.{
  ℕ, ◌+◌, ◌/◌, ◌%◌, ◌≤◌, ◌<◌, ◌≡◌, Bool, true, false, List, [], ◌∷◌, All, ltb, if◌then◌else◌, arith,
}
use beatrice.Base.Words.{size_mod, size_add}
use beatrice.ThreadPool.{TaskStats, new_stats, ThreadInfo}

-- Within the lock, for a thread that exists.
unfoldable pub update_thread_stats : TaskStats → ℕ → Bool → TaskStats
update_thread_stats s time success =
    let completed = if success then size_add s.tasks_completed 1 else s.tasks_completed in
    record s {
      tasks_completed = completed;
      tasks_failed = if success then s.tasks_failed else size_add s.tasks_failed 1;
      total_processing_time = s.total_processing_time + time;
      max_processing_time = if ltb s.max_processing_time time then time else s.max_processing_time;
      min_processing_time = if ltb time s.min_processing_time then time else s.min_processing_time;
      average_processing_time =
          if ltb 0 completed
          then (s.total_processing_time + time) / completed
          else s.average_processing_time;
    }

-- One thread's statistics added to the sum so far, whose time stays below 2^63 microseconds.
unfoldable pub add_thread : TaskStats → ThreadInfo → TaskStats
add_thread s t = record s {
  tasks_submitted = size_add s.tasks_submitted t.stats.tasks_submitted;
  tasks_completed = size_add s.tasks_completed t.stats.tasks_completed;
  tasks_failed = size_add s.tasks_failed t.stats.tasks_failed;
  total_processing_time = s.total_processing_time + t.stats.total_processing_time;
  max_processing_time =
      if ltb s.max_processing_time t.stats.max_processing_time
      then t.stats.max_processing_time
      else s.max_processing_time;
  min_processing_time =
      if ltb t.stats.min_processing_time s.min_processing_time
      then t.stats.min_processing_time
      else s.min_processing_time;
}

-- The loop of getOverallStats.
unfoldable pub add_stats : List ThreadInfo → TaskStats → TaskStats
add_stats [] s = s
add_stats (t ∷ ts) s = add_stats ts (add_thread s t)

unfoldable pub get_overall_stats : List ThreadInfo → TaskStats
unfolding add_thread add_stats new_stats
get_overall_stats ts =
    let s = add_stats ts new_stats in
    if ltb 0 s.tasks_completed
    then record s { average_processing_time = s.total_processing_time / s.tasks_completed }
    else s

abbrev pub total_of : (TaskStats → ℕ) → List ThreadInfo → ℕ
total_of f [] = 0
total_of f (t ∷ ts) = f t.stats + total_of f ts

-- What the loop adds to a partial sum.
record Sums (ts : List ThreadInfo) (s r : TaskStats) : Type 0 where
  submitted :
      r.tasks_submitted ≡ (s.tasks_submitted + total_of (λ x. x.tasks_submitted) ts) % size_mod
  completed :
      r.tasks_completed ≡ (s.tasks_completed + total_of (λ x. x.tasks_completed) ts) % size_mod
  failed : r.tasks_failed ≡ (s.tasks_failed + total_of (λ x. x.tasks_failed) ts) % size_mod
  total :
      r.total_processing_time ≡ s.total_processing_time + total_of (λ x. x.total_processing_time) ts
  slowest :
      (s.max_processing_time ≤ r.max_processing_time)
      × All (λ t. t.stats.max_processing_time ≤ r.max_processing_time) ts
  fastest :
      (r.min_processing_time ≤ s.min_processing_time)
      × All (λ t. r.min_processing_time ≤ t.stats.min_processing_time) ts

Sums-step :
    (t : ThreadInfo) (ts : List ThreadInfo) (s r : TaskStats)
    → Sums ts (add_thread s t) r
    → Sums (t ∷ ts) s r
unfolding add_thread
Sums-step t ts s r h = record {
  submitted = omega (arith, h.submitted);
  completed = omega (arith, h.completed);
  failed = omega (arith, h.failed);
  total = omega (arith, h.total);
  slowest = (ground (arith, h.slowest.0), (ground (arith, h.slowest.0), h.slowest.1));
  fastest = (ground (arith, h.fastest.0), (ground (arith, h.fastest.0), h.fastest.1));
}

add_stats-Sums :
    (ts : List ThreadInfo) (s : TaskStats)
    → s.tasks_submitted < size_mod
    → s.tasks_completed < size_mod
    → s.tasks_failed < size_mod
    → Sums ts s (add_stats ts s)
unfolding add_stats add_thread
add_stats-Sums [] s h1 h2 h3 = record {
  submitted = omega arith;
  completed = omega arith;
  failed = omega arith;
  total = omega arith;
  slowest = (omega arith, tt);
  fastest = (omega arith, tt);
}
add_stats-Sums (t ∷ ts) s h1 h2 h3 =
    Sums-step t ts s (add_stats ts (add_thread s t))
      (add_stats-Sums ts (add_thread s t) (omega arith) (omega arith) (omega arith))

Sums-average :
    (ts : List ThreadInfo) (s0 s : TaskStats) (b : Bool) (a : ℕ)
    → Sums ts s0 s
    → Sums ts s0 (if b then record s { average_processing_time = a } else s)
Sums-average ts s0 s false a h = h
Sums-average ts s0 s true a h = record {
  submitted = h.submitted;
  completed = h.completed;
  failed = h.failed;
  total = h.total;
  slowest = h.slowest;
  fastest = h.fastest;
}

-- The overall statistics: each count is the sum of the threads' modulo 2^64, and the slowest and the
-- fastest task of any thread lie within the overall extremes.
pub get_overall_stats-sums :
    (ts : List ThreadInfo)
    → let r = get_overall_stats ts in
      (r.tasks_submitted ≡ total_of (λ x. x.tasks_submitted) ts % size_mod)
      × (r.tasks_completed ≡ total_of (λ x. x.tasks_completed) ts % size_mod)
      × (r.tasks_failed ≡ total_of (λ x. x.tasks_failed) ts % size_mod)
      × (r.total_processing_time ≡ total_of (λ x. x.total_processing_time) ts)
      × All (λ t. t.stats.max_processing_time ≤ r.max_processing_time) ts
      × All (λ t. r.min_processing_time ≤ t.stats.min_processing_time) ts
unfolding get_overall_stats new_stats
get_overall_stats-sums ts =
    let s = add_stats ts new_stats in
    let h =
      Sums-average ts new_stats s (ltb 0 s.tasks_completed)
        (s.total_processing_time / s.tasks_completed)
        (add_stats-Sums ts new_stats (omega arith) (omega arith) (omega arith)) in
    (
      omega (arith, h.submitted),
      omega (arith, h.completed),
      omega (arith, h.failed),
      omega (arith, h.total),
      h.slowest.1,
      h.fastest.1,
    )
