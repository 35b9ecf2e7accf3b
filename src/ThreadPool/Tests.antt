-- ===== src/ThreadPool/Tests.antt =====
-- The theorems on the thread pool applied to concrete pools.
use beatrice.Base.{
  ℕ, ◌+◌, ◌%◌, ◌≤◌, ◌≡◌, refl, ◌⊎◌, true, List, [], ◌∷◌, ◌++◌, some, All, length, codes, leb, arith,
}
use beatrice.Base.Words.{size_mod}
use beatrice.ThreadPool.{
  new_stats, ThreadInfo, queue_of, steal_tasks, local_pending, balance_load, new_pool, submit,
}
use beatrice.ThreadPool.Steal.{steal_tasks-balances}
use beatrice.ThreadPool.Balance.{balance_load-pending}
use beatrice.ThreadPool.Select.{load_at, least_loaded_select, least_loaded_select-least}
use beatrice.ThreadPool.Stats.{get_overall_stats, total_of, get_overall_stats-sums}
use beatrice.ThreadPool.Worker.{World, start, Reach, begin, after, submits, tests}
use beatrice.ThreadPool.Worker.Starved.{IsStarved, Reach-IsStarved}

abbrev worker : List ℕ → ℕ → ThreadInfo
worker queue load = record {
  cpu_id = 0;
  name = codes "w";
  max_tasks = 1000;
  local_queue = queue;
  running = true;
  stats = new_stats;
  current_load = load;
}

abbrev idle_and_busy : List ThreadInfo
idle_and_busy = worker [] 2 ∷ worker (7 ∷ 8 ∷ 9 ∷ []) 1 ∷ worker (5 ∷ []) 4 ∷ []

steal_tasks-balances_example :
    (a b : List ℕ) × (queue_of (steal_tasks idle_and_busy 0 1).0 0 ≡ some a)
    × (queue_of (steal_tasks idle_and_busy 0 1).0 1 ≡ some b)
    × (a ++ b ≡ [] ++ 7 ∷ 8 ∷ 9 ∷ [])
    × (length a ≤ length b)
    × (length b ≤ length a + 1)
    × ((steal_tasks idle_and_busy 0 1).1
        ≡ leb (length {A = ℕ} [] + 2) (length {A = ℕ} (7 ∷ 8 ∷ 9 ∷ [])))
    × ((k : ℕ)
        → (0 ≡ k)
          ⊎ (1 ≡ k)
          ⊎ (queue_of (steal_tasks idle_and_busy 0 1).0 k ≡ queue_of idle_and_busy k))
steal_tasks-balances_example =
    steal_tasks-balances idle_and_busy 0 1 {thief = []} {victim = 7 ∷ 8 ∷ 9 ∷ []}
      (λ e. absurd (omega (arith, e))) refl refl (omega arith)

balance_load-pending_example :
    local_pending (balance_load idle_and_busy) ≡ local_pending idle_and_busy
balance_load-pending_example = balance_load-pending idle_and_busy

least_loaded_select-least_example :
    (m : ℕ) × (load_at idle_and_busy (least_loaded_select idle_and_busy) ≡ some m)
    × All (λ t. m ≤ t.current_load) idle_and_busy
least_loaded_select-least_example =
    least_loaded_select-least idle_and_busy (omega arith) (omega arith)

get_overall_stats-sums_example :
    let r = get_overall_stats idle_and_busy in
    (r.tasks_submitted ≡ total_of (λ x. x.tasks_submitted) idle_and_busy % size_mod)
    × (r.tasks_completed ≡ total_of (λ x. x.tasks_completed) idle_and_busy % size_mod)
    × (r.tasks_failed ≡ total_of (λ x. x.tasks_failed) idle_and_busy % size_mod)
    × (r.total_processing_time ≡ total_of (λ x. x.total_processing_time) idle_and_busy)
    × All (λ t. t.stats.max_processing_time ≤ r.max_processing_time) idle_and_busy
    × All (λ t. r.min_processing_time ≤ t.stats.min_processing_time) idle_and_busy
get_overall_stats-sums_example = get_overall_stats-sums idle_and_busy

-- A pool of two workers after one submit and one test of a loop.
abbrev submitted_once : (w : World) × Reach 2 2 w
unfolding submit start new_pool
submitted_once = (_, after (after begin (submits 7 0 refl)) (tests 0 refl refl))

Reach-IsStarved_example : IsStarved submitted_once.0
Reach-IsStarved_example =
    Reach-IsStarved {cpus = 2} {num_threads = 2} {w = submitted_once.0} submitted_once.1
