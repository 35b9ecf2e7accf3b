-- ===== src/ThreadPool/Worker.antt =====
-- workerFunction of src/ThreadPool.cpp as a step relation on the pool, the places that its workers
-- are at, and the tasks that have run. A wait on a condition variable returns where its predicate holds.
pub mod Starved
use beatrice.Base.{
  ℕ, zero, suc, ◌+◌, ◌-◌, ◌%◌, ◌≡◌, Bool, true, false, not, ◌&&◌, ◌||◌, List, [], ◌∷◌, ◌++◌, Option,
  none, some, length, get_elem?, set, is_empty, Result, ok, err, divide_by_zero, ◌==◌,
  if◌then◌else◌,
}
use beatrice.Base.Words.{size_add, size_sub}
use beatrice.ThreadPool.{
  Task, ThreadInfo, ThreadPool, new_pool, submit, set_max_tasks, balance_load,
}
use beatrice.ThreadPool.Stats.{update_thread_stats}

-- Where a worker is: at the loop's test, at the wait on its own queue, at the wait on the global
-- queue, with a task in hand, or past the loop.
pub data Place : Type 0 where
  at_loop at_local at_global : Place
  has_task : ℕ → Place
  stopped : Place

pub record World : Type 0 where
  pub pool : ThreadPool
  pub places : List Place
  pub submitted : List ℕ
  pub ran : List ℕ

-- The workers start at the loop.
unfoldable pub at_start : List ThreadInfo → List Place
at_start [] = []
at_start (t ∷ ts) = at_loop ∷ at_start ts

unfoldable pub start : ℕ → ℕ → World
unfolding at_start
start cpus num_threads = record {
  pool = new_pool cpus num_threads;
  places = at_start ((new_pool cpus num_threads).threads);
  submitted = [];
  ran = [];
}

-- The test of the loop.
unfoldable pub test_loop : ThreadInfo → Place
test_loop t = if t.running then at_local else stopped

-- Behind the wait on the own queue: a task is taken, or none is and the worker goes on to the other.
unfoldable pub after_local : ThreadInfo → ThreadInfo × Place
after_local t =
    if t.running
    then elim t.local_queue [
      | [] ↦ (t, at_global)
      | task ∷ rest ↦ (record t { local_queue = rest }, has_task task)
    ]
    else (t, stopped)

-- Behind the wait on the global queue.
unfoldable pub after_global : ThreadInfo → List Task → List Task × Place
after_global t q =
    if t.running
    then elim q [ [] ↦ ([], at_loop) | task ∷ rest ↦ (rest, has_task task.func) ]
    else (q, stopped)

-- A task run by thread i, in its time and with its outcome: the load goes up and down again. The
-- remainder by a threshold of zero is undefined.
unfoldable pub after_task : ThreadPool → ℕ → ThreadInfo → ℕ → Bool → Result ThreadPool
after_task p i t time success =
    let done = record t {
      stats = update_thread_stats t.stats time success;
      current_load = size_sub (size_add t.current_load 1) 1;
    } in
    let threads = set p.threads i done in
    if not p.enable_adaptive
    then ok (record p { threads = threads })
    else if p.adaptive_threshold == 0
    then err divide_by_zero
    else if done.stats.tasks_completed % p.adaptive_threshold == 0
    then ok (record p { threads = balance_load threads })
    else ok (record p { threads = threads })

-- The steps of the callers and of the workers, in any order. Worker i's own steps are those that its
-- place admits; a task in hand while the pool is paused is dropped.
pub data Step : World → World → Type 0 where
  submits :
      {w : World} (func now : ℕ) {p : ThreadPool}
      → submit w.pool func now ≡ some p
      → Step w (record w { pool = p; submitted = w.submitted ++ func ∷ [] })
  pauses : {w : World} → Step w (record w { pool = record (w.pool) { paused = true } })
  resumes : {w : World} → Step w (record w { pool = record (w.pool) { paused = false } })
  limits :
      {w : World} (n : ℕ)
      → Step w (record w { pool = record (w.pool) { threads = set_max_tasks n w.pool.threads } })
  configures :
      {w : World} (adaptive : Bool) (threshold : ℕ)
      → Step w (record w {
        pool = record (w.pool) { enable_adaptive = adaptive; adaptive_threshold = threshold };
      })
  shuts_down : {w : World} → Step w (record w { pool = record (w.pool) { is_shutdown = true } })
  stops :
      {w : World} (i : ℕ) {t : ThreadInfo}
      → w.pool.is_shutdown ≡ true
      → get_elem? w.pool.threads i ≡ some t
      → Step w (record w {
        pool = record (w.pool) { threads = set w.pool.threads i (record t { running = false }) };
      })
  tests :
      {w : World} (i : ℕ) {t : ThreadInfo}
      → get_elem? w.pool.threads i ≡ some t
      → get_elem? w.places i ≡ some at_loop
      → Step w (record w { places = set w.places i (test_loop t) })
  wakes_local :
      {w : World} (i : ℕ) {t : ThreadInfo}
      → get_elem? w.pool.threads i ≡ some t
      → get_elem? w.places i ≡ some at_local
      → (not t.running || not (is_empty t.local_queue)) ≡ true
      → Step w (record w {
        pool = record (w.pool) { threads = set w.pool.threads i (after_local t).0 };
        places = set w.places i (after_local t).1;
      })
  wakes_global :
      {w : World} (i : ℕ) {t : ThreadInfo}
      → get_elem? w.pool.threads i ≡ some t
      → get_elem? w.places i ≡ some at_global
      → (not t.running || not (is_empty w.pool.global_queue)) ≡ true
      → Step w (record w {
        pool = record (w.pool) { global_queue = (after_global t w.pool.global_queue).0 };
        places = set w.places i (after_global t w.pool.global_queue).1;
      })
  runs :
      {w : World} (i : ℕ) {t : ThreadInfo} {func : ℕ} (time : ℕ) (success : Bool) {p : ThreadPool}
      → get_elem? w.pool.threads i ≡ some t
      → get_elem? w.places i ≡ some (has_task func)
      → w.pool.paused ≡ false
      → after_task w.pool i t time success ≡ ok p
      → Step w (record w { pool = p; places = set w.places i at_loop; ran = w.ran ++ func ∷ [] })
  drops :
      {w : World} (i : ℕ) {func : ℕ}
      → get_elem? w.places i ≡ some (has_task func)
      → w.pool.paused ≡ true
      → Step w (record w { places = set w.places i at_loop })

pub data Reach (cpus num_threads : ℕ) : World → Type 0 where
  begin : Reach cpus num_threads (start cpus num_threads)
  after : {w w' : World} → Reach cpus num_threads w → Step w w' → Reach cpus num_threads w'
