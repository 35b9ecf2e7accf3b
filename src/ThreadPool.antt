-- ===== src/ThreadPool.antt =====
-- ThreadPool of include/beatrice/ThreadPool.hpp and src/ThreadPool.cpp: worker threads with a queue
-- each, and a global queue that submit fills. A closure is the number that names it. Priorities and
-- affinities of the system's threads are not modelled.
pub mod Select
pub mod Steal
pub mod Balance
pub mod Worker
pub mod Stats
mod Tests
use beatrice.Base.{
  ℕ, zero, suc, ◌+◌, ◌-◌, ◌/◌, ◌%◌, ◌^◌, ◌≤◌, Bool, true, false, not, ◌&&◌, ◌||◌, List, [], ◌∷◌,
  ◌++◌, Option, none, some, length, get_elem?, set, is_empty, Text, codes, decimal, ltb, leb,
  if◌then◌else◌, Result, ok, err, invalid_argument,
}
use beatrice.Base.Words.{size_mod, size_add}

pub record TaskStats : Type 0 where
  pub tasks_submitted : ℕ
  pub tasks_completed : ℕ
  pub tasks_failed : ℕ
  pub total_processing_time : ℕ
  pub average_processing_time : ℕ
  pub max_processing_time : ℕ
  pub min_processing_time : ℕ

-- microseconds::max() is the largest int64_t.
unfoldable pub new_stats : TaskStats
new_stats = record {
  tasks_submitted = 0;
  tasks_completed = 0;
  tasks_failed = 0;
  total_processing_time = 0;
  average_processing_time = 0;
  max_processing_time = 0;
  min_processing_time = 2 ^ 63 - 1;
}

pub record Task : Type 0 where
  pub func : ℕ
  pub priority : ℕ
  pub submit_time : ℕ
  pub description : Text

pub record ThreadInfo : Type 0 where
  pub cpu_id : ℕ
  pub name : Text
  pub max_tasks : ℕ
  pub local_queue : List ℕ
  pub running : Bool
  pub stats : TaskStats
  pub current_load : ℕ

pub record ThreadPool : Type 0 where
  pub threads : List ThreadInfo
  pub global_queue : List Task
  pub is_shutdown : Bool
  pub paused : Bool
  pub next_thread : ℕ
  pub enable_adaptive : Bool
  pub adaptive_threshold : ℕ

-- The i-th thread, on one of `cpus` processors.
unfoldable pub new_thread : ℕ → ℕ → ThreadInfo
unfolding new_stats
new_thread cpus i = record {
  cpu_id = i % cpus;
  name = codes "Worker-" ++ decimal i;
  max_tasks = 1000;
  local_queue = [];
  running = true;
  stats = new_stats;
  current_load = 0;
}

-- The threads from number i on.
unfoldable pub new_threads : ℕ → ℕ → ℕ → List ThreadInfo
unfolding new_thread
new_threads cpus i zero = []
new_threads cpus i (suc n) = new_thread cpus i ∷ new_threads cpus (i + 1) n

unfoldable pub new_pool : ℕ → ℕ → ThreadPool
unfolding new_threads
new_pool cpus num_threads = record {
  threads = new_threads cpus 0 (elim num_threads [ zero ↦ cpus | suc n ↦ suc n ]);
  global_queue = [];
  is_shutdown = false;
  paused = false;
  next_thread = 0;
  enable_adaptive = true;
  adaptive_threshold = 1000;
}

-- submit throws std::runtime_error after shutdown, which is `none` here.
unfoldable pub submit : ThreadPool → ℕ → ℕ → Option ThreadPool
submit p func now =
    if p.is_shutdown
    then none
    else some (record p {
      global_queue =
          p.global_queue
          ++ record {
            func = func;
            priority = 0;
            submit_time = now;
            description = codes "User task";
          }
            ∷ [];
    })

unfoldable pub set_max_tasks : ℕ → List ThreadInfo → List ThreadInfo
set_max_tasks n [] = []
set_max_tasks n (t ∷ ts) = record t { max_tasks = n } ∷ set_max_tasks n ts

unfoldable pub get_active_thread_count : List ThreadInfo → ℕ
get_active_thread_count [] = 0
get_active_thread_count (t ∷ ts) =
    if t.running && not (is_empty t.local_queue)
    then suc (get_active_thread_count ts)
    else get_active_thread_count ts

-- The tasks in the local queues.
unfoldable pub local_pending : List ThreadInfo → ℕ
local_pending [] = 0
local_pending (t ∷ ts) = length t.local_queue + local_pending ts

unfoldable pub get_pending_task_count : ThreadPool → ℕ
unfolding local_pending
get_pending_task_count p = length p.global_queue + local_pending p.threads

-- The loop of stealTasks: tasks move from the front of the victim's queue to the end of the thief's.
unfoldable pub move_tasks : ℕ → List ℕ → List ℕ → List ℕ × List ℕ
move_tasks zero thief victim = (thief, victim)
move_tasks (suc n) thief [] = (thief, [])
move_tasks (suc n) thief (task ∷ victim) = move_tasks n (thief ++ task ∷ []) victim

abbrev pub queue_of : List ThreadInfo → ℕ → Option (List ℕ)
queue_of ts i = elim (get_elem? ts i) [ none ↦ none | some t ↦ some t.local_queue ]

-- A thread's queue replaced.
abbrev pub set_queue : List ThreadInfo → ℕ → List ℕ → List ThreadInfo
set_queue [] i q = []
set_queue (t ∷ ts) zero q = record t { local_queue = q } ∷ ts
set_queue (t ∷ ts) (suc i) q = t ∷ set_queue ts i q

-- How many tasks a thief takes from a victim with more tasks.
abbrev pub steal_count : List ℕ → List ℕ → ℕ
steal_count thief victim = (length victim - length thief) / 2

-- The thief is not the victim.
unfoldable pub steal_tasks : List ThreadInfo → ℕ → ℕ → List ThreadInfo × Bool
unfolding move_tasks
steal_tasks ts thief_id victim_id = elim (queue_of ts thief_id) [
  | none ↦ (ts, false)
  | some thief ↦ elim (queue_of ts victim_id) [
    | none ↦ (ts, false)
    | some victim ↦
        if leb (length victim) (length thief)
        then (ts, false)
        else let moved = move_tasks (steal_count thief victim) thief victim in
          (
            set_queue (set_queue ts thief_id moved.0) victim_id moved.1,
            ltb 0 (steal_count thief victim),
          )
  ]
]

-- The inner loop of balanceLoad: the victims from j on, n of them.
unfoldable pub steal_first : ℕ → List ThreadInfo → ℕ → ℕ → List ThreadInfo
unfolding steal_tasks
steal_first zero ts i j = ts
steal_first (suc n) ts i j =
    let first = steal_tasks ts i j in
    let rest = steal_first n first.0 i (j + 1) in if first.1 then first.0 else rest

-- The outer loop: n thieves from i on.
unfoldable pub balance_from : ℕ → List ThreadInfo → ℕ → List ThreadInfo
unfolding steal_first
balance_from zero ts i = ts
balance_from (suc n) ts i = balance_from n (steal_first (length ts - suc i) ts i (suc i)) (i + 1)

unfoldable pub balance_load : List ThreadInfo → List ThreadInfo
unfolding balance_from
balance_load ts = balance_from (length ts) ts 0
