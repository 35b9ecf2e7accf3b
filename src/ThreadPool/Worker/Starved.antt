-- ===== src/ThreadPool/Worker/Starved.antt =====
-- submit fills the global queue only, and every worker waits for its own queue first.
use beatrice.Base.{
  ℕ, zero, suc, ◌+◌, ◌≡◌, refl, sym, ◌∙◌, ap, subst, Bool, true, false, not, ◌||◌, List, [], ◌∷◌,
  ◌++◌, none, some, map, is_empty, All, All-set, All-get_elem?, Bool-cases, inl, inr, arith,
  if◌then◌else◌,
}
use beatrice.ThreadPool.{Task, ThreadInfo, ThreadPool, new_threads, new_pool, submit, set_max_tasks}
use beatrice.ThreadPool.Worker.{
  Place, at_loop, at_local, at_global, has_task, stopped, World, at_start, start, test_loop,
  after_local, Step, submits, pauses, resumes, limits, configures, shuts_down, stops, tests,
  wakes_local, wakes_global, runs, drops, Reach, begin, after,
}

-- A place without a task that is not the wait on the global queue.
abbrev IsIdle : Place → Type 0
IsIdle at_loop = Unit
IsIdle at_local = Unit
IsIdle at_global = ⊥
IsIdle (has_task func) = ⊥
IsIdle stopped = Unit

abbrev HasNone : ThreadInfo → Type 0
HasNone t = t.local_queue ≡ []

pub record IsStarved (w : World) : Type 0 where
  pub queues : All HasNone w.pool.threads
  pub idle : All IsIdle w.places
  pub none_ran : w.ran ≡ []
  pub waiting : map (λ t. t.func) w.pool.global_queue ≡ w.submitted

new_threads-HasNone : (cpus i n : ℕ) → All HasNone (new_threads cpus i n)
unfolding new_threads
new_threads-HasNone cpus i zero = tt
new_threads-HasNone cpus i (suc n) = (refl, new_threads-HasNone cpus (i + 1) n)

set_max_tasks-HasNone :
    (n : ℕ) (ts : List ThreadInfo) → All HasNone ts → All HasNone (set_max_tasks n ts)
unfolding set_max_tasks
set_max_tasks-HasNone n [] h = tt
set_max_tasks-HasNone n (t ∷ ts) (h, hs) = (h, set_max_tasks-HasNone n ts hs)

at_start-IsIdle : (ts : List ThreadInfo) → All IsIdle (at_start ts)
unfolding at_start
at_start-IsIdle [] = tt
at_start-IsIdle (t ∷ ts) = (tt, at_start-IsIdle ts)

start-IsStarved : (cpus n : ℕ) → IsStarved (start cpus n)
unfolding start new_pool
start-IsStarved cpus n = record {
  queues = new_threads-HasNone cpus 0 _;
  idle = at_start-IsIdle _;
  none_ran = refl;
  waiting = refl;
}

map-snoc :
    (q : List Task) (t : Task)
    → map (λ t. t.func) (q ++ t ∷ []) ≡ map (λ t. t.func) q ++ t.func ∷ []
map-snoc [] t = refl
map-snoc (x ∷ q) t = ap (◌∷◌ x.func) (map-snoc q t)

kept_open : (b : Bool) {r p' : ThreadPool} → (if b then none else some r) ≡ some p' → r ≡ p'
kept_open true h = cc
kept_open false h = cc

submit-some :
    (p : ThreadPool) (func now : ℕ) (p' : ThreadPool)
    → submit p func now ≡ some p'
    → (p'.threads ≡ p.threads)
      × (map (λ t. t.func) p'.global_queue ≡ map (λ t. t.func) p.global_queue ++ func ∷ [])
unfolding submit
submit-some p func now p' h = (
  sym (ap (λ x. x.threads) (kept_open p.is_shutdown h)),
  sym (ap (λ x. map (λ t. t.func) x.global_queue) (kept_open p.is_shutdown h))
      ∙ map-snoc p.global_queue _,
)

test_loop-IsIdle : (t : ThreadInfo) → IsIdle (test_loop t)
unfolding test_loop
test_loop-IsIdle t = elim (Bool-cases t.running) [ inl on ↦ rw on tt | inr off ↦ rw off tt ]

after_local-stopped :
    (t : ThreadInfo)
    → HasNone t
    → (not t.running || not (is_empty t.local_queue)) ≡ true
    → after_local t ≡ (t, stopped)
unfolding after_local
after_local-stopped t h wakes = ground (arith, h, wakes)

IsStarved-Step : {w w' : World} → IsStarved w → Step w w' → IsStarved w'
IsStarved-Step {w} v (submits func now {p} h) = record {
  queues = subst (All HasNone) (sym (submit-some w.pool func now p h).0) v.queues;
  idle = v.idle;
  none_ran = v.none_ran;
  waiting = (submit-some w.pool func now p h).1 ∙ ap (λ q. q ++ func ∷ []) v.waiting;
}
IsStarved-Step v pauses = record {
  queues = v.queues;
  idle = v.idle;
  none_ran = v.none_ran;
  waiting = v.waiting;
}
IsStarved-Step v resumes = record {
  queues = v.queues;
  idle = v.idle;
  none_ran = v.none_ran;
  waiting = v.waiting;
}
IsStarved-Step {w} v (limits n) = record {
  queues = set_max_tasks-HasNone n w.pool.threads v.queues;
  idle = v.idle;
  none_ran = v.none_ran;
  waiting = v.waiting;
}
IsStarved-Step v (configures adaptive threshold) = record {
  queues = v.queues;
  idle = v.idle;
  none_ran = v.none_ran;
  waiting = v.waiting;
}
IsStarved-Step v shuts_down = record {
  queues = v.queues;
  idle = v.idle;
  none_ran = v.none_ran;
  waiting = v.waiting;
}
IsStarved-Step {w} v (stops i {t} h found) = record {
  queues =
      All-set HasNone w.pool.threads i (record t { running = false }) v.queues
        (All-get_elem? HasNone w.pool.threads i v.queues found);
  idle = v.idle;
  none_ran = v.none_ran;
  waiting = v.waiting;
}
IsStarved-Step {w} v (tests i {t} found place) = record {
  queues = v.queues;
  idle = All-set IsIdle w.places i (test_loop t) v.idle (test_loop-IsIdle t);
  none_ran = v.none_ran;
  waiting = v.waiting;
}
IsStarved-Step {w} v (wakes_local i {t} found place wakes) =
    let none_left = All-get_elem? HasNone w.pool.threads i v.queues found in
    let stays = after_local-stopped t none_left wakes in
    record {
      queues =
          All-set HasNone w.pool.threads i (after_local t).0 v.queues
            (subst (λ x. HasNone x.0) (sym stays) none_left);
      idle =
          All-set IsIdle w.places i (after_local t).1 v.idle
            (subst (λ x. IsIdle x.1) (sym stays) tt);
      none_ran = v.none_ran;
      waiting = v.waiting;
    }
IsStarved-Step {w} v (wakes_global i found place wakes) =
    absurd (All-get_elem? IsIdle w.places i v.idle place)
IsStarved-Step {w} v (runs i time success found place on h) =
    absurd (All-get_elem? IsIdle w.places i v.idle place)
IsStarved-Step {w} v (drops i place off) = absurd (All-get_elem? IsIdle w.places i v.idle place)

-- In every state that the pool can reach, no task has run, no local queue holds one, and the global
-- queue holds every task submitted so far, in order.
pub Reach-IsStarved : {cpus num_threads : ℕ} {w : World} → Reach cpus num_threads w → IsStarved w
Reach-IsStarved {cpus} {num_threads} begin = start-IsStarved cpus num_threads
Reach-IsStarved (after r step) = IsStarved-Step (Reach-IsStarved r) step
