-- ===== src/ThreadPool/Steal.antt =====
-- What stealTasks and balanceLoad make of the local queues.
use beatrice.Base.{
  ℕ, zero, suc, ◌+◌, ◌-◌, ◌≤◌, ◌<◌, ◌≡◌, ◌≢◌, refl, sym, ◌∙◌, ap, false, List, [], ◌∷◌, ◌++◌,
  Option, none, some, append_assoc, length, length-append, leb, ltb, arith, Bool-cases,
  Option-cases, ◌⊎◌, inl, inr, ◌==◌,
}
use beatrice.ThreadPool.{
  ThreadInfo, local_pending, move_tasks, queue_of, set_queue, steal_count, steal_tasks,
}

-- Nothing is lost, and the order is kept: the thief's queue grows at its end.
move_tasks-append :
    (n : ℕ) (thief victim : List ℕ)
    → (move_tasks n thief victim).0 ++ (move_tasks n thief victim).1 ≡ thief ++ victim
unfolding move_tasks
move_tasks-append zero thief victim = refl
move_tasks-append (suc n) thief [] = refl
move_tasks-append (suc n) thief (task ∷ victim) =
    move_tasks-append n (thief ++ task ∷ []) victim ∙ append_assoc thief (task ∷ []) victim

pub length-move_tasks :
    (n : ℕ) (thief victim : List ℕ)
    → n ≤ length victim
    → (length (move_tasks n thief victim).0 ≡ length thief + n)
      × (length (move_tasks n thief victim).1 ≡ length victim - n)
unfolding move_tasks
length-move_tasks zero thief victim h = omega arith
length-move_tasks (suc n) thief [] h = absurd (omega arith)
length-move_tasks (suc n) thief (task ∷ victim) h = omega (
  arith,
  length-move_tasks n (thief ++ task ∷ []) victim (omega arith),
  length-append thief (task ∷ []),
)

queue_of-set_self :
    (ts : List ThreadInfo) (i : ℕ) {q : List ℕ} (new : List ℕ)
    → queue_of ts i ≡ some q
    → queue_of (set_queue ts i new) i ≡ some new
queue_of-set_self [] i new h = cc
queue_of-set_self (t ∷ ts) zero new h = refl
queue_of-set_self (t ∷ ts) (suc i) new h = queue_of-set_self ts i new h

pub queue_of-set_ne :
    (ts : List ThreadInfo) (i j : ℕ) (new : List ℕ)
    → i ≢ j
    → queue_of (set_queue ts i new) j ≡ queue_of ts j
queue_of-set_ne [] i j new h = refl
queue_of-set_ne (t ∷ ts) zero zero new h = absurd (h refl)
queue_of-set_ne (t ∷ ts) zero (suc j) new h = refl
queue_of-set_ne (t ∷ ts) (suc i) zero new h = refl
queue_of-set_ne (t ∷ ts) (suc i) (suc j) new h = queue_of-set_ne ts i j new (λ e. h (ap suc e))

pub local_pending-set :
    (ts : List ThreadInfo) (i : ℕ) {q : List ℕ} (new : List ℕ)
    → queue_of ts i ≡ some q
    → local_pending (set_queue ts i new) + length q ≡ local_pending ts + length new
unfolding local_pending
local_pending-set [] i new h = cc
local_pending-set (t ∷ ts) zero new h = omega (arith, ap queue_length h)
  where
    queue_length : Option (List ℕ) → ℕ
    queue_length none = 0
    queue_length (some x) = length x
local_pending-set (t ∷ ts) (suc i) new h = omega (arith, local_pending-set ts i new h)

-- What stealTasks does where it steals.
pub steal_tasks-eq :
    (ts : List ThreadInfo) (i j : ℕ) {thief victim : List ℕ}
    → queue_of ts i ≡ some thief
    → queue_of ts j ≡ some victim
    → length thief < length victim
    → steal_tasks ts i j ≡ (
      set_queue
          (set_queue ts i (move_tasks (steal_count thief victim) thief victim).0)
          j
          (move_tasks (steal_count thief victim) thief victim).1,
      ltb 0 (steal_count thief victim),
    )
unfolding steal_tasks
steal_tasks-eq ts i j hi hj h = ground (arith, hi, hj)

pub steal_tasks-unchanged :
    (ts : List ThreadInfo) (i j : ℕ)
    → ((thief victim : List ℕ)
        → queue_of ts i ≡ some thief
        → queue_of ts j ≡ some victim
        → length victim ≤ length thief)
    → steal_tasks ts i j ≡ (ts, false)
unfolding steal_tasks
steal_tasks-unchanged ts i j h = elim (Option-cases (queue_of ts i)) [
  | inl none_i ↦ ground (arith, none_i)
  | inr (thief, hi) ↦ elim (Option-cases (queue_of ts j)) [
    | inl none_j ↦ ground (arith, hi, none_j)
    | inr (victim, hj) ↦ ground (arith, hi, hj, h thief victim hi hj)
  ]
]

-- The queues of thief and victim after a theft, and those of the others.
steal_tasks-queues :
    (ts : List ThreadInfo) (i j : ℕ) {thief victim : List ℕ}
    → i ≢ j
    → queue_of ts i ≡ some thief
    → queue_of ts j ≡ some victim
    → length thief < length victim
    → (queue_of (steal_tasks ts i j).0 i
        ≡ some (move_tasks (steal_count thief victim) thief victim).0)
      × (queue_of (steal_tasks ts i j).0 j
          ≡ some (move_tasks (steal_count thief victim) thief victim).1)
      × ((k : ℕ) → i ≢ k → j ≢ k → queue_of (steal_tasks ts i j).0 k ≡ queue_of ts k)
steal_tasks-queues ts i j {thief} {victim} apart hi hj h = (
  ap (λ x. queue_of x.0 i) (steal_tasks-eq ts i j hi hj h)
      ∙ queue_of-set_ne (set_queue ts i a) j i b (λ e. apart (sym e))
      ∙ queue_of-set_self ts i a hi,
  ap (λ x. queue_of x.0 j) (steal_tasks-eq ts i j hi hj h)
      ∙ queue_of-set_self (set_queue ts i a) j b (queue_of-set_ne ts i j a apart ∙ hj),
  λ k not_i not_j.
      ap (λ x. queue_of x.0 k) (steal_tasks-eq ts i j hi hj h)
      ∙ queue_of-set_ne (set_queue ts i a) j k b not_j
      ∙ queue_of-set_ne ts i k a not_i,
)
  where
    a : List ℕ
    a = (move_tasks (steal_count thief victim) thief victim).0

    b : List ℕ
    b = (move_tasks (steal_count thief victim) thief victim).1

-- Where the victim has more tasks than the thief, stealTasks leaves them even up to one task that
-- the victim keeps; no task is lost or reordered between the two queues, no other queue changes, and
-- it reports a theft exactly if the queues differed by two tasks or more.
pub steal_tasks-balances :
    (ts : List ThreadInfo) (i j : ℕ) {thief victim : List ℕ}
    → i ≢ j
    → queue_of ts i ≡ some thief
    → queue_of ts j ≡ some victim
    → length thief < length victim
    → (a b : List ℕ) × (queue_of (steal_tasks ts i j).0 i ≡ some a)
      × (queue_of (steal_tasks ts i j).0 j ≡ some b)
      × (a ++ b ≡ thief ++ victim)
      × (length a ≤ length b)
      × (length b ≤ length a + 1)
      × ((steal_tasks ts i j).1 ≡ leb (length thief + 2) (length victim))
      × ((k : ℕ) → (i ≡ k) ⊎ (j ≡ k) ⊎ (queue_of (steal_tasks ts i j).0 k ≡ queue_of ts k))
steal_tasks-balances ts i j {thief} {victim} apart hi hj h =
    let queues = steal_tasks-queues ts i j apart hi hj h in
    let lengths = length-move_tasks (steal_count thief victim) thief victim (omega (arith, h)) in
    (
      (move_tasks (steal_count thief victim) thief victim).0,
      (move_tasks (steal_count thief victim) thief victim).1,
      queues.0,
      queues.1,
      move_tasks-append (steal_count thief victim) thief victim,
      omega (arith, h, lengths),
      omega (arith, h, lengths),
      ap (λ x. x.1) (steal_tasks-eq ts i j hi hj h) ∙ ground arith,
      λ k. elim (Bool-cases (i == k)) [
        | inl thief_k ↦ inl (ground (arith, thief_k))
        | inr not_i ↦ elim (Bool-cases (j == k)) [
          | inl victim_k ↦ inr (inl (ground (arith, victim_k)))
          | inr not_j ↦ inr (
              inr (
                queues.2 k (λ e. absurd (ground (arith, not_i, e)))
                  (λ e. absurd (ground (arith, not_j, e)))))
        ]
      ],
    )
