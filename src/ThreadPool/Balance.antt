-- ===== src/ThreadPool/Balance.antt =====
-- balanceLoad moves tasks between the local queues, and loses none.
use beatrice.Base.{
  ℕ, zero, suc, ◌+◌, ◌-◌, ◌≤◌, ◌<◌, ◌≡◌, ◌≢◌, refl, sym, ◌∙◌, ap, true, List, some, length, leb,
  arith, Bool-cases, Option-cases, inl, inr,
}
use beatrice.ThreadPool.{
  ThreadInfo, local_pending, move_tasks, queue_of, set_queue, steal_count, steal_tasks, steal_first,
  balance_from, balance_load,
}
use beatrice.ThreadPool.Steal.{
  length-move_tasks, queue_of-set_ne, local_pending-set, steal_tasks-eq, steal_tasks-unchanged,
}

steal_tasks-pending_theft :
    (ts : List ThreadInfo) (i j : ℕ) {thief victim : List ℕ}
    → i ≢ j
    → queue_of ts i ≡ some thief
    → queue_of ts j ≡ some victim
    → length thief < length victim
    → local_pending (steal_tasks ts i j).0 ≡ local_pending ts
steal_tasks-pending_theft ts i j {thief} {victim} apart hi hj h =
    ap (λ x. local_pending x.0) (steal_tasks-eq ts i j hi hj h)
    ∙ omega (
      arith,
      local_pending-set ts i a hi,
      local_pending-set (set_queue ts i a) j b (queue_of-set_ne ts i j a apart ∙ hj),
      length-move_tasks (steal_count thief victim) thief victim (omega (arith, h)),
      h,
    )
  where
    a : List ℕ
    a = (move_tasks (steal_count thief victim) thief victim).0

    b : List ℕ
    b = (move_tasks (steal_count thief victim) thief victim).1

some-inj : {x y : List ℕ} → some x ≡ some y → x ≡ y
some-inj h = cc

steal_tasks-pending :
    (ts : List ThreadInfo) (i j : ℕ)
    → i ≢ j
    → local_pending (steal_tasks ts i j).0 ≡ local_pending ts
steal_tasks-pending ts i j apart = elim (Option-cases (queue_of ts i)) [
  | inl none_i ↦
      ap (λ x. local_pending x.0) (steal_tasks-unchanged ts i j (λ thief victim hi hj. absurd (cc)))
  | inr (thief, hi) ↦ elim (Option-cases (queue_of ts j)) [
    | inl none_j ↦
        ap (λ x. local_pending x.0)
          (steal_tasks-unchanged ts i j (λ thief victim hi hj. absurd (cc)))
    | inr (victim, hj) ↦ elim (Bool-cases (leb (length victim) (length thief))) [
      | inr more ↦ steal_tasks-pending_theft ts i j apart hi hj (ground (arith, more))
      | inl fewer ↦
          ap (λ x. local_pending x.0)
            (steal_tasks-unchanged ts i j (λ t v ht hv. omega (
              arith,
              ap length (some-inj (sym ht ∙ hi)),
              ap length (some-inj (sym hv ∙ hj)),
              leb→le (length victim) (length thief) fewer,
            )))
    ]
  ]
]
  where
    leb→le : (a b : ℕ) → leb a b ≡ true → a ≤ b
    leb→le a b h = ground arith

steal_first-pending :
    (n : ℕ) (ts : List ThreadInfo) (i j : ℕ)
    → i < j
    → local_pending (steal_first n ts i j) ≡ local_pending ts
unfolding steal_first
steal_first-pending zero ts i j h = refl
steal_first-pending (suc n) ts i j h = elim (Bool-cases (steal_tasks ts i j).1) [
  | inl stolen ↦ ground (arith, stolen, steal_tasks-pending ts i j (λ e. absurd (omega arith)))
  | inr none_taken ↦ ground (
    arith,
    none_taken,
    steal_first-pending n (steal_tasks ts i j).0 i (j + 1) (omega arith),
    steal_tasks-pending ts i j (λ e. absurd (omega arith)),
  )
]

balance_from-pending :
    (n : ℕ) (ts : List ThreadInfo) (i : ℕ) → local_pending (balance_from n ts i) ≡ local_pending ts
unfolding balance_from
balance_from-pending zero ts i = refl
balance_from-pending (suc n) ts i =
    balance_from-pending n (steal_first (length ts - suc i) ts i (suc i)) (i + 1)
    ∙ steal_first-pending (length ts - suc i) ts i (suc i) (omega arith)

-- After balanceLoad as many tasks wait in the local queues as before.
pub balance_load-pending :
    (ts : List ThreadInfo) → local_pending (balance_load ts) ≡ local_pending ts
unfolding balance_load
balance_load-pending ts = balance_from-pending (length ts) ts 0
