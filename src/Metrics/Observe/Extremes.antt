-- ===== src/Metrics/Observe/Extremes.antt =====
-- What holds of a thread of Histogram::observe at its place, and the sums over the threads.
use beatrice.Base.{
  ℕ, zero, suc, ◌+◌, ◌≡◌, ap, Bool, true, false, ◌||◌, List, [], ◌∷◌, none, some, map, get_elem?,
  set, ◌==◌, inl, inr, Bool-cases, arith,
}
use beatrice.Base.Doubles.{Doubles}
use beatrice.Metrics.Observe.{
  Place, at_count, at_sum, at_sum_exchange, at_min, at_min_exchange, at_max, at_max_exchange,
  at_store, done,
}

abbrev pub value_of : Place → ℕ
value_of (at_count v) = v
value_of (at_sum v) = v
value_of (at_sum_exchange v old) = v
value_of (at_min v) = v
value_of (at_min_exchange v old) = v
value_of (at_max v) = v
value_of (at_max_exchange v old) = v
value_of (at_store v) = v
value_of (done v) = v

-- 1 for a thread that has counted its value, and for one that has stored it.
abbrev pub counted : Place → ℕ
counted (at_count v) = 0
counted _ = 1

abbrev pub stored : Place → ℕ
stored (done v) = 1
stored _ = 0

abbrev pub IsDone : Place → Type 0
IsDone (done v) = Unit
IsDone _ = ⊥

abbrev pub total : (Place → ℕ) → List Place → ℕ
total f [] = 0
total f (p ∷ ps) = f p + total f ps

pub total-set :
    (f : Place → ℕ) (ps : List Place) (i : ℕ) (q : Place) {p : Place}
    → get_elem? ps i ≡ some p
    → total f (set ps i q) + f p ≡ total f ps + f q
total-set f [] i q e = cc
total-set f (x ∷ ps) zero q e =
    omega (arith, ap (λ o. elim o as (λ o. ℕ) [ none ↦ 0 | some y ↦ f y ]) e)
total-set f (x ∷ ps) (suc i) q e = omega (arith, total-set f ps i q e)

pub map-set :
    (ps : List Place) (i : ℕ) (q : Place) {p : Place}
    → get_elem? ps i ≡ some p
    → value_of q ≡ value_of p
    → map value_of (set ps i q) ≡ map value_of ps
map-set [] i q e same = cc
map-set (x ∷ ps) zero q e same = ground (arith, e, same)
map-set (x ∷ ps) (suc i) q e same = ap (◌∷◌ (value_of x)) (map-set ps i q e same)

-- v is in the list.
abbrev pub holds : ℕ → List ℕ → Bool
holds v [] = false
holds v (x ∷ xs) = x == v || holds v xs

pub holds-get_elem? :
    (ps : List Place) (i : ℕ) {p : Place}
    → get_elem? ps i ≡ some p
    → holds (value_of p) (map value_of ps) ≡ true
holds-get_elem? [] i e = cc
holds-get_elem? (x ∷ ps) zero e = ground (arith, e)
holds-get_elem? (x ∷ ps) (suc i) e = ground (arith, holds-get_elem? ps i e)

module _ (d : Doubles) where
  -- No b is below a.
  abbrev pub AtMost : ℕ → ℕ → Type 0
  AtMost a b = d.lt b a ≡ false

  pub AtMost-trans : (a b c : ℕ) → d.is_nan b ≡ false → AtMost a b → AtMost b c → AtMost a c
  AtMost-trans a b c number h k = elim (Bool-cases (d.lt c a)) [
    | inr fine ↦ fine
    | inl below ↦ elim (d.lt-split c b a number below) [
      | inl first ↦ absurd (cc)
      | inr second ↦ absurd (cc)
    ]
  ]

  pub AtMost-of_lt : (a b : ℕ) → d.lt a b ≡ true → AtMost a b
  AtMost-of_lt a b h = elim (Bool-cases (d.lt b a)) [
    | inr fine ↦ fine
    | inl below ↦ absurd (ground (arith, d.lt-trans a b a h below, d.lt-irrefl a))
  ]

  -- What holds of a thread at its place.
  abbrev pub Fact : ℕ → ℕ → Place → Type 0
  Fact low high (at_count v) = d.is_nan v ≡ false
  Fact low high (at_sum v) = d.is_nan v ≡ false
  Fact low high (at_sum_exchange v old) = d.is_nan v ≡ false
  Fact low high (at_min v) = d.is_nan v ≡ false
  Fact low high (at_min_exchange v old) =
      (d.is_nan v ≡ false) × (d.is_nan old ≡ false) × AtMost low old
  Fact low high (at_max v) = (d.is_nan v ≡ false) × AtMost low v
  Fact low high (at_max_exchange v old) =
      (d.is_nan v ≡ false) × AtMost low v × (d.is_nan old ≡ false) × AtMost old high
  Fact low high (at_store v) = (d.is_nan v ≡ false) × AtMost low v × AtMost v high
  Fact low high (done v) = (d.is_nan v ≡ false) × AtMost low v × AtMost v high

  -- A smaller minimum and a larger maximum keep it.
  pub Fact-mono :
      (low high low' high' : ℕ) (p : Place)
      → d.is_nan low ≡ false
      → d.is_nan high ≡ false
      → AtMost low' low
      → AtMost high high'
      → Fact low high p
      → Fact low' high' p
  Fact-mono low high low' high' (at_count v) nl nh l h f = f
  Fact-mono low high low' high' (at_sum v) nl nh l h f = f
  Fact-mono low high low' high' (at_sum_exchange v old) nl nh l h f = f
  Fact-mono low high low' high' (at_min v) nl nh l h f = f
  Fact-mono low high low' high' (at_min_exchange v old) nl nh l h (n, m, a) =
      (n, m, AtMost-trans low' low old nl l a)
  Fact-mono low high low' high' (at_max v) nl nh l h (n, a) = (n, AtMost-trans low' low v nl l a)
  Fact-mono low high low' high' (at_max_exchange v old) nl nh l h (n, a, m, b) =
      (n, AtMost-trans low' low v nl l a, m, AtMost-trans old high high' nh b h)
  Fact-mono low high low' high' (at_store v) nl nh l h (n, a, b) =
      (n, AtMost-trans low' low v nl l a, AtMost-trans v high high' nh b h)
  Fact-mono low high low' high' (done v) nl nh l h (n, a, b) =
      (n, AtMost-trans low' low v nl l a, AtMost-trans v high high' nh b h)
