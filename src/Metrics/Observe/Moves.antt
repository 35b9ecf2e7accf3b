-- ===== src/Metrics/Observe/Moves.antt =====
-- What one access of a thread does to the histogram and to what holds of the thread.
use beatrice.Base.{
  ℕ, ◌+◌, ◌%◌, ◌<◌, ◌≡◌, refl, sym, subst, Bool, true, false, not, ◌&&◌, [], ◌∷◌, length,
  length-append, ◌==◌, ◌⊎◌, inl, inr, Bool-cases, arith,
}
use beatrice.Base.Doubles.{Doubles}
use beatrice.Base.Words.{size_mod}
use beatrice.Metrics.{Histogram}
use beatrice.Metrics.Observe.{
  Place, at_count, at_sum, at_sum_exchange, at_min, at_min_exchange, at_max, at_max_exchange,
  at_store, done, advance,
}
use beatrice.Metrics.Observe.Extremes.{
  value_of, counted, stored, AtMost, AtMost-trans, AtMost-of_lt, Fact,
}

module _ (d : Doubles) where
  -- What one access does to the histogram, and to its thread.
  pub record Moved (h : Histogram) (p : Place) (out : Histogram × Place) : Type 0 where
    pub lower : AtMost d out.0.min_value h.min_value
    pub higher : AtMost d h.max_value out.0.max_value
    pub min_number : d.is_nan out.0.min_value ≡ false
    pub max_number : d.is_nan out.0.max_value ≡ false
    pub min_from : (out.0.min_value ≡ h.min_value) ⊎ (out.0.min_value ≡ value_of p)
    pub max_from : (out.0.max_value ≡ h.max_value) ⊎ (out.0.max_value ≡ value_of p)
    pub fact : Fact d out.0.min_value out.0.max_value out.1
    pub same : value_of out.1 ≡ value_of p
    pub count_fits : out.0.count < size_mod
    pub count_moves : (out.0.count + counted p) % size_mod ≡ (h.count + counted out.1) % size_mod
    pub stores : length out.0.values + stored p ≡ length h.values + stored out.1

  pub record IsSound (h : Histogram) : Type 0 where
    pub min_number : d.is_nan h.min_value ≡ false
    pub max_number : d.is_nan h.max_value ≡ false
    pub count_fits : h.count < size_mod

  -- An access that leaves the histogram alone.
  unmoved :
      (h : Histogram) (p q : Place)
      → IsSound h
      → Fact d h.min_value h.max_value q
      → value_of q ≡ value_of p
      → counted q ≡ counted p
      → stored q ≡ stored p
      → Moved h p (h, q)
  unmoved h p q sound fact same c s = record {
    lower = d.lt-irrefl h.min_value;
    higher = d.lt-irrefl h.max_value;
    min_number = sound.min_number;
    max_number = sound.max_number;
    min_from = inl refl;
    max_from = inl refl;
    fact = fact;
    same = same;
    count_fits = sound.count_fits;
    count_moves = omega (arith, c);
    stores = omega (arith, s);
  }

  -- A new minimum, when the exchange finds the value that was compared.
  min-Moved :
      (h : Histogram) (v old : ℕ)
      → IsSound h
      → d.is_nan v ≡ false
      → h.min_value ≡ old
      → d.lt v old ≡ true
      → Moved h (at_min_exchange v old) (record h { min_value = v }, at_max v)
  min-Moved h v old sound number found below = record {
    lower = subst (λ m. d.lt m v ≡ false) (sym found) (AtMost-of_lt d v old below);
    higher = d.lt-irrefl h.max_value;
    min_number = number;
    max_number = sound.max_number;
    min_from = inr refl;
    max_from = inl refl;
    fact = (number, d.lt-irrefl v);
    same = refl;
    count_fits = sound.count_fits;
    count_moves = omega arith;
    stores = omega arith;
  }

  max-Moved :
      (h : Histogram) (v old : ℕ)
      → IsSound h
      → d.is_nan v ≡ false
      → AtMost d h.min_value v
      → h.max_value ≡ old
      → d.lt old v ≡ true
      → Moved h (at_max_exchange v old) (record h { max_value = v }, at_store v)
  max-Moved h v old sound number low found above = record {
    lower = d.lt-irrefl h.min_value;
    higher = subst (λ m. d.lt v m ≡ false) (sym found) (AtMost-of_lt d old v above);
    min_number = sound.min_number;
    max_number = number;
    min_from = inl refl;
    max_from = inr refl;
    fact = (number, low, d.lt-irrefl v);
    same = refl;
    count_fits = sound.count_fits;
    count_moves = omega arith;
    stores = omega arith;
  }

  pub advance-Moved :
      (fails : Bool) (h : Histogram) (p : Place)
      → IsSound h
      → Fact d h.min_value h.max_value p
      → Moved h p (advance d fails h p)
  unfolding advance
  advance-Moved fails h (at_count v) sound n = record {
    lower = d.lt-irrefl h.min_value;
    higher = d.lt-irrefl h.max_value;
    min_number = sound.min_number;
    max_number = sound.max_number;
    min_from = inl refl;
    max_from = inl refl;
    fact = n;
    same = refl;
    count_fits = omega arith;
    count_moves = omega arith;
    stores = omega arith;
  }
  advance-Moved fails h (at_sum v) sound n =
      unmoved h (at_sum v) (at_sum_exchange v h.sum) sound n refl refl refl
  advance-Moved fails h (at_sum_exchange v old) sound n =
      elim (Bool-cases (h.sum == old && not fails)) [
        | inr failed ↦
            rw failed
              (unmoved h (at_sum_exchange v old) (at_sum_exchange v h.sum) sound n refl refl refl)
        | inl swapped ↦ rw swapped (record {
          lower = d.lt-irrefl h.min_value;
          higher = d.lt-irrefl h.max_value;
          min_number = sound.min_number;
          max_number = sound.max_number;
          min_from = inl refl;
          max_from = inl refl;
          fact = n;
          same = refl;
          count_fits = sound.count_fits;
          count_moves = omega arith;
          stores = omega arith;
        })
      ]
  advance-Moved fails h (at_min v) sound n =
      unmoved h (at_min v) (at_min_exchange v h.min_value) sound
        (n, sound.min_number, d.lt-irrefl h.min_value) refl refl refl
  advance-Moved fails h (at_min_exchange v old) sound (n, m, a) = elim (Bool-cases (d.lt v old)) [
    | inr above ↦ rw above (
        unmoved h (at_min_exchange v old) (at_max v) sound
          (n, AtMost-trans d h.min_value old v m a above) refl refl refl)
    | inl below ↦ elim (Bool-cases (h.min_value == old && not fails)) [
      | inr failed ↦
          rw (below, failed)
            (unmoved h (at_min_exchange v old) (at_min_exchange v h.min_value) sound
              (n, sound.min_number, d.lt-irrefl h.min_value) refl refl refl)
      | inl swapped ↦
          rw (below, swapped) (min-Moved h v old sound n (ground (arith, swapped)) below)
    ]
  ]
  advance-Moved fails h (at_max v) sound (n, a) =
      unmoved h (at_max v) (at_max_exchange v h.max_value) sound
        (n, a, sound.max_number, d.lt-irrefl h.max_value) refl refl refl
  advance-Moved fails h (at_max_exchange v old) sound (n, a, m, b) =
      elim (Bool-cases (d.lt old v)) [
        | inr below ↦ rw below (
            unmoved h (at_max_exchange v old) (at_store v) sound
              (n, a, AtMost-trans d v old h.max_value m below b) refl refl refl)
        | inl above ↦ elim (Bool-cases (h.max_value == old && not fails)) [
          | inr failed ↦
              rw (above, failed)
                (unmoved h (at_max_exchange v old) (at_max_exchange v h.max_value) sound
                  (n, a, sound.max_number, d.lt-irrefl h.max_value) refl refl refl)
          | inl swapped ↦
              rw (above, swapped) (max-Moved h v old sound n a (ground (arith, swapped)) above)
        ]
      ]
  advance-Moved fails h (at_store v) sound (n, a, b) = record {
    lower = d.lt-irrefl h.min_value;
    higher = d.lt-irrefl h.max_value;
    min_number = sound.min_number;
    max_number = sound.max_number;
    min_from = inl refl;
    max_from = inl refl;
    fact = (n, a, b);
    same = refl;
    count_fits = sound.count_fits;
    count_moves = omega arith;
    stores = omega (arith, length-append h.values (v ∷ []));
  }
  advance-Moved fails h (done v) sound f = unmoved h (done v) (done v) sound f refl refl refl
