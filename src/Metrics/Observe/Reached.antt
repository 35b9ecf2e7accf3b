-- ===== src/Metrics/Observe/Reached.antt =====
-- What the threads of Histogram::observe have done to the histogram after any number of accesses.
use beatrice.Base.{
  ℕ, ◌%◌, ◌≡◌, refl, sym, ◌∙◌, ap, subst, true, false, List, [], ◌∷◌, map, length, get_elem?, ◌⊎◌,
  inl, inr, some, All, All-set, All-get_elem?, All-mono, arith,
}
use beatrice.Base.Doubles.{Doubles}
use beatrice.Base.Words.{size_mod}
use beatrice.Metrics.{Histogram, new_histogram_state}
use beatrice.Metrics.Observe.{
  Place, at_count, at_sum, at_sum_exchange, at_min, at_min_exchange, at_max, at_max_exchange,
  at_store, done, advance, World, Step, acts, start, Reach, begin, after,
}
use beatrice.Metrics.Observe.Moves.{Moved, IsSound, advance-Moved}
use beatrice.Metrics.Observe.Extremes.{
  value_of, counted, stored, IsDone, total, total-set, map-set, holds, holds-get_elem?, AtMost,
  Fact, Fact-mono,
}

module _ (d : Doubles) (vs : List ℕ) where
  record Kept (w : World) : Type 0 where
    sound : IsSound d w.hist
    facts : All (Fact d w.hist.min_value w.hist.max_value) w.places
    same : map value_of w.places ≡ vs
    counts : w.hist.count % size_mod ≡ total counted w.places % size_mod
    stores : length w.hist.values ≡ total stored w.places
    min_from : (w.hist.min_value ≡ d.largest) ⊎ (holds w.hist.min_value vs ≡ true)
    max_from : (w.hist.max_value ≡ d.lowest) ⊎ (holds w.hist.max_value vs ≡ true)

  -- An extreme that stays, or becomes the value of a thread.
  extreme_from :
      (ps : List Place) (i : ℕ) (old new first : ℕ) {p : Place}
      → get_elem? ps i ≡ some p
      → map value_of ps ≡ vs
      → (new ≡ old) ⊎ (new ≡ value_of p)
      → (old ≡ first) ⊎ (holds old vs ≡ true)
      → (new ≡ first) ⊎ (holds new vs ≡ true)
  extreme_from ps i old new first found same (inl stays) (inl kept) = inl (stays ∙ kept)
  extreme_from ps i old new first found same (inl stays) (inr held) =
      inr (ap (λ v. holds v vs) stays ∙ held)
  extreme_from ps i old new first found same (inr taken) kept =
      inr (ap (λ v. holds v vs) taken ∙ ap (holds _) (sym same) ∙ holds-get_elem? ps i found)

  Kept-Step : {w w' : World} → Kept w → Step d w w' → Kept w'
  Kept-Step k (acts {w} i fails {p} found) = record {
    sound = record {
      min_number = m.min_number;
      max_number = m.max_number;
      count_fits = m.count_fits;
    };
    facts =
        All-set (Fact d out.0.min_value out.0.max_value) w.places i out.1
          (All-mono (Fact d w.hist.min_value w.hist.max_value)
            (Fact d out.0.min_value out.0.max_value) w.places
            (λ q f.
              Fact-mono d w.hist.min_value w.hist.max_value out.0.min_value out.0.max_value q
                k.sound.min_number k.sound.max_number m.lower m.higher f)
            k.facts)
          m.fact;
    same = map-set w.places i out.1 found m.same ∙ k.same;
    counts = omega (arith, m.count_moves, total-set counted w.places i out.1 found, k.counts);
    stores = omega (arith, m.stores, total-set stored w.places i out.1 found, k.stores);
    min_from =
        extreme_from w.places i w.hist.min_value out.0.min_value d.largest found k.same m.min_from
          k.min_from;
    max_from =
        extreme_from w.places i w.hist.max_value out.0.max_value d.lowest found k.same m.max_from
          k.max_from;
  }
    where
      out : Histogram × Place
      out = advance d fails w.hist p

      m : Moved d w.hist p out
      m =
          advance-Moved d fails w.hist p k.sound
            (All-get_elem? (Fact d w.hist.min_value w.hist.max_value) w.places i k.facts found)

  start-Fact :
      (us : List ℕ)
      → All (λ v. d.is_nan v ≡ false) us
      → All (Fact d d.largest d.lowest) (map at_count us)
  start-Fact [] h = tt
  start-Fact (u ∷ us) (h, hs) = (h, start-Fact us hs)

  start_totals :
      (us : List ℕ)
      → (map value_of (map at_count us) ≡ us)
        × (total counted (map at_count us) ≡ 0)
        × (total stored (map at_count us) ≡ 0)
  start_totals [] = (refl, refl, refl)
  start_totals (u ∷ us) =
      let (e, c, s) = start_totals us in (ap (◌∷◌ u) e, omega (arith, c), omega (arith, s))

  start-Kept : All (λ v. d.is_nan v ≡ false) vs → Kept (start d vs)
  unfolding start new_histogram_state
  start-Kept h = record {
    sound = record {
      min_number = d.largest_number;
      max_number = d.lowest_number;
      count_fits = omega arith;
    };
    facts = start-Fact vs h;
    same = (start_totals vs).0;
    counts = omega (arith, (start_totals vs).1);
    stores = omega (arith, (start_totals vs).2);
    min_from = inl refl;
    max_from = inl refl;
  }

  Reach-Kept : {w : World} → All (λ v. d.is_nan v ≡ false) vs → Reach d vs w → Kept w
  Reach-Kept h begin = start-Kept h
  Reach-Kept h (after r s) = Kept-Step (Reach-Kept h r) s

  total-IsDone :
      (low high : ℕ) (ps : List Place)
      → All IsDone ps
      → All (Fact d low high) ps
      → (total counted ps ≡ length (map value_of ps))
        × (total stored ps ≡ length (map value_of ps))
        × All (λ v. AtMost d low v × AtMost d v high) (map value_of ps)
  total-IsDone low high [] dones facts = (refl, refl, tt)
  total-IsDone low high (done v ∷ ps) (h, hs) ((n, a, b), fs) =
      let (c, s, all) = total-IsDone low high ps hs fs in
      (omega (arith, c), omega (arith, s), ((a, b), all))
  total-IsDone low high (at_count v ∷ ps) (h, hs) f = absurd h
  total-IsDone low high (at_sum v ∷ ps) (h, hs) f = absurd h
  total-IsDone low high (at_sum_exchange v old ∷ ps) (h, hs) f = absurd h
  total-IsDone low high (at_min v ∷ ps) (h, hs) f = absurd h
  total-IsDone low high (at_min_exchange v old ∷ ps) (h, hs) f = absurd h
  total-IsDone low high (at_max v ∷ ps) (h, hs) f = absurd h
  total-IsDone low high (at_max_exchange v old ∷ ps) (h, hs) f = absurd h
  total-IsDone low high (at_store v ∷ ps) (h, hs) f = absurd h

  -- Threads that observe numbers, in any order of their accesses, have, when all are past the end:
  -- counted each value (the count is a word of 64 bits), stored as many values as there are, left
  -- no value below the minimum or above the maximum, and a minimum and a maximum that are the first
  -- ones or values of theirs.
  pub observe-IsComplete :
      (w : World)
      → All (λ v. d.is_nan v ≡ false) vs
      → Reach d vs w
      → All IsDone w.places
      → (w.hist.count ≡ length vs % size_mod)
        × (length w.hist.values ≡ length vs)
        × All (λ v. (d.lt v w.hist.min_value ≡ false) × (d.lt w.hist.max_value v ≡ false)) vs
        × ((w.hist.min_value ≡ d.largest) ⊎ (holds w.hist.min_value vs ≡ true))
        × ((w.hist.max_value ≡ d.lowest) ⊎ (holds w.hist.max_value vs ≡ true))
  observe-IsComplete w numbers r dones =
      let k = Reach-Kept numbers r in
      let (c, s, all) = total-IsDone w.hist.min_value w.hist.max_value w.places dones k.facts in
      let e = ap length k.same in
      (
        omega (arith, k.counts, c, e, k.sound.count_fits),
        omega (arith, k.stores, s, e),
        subst (All (λ v. (d.lt v w.hist.min_value ≡ false) × (d.lt w.hist.max_value v ≡ false)))
            k.same all,
        k.min_from,
        k.max_from,
      )
