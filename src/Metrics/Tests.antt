-- ===== src/Metrics/Tests.antt =====
-- The theorems on the metrics applied to concrete registries.
use beatrice.Base.{
  ◌%◌, ◌≡◌, refl, ◌⊎◌, true, false, [], ◌∷◌, none, some, get_elem?, set, ltb, codes, length, All,
  text_eq, arith,
}
use beatrice.Base.Doubles.{whole_numbers}
use beatrice.Base.Words.{size_mod}
use beatrice.Base.Maps.{lookup, insert}
use beatrice.Metrics.{
  MetricsRegistry, create_counter, register, new_counter, counter_value, new_histogram_state,
}
use beatrice.Metrics.Names.{
  sanitize_metric_name, AllKept, StartsWithLetter, sanitize_metric_name_lem,
}
use beatrice.Metrics.Handles.{body_at, increments, create_counter-shadows}
use beatrice.Metrics.Observe.{World, start, advance, acts, Reach, begin, after}
use beatrice.Metrics.Observe.Extremes.{holds}
use beatrice.Metrics.Observe.Reached.{observe-IsComplete}

sanitize_metric_name_lem_example :
    AllKept (sanitize_metric_name (codes "9 lives"))
    × StartsWithLetter (sanitize_metric_name (codes "9 lives"))
    × (sanitize_metric_name (sanitize_metric_name (codes "9 lives"))
        ≡ sanitize_metric_name (codes "9 lives"))
sanitize_metric_name_lem_example = sanitize_metric_name_lem (codes "9 lives")

abbrev nothing : MetricsRegistry
nothing = record { objects = []; metrics = [] }

abbrev packets : MetricsRegistry
packets = (create_counter whole_numbers nothing (codes "packets") (codes "seen")).0

create_counter-shadows_example :
    body_at
      (increments whole_numbers
        (create_counter whole_numbers packets (codes "packets") []).0
        0
        (3 ∷ 4 ∷ []))
      (codes "packets")
    ≡ some (counter_value 0)
unfolding create_counter register new_counter lookup insert text_eq
create_counter-shadows_example =
    create_counter-shadows whole_numbers packets (codes "packets") [] 0 (3 ∷ 4 ∷ []) refl
      (omega arith)

-- The next access of the first thread, no exchange failing.
abbrev turn : World → World
turn w = elim (get_elem? w.places 0) [
  | none ↦ w
  | some p ↦ record {
    hist = (advance whole_numbers false w.hist p).0;
    places = set w.places 0 (advance whole_numbers false w.hist p).1;
  }
]

-- The thread has observed 7.
abbrev observed_one : World
observed_one = turn (turn (turn (turn (turn (turn (turn (turn (start whole_numbers (7 ∷ [])))))))))

observed_one-Reach : Reach whole_numbers (7 ∷ []) observed_one
unfolding start advance new_histogram_state
observed_one-Reach =
    after
      (after
        (after
          (after
            (after
              (after (after (after begin (acts 0 false refl)) (acts 0 false refl))
                (acts 0 false refl))
              (acts 0 false refl))
            (acts 0 false refl))
          (acts 0 false refl))
        (acts 0 false refl))
      (acts 0 false refl)

observe-IsComplete_example :
    let h = observed_one.hist in
    (h.count ≡ 1 % size_mod)
    × (length h.values ≡ 1)
    × All (λ v. (ltb v h.min_value ≡ false) × (ltb h.max_value v ≡ false)) (7 ∷ [])
    × ((h.min_value ≡ 1000) ⊎ (holds h.min_value (7 ∷ []) ≡ true))
    × ((h.max_value ≡ 0) ⊎ (holds h.max_value (7 ∷ []) ≡ true))
unfolding start advance new_histogram_state
observe-IsComplete_example =
    observe-IsComplete whole_numbers (7 ∷ []) observed_one (refl, tt) observed_one-Reach (tt, tt)
