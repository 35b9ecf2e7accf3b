-- ===== src/Metrics/Observe.antt =====
-- Histogram::observe of src/Metrics.cpp by threads at the same time: each atomic access is a step,
-- and compare_exchange_weak may fail without a reason.
pub mod Extremes
pub mod Moves
pub mod Reached
use beatrice.Base.{
  ℕ, ◌≡◌, Bool, true, false, not, ◌&&◌, List, [], ◌∷◌, ◌++◌, some, map, get_elem?, set, ◌==◌,
  if◌then◌else◌,
}
use beatrice.Base.Doubles.{Doubles}
use beatrice.Base.Words.{size_add}
use beatrice.Metrics.{Histogram, new_histogram_state}

-- Where a thread is with its value: before each access, with what it has loaded, or past the end.
pub data Place : Type 0 where
  at_count at_sum : ℕ → Place
  at_sum_exchange : ℕ → ℕ → Place
  at_min : ℕ → Place
  at_min_exchange : ℕ → ℕ → Place
  at_max : ℕ → Place
  at_max_exchange : ℕ → ℕ → Place
  at_store done : ℕ → Place

-- One access. A failed exchange loads the current value.
unfoldable pub advance : Doubles → Bool → Histogram → Place → Histogram × Place
advance d fails h (at_count v) = (record h { count = size_add h.count 1 }, at_sum v)
advance d fails h (at_sum v) = (h, at_sum_exchange v h.sum)
advance d fails h (at_sum_exchange v old) =
    if h.sum == old && not fails
    then (record h { sum = d.add old v }, at_min v)
    else (h, at_sum_exchange v h.sum)
advance d fails h (at_min v) = (h, at_min_exchange v h.min_value)
advance d fails h (at_min_exchange v old) =
    if not (d.lt v old)
    then (h, at_max v)
    else if h.min_value == old && not fails
    then (record h { min_value = v }, at_max v)
    else (h, at_min_exchange v h.min_value)
advance d fails h (at_max v) = (h, at_max_exchange v h.max_value)
advance d fails h (at_max_exchange v old) =
    if not (d.lt old v)
    then (h, at_store v)
    else if h.max_value == old && not fails
    then (record h { max_value = v }, at_store v)
    else (h, at_max_exchange v h.max_value)
advance d fails h (at_store v) = (record h { values = h.values ++ v ∷ [] }, done v)
advance d fails h (done v) = (h, done v)

pub record World : Type 0 where
  pub hist : Histogram
  pub places : List Place

-- Any thread makes its next access.
pub data Step (d : Doubles) : World → World → Type 0 where
  acts :
      {w : World} (i : ℕ) (fails : Bool) {p : Place}
      → get_elem? w.places i ≡ some p
      → Step d w (record {
        hist = (advance d fails w.hist p).0;
        places = set w.places i (advance d fails w.hist p).1;
      })

-- A thread for each of the values, and a new histogram.
unfoldable pub start : Doubles → List ℕ → World
start d vs = record { hist = new_histogram_state d; places = map at_count vs }

pub data Reach (d : Doubles) (vs : List ℕ) : World → Type 0 where
  begin : Reach d vs (start d vs)
  after : {w w' : World} → Reach d vs w → Step d w w' → Reach d vs w'
