-- ===== src/Telemetry/Flush/Counts.antt =====
-- How many of some events, and of those that threads hold, pass a test.
use beatrice.Base.{ℕ, ◌+◌, ◌≡◌, Bool, List, [], ◌∷◌, ◌++◌, if◌then◌else◌, arith}
use beatrice.Telemetry.{TelemetryEvent}
use beatrice.Telemetry.Flush.{Phase, looping, returned, popped, sending, Thread}

module _ (test : TelemetryEvent → Bool) where
  abbrev pub count : List TelemetryEvent → ℕ
  count [] = 0
  count (event ∷ events) = (if test event then 1 else 0) + count events

  -- The event that a thread has popped and not yet processed.
  abbrev pub held_in : Phase → ℕ
  held_in looping = 0
  held_in returned = 0
  held_in (popped event) = if test event then 1 else 0
  held_in (sending event posts) = if test event then 1 else 0

  abbrev pub held : List Thread → ℕ
  held [] = 0
  held (thread ∷ threads) = held_in thread.phase + held threads

  pub count-append : (xs ys : List TelemetryEvent) → count (xs ++ ys) ≡ count xs + count ys
  count-append [] ys = omega arith
  count-append (x ∷ xs) ys = omega (arith, count-append xs ys)

  pub held-append : (xs ys : List Thread) → held (xs ++ ys) ≡ held xs + held ys
  held-append [] ys = omega arith
  held-append (x ∷ xs) ys = omega (arith, held-append xs ys)
