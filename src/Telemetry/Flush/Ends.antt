-- ===== src/Telemetry/Flush/Ends.antt =====
-- That the calls of flush end.
use beatrice.Base.{
  ℕ, suc, ◌+◌, ◌*◌, ◌≤◌, ◌≡◌, refl, sym, ◌∙◌, ap, ◌⊎◌, inl, inr, List, [], ◌∷◌, ◌++◌, append_assoc,
  Option-cases, length, length-append, All, ltb, Bool-cases, arith,
}
use beatrice.Base.Doubles.{Doubles}
use beatrice.Telemetry.{TelemetryEvent, TelemetryCollector, collect_event, max_queue}
use beatrice.Telemetry.Process.{counter_for, collected_by, update_metrics, begin_event, end_event}
use beatrice.Telemetry.Flush.{
  Phase, looping, returned, popped, sending, Role, worker, flush, Thread, World, collect_in, Turn,
  pops, sends, posts, ends, returns, retires,
}
use beatrice.Telemetry.Flush.Drained.{end_event-queue}

-- How many turns of a thread are left, without the events that wait.
abbrev left_in : Phase → ℕ
left_in looping = 1
left_in returned = 0
left_in (popped event) = 3
left_in (sending event more) = 2 + 4 * length more

abbrev pub left : List Thread → ℕ
left [] = 0
left (thread ∷ threads) = left_in thread.phase + left threads

-- A bound of the turns that are left.
abbrev pub remaining : World → ℕ
remaining w = 3 * length w.collector.event_queue + left w.threads

left-append : (xs ys : List Thread) → left (xs ++ ys) ≡ left xs + left ys
left-append [] ys = omega arith
left-append (x ∷ xs) ys = omega (arith, left-append xs ys)

left-swap :
    (threads before later : List Thread) (role : Role) (old new : Phase)
    → threads ≡ before ++ (record { role = role; phase = old }) ∷ later
    → left (before ++ (record { role = role; phase = new }) ∷ later) + left_in old
      ≡ left threads + left_in new
left-swap threads before later role old new at = omega (
  arith,
  ap left at,
  left-append before ((record { role = role; phase = old }) ∷ later),
  left-append before ((record { role = role; phase = new }) ∷ later),
)

-- A number of turns, one behind the other.
pub data Runs (d : Doubles) : ℕ → World → World → Type 0 where
  start : {w : World} → Runs d 0 w w
  next : {n : ℕ} {w w' w'' : World} → Runs d n w w' → Turn d w' w'' → Runs d (suc n) w w''

-- A thread that is no call of flush, or a call that has returned.
abbrev pub IsOver : Thread → Type 0
IsOver thread = (thread.role ≡ worker) ⊎ (thread.phase ≡ returned)

module _ (d : Doubles) where
  collect_event-length :
      (t : TelemetryCollector) (event : TelemetryEvent)
      → length (collect_event d t event).event_queue ≤ suc (length t.event_queue)
  unfolding collect_event
  collect_event-length t event = elim (Bool-cases (ltb (length t.event_queue) max_queue)) [
    | inl room ↦ rw (collect_event, room) (omega (arith, length-append t.event_queue (event ∷ [])))
    | inr full ↦ rw (collect_event, full) (omega arith)
  ]

  -- No turn changes what the custom backend collects for an event.
  turn-collected_by :
      {w w' : World} (event : TelemetryEvent)
      → Turn d w w'
      → collected_by w'.collector event ≡ collected_by w.collector event
  unfolding collected_by collect_in collect_event begin_event end_event update_metrics
  turn-collected_by event (pops role before later sent events at queue goes) = refl
  turn-collected_by event (sends role before later sent at) = refl
  turn-collected_by {w} event (posts role before later sent post more at) =
      elim (Bool-cases (ltb (length w.collector.event_queue) max_queue)) [
        | inl room ↦ rw (collect_event, room) refl
        | inr full ↦ rw (collect_event, full) refl
      ]
  turn-collected_by {w} event (ends role before later sent spent at) =
      elim (Option-cases (counter_for sent.type)) [
        | inl uncounted ↦ rw (update_metrics, uncounted) refl
        | inr (counted, found) ↦ rw (update_metrics, found) refl
      ]
  turn-collected_by event (returns before later at queue) = refl
  turn-collected_by event (retires before later at stopped) = refl

  -- With a backend that collects nothing, every turn leaves fewer.
  turn-remaining :
      {w w' : World}
      → ((event : TelemetryEvent) → collected_by w.collector event ≡ [])
      → Turn d w w'
      → suc (remaining w') ≤ remaining w
  unfolding collect_in begin_event
  turn-remaining {w} quiet (pops role before later event events at queue goes) =
      omega
        (arith, ap length queue, left-swap w.threads before later role looping (popped event) at)
  turn-remaining {w} quiet (sends role before later event at) = omega (
    arith,
    ap length (quiet event),
    left-swap w.threads before later role (popped event)
        (sending event (collected_by w.collector event)) at,
  )
  turn-remaining {w} quiet (posts role before later event post more at) = omega (
    arith,
    collect_event-length w.collector post,
    left-swap w.threads before later role (sending event (post ∷ more)) (sending event more) at,
  )
  turn-remaining {w} quiet (ends role before later event spent at) = omega (
    arith,
    ap length (end_event-queue d spent w.collector event),
    left-swap w.threads before later role (sending event []) looping at,
  )
  turn-remaining {w} quiet (returns before later at queue) =
      omega (arith, left-swap w.threads before later flush looping returned at)
  turn-remaining {w} quiet (retires before later at stopped) =
      omega (arith, left-swap w.threads before later worker looping returned at)

  runs-quiet :
      {n : ℕ} {w w' : World}
      → ((event : TelemetryEvent) → collected_by w.collector event ≡ [])
      → Runs d n w w'
      → (event : TelemetryEvent) → collected_by w'.collector event ≡ []
  runs-quiet quiet start event = quiet event
  runs-quiet quiet (next run turn) event = turn-collected_by event turn ∙ runs-quiet quiet run event

  runs-remaining :
      {n : ℕ} {w w' : World}
      → ((event : TelemetryEvent) → collected_by w.collector event ≡ [])
      → Runs d n w w'
      → n + remaining w' ≤ remaining w
  runs-remaining quiet start = omega arith
  runs-remaining quiet (next run turn) =
      omega (arith, runs-remaining quiet run, turn-remaining (runs-quiet quiet run) turn)

  -- A call of flush that has not returned can take a turn.
  flush-turn :
      (w : World) (before later : List Thread) (role : Role) (phase : Phase)
      → w.threads ≡ before ++ (record { role = role; phase = phase }) ∷ later
      → IsOver (record { role = role; phase = phase }) ⊎ ((w' : World) × Turn d w w')
  flush-turn w before later worker phase at = inl (inl refl)
  flush-turn w before later flush returned at = inl (inr refl)
  flush-turn w before later flush looping at = queued w.collector.event_queue refl
    where
      queued :
          (queue : List TelemetryEvent)
          → w.collector.event_queue ≡ queue
          → IsOver (record { role = flush; phase = looping }) ⊎ ((w' : World) × Turn d w w')
      queued [] empty = inr (_, returns before later at empty)
      queued (event ∷ events) full = inr (_, pops flush before later event events at full refl)
  flush-turn w before later flush (popped event) at = inr (_, sends flush before later event at)
  flush-turn w before later flush (sending event []) at =
      inr (_, ends flush before later event 0 at)
  flush-turn w before later flush (sending event (post ∷ more)) at =
      inr (_, posts flush before later event post more at)

  flushes-turn :
      (w : World) (before threads : List Thread)
      → w.threads ≡ before ++ threads
      → All IsOver threads ⊎ ((w' : World) × Turn d w w')
  flushes-turn w before [] at = inl tt
  flushes-turn w before (thread ∷ later) at =
      elim (flush-turn w before later thread.role thread.phase at) [
        | inr turn ↦ inr turn
        | inl over ↦
            elim (flushes-turn w (before ++ thread ∷ []) later
              (at ∙ sym (append_assoc before (thread ∷ []) later))) [
                | inr turn ↦ inr turn
                | inl others ↦ inl (over, others)
              ]
      ]

  -- While the custom backend collects nothing and no caller does either, the turns of all threads
  -- together are no more than three for each queued event and those that the threads have left; and
  -- after any number of turns every call of flush has returned, or a further turn can be taken. So
  -- flush ends, however the threads take turns.
  pub flush-ends :
      (n : ℕ) (w w' : World)
      → ((event : TelemetryEvent) → collected_by w.collector event ≡ [])
      → Runs d n w w'
      → (n ≤ remaining w) × (All IsOver w'.threads ⊎ ((next : World) × Turn d w' next))
  flush-ends n w w' quiet run =
      (omega (arith, runs-remaining quiet run), flushes-turn w' [] w'.threads refl)
