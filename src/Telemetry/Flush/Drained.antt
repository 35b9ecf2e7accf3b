-- ===== src/Telemetry/Flush/Drained.antt =====
-- What the threads that take events from the collector's queue keep, whatever the order of their steps.
use beatrice.Base.{
  ℕ, ◌+◌, ◌≤◌, ◌≡◌, refl, sym, ◌∙◌, ap, Bool, List, [], ◌∷◌, ◌++◌, append_assoc, append-nil, length,
  length-append, ltb, Bool-cases, Option-cases, inl, inr, arith,
}
use beatrice.Base.Doubles.{Doubles}
use beatrice.Telemetry.{TelemetryEvent, TelemetryCollector, collect_event, new_collector, max_queue}
use beatrice.Telemetry.Process.{counter_for, collected_by, update_metrics, begin_event, end_event}
use beatrice.Telemetry.Flush.{
  clear, Phase, looping, returned, popped, sending, Role, worker, flush, Thread, World, arrival,
  collect_in, Turn, pops, sends, posts, ends, returns, retires, Step, turns, collects, calls_flush,
  clears, changes, stops, opening, Reach, begin, after,
}
use beatrice.Telemetry.Flush.Counts.{count, held_in, held, count-append, held-append}

-- The events taken and those that wait are the accepted ones, in order, and the queue has its bound.
abbrev IsOrdered : List TelemetryEvent → List TelemetryEvent → List TelemetryEvent → Type 0
IsOrdered taken queue accepted = (taken ++ queue ≡ accepted) × (length queue ≤ max_queue)

-- Every event taken is processed or with just one thread, by any test of events.
pub record IsDrained (w : World) : Type 0 where
  pub ordered : IsOrdered w.taken w.collector.event_queue w.accepted
  pub balanced :
      (test : TelemetryEvent → Bool)
      → count test w.processed + held test w.threads ≡ count test w.taken

-- A thread among others that goes from one phase to another.
held-swap :
    (test : TelemetryEvent → Bool) (threads before later : List Thread) (role : Role)
    (old new : Phase)
    → threads ≡ before ++ (record { role = role; phase = old }) ∷ later
    → held test (before ++ (record { role = role; phase = new }) ∷ later) + held_in test old
      ≡ held test threads + held_in test new
held-swap test threads before later role old new at = omega (
  arith,
  ap (held test) at,
  held-append test before ((record { role = role; phase = old }) ∷ later),
  held-append test before ((record { role = role; phase = new }) ∷ later),
)

module _ (d : Doubles) where
  collect_event-IsOrdered :
      (t : TelemetryCollector) (event : TelemetryEvent) (taken accepted : List TelemetryEvent)
      → IsOrdered taken t.event_queue accepted
      → IsOrdered taken (collect_event d t event).event_queue (accepted ++ arrival t event)
  unfolding collect_event
  collect_event-IsOrdered t event taken accepted (order, room) =
      elim (Bool-cases (ltb (length t.event_queue) max_queue)) [
        | inl free ↦
            rw (collect_event, free)
              (
                sym (append_assoc taken t.event_queue (event ∷ []))
                    ∙ ap (λ es. es ++ event ∷ []) order,
                ground (arith, length-append t.event_queue (event ∷ []), free),
              )
        | inr full ↦ rw (collect_event, full) (order ∙ sym (append-nil accepted), room)
      ]

  pub end_event-queue :
      (spent : ℕ) (t : TelemetryCollector) (event : TelemetryEvent)
      → (end_event d spent t event).event_queue ≡ t.event_queue
  unfolding end_event update_metrics
  end_event-queue spent t event = elim (Option-cases (counter_for event.type)) [
    | inl uncounted ↦ rw (update_metrics, uncounted) refl
    | inr (counted, found) ↦ rw (update_metrics, found) refl
  ]

  turn-IsDrained : {w w' : World} → Turn d w w' → IsDrained w → IsDrained w'
  unfolding collect_in begin_event
  turn-IsDrained {w} (pops role before later event events at queue goes) v = record {
    ordered = (
      append_assoc w.taken (event ∷ []) events ∙ ap (λ q. w.taken ++ q) (sym queue) ∙ v.ordered.0,
      omega (arith, ap length queue, v.ordered.1),
    );
    balanced = λ test. omega (
      arith,
      v.balanced test,
      held-swap test w.threads before later role looping (popped event) at,
      count-append test w.taken (event ∷ []),
    );
  }
  turn-IsDrained {w} (sends role before later event at) v = record {
    ordered = v.ordered;
    balanced = λ test. omega (
      arith,
      v.balanced test,
      held-swap test w.threads before later role (popped event)
          (sending event (collected_by w.collector event)) at,
    );
  }
  turn-IsDrained {w} (posts role before later event post more at) v = record {
    ordered = collect_event-IsOrdered w.collector post w.taken w.accepted v.ordered;
    balanced = λ test. omega (
      arith,
      v.balanced test,
      held-swap test w.threads before later role (sending event (post ∷ more)) (sending event more)
          at,
    );
  }
  turn-IsDrained {w} (ends role before later event spent at) v = record {
    ordered = (
      ap (λ q. w.taken ++ q) (end_event-queue spent w.collector event) ∙ v.ordered.0,
      omega (arith, ap length (end_event-queue spent w.collector event), v.ordered.1),
    );
    balanced = λ test. omega (
      arith,
      v.balanced test,
      held-swap test w.threads before later role (sending event []) looping at,
      count-append test w.processed (event ∷ []),
    );
  }
  turn-IsDrained {w} (returns before later at queue) v = record {
    ordered = v.ordered;
    balanced = λ test.
        omega
          (arith, v.balanced test, held-swap test w.threads before later flush looping returned at);
  }
  turn-IsDrained {w} (retires before later at stopped) v = record {
    ordered = v.ordered;
    balanced = λ test.
        omega (
          arith,
          v.balanced test,
          held-swap test w.threads before later worker looping returned at,
        );
  }

  step-IsDrained : {w w' : World} → Step d w w' → IsDrained w → IsDrained w'
  unfolding collect_in clear
  step-IsDrained (turns turn) v = turn-IsDrained turn v
  step-IsDrained {w} (collects event) v = record {
    ordered = collect_event-IsOrdered w.collector event w.taken w.accepted v.ordered;
    balanced = v.balanced;
  }
  step-IsDrained {w} calls_flush v = record {
    ordered = v.ordered;
    balanced = λ test. omega (arith, v.balanced test, held-append test w.threads _);
  }
  step-IsDrained {w} clears v = record {
    ordered = (append-nil w.taken, omega arith);
    balanced = v.balanced;
  }
  step-IsDrained {w} (changes changed same) v = record {
    ordered =
        (ap (λ q. w.taken ++ q) same ∙ v.ordered.0, omega (arith, ap length same, v.ordered.1));
    balanced = v.balanced;
  }
  step-IsDrained stops v = record { ordered = v.ordered; balanced = v.balanced }

  -- From a new collector, whatever the calls of collectEvent, flush, clear and the functions that leave
  -- the queue alone, and however the threads take turns: the events taken from the queue and then those in it are the accepted ones (less those
  -- that clear threw away) in the order of their arrival, the queue has at most 10000 events, and the
  -- events taken, as told by any test of events, are those processed and those that the threads hold,
  -- one thread each.
  pub Reach-IsDrained : {w : World} → Reach d w → IsDrained w
  unfolding opening new_collector
  Reach-IsDrained (begin r) = record { ordered = (refl, omega arith); balanced = λ test. refl }
  Reach-IsDrained (after past step) = step-IsDrained step (Reach-IsDrained past)
