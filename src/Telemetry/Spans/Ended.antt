-- ===== src/Telemetry/Spans/Ended.antt =====
-- How a TelemetrySpan of src/Telemetry.cpp ends its trace and what it leaves in the queue.
use beatrice.Base.{
  length, ◌++◌, ltb, ℕ, ◌≡◌, refl, sym, ◌∙◌, ap, Bool, true, false, List, [], ◌∷◌, none, some, Text,
  text_eq, text_eq_iff, if◌then◌else◌, Bool-cases, Option-cases, inl, inr, arith,
}
use beatrice.Base.Doubles.{Doubles}
use beatrice.Base.Maps.{lookup, erase, lookup-insert, lookup-erase}
use beatrice.Telemetry.{
  TelemetryEvent, TelemetryCollector, Instant, Chrono, set_duration, collect_event, start_trace,
  end_trace, count_traces, trace_event, max_queue,
}
use beatrice.Telemetry.Spans.{TelemetrySpan, Call, calls, new_span, destroy_span}
use beatrice.Telemetry.Spans.Used.{sets, calls-completed, calls-name, calls-start}

-- What the collector queues when it collects an event.
abbrev pub queued : List TelemetryEvent → TelemetryEvent → List TelemetryEvent
queued q event = if ltb (length q) max_queue then q ++ event ∷ [] else q

module _ (d : Doubles) (chrono : Chrono) where
  collect_event-traces :
      (t : TelemetryCollector) (e : TelemetryEvent)
      → (collect_event d t e).active_traces ≡ t.active_traces
  unfolding collect_event
  collect_event-traces t e = ground arith

  end_trace-traces :
      (t : TelemetryCollector) (now : Instant) (name other : Text)
      → lookup other (end_trace d chrono t now name).active_traces
        ≡ (if text_eq name other then none else lookup other t.active_traces)
  unfolding end_trace count_traces
  end_trace-traces t now name other = elim (Option-cases (lookup name t.active_traces)) [
    | inl missing ↦
        rw (end_trace, missing)
          (elim (Bool-cases (text_eq name other)) [
            | inr apart ↦ rw apart refl
            | inl same ↦ rw same (
                ap (λ n. lookup n t.active_traces) (sym ((text_eq_iff name other).0 same))
                ∙ missing)
          ])
    | inr (started, found) ↦
        rw (end_trace, found)
          (ap (λ m. lookup other (erase name m))
              (collect_event-traces t (trace_event d chrono now name started))
            ∙ lookup-erase name other t.active_traces)
  ]

  collect_event-queue :
      (t : TelemetryCollector) (e : TelemetryEvent)
      → (collect_event d t e).event_queue ≡ queued t.event_queue e
  unfolding collect_event
  collect_event-queue t e = elim (Bool-cases (ltb (length t.event_queue) max_queue)) [
    | inl room ↦ rw (collect_event, room) refl
    | inr full ↦ rw (collect_event, full) refl
  ]

  end_trace-queue :
      (t : TelemetryCollector) (now : Instant) (name : Text) (started : ℕ)
      → lookup name t.active_traces ≡ some started
      → (end_trace d chrono t now name).event_queue
        ≡ queued t.event_queue (trace_event d chrono now name started)
  unfolding end_trace count_traces
  end_trace-queue t now name started found =
      rw (end_trace, found) (collect_event-queue t (trace_event d chrono now name started))

  -- The event of a span that is destroyed.
  abbrev span_event : TelemetrySpan → Instant → TelemetryEvent
  span_event s now = set_duration s.event (chrono.microseconds s.start_time now.high_resolution)

  destroy_span-queue :
      (t : TelemetryCollector) (s : TelemetrySpan) (now : Instant) (started : ℕ)
      → lookup s.name t.active_traces ≡ some started
      → (destroy_span d chrono t s now).event_queue ≡ (
          if s.completed
          then t.event_queue
          else queued
              (queued t.event_queue (span_event s now))
              (trace_event d chrono now s.name started))
  unfolding destroy_span
  destroy_span-queue t s now started found = elim (Bool-cases s.completed) [
    | inl done ↦ rw (destroy_span, done) refl
    | inr running ↦
        rw (destroy_span, running)
          (end_trace-queue (collect_event d t (span_event s now)) now s.name started
              (ap (lookup s.name) (collect_event-traces t (span_event s now)) ∙ found)
            ∙ ap (λ q. queued q (trace_event d chrono now s.name started))
                (collect_event-queue t (span_event s now)))
  ]

  destroy_span-traces :
      (t : TelemetryCollector) (s : TelemetrySpan) (now : Instant) (other : Text)
      → lookup other (destroy_span d chrono t s now).active_traces ≡ (
          if s.completed
          then lookup other t.active_traces
          else if text_eq s.name other
          then none
          else lookup other t.active_traces)
  unfolding destroy_span
  destroy_span-traces t s now other = elim (Bool-cases s.completed) [
    | inl done ↦ rw (destroy_span, done) refl
    | inr running ↦
        rw (destroy_span, running)
          (end_trace-traces (collect_event d t event) now s.name other
            ∙ ap (λ m. if text_eq s.name other then none else lookup other m)
                (collect_event-traces t event))
  ]
    where
      event : TelemetryEvent
      event = set_duration s.event (chrono.microseconds s.start_time now.high_resolution)

  destroyed-traces :
      (t : TelemetryCollector) (made gone : Instant) (name description other : Text)
      (cs : List Call)
      → let begun = new_span d chrono t made name description in
        let out = destroy_span d chrono begun.0 (calls begun.1 cs) gone in
        lookup other out.active_traces ≡ (
          if text_eq name other
          then (if sets cs then some made.high_resolution else none)
          else lookup other t.active_traces)
  unfolding new_span start_trace count_traces
  destroyed-traces t made gone name description other cs =
      destroy_span-traces begun.0 (calls begun.1 cs) gone other
      ∙ rw
          (
            calls-completed begun.1 cs,
            calls-name begun.1 cs,
            lookup-insert name other made.high_resolution t.active_traces,
          )
          (cases (sets cs) (text_eq name other))
    where
      begun : TelemetryCollector × TelemetrySpan
      begun = new_span d chrono t made name description

      cases :
          (b same : Bool)
          → (if (if b then true else false)
              then (if same then some made.high_resolution else lookup other t.active_traces)
              else if same
              then none
              else (if same then some made.high_resolution else lookup other t.active_traces))
            ≡ (if same
                then (if b then some made.high_resolution else none)
                else lookup other t.active_traces)
      cases true true = refl
      cases true false = refl
      cases false true = refl
      cases false false = refl

  destroyed-queue :
      (t : TelemetryCollector) (made gone : Instant) (name description : Text) (cs : List Call)
      → let begun = new_span d chrono t made name description in
        (destroy_span d chrono begun.0 (calls begun.1 cs) gone).event_queue ≡ (
          if sets cs
          then t.event_queue
          else queued
              (queued t.event_queue (
                set_duration
                  (calls begun.1 cs).event
                  (chrono.microseconds made.high_resolution gone.high_resolution)))
              (trace_event d chrono gone name made.high_resolution))
  unfolding new_span start_trace count_traces
  destroyed-queue t made gone name description cs =
      destroy_span-queue begun.0 (calls begun.1 cs) gone made.high_resolution (
        ap (λ n. lookup n begun.0.active_traces) (calls-name begun.1 cs)
        ∙ lookup-insert name name made.high_resolution t.active_traces
        ∙ rw ((text_eq_iff name name).1 refl) refl)
      ∙ rw (calls-completed begun.1 cs, calls-name begun.1 cs, calls-start begun.1 cs)
          (settle (sets cs) _ _)
    where
      begun : TelemetryCollector × TelemetrySpan
      begun = new_span d chrono t made name description

      settle :
          (b : Bool) (kept ended : List TelemetryEvent)
          → (if (if b then true else false) then kept else ended) ≡ (if b then kept else ended)
      settle true kept ended = refl
      settle false kept ended = refl

  -- A span that is made, used and destroyed ends its trace when its status was never set, and leaves it
  -- active when it was; the traces of other names are left alone. Its destructor collects no event when
  -- the status was set, and otherwise the span's event with the time it took and then that of the
  -- trace, as far as the queue has room.
  pub destroy_span-trace :
      (t : TelemetryCollector) (made gone : Instant) (name description other : Text)
      (cs : List Call)
      → let begun = new_span d chrono t made name description in
        let out = destroy_span d chrono begun.0 (calls begun.1 cs) gone in
        (lookup other out.active_traces ≡ (
          if text_eq name other
          then (if sets cs then some made.high_resolution else none)
          else lookup other t.active_traces))
        × (out.event_queue ≡ (
            if sets cs
            then t.event_queue
            else queued
                (queued t.event_queue (
                  set_duration
                    (calls begun.1 cs).event
                    (chrono.microseconds made.high_resolution gone.high_resolution)))
                (trace_event d chrono gone name made.high_resolution)))
  unfolding new_span start_trace count_traces
  destroy_span-trace t made gone name description other cs = (
    destroyed-traces t made gone name description other cs,
    destroyed-queue t made gone name description cs,
  )
