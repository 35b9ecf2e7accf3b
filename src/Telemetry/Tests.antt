-- ===== src/Telemetry/Tests.antt =====
-- The theorems on the telemetry applied to concrete collectors.
use beatrice.Base.{
  ◌≤◌, ◌⊎◌, ◌++◌, All, ℕ, ◌-◌, ◌≡◌, refl, true, List, [], ◌∷◌, none, some, codes, text_eq,
  if◌then◌else◌,
}
use beatrice.Base.Doubles.{whole_numbers}
use beatrice.Base.Maps.{lookup}
use beatrice.Metrics.{counter_value}
use beatrice.Metrics.Handles.{body_at}
use beatrice.Telemetry.{
  TelemetryEvent, TelemetryCollector, Instant, Chrono, packet_received, packet_dropped, new_event,
  new_collector, set_custom_backend, collect_event, set_duration, trace_event,
}
use beatrice.Telemetry.Measured.{
  values_of, measured_event, start_performance_measurement, end_performance_measurement,
  end_performance_measurement-start,
}
use beatrice.Telemetry.Process.{update_metrics, counter_for, collected_by, update_metrics-restarts}
use beatrice.Telemetry.Flush.{
  changes, Thread, World, worker, flush, looping, popped, collect_in, Turn, pops, turns, collects,
  calls_flush, opening, Reach, begin, after,
}
use beatrice.Telemetry.Flush.Drained.{IsDrained, Reach-IsDrained}
use beatrice.Telemetry.Flush.Ends.{remaining, IsOver, start, next, flush-ends}
use beatrice.Metrics.{MetricsRegistry}
use beatrice.Telemetry.Spans.Used.{sets}
use beatrice.Telemetry.Spans.Ended.{queued, destroy_span-trace}
use beatrice.Telemetry.Spans.{Call, adds_label, sets_status, new_span, calls, destroy_span}

abbrev collector : TelemetryCollector
collector = new_collector whole_numbers (record { objects = []; metrics = [] })

abbrev at_time : ℕ → Instant
at_time n = record { system = n; high_resolution = n }

abbrev ticks : Chrono
ticks = record {
  microseconds = λ a b. b - a;
  microseconds_point = λ a b. b - a;
  ticks_point = λ a. a;
  since_point = λ a b. b - a;
  whole_point = λ a. a;
  of_size = λ n. n;
  divide = λ a b. a;
}

abbrev received : TelemetryEvent
received = new_event packet_received (codes "rx") [] (at_time 3)

abbrev dropped : TelemetryEvent
dropped = new_event packet_dropped (codes "drop") [] (at_time 4)

-- Two events wait.
abbrev waiting : TelemetryCollector
waiting = record collector { event_queue = received ∷ dropped ∷ [] }

update_metrics-restarts_example :
    body_at
      (update_metrics whole_numbers waiting received).registry
      (codes "packets_received_total")
    ≡ some (counter_value 1)
unfolding counter_for new_event
update_metrics-restarts_example =
    update_metrics-restarts whole_numbers waiting received (codes "packets_received_total")
      (codes "Total packets received") refl

abbrev idle : Thread
idle = record { role = worker; phase = looping }

abbrev flusher : Thread
flusher = record { role = flush; phase = looping }

abbrev registry : MetricsRegistry
registry = record { objects = []; metrics = [] }

-- A custom backend is set that collects nothing, an event is collected, and flush is called.
abbrev backed : World
backed = record (opening whole_numbers registry) {
  collector = set_custom_backend whole_numbers collector (λ event. []);
}

abbrev filled : World
filled =
    let w = collect_in whole_numbers backed received in
    record w { threads = w.threads ++ flusher ∷ [] }

filled-Reach : Reach whole_numbers filled
unfolding opening set_custom_backend
filled-Reach =
    after (after (after (begin registry) (changes _ refl)) (collects received)) calls_flush

-- Then the collector's own thread takes the event before flush does.
abbrev raced : World
raced = record filled {
  collector = record filled.collector { event_queue = [] };
  threads = (record { role = worker; phase = popped received }) ∷ flusher ∷ [];
  taken = filled.taken ++ received ∷ [];
}

pops-Turn : Turn whole_numbers filled raced
unfolding collect_in opening collect_event new_collector set_custom_backend
pops-Turn = pops worker [] (flusher ∷ []) received [] refl refl refl

Reach-IsDrained_example : IsDrained raced
Reach-IsDrained_example = Reach-IsDrained whole_numbers (after filled-Reach (turns pops-Turn))

flush-ends_example :
    (1 ≤ remaining filled)
    × (All IsOver raced.threads ⊎ ((next : World) × Turn whole_numbers raced next))
unfolding collect_in collected_by opening new_collector collect_event set_custom_backend
flush-ends_example = flush-ends whole_numbers 1 filled raced (λ event. refl) (next start pops-Turn)

end_performance_measurement-start_example :
    let started = start_performance_measurement ticks collector (at_time 5) (codes "parse") in
    let out = end_performance_measurement whole_numbers ticks started (at_time 9) (codes "parse") in
    (values_of (lookup (codes "parse") out.performance_measurements)
      ≡ values_of (lookup (codes "parse") collector.performance_measurements))
    × (out.event_queue
        ≡ (collect_event whole_numbers collector (
            measured_event whole_numbers ticks
              (at_time 9)
              (codes "parse")
              (ticks.ticks_point 5))).event_queue)
end_performance_measurement-start_example =
    end_performance_measurement-start whole_numbers ticks collector (at_time 5) (at_time 9)
      (codes "parse") (codes "parse")

-- A span that is told of its success.
abbrev successful : List Call
successful = adds_label (codes "queue") (codes "0") ∷ sets_status true [] ∷ []

destroy_span-trace_example :
    let begun = new_span whole_numbers ticks collector (at_time 5) (codes "parse") [] in
    let out = destroy_span whole_numbers ticks begun.0 (calls begun.1 successful) (at_time 9) in
    (lookup (codes "parse") out.active_traces ≡ (
      if text_eq (codes "parse") (codes "parse")
      then (if sets successful then some 5 else none)
      else lookup (codes "parse") collector.active_traces))
    × (out.event_queue ≡ (
        if sets successful
        then collector.event_queue
        else queued
            (queued collector.event_queue
              (set_duration (calls begun.1 successful).event (ticks.microseconds 5 9)))
            (trace_event whole_numbers ticks (at_time 9) (codes "parse") 5)))
destroy_span-trace_example =
    destroy_span-trace whole_numbers ticks collector (at_time 5) (at_time 9) (codes "parse") []
      (codes "parse") successful
