-- ===== src/Telemetry/Process.antt =====
-- What TelemetryCollector does with an event that it takes from its queue.
use beatrice.Base.{ℕ, ◌≡◌, List, [], Option, none, some, Text, codes, if◌then◌else◌}
use beatrice.Base.Doubles.{Doubles}
use beatrice.Metrics.{counter_value, create_counter, increment, observe}
use beatrice.Metrics.Handles.{body_at, create_counter-increment}
use beatrice.Telemetry.{
  EventType, packet_received, packet_processed, packet_dropped, backend_error, plugin_error,
  TelemetryEvent, TelemetryCollector,
}

-- The name and the description of the counter that updateMetrics makes for a type.
unfoldable pub counter_for : EventType → Option (Text × Text)
counter_for packet_received = some (codes "packets_received_total", codes "Total packets received")
counter_for packet_processed =
    some (codes "packets_processed_total", codes "Total packets processed")
counter_for packet_dropped = some (codes "packets_dropped_total", codes "Total packets dropped")
counter_for backend_error = some (codes "backend_errors_total", codes "Total backend errors")
counter_for plugin_error = some (codes "plugin_errors_total", codes "Total plugin errors")
counter_for _ = none

-- What the custom backend collects while it handles an event.
unfoldable pub collected_by : TelemetryCollector → TelemetryEvent → List TelemetryEvent
collected_by t event =
    if t.enabled_backends.custom_enabled
    then elim t.custom_backend [ none ↦ [] | some callback ↦ callback event ]
    else []

module _ (d : Doubles) where
  unfoldable pub update_metrics : TelemetryCollector → TelemetryEvent → TelemetryCollector
  unfolding counter_for
  update_metrics t event = elim (counter_for event.type) [
    | none ↦ t
    | some counted ↦
        let created = create_counter d t.registry counted.0 counted.1 in
        record t { registry = increment d created.0 created.1 }
  ]

  -- processEvent up to the call of sendToBackend.
  unfoldable pub begin_event : TelemetryCollector → TelemetryCollector
  begin_event t = record t { registry = increment d t.registry t.events_processed }

  -- processEvent from updateMetrics on: spent is the time that it took, a double of microseconds.
  unfoldable pub end_event : ℕ → TelemetryCollector → TelemetryEvent → TelemetryCollector
  unfolding update_metrics
  end_event spent t event =
      let updated = update_metrics t event in
      record updated { registry = observe d updated.registry updated.event_processing_time spent }

  -- Whatever was counted before, after the update for an event of a counted type the registry has, under
  -- the counter's name, a counter of that one event.
  pub update_metrics-restarts :
      (t : TelemetryCollector) (event : TelemetryEvent) (name description : Text)
      → counter_for event.type ≡ some (name, description)
      → body_at (update_metrics t event).registry name
        ≡ some (counter_value (d.add d.zero_point (d.of_uint64 1)))
  unfolding update_metrics
  update_metrics-restarts t event name description counted =
      rw (update_metrics, counted) (create_counter-increment d t.registry name description)
