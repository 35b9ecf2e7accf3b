-- ===== src/Telemetry.antt =====
-- TelemetryEvent and TelemetryCollector of include/beatrice/Telemetry.hpp and src/Telemetry.cpp. The
-- registry of the metrics, one for the program, is a part of the state.
pub mod Measured
pub mod Process
pub mod Flush
pub mod Spans
mod Tests
use beatrice.Base.{
  ℕ, ◌+◌, Bool, true, false, not, ◌&&◌, List, [], ◌∷◌, ◌++◌, Option, none, some, length, get_elem?,
  Text, codes, is_empty, if◌then◌else◌, ltb,
}
use beatrice.Base.Doubles.{Doubles}
use beatrice.Base.Maps.{Map, lookup, insert, erase}
use beatrice.Metrics.{
  Metric, MetricsRegistry, create_counter, create_gauge, create_histogram, increment, increment_by,
  set_value, observe,
}

pub data EventType : Type 0 where
  packet_received packet_processed packet_dropped backend_initialized backend_error plugin_loaded
        plugin_error performance_measurement system_health_check custom_event :
      EventType

-- Doubles and times are their bit patterns.
pub record TelemetryEvent : Type 0 where
  pub type : EventType
  pub name : Text
  pub description : Text
  pub timestamp : ℕ
  pub duration : ℕ
  pub labels : Map Text
  pub metrics : Map ℕ
  pub tags : Map Text

-- What the two clocks give at one call.
pub record Instant : Type 0 where
  pub system : ℕ
  pub high_resolution : ℕ

-- The arithmetic of std::chrono: microseconds between two readings of the clock, the same number as a
-- double, a reading as a double of ticks, and what is between such a double and a later reading: as a
-- double of microseconds, and cut off to whole ones.
pub record Chrono : Type 0 where
  pub microseconds : ℕ → ℕ → ℕ
  pub microseconds_point : ℕ → ℕ → ℕ
  pub ticks_point : ℕ → ℕ
  pub since_point : ℕ → ℕ → ℕ
  pub whole_point : ℕ → ℕ
  pub of_size : ℕ → ℕ
  pub divide : ℕ → ℕ → ℕ

unfoldable pub new_event : EventType → Text → Text → Instant → TelemetryEvent
new_event type name description now = record {
  type = type;
  name = name;
  description = description;
  timestamp = now.system;
  duration = 0;
  labels = [];
  metrics = [];
  tags = [];
}

unfoldable pub add_label : TelemetryEvent → Text → Text → TelemetryEvent
add_label e key value = record e { labels = insert key value e.labels }

unfoldable pub add_metric : TelemetryEvent → Text → ℕ → TelemetryEvent
add_metric e key value = record e { metrics = insert key value e.metrics }

unfoldable pub add_tag : TelemetryEvent → Text → Text → TelemetryEvent
add_tag e key value = record e { tags = insert key value e.tags }

unfoldable pub set_timestamp : TelemetryEvent → ℕ → TelemetryEvent
set_timestamp e timestamp = record e { timestamp = timestamp }

unfoldable pub set_duration : TelemetryEvent → ℕ → TelemetryEvent
set_duration e duration = record e { duration = duration }

pub data TelemetryLevel : Type 0 where
  basic standard advanced debug : TelemetryLevel

pub data TelemetryBackend : Type 0 where
  prometheus influxdb jaeger custom : TelemetryBackend

-- std::unordered_map<TelemetryBackend, bool>, with every backend in it.
pub record Backends : Type 0 where
  pub prometheus_enabled : Bool
  pub influxdb_enabled : Bool
  pub jaeger_enabled : Bool
  pub custom_enabled : Bool

-- The pointers to the collector's own metrics are numbers of objects. custom_backend is a callback: it
-- gives the events that it collects while it handles one (any other function of the collector that
-- locks would wait for ever).
pub record TelemetryCollector : Type 0 where
  pub level : TelemetryLevel
  pub enabled_backends : Backends
  pub custom_backend : Option (TelemetryEvent → List TelemetryEvent)
  pub event_queue : List TelemetryEvent
  pub context : Map Text
  pub active_traces : Map ℕ
  pub performance_measurements : Map (List ℕ)
  pub health_status : Map Bool
  pub events_processed : ℕ
  pub events_dropped : ℕ
  pub event_processing_time : ℕ
  pub active_traces_count : ℕ
  pub registry : MetricsRegistry

abbrev pub max_queue : ℕ
max_queue = 10000

module _ (d : Doubles) where
  unfoldable pub new_collector : MetricsRegistry → TelemetryCollector
  new_collector r =
      let processed =
        create_counter d r (codes "telemetry_events_processed")
          (codes "Total telemetry events processed") in
      let dropped =
        create_counter d processed.0 (codes "telemetry_events_dropped")
          (codes "Total telemetry events dropped") in
      let time =
        create_histogram d dropped.0 (codes "telemetry_event_processing_time")
          (codes "Telemetry event processing time") in
      let traces =
        create_gauge d time.0 (codes "telemetry_active_traces") (codes "Number of active traces") in
      record {
        level = standard;
        enabled_backends = record {
          prometheus_enabled = true;
          influxdb_enabled = false;
          jaeger_enabled = false;
          custom_enabled = false;
        };
        custom_backend = none;
        event_queue = [];
        context = [];
        active_traces = [];
        performance_measurements = [];
        health_status = [];
        events_processed = processed.1;
        events_dropped = dropped.1;
        event_processing_time = time.1;
        active_traces_count = traces.1;
        registry = traces.0;
      }

  unfoldable pub set_level : TelemetryCollector → TelemetryLevel → TelemetryCollector
  set_level t level = record t { level = level }

  unfoldable pub enable_backend : TelemetryCollector → TelemetryBackend → Bool → TelemetryCollector
  enable_backend t prometheus on = record t {
    enabled_backends = record t.enabled_backends { prometheus_enabled = on };
  }
  enable_backend t influxdb on = record t {
    enabled_backends = record t.enabled_backends { influxdb_enabled = on };
  }
  enable_backend t jaeger on = record t {
    enabled_backends = record t.enabled_backends { jaeger_enabled = on };
  }
  enable_backend t custom on = record t {
    enabled_backends = record t.enabled_backends { custom_enabled = on };
  }

  unfoldable pub is_backend_enabled : TelemetryCollector → TelemetryBackend → Bool
  is_backend_enabled t prometheus = t.enabled_backends.prometheus_enabled
  is_backend_enabled t influxdb = t.enabled_backends.influxdb_enabled
  is_backend_enabled t jaeger = t.enabled_backends.jaeger_enabled
  is_backend_enabled t custom = t.enabled_backends.custom_enabled

  unfoldable pub set_context : TelemetryCollector → Text → Text → TelemetryCollector
  set_context t key value = record t { context = insert key value t.context }

  unfoldable pub get_context : TelemetryCollector → Text → Text
  get_context t key = elim (lookup key t.context) [ none ↦ [] | some value ↦ value ]

  unfoldable pub set_custom_backend :
      TelemetryCollector → (TelemetryEvent → List TelemetryEvent) → TelemetryCollector
  set_custom_backend t callback = record t {
    custom_backend = some callback;
    enabled_backends = record t.enabled_backends { custom_enabled = true };
  }

  unfoldable pub collect_event : TelemetryCollector → TelemetryEvent → TelemetryCollector
  collect_event t event =
      if ltb (length t.event_queue) max_queue
      then record t { event_queue = t.event_queue ++ event ∷ [] }
      else record t { registry = increment d t.registry t.events_dropped }

  unfoldable pub collect_metric :
      TelemetryCollector → Instant → Text → ℕ → Text → TelemetryCollector
  unfolding collect_event new_event add_metric
  collect_metric t now name value description =
      let created = create_gauge d t.registry name description in
      collect_event (record t { registry = set_value created.0 created.1 value })
        (add_metric (new_event performance_measurement name description now) (codes "value") value)

  unfoldable pub collect_counter :
      TelemetryCollector → Instant → Text → ℕ → Text → TelemetryCollector
  unfolding collect_event new_event add_metric
  collect_counter t now name value description =
      let created = create_counter d t.registry name description in
      collect_event (record t { registry = increment_by d created.0 created.1 (d.of_uint64 value) })
        (add_metric (new_event performance_measurement name description now) (codes "value")
          (d.of_uint64 value))

  module _ (chrono : Chrono) where
    -- The gauge is set to the number of traces.
    unfoldable pub count_traces : TelemetryCollector → TelemetryCollector
    count_traces t = record t {
      registry =
          set_value t.registry t.active_traces_count (chrono.of_size (length t.active_traces));
    }

    unfoldable pub start_trace : TelemetryCollector → Instant → Text → TelemetryCollector
    unfolding count_traces
    start_trace t now name =
        count_traces (record t { active_traces = insert name now.high_resolution t.active_traces })

    unfoldable pub trace_event : Instant → Text → ℕ → TelemetryEvent
    unfolding new_event set_duration add_metric
    trace_event now name started =
        add_metric
          (set_duration (new_event performance_measurement name [] now)
            (chrono.microseconds started now.high_resolution))
          (codes "duration_us") (chrono.microseconds_point started now.high_resolution)

    unfoldable pub end_trace : TelemetryCollector → Instant → Text → TelemetryCollector
    unfolding trace_event collect_event count_traces
    end_trace t now name = elim (lookup name t.active_traces) [
      | none ↦ t
      | some started ↦
          let collected = collect_event t (trace_event now name started) in
          count_traces (record collected { active_traces = erase name collected.active_traces })
    ]
