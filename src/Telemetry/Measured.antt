-- ===== src/Telemetry/Measured.antt =====
-- The performance measurements and the health of the components of src/Telemetry.cpp.
use beatrice.Base.{
  ℕ, ◌≡◌, refl, ◌∙◌, ap, Bool, true, false, List, [], ◌∷◌, ◌++◌, Option, none, some, length, Text,
  text_eq_iff, codes, is_empty, if◌then◌else◌, arith,
}
use beatrice.Base.Doubles.{Doubles}
use beatrice.Base.Maps.{Map, lookup, insert, lookup-insert}
use beatrice.Telemetry.{
  TelemetryEvent, TelemetryCollector, Instant, Chrono, collect_event, new_event, add_metric,
  add_label, set_duration, performance_measurement, system_health_check,
}

-- back and pop_back of a vector that is not empty.
abbrev pub split_last : List ℕ → Option (List ℕ × ℕ)
split_last [] = none
split_last (v ∷ vs) = elim (split_last vs) [
  | none ↦ some ([], v)
  | some out ↦ some (v ∷ out.0, out.1)
]

-- operator[] of performanceMeasurements_, which makes an empty vector for a new name.
unfoldable pub values_of : Option (List ℕ) → List ℕ
values_of none = []
values_of (some values) = values

unfoldable pub start_performance_measurement :
    Chrono → TelemetryCollector → Instant → Text → TelemetryCollector
unfolding values_of
start_performance_measurement chrono t now name = record t {
  performance_measurements =
      insert name
        (values_of (lookup name t.performance_measurements)
          ++ chrono.ticks_point now.high_resolution ∷ [])
        t.performance_measurements;
}

module _ (d : Doubles) (chrono : Chrono) where
  unfoldable pub measured_event : Instant → Text → ℕ → TelemetryEvent
  unfolding new_event set_duration add_metric
  measured_event now name started =
      let duration = chrono.since_point started now.high_resolution in
      add_metric
        (set_duration (new_event performance_measurement name [] now) (chrono.whole_point duration))
        (codes "duration_us") duration

  unfoldable pub end_performance_measurement :
      TelemetryCollector → Instant → Text → TelemetryCollector
  unfolding measured_event collect_event values_of
  end_performance_measurement t now name =
      elim (split_last (values_of (lookup name t.performance_measurements))) [
        | none ↦ t
        | some out ↦
            collect_event d
              (record t { performance_measurements = insert name out.0 t.performance_measurements })
              (measured_event now name out.1)
      ]

  unfoldable pub sum_points : ℕ → List ℕ → ℕ
  sum_points sum [] = sum
  sum_points sum (v ∷ vs) = sum_points (d.add sum v) vs

  -- The values are the readings at which the measurements that still run were started.
  unfoldable pub get_average_performance : TelemetryCollector → Text → ℕ
  unfolding sum_points values_of
  get_average_performance t name =
      let values = values_of (lookup name t.performance_measurements) in
      if is_empty values
      then d.zero_point
      else chrono.divide (sum_points d.zero_point values) (chrono.of_size (length values))

  unfoldable pub report_health :
      TelemetryCollector → Instant → Text → Bool → Text → TelemetryCollector
  unfolding new_event add_label collect_event
  report_health t now component healthy message =
      let status =
        add_label (new_event system_health_check component [] now) (codes "status")
          (if healthy then codes "healthy" else codes "unhealthy") in
      collect_event d (record t { health_status = insert component healthy t.health_status })
        (if is_empty message then status else add_label status (codes "message") message)

unfoldable pub healthy_or_unknown : Option Bool → Bool
healthy_or_unknown none = true
healthy_or_unknown (some healthy) = healthy

unfoldable pub is_healthy : TelemetryCollector → Text → Bool
unfolding healthy_or_unknown
is_healthy t component = healthy_or_unknown (lookup component t.health_status)

-- The loop of exportHealth: the flag, and the components with theirs.
unfoldable pub overall_health : Bool → Map Bool → Bool
overall_health overall [] = overall
overall_health overall ((component, healthy) ∷ rest) =
    overall_health (if healthy then overall else false) rest

-- What exportHealth writes, before it is made JSON.
unfoldable pub export_health : TelemetryCollector → Bool × Map Bool
unfolding overall_health
export_health t = (overall_health true t.health_status, t.health_status)

split_last-append : (vs : List ℕ) (v : ℕ) → split_last (vs ++ v ∷ []) ≡ some (vs, v)
split_last-append [] v = refl
split_last-append (u ∷ vs) v = rw (split_last-append vs v) refl

-- The event goes by the queue alone.
collect_event-of_measurements :
    (d : Doubles) (t : TelemetryCollector) (measurements : Map (List ℕ)) (e : TelemetryEvent)
    → (((collect_event d
          (record t { performance_measurements = measurements })
          e).performance_measurements)
        ≡ measurements)
      × ((collect_event d (record t { performance_measurements = measurements }) e).event_queue
          ≡ (collect_event d t e).event_queue)
unfolding collect_event
collect_event-of_measurements d t measurements e = ground arith

end-last :
    (d : Doubles) (chrono : Chrono) (t : TelemetryCollector) (ended : Instant) (name : Text)
    (values : List ℕ) (point : ℕ)
    → split_last (values_of (lookup name t.performance_measurements)) ≡ some (values, point)
    → end_performance_measurement d chrono t ended name
      ≡ collect_event d
          (record t { performance_measurements = insert name values t.performance_measurements })
          (measured_event d chrono ended name point)
unfolding end_performance_measurement
end-last d chrono t ended name values point h = rw (end_performance_measurement, h) refl

end-start :
    (d : Doubles) (chrono : Chrono) (t : TelemetryCollector) (begun ended : Instant) (name : Text)
    → end_performance_measurement d chrono
        (start_performance_measurement chrono t begun name)
        ended
        name
      ≡ collect_event d
          (record t {
            performance_measurements =
                insert name
                  (values_of (lookup name t.performance_measurements))
                  (start_performance_measurement chrono t begun name).performance_measurements;
          })
          (measured_event d chrono ended name (chrono.ticks_point begun.high_resolution))
unfolding start_performance_measurement
end-start d chrono t begun ended name =
    end-last d chrono (start_performance_measurement chrono t begun name) ended name values point
      (ap (λ o. split_last (values_of o)) running ∙ split_last-append values point)
  where
    values : List ℕ
    values = values_of (lookup name t.performance_measurements)

    point : ℕ
    point = chrono.ticks_point begun.high_resolution

    running :
        lookup name (start_performance_measurement chrono t begun name).performance_measurements
        ≡ some (values ++ point ∷ [])
    running = ground (
      arith,
      lookup-insert name name (values ++ point ∷ []) t.performance_measurements,
      text_eq_iff name name,
    )

twice_inserted :
    (name other : Text) (m : Map (List ℕ)) (values : List ℕ)
    → values_of (lookup other (insert name (values_of (lookup name m)) (insert name values m)))
      ≡ values_of (lookup other m)
unfolding values_of
twice_inserted name other m values = ground (
  arith,
  text_eq_iff name other,
  lookup-insert name other (values_of (lookup name m)) (insert name values m),
  lookup-insert name other values m,
  λ (e : name ≡ other). ap (λ n. lookup n m) e,
)

-- A measurement that is started and ended under one name leaves the measurements of every name that
-- were running, and the collector then has the event of that measurement, with the time from its own
-- start, after what it had: it is collected as any event.
pub end_performance_measurement-start :
    (d : Doubles) (chrono : Chrono) (t : TelemetryCollector) (begun ended : Instant)
    (name other : Text)
    → let started = start_performance_measurement chrono t begun name in
      let out = end_performance_measurement d chrono started ended name in
      (values_of (lookup other out.performance_measurements)
        ≡ values_of (lookup other t.performance_measurements))
      × (out.event_queue
          ≡ (collect_event d t (
              measured_event d chrono ended name
                (chrono.ticks_point begun.high_resolution))).event_queue)
unfolding start_performance_measurement
end_performance_measurement-start d chrono t begun ended name other =
    let values = values_of (lookup name t.performance_measurements) in
    let started = start_performance_measurement chrono t begun name in
    let event = measured_event d chrono ended name (chrono.ticks_point begun.high_resolution) in
    let (kept, queue) =
      collect_event-of_measurements d t (insert name values started.performance_measurements)
        event in
    (
      ap (λ out. values_of (lookup other out.performance_measurements))
            (end-start d chrono t begun ended name)
          ∙ ap (λ m. values_of (lookup other m)) kept
          ∙ twice_inserted name other t.performance_measurements _,
      ap (λ out. out.event_queue) (end-start d chrono t begun ended name) ∙ queue,
    )
