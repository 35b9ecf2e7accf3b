-- ===== src/Telemetry/Spans.antt =====
-- The class TelemetrySpan of src/Telemetry.cpp, from its constructor to its destructor.
pub mod Used
pub mod Ended
use beatrice.Base.{
  length, ◌++◌, ltb, ℕ, ◌≡◌, refl, sym, ◌∙◌, ap, Bool, true, false, not, List, [], ◌∷◌, none, some,
  Text, text_eq, text_eq_iff, codes, is_empty, if◌then◌else◌, Bool-cases, Option-cases, inl, inr,
  arith,
}
use beatrice.Base.Doubles.{Doubles}
use beatrice.Base.Maps.{lookup, erase, lookup-insert, lookup-erase}
use beatrice.Telemetry.{
  TelemetryEvent, TelemetryCollector, Instant, Chrono, performance_measurement, new_event,
  add_label, add_metric, add_tag, set_duration, collect_event, start_trace, end_trace, count_traces,
  trace_event, max_queue,
}

pub record TelemetrySpan : Type 0 where
  pub name : Text
  pub description : Text
  pub start_time : ℕ
  pub event : TelemetryEvent
  pub completed : Bool

-- The methods of a span.
pub data Call : Type 0 where
  adds_label adds_tag : Text → Text → Call
  adds_metric : Text → ℕ → Call
  sets_status : Bool → Text → Call

unfoldable pub set_status : TelemetrySpan → Bool → Text → TelemetrySpan
unfolding add_label
set_status s success message =
    let labelled =
      add_label s.event (codes "success") (if success then codes "true" else codes "false") in
    record s {
      event = if is_empty message then labelled else add_label labelled (codes "message") message;
      completed = true;
    }

unfoldable pub call : TelemetrySpan → Call → TelemetrySpan
unfolding add_label add_metric add_tag set_status
call s (adds_label key value) = record s { event = add_label s.event key value }
call s (adds_tag key value) = record s { event = add_tag s.event key value }
call s (adds_metric key value) = record s { event = add_metric s.event key value }
call s (sets_status success message) = set_status s success message

unfoldable pub calls : TelemetrySpan → List Call → TelemetrySpan
unfolding call
calls s [] = s
calls s (c ∷ cs) = calls (call s c) cs

module _ (d : Doubles) (chrono : Chrono) where
  unfoldable pub new_span :
      TelemetryCollector → Instant → Text → Text → TelemetryCollector × TelemetrySpan
  unfolding new_event start_trace
  new_span t now name description = (
    start_trace d chrono t now name,
    record {
      name = name;
      description = description;
      start_time = now.high_resolution;
      event = new_event performance_measurement name description now;
      completed = false;
    },
  )

  unfoldable pub destroy_span : TelemetryCollector → TelemetrySpan → Instant → TelemetryCollector
  unfolding set_duration collect_event end_trace
  destroy_span t s now =
      if not s.completed
      then end_trace d chrono
          (collect_event d t
            (set_duration s.event (chrono.microseconds s.start_time now.high_resolution)))
          now s.name
      else t
