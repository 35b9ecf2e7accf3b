-- ===== src/Telemetry/Spans/Used.antt =====
-- What the methods of a TelemetrySpan of src/Telemetry.cpp leave as it is, and when they complete it.
use beatrice.Base.{◌≡◌, refl, ◌∙◌, Bool, true, false, List, [], ◌∷◌, if◌then◌else◌}
use beatrice.Telemetry.Spans.{
  TelemetrySpan, Call, adds_label, adds_tag, adds_metric, sets_status, set_status, call, calls,
}

-- One of the calls sets the status.
abbrev pub sets : List Call → Bool
sets [] = false
sets (sets_status success message ∷ cs) = true
sets (adds_label key value ∷ cs) = sets cs
sets (adds_tag key value ∷ cs) = sets cs
sets (adds_metric key value ∷ cs) = sets cs

pub calls-completed :
    (s : TelemetrySpan) (cs : List Call)
    → (calls s cs).completed ≡ (if sets cs then true else s.completed)
unfolding calls call set_status
calls-completed s [] = refl
calls-completed s (adds_label key value ∷ cs) = calls-completed (call s (adds_label key value)) cs
calls-completed s (adds_tag key value ∷ cs) = calls-completed (call s (adds_tag key value)) cs
calls-completed s (adds_metric key value ∷ cs) = calls-completed (call s (adds_metric key value)) cs
calls-completed s (sets_status success message ∷ cs) =
    calls-completed (call s (sets_status success message)) cs ∙ either (sets cs)
  where
    either : (b : Bool) → (if b then true else true) ≡ true
    either true = refl
    either false = refl

pub calls-start : (s : TelemetrySpan) (cs : List Call) → (calls s cs).start_time ≡ s.start_time
unfolding calls call set_status
calls-start s [] = refl
calls-start s (adds_label key value ∷ cs) = calls-start (call s (adds_label key value)) cs
calls-start s (adds_tag key value ∷ cs) = calls-start (call s (adds_tag key value)) cs
calls-start s (adds_metric key value ∷ cs) = calls-start (call s (adds_metric key value)) cs
calls-start s (sets_status success message ∷ cs) =
    calls-start (call s (sets_status success message)) cs

pub calls-name : (s : TelemetrySpan) (cs : List Call) → (calls s cs).name ≡ s.name
unfolding calls call set_status
calls-name s [] = refl
calls-name s (adds_label key value ∷ cs) = calls-name (call s (adds_label key value)) cs
calls-name s (adds_tag key value ∷ cs) = calls-name (call s (adds_tag key value)) cs
calls-name s (adds_metric key value ∷ cs) = calls-name (call s (adds_metric key value)) cs
calls-name s (sets_status success message ∷ cs) =
    calls-name (call s (sets_status success message)) cs
