-- ===== src/Metrics/Handles.antt =====
-- Pointers to metrics: creating a metric again under its name cuts off those who hold the old one.
use beatrice.Base.{
  ℕ, ◌<◌, ◌≡◌, refl, ◌∙◌, false, List, [], ◌∷◌, ◌++◌, Option, none, some, length, get_elem?,
  get_elem?-set, get_elem?-lt, get_elem?-append, length-append, Text, text_eq_iff, ◌==◌, arith,
  Option-cases, inl, inr,
}
use beatrice.Base.Doubles.{Doubles}
use beatrice.Base.Maps.{lookup, insert, lookup-insert}
use beatrice.Metrics.{
  Metric, Body, counter_value, MetricsRegistry, new_counter, register, create_counter, update_body,
  added, increment_by, increment,
}

-- What a reader of the registry sees under a name.
abbrev pub body_at : MetricsRegistry → Text → Option Body
body_at r name = elim (lookup name r.metrics) [
  | none ↦ none
  | some i ↦ elim (get_elem? r.objects i) [ none ↦ none | some m ↦ some m.body ]
]

-- Increments by several amounts through one pointer.
abbrev pub increments : Doubles → MetricsRegistry → ℕ → List ℕ → MetricsRegistry
increments d r handle [] = r
increments d r handle (amount ∷ amounts) =
    increments d (increment_by d r handle amount) handle amounts

pub update_body-other :
    (f : Body → Body) (ms : List Metric) (i j : ℕ)
    → (i == j) ≡ false
    → get_elem? (update_body f ms i) j ≡ get_elem? ms j
unfolding update_body
update_body-other f ms i j apart = elim (Option-cases (get_elem? ms i)) [
  | inl nothing ↦ ground (arith, nothing)
  | inr (m, found) ↦ ground (
    arith,
    found,
    apart,
    get_elem?-set ms i j (record m { body = f m.body }) (get_elem?-lt ms i found),
  )
]

increments-objects :
    (d : Doubles) (r : MetricsRegistry) (i j : ℕ) (name : Text) (amounts : List ℕ)
    → (i == j) ≡ false
    → lookup name r.metrics ≡ some j
    → body_at (increments d r i amounts) name ≡ body_at r name
unfolding increment_by
increments-objects d r i j name [] apart e = refl
increments-objects d r i j name (amount ∷ amounts) apart e =
    increments-objects d (increment_by d r i amount) i j name amounts apart e
    ∙ ground (arith, e, update_body-other (added d amount) r.objects i j apart)

-- Creating a counter under a name that has one points the name at a new counter at zero: whatever
-- the holder of the old pointer adds from then on, a reader of the registry sees zero.
pub create_counter-shadows :
    (d : Doubles) (r : MetricsRegistry) (name description : Text) (i : ℕ) (amounts : List ℕ)
    → lookup name r.metrics ≡ some i
    → i < length r.objects
    → body_at (increments d (create_counter d r name description).0 i amounts) name
      ≡ some (counter_value d.zero_point)
unfolding create_counter register new_counter
create_counter-shadows d r name description i amounts held inside =
    increments-objects d (create_counter d r name description).0 i (length r.objects) name amounts
      (ground (arith, inside)) named
    ∙ ground (
      arith,
      named,
      get_elem?-append r.objects (new_counter d name description ∷ []) (length r.objects),
    )
  where
    named : lookup name (insert name (length r.objects) r.metrics) ≡ some (length r.objects)
    named =
        ground (arith, lookup-insert name name (length r.objects) r.metrics, text_eq_iff name name)

-- What the registry has under the name of a counter that is new and incremented once.
pub create_counter-increment :
    (d : Doubles) (r : MetricsRegistry) (name description : Text)
    → body_at
        (increment d
          (create_counter d r name description).0
          (create_counter d r name description).1)
        name
      ≡ some (counter_value (d.add d.zero_point (d.of_uint64 1)))
unfolding increment increment_by update_body added create_counter register new_counter
create_counter-increment d r name description = ground (
  arith,
  lookup-insert name name (length r.objects) r.metrics,
  text_eq_iff name name,
  last_created,
  length-append r.objects (new_counter d name description ∷ []),
  get_elem?-set (r.objects ++ new_counter d name description ∷ []) (length r.objects)
      (length r.objects)
      (record (new_counter d name description) {
        body = counter_value (d.add d.zero_point (d.of_uint64 1));
      })
      (omega (arith, length-append r.objects (new_counter d name description ∷ []))),
)
  where
    last_created :
        get_elem? (r.objects ++ new_counter d name description ∷ []) (length r.objects)
        ≡ some (new_counter d name description)
    last_created =
        ground (
          arith,
          get_elem?-append r.objects (new_counter d name description ∷ []) (length r.objects),
        )
