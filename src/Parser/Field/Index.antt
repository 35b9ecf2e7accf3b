-- ===== src/Parser/Field/Index.antt =====
-- The index map of a protocol points at its fields.
use beatrice.Base.{
  ℕ, zero, suc, ◌-◌, ◌<◌, ◌≡◌, refl, ◌∙◌, ap, List, [], ◌∷◌, ◌++◌, some, Text, text_eq, length,
  get_elem?, length-append, arith, if◌then◌else◌, Option-cases, inl, inr,
}
use beatrice.Base.Maps.{lookup, lookup-insert}
use beatrice.Parser.Field.{FieldDefinition, ProtocolDefinition, new_protocol, add_field, get_field}

get_elem?-last {ℓ} :
    {A : Type ℓ} (xs : List A) (a : A) → get_elem? (xs ++ a ∷ []) (length xs) ≡ some a
get_elem?-last [] a = refl
get_elem?-last (x ∷ xs) a = get_elem?-last xs a

get_elem?-append_left {ℓ} :
    {A : Type ℓ} (xs ys : List A) (i : ℕ) → i < length xs → get_elem? (xs ++ ys) i ≡ get_elem? xs i
get_elem?-append_left [] ys i h = elim h [ ]
get_elem?-append_left (x ∷ xs) ys zero h = refl
get_elem?-append_left (x ∷ xs) ys (suc i) h = get_elem?-append_left xs ys i (omega arith)

-- The map holds indices within the field list only.
abbrev pub IsIndexed : ProtocolDefinition → Type 0
IsIndexed p = (k : Text) (i : ℕ) → lookup k p.field_index_map ≡ some i → i < length p.fields

pub new_protocol-IsIndexed : (name version : Text) → IsIndexed (new_protocol name version)
unfolding new_protocol lookup
new_protocol-IsIndexed name version k i h = cc

add_field-IsIndexed :
    (p : ProtocolDefinition) (f : FieldDefinition) → IsIndexed p → IsIndexed (add_field p f)
unfolding add_field
add_field-IsIndexed p f v k i h = ground (
  arith,
  lookup-insert f.name k (length (p.fields ++ f ∷ []) - 1) p.field_index_map,
  length-append p.fields (f ∷ []),
  v k i,
)

last_index :
    (p : ProtocolDefinition) (f : FieldDefinition)
    → length (p.fields ++ f ∷ []) - 1 ≡ length p.fields
last_index p f = omega (arith, length-append p.fields (f ∷ []))

old_fields :
    (p : ProtocolDefinition) (f : FieldDefinition) (name : Text) (i : ℕ)
    → IsIndexed p
    → lookup name p.field_index_map ≡ some i
    → (i < length p.fields) × (get_elem? (p.fields ++ f ∷ []) i ≡ get_elem? p.fields i)
old_fields p f name i v e = (v name i e, get_elem?-append_left p.fields (f ∷ []) i (v name i e))

-- After addField, getField finds the new field under its name, and under any other name what it
-- found before, if the indices of the map were in range before.
pub get_field-add_field :
    (p : ProtocolDefinition) (f : FieldDefinition) (name : Text)
    → IsIndexed p
    → get_field (add_field p f) name ≡ (if text_eq f.name name then some f else get_field p name)
unfolding get_field add_field
get_field-add_field p f name v =
    let found = lookup-insert f.name name (length (p.fields ++ f ∷ []) - 1) p.field_index_map in
    let longer = length-append p.fields (f ∷ []) in
    let last = ap (get_elem? (p.fields ++ f ∷ [])) (last_index p f) ∙ get_elem?-last p.fields f in
    elim (Option-cases (lookup name p.field_index_map)) [
      | inl e ↦ ground (arith, found, longer, last)
      | inr (i, e) ↦ ground (arith, found, longer, last, old_fields p f name i v e)
    ]
