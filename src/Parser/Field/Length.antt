-- ===== src/Parser/Field/Length.antt =====
-- getTotalLength is the end of the farthest field.
use beatrice.Base.{ℕ, ◌+◌, ◌≤◌, ◌<◌, ◌≡◌, List, [], ◌∷◌, arith, max, All, refl}
use beatrice.Base.Words.{size_mod}
use beatrice.Parser.Field.{FieldDefinition, ProtocolDefinition, widest, get_total_length}

-- The sum of a field's offset and length does not wrap around in size_t.
abbrev pub Fits : FieldDefinition → Type 0
Fits f = f.offset + f.length < size_mod

-- The largest end of the fields, 0 if there are none.
abbrev pub farthest : List FieldDefinition → ℕ
farthest [] = 0
farthest (f ∷ fs) = max (f.offset + f.length) (farthest fs)

widest-farthest :
    (fs : List FieldDefinition) (o l : ℕ)
    → o + l < size_mod
    → All Fits fs
    → widest fs o l ≡ max (o + l) (farthest fs)
unfolding widest
widest-farthest [] o l h hs = omega arith
widest-farthest (f ∷ fs) o l h (hf, hs) =
    ground (arith, widest-farthest fs o l h hs, widest-farthest fs f.offset f.length hf hs)

-- For a protocol none of whose field ends wraps around in size_t, getTotalLength is the largest
-- offset + length of its fields, and 0 for no fields.
pub get_total_length-farthest :
    (p : ProtocolDefinition) → All Fits p.fields → get_total_length p ≡ farthest p.fields
unfolding get_total_length
get_total_length-farthest p h = by_fields p.fields h
  where
    by_fields :
        (fs : List FieldDefinition)
        → All Fits fs
        → (elim fs as (λ _. ℕ) [ [] ↦ 0 | f ∷ rest ↦ widest (f ∷ rest) 0 0 ]) ≡ farthest fs
    by_fields [] h = refl
    by_fields (f ∷ fs) h = ground (arith, widest-farthest (f ∷ fs) 0 0 (omega arith) h)

-- Every field of a long enough packet ends within it.
pub All-farthest :
    (fs : List FieldDefinition) (n : ℕ) → farthest fs ≤ n → All (λ f. f.offset + f.length ≤ n) fs
All-farthest [] n h = tt
All-farthest (f ∷ fs) n h = (omega arith, All-farthest fs n (omega arith))
