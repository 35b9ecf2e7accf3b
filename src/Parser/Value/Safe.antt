-- ===== src/Parser/Value/Safe.antt =====
-- When extractField returns: every read is in range and every shift within its type.
use beatrice.Base.{
  ℕ, ◌+◌, ◌≤◌, ◌<◌, ◌≡◌, refl, [], true, some, length, Text, le→ltb, ok, Ensures, Yields,
  Yields->>=, Ensures-Yields, Yields-Ensures, Fault, signed_overflow, null_pointer,
  callback_exception, Option, Option-cases, arith, inl, inr,
}
use beatrice.Base.Words.{size_add, size_mod}
use beatrice.Parser.Field.{FieldType, FieldDefinition}
use beatrice.Parser.Field.Length.{Fits}
use beatrice.Parser.Value.{Runtime, new_value}
use beatrice.Parser.Value.Extract.{
  extract_integer, slice, in_clock, format_timestamp, formatted_by, extract_field,
}
use beatrice.Parser.Value.Reads.{slice_ok}
use beatrice.Parser.Value.Typed.{Readable, IsTyped, Writes, typed_value_ok}

abbrev pub IsReadable : FieldDefinition → Type 0
IsReadable f = Fits f × Readable f.type f.length

-- The faults of writing a value out: the clock overflows, std::localtime gives a null pointer, or a
-- field's own formatter throws.
abbrev pub IsSpelling : Fault → Type 0
IsSpelling signed_overflow = Unit
IsSpelling null_pointer = Unit
IsSpelling callback_exception = Unit
IsSpelling _ = ⊥

Writes-IsSpelling :
    (rt : Runtime) (packet : Text) (f : FieldDefinition) (old bytes : Text) (t : FieldType)
    → Writes IsSpelling rt packet f old bytes t
unfolding format_timestamp formatted_by
Writes-IsSpelling rt packet f old bytes FieldType.uint8 = tt
Writes-IsSpelling rt packet f old bytes FieldType.uint16 = tt
Writes-IsSpelling rt packet f old bytes FieldType.uint32 = tt
Writes-IsSpelling rt packet f old bytes FieldType.uint64 = tt
Writes-IsSpelling rt packet f old bytes FieldType.int8 = tt
Writes-IsSpelling rt packet f old bytes FieldType.int16 = tt
Writes-IsSpelling rt packet f old bytes FieldType.int32 = tt
Writes-IsSpelling rt packet f old bytes FieldType.int64 = tt
Writes-IsSpelling rt packet f old bytes FieldType.float32 = tt
Writes-IsSpelling rt packet f old bytes FieldType.float64 = tt
Writes-IsSpelling rt packet f old bytes FieldType.bytes = tt
Writes-IsSpelling rt packet f old bytes FieldType.string = tt
Writes-IsSpelling rt packet f old bytes FieldType.boolean = tt
Writes-IsSpelling rt packet f old bytes FieldType.mac_address = tt
Writes-IsSpelling rt packet f old bytes FieldType.ipv4_address = tt
Writes-IsSpelling rt packet f old bytes FieldType.ipv6_address = tt
Writes-IsSpelling rt packet f old bytes FieldType.timestamp = λ n _. ground arith
Writes-IsSpelling rt packet f old bytes FieldType.custom = elim (Option-cases f.formatter) [
  | inl e ↦ rw e tt
  | inr (format, e) ↦ rw e (elim (Option-cases (format bytes)) [
    | inl throws ↦ rw throws tt
    | inr (text, gives) ↦ rw gives tt
  ])
]

module _ (rt : Runtime) (packet : Text) (f : FieldDefinition) (fits : length packet < size_mod)
    (readable : IsReadable f) (inside : f.offset + f.length ≤ length packet) where
  extract_field-Yields :
      (Q : Fault → Type 0)
      → ((old bytes : Text) → Writes Q rt packet f old bytes f.type)
      → Yields Q IsTyped (extract_field rt packet f)
  unfolding extract_field new_value
  extract_field-Yields Q writes =
      rw (le→ltb (length packet) (size_add f.offset f.length) (omega (arith, readable.0))) (
        Yields->>= Q (λ bs. length bs ≡ f.length) IsTyped (slice packet f.offset f.length) _
          (Ensures-Yields Q (λ bs. length bs ≡ f.length) (slice packet f.offset f.length)
            (slice_ok packet f.offset f.length inside))
          λ bs whole.
            typed_value_ok Q rt packet f bs _ fits inside whole refl f.type readable.1
              (writes [] bs))

-- A field that is readable and ends within the packet is extracted, with no read out of bounds and
-- no shift beyond its type, to a valid value whose variant fits its type, unless writing the value
-- out fails: the clock overflows on a timestamp, std::localtime gives a null pointer, or the field's
-- own formatter throws.
pub extract_field_ok :
    (rt : Runtime) (packet : Text) (f : FieldDefinition)
    → length packet < size_mod
    → IsReadable f
    → f.offset + f.length ≤ length packet
    → Yields IsSpelling IsTyped (extract_field rt packet f)
extract_field_ok rt packet f fits readable inside =
    extract_field-Yields rt packet f fits readable inside IsSpelling
      (λ old bytes. Writes-IsSpelling rt packet f old bytes f.type)

-- For a field of the type, writing out succeeds on this packet: a timestamp's seconds are within the
-- clock and have a local time, and a field's own formatter throws on no bytes.
abbrev pub IsWritten : Runtime → Text → FieldDefinition → FieldType → Type 0
IsWritten rt packet f FieldType.timestamp =
    (n : ℕ)
    → extract_integer 64 packet f.offset f.length f.endianness ≡ ok n
    → (in_clock n ≡ true) × (text : Text) × (rt.local_time n ≡ some text)
IsWritten rt packet f FieldType.custom =
    (format : Text → Option Text) (bytes : Text)
    → f.formatter ≡ some format
    → (text : Text) × (format bytes ≡ some text)
IsWritten rt packet f _ = Unit

IsWritten-Writes :
    (rt : Runtime) (packet : Text) (f : FieldDefinition) (old bytes : Text) (t : FieldType)
    → IsWritten rt packet f t
    → Writes (λ e. ⊥) rt packet f old bytes t
unfolding format_timestamp formatted_by
IsWritten-Writes rt packet f old bytes FieldType.uint8 h = tt
IsWritten-Writes rt packet f old bytes FieldType.uint16 h = tt
IsWritten-Writes rt packet f old bytes FieldType.uint32 h = tt
IsWritten-Writes rt packet f old bytes FieldType.uint64 h = tt
IsWritten-Writes rt packet f old bytes FieldType.int8 h = tt
IsWritten-Writes rt packet f old bytes FieldType.int16 h = tt
IsWritten-Writes rt packet f old bytes FieldType.int32 h = tt
IsWritten-Writes rt packet f old bytes FieldType.int64 h = tt
IsWritten-Writes rt packet f old bytes FieldType.float32 h = tt
IsWritten-Writes rt packet f old bytes FieldType.float64 h = tt
IsWritten-Writes rt packet f old bytes FieldType.bytes h = tt
IsWritten-Writes rt packet f old bytes FieldType.string h = tt
IsWritten-Writes rt packet f old bytes FieldType.boolean h = tt
IsWritten-Writes rt packet f old bytes FieldType.mac_address h = tt
IsWritten-Writes rt packet f old bytes FieldType.ipv4_address h = tt
IsWritten-Writes rt packet f old bytes FieldType.ipv6_address h = tt
IsWritten-Writes rt packet f old bytes FieldType.timestamp h =
    λ n read. let (inside, text, gives) = h n read in rw (inside, gives) tt
IsWritten-Writes rt packet f old bytes FieldType.custom h = elim (Option-cases f.formatter) [
  | inl e ↦ rw e tt
  | inr (format, e) ↦ let (text, gives) = h format bytes e in rw (e, gives) tt
]

-- With every value written out, extraction returns.
pub extract_field-IsTyped :
    (rt : Runtime) (packet : Text) (f : FieldDefinition)
    → length packet < size_mod
    → IsReadable f
    → IsWritten rt packet f f.type
    → f.offset + f.length ≤ length packet
    → Ensures IsTyped (extract_field rt packet f)
extract_field-IsTyped rt packet f fits readable written inside =
    Yields-Ensures IsTyped (extract_field rt packet f) (
      extract_field-Yields rt packet f fits readable inside (λ e. ⊥)
        (λ old bytes. IsWritten-Writes rt packet f old bytes f.type written))
