-- ===== src/Parser/Value/Typed.antt =====
-- The switch of extractField gives a value of the type that it names.
use beatrice.Base.{
  ℕ, ◌+◌, ◌*◌, ◌≤◌, ◌<◌, ◌≡◌, refl, Bool, true, false, length, Text, ok, ◌>>=◌, Ensures, Yields,
  Yields->>=, Ensures-Yields, Fault, Result-cases, subst, Ensures->>=, arith, inl, inr,
}
use beatrice.Base.Words.{size_mod}
use beatrice.Parser.Field.{FieldType, FieldDefinition}
use beatrice.Parser.Value.{Runtime, Value, FieldValueType, FieldValue}
use beatrice.Parser.Value.Extract.{
  read_byte, shift_width, extract_integer, extract_float, extract_double, first_is_set,
  format_timestamp, formatted_by, typed_value,
}
use beatrice.Parser.Value.Reads.{
  Any, read_byte_ok, extract_integer_ok, extract_float_ok, extract_double_ok,
}

-- The lengths that the type of a field can be read with: an integer's bytes are shifted within the
-- promoted type, and a boolean has a first byte.
abbrev pub Readable : FieldType → ℕ → Type 0
Readable FieldType.uint8 n = n ≤ 4
Readable FieldType.uint16 n = n ≤ 4
Readable FieldType.uint32 n = n ≤ 4
Readable FieldType.uint64 n = n ≤ 8
Readable FieldType.int8 n = n ≤ 4
Readable FieldType.int16 n = n ≤ 4
Readable FieldType.int32 n = n ≤ 4
Readable FieldType.int64 n = n ≤ 8
Readable FieldType.timestamp n = n ≤ 8
Readable FieldType.boolean n = 1 ≤ n
Readable _ n = Unit

-- The variant holds the alternative that the value's type names.
abbrev pub agrees : FieldValueType → Value → Bool
agrees FieldValueType.uint8 (Value.uint8 n) = true
agrees FieldValueType.uint16 (Value.uint16 n) = true
agrees FieldValueType.uint32 (Value.uint32 n) = true
agrees FieldValueType.uint64 (Value.uint64 n) = true
agrees FieldValueType.int8 (Value.int8 n) = true
agrees FieldValueType.int16 (Value.int16 n) = true
agrees FieldValueType.int32 (Value.int32 n) = true
agrees FieldValueType.int64 (Value.int64 n) = true
agrees FieldValueType.float32 (Value.float32 n) = true
agrees FieldValueType.float64 (Value.float64 n) = true
agrees FieldValueType.bytes (Value.vector b) = true
agrees FieldValueType.string (Value.string b) = true
agrees FieldValueType.boolean (Value.boolean b) = true
agrees FieldValueType.mac_address (Value.vector b) = true
agrees FieldValueType.ipv4_address (Value.vector b) = true
agrees FieldValueType.ipv6_address (Value.vector b) = true
agrees FieldValueType.timestamp (Value.uint64 n) = true
agrees FieldValueType.custom (Value.vector b) = true
agrees _ _ = false

-- A valid value whose variant fits its type.
abbrev pub IsTyped : FieldValue → Type 0
IsTyped v = (v.valid ≡ true) × (agrees v.type v.value ≡ true)

-- What the switch writes out of a value of type t ends in no other fault than one of Q.
abbrev pub Writes :
    (Fault → Type 0) → Runtime → Text → FieldDefinition → Text → Text → FieldType → Type 0
Writes Q rt packet f old bytes FieldType.timestamp =
    (n : ℕ)
    → extract_integer 64 packet f.offset f.length f.endianness ≡ ok n
    → Yields Q (λ text. Unit) (format_timestamp rt n)
Writes Q rt packet f old bytes FieldType.custom =
    Yields Q (λ text. Unit) (formatted_by f.formatter old bytes)
Writes Q rt packet f old bytes _ = Unit

-- The switch returns a typed value for every type, given the bytes of the field.
module _ (Q : Fault → Type 0) (rt : Runtime) (packet : Text) (f : FieldDefinition) (bytes : Text)
    (v : FieldValue) (fits : length packet < size_mod)
    (inside : f.offset + f.length ≤ length packet) (whole : length bytes ≡ f.length)
    (valid : v.valid ≡ true) where
  integer_ok :
      (word : ℕ) (g : ℕ → FieldValue)
      → f.length * 8 ≤ shift_width word
      → ((n : ℕ) → IsTyped (g n))
      → Yields Q IsTyped
          (extract_integer word packet f.offset f.length f.endianness >>= λ n. ok (g n))
  integer_ok word g room h = Ensures-Yields Q IsTyped _ (
      Ensures->>= Any IsTyped (extract_integer word packet f.offset f.length f.endianness) _
        (extract_integer_ok packet f.offset f.length fits inside f.endianness word room) λ n _. h n)

  pub typed_value_ok :
      (t : FieldType)
      → Readable t f.length
      → Writes Q rt packet f v.formatted bytes t
      → Yields Q IsTyped (typed_value rt packet f bytes v t)
  unfolding typed_value
  typed_value_ok FieldType.uint8 h _ = integer_ok 8 _ (omega arith) λ n. (valid, refl)
  typed_value_ok FieldType.uint16 h _ = integer_ok 16 _ (omega arith) λ n. (valid, refl)
  typed_value_ok FieldType.uint32 h _ = integer_ok 32 _ (omega arith) λ n. (valid, refl)
  typed_value_ok FieldType.uint64 h _ = integer_ok 64 _ (omega arith) λ n. (valid, refl)
  typed_value_ok FieldType.int8 h _ = integer_ok 8 _ (omega arith) λ n. (valid, refl)
  typed_value_ok FieldType.int16 h _ = integer_ok 16 _ (omega arith) λ n. (valid, refl)
  typed_value_ok FieldType.int32 h _ = integer_ok 32 _ (omega arith) λ n. (valid, refl)
  typed_value_ok FieldType.int64 h _ = integer_ok 64 _ (omega arith) λ n. (valid, refl)
  typed_value_ok FieldType.timestamp h writes =
      elim (Result-cases (extract_integer 64 packet f.offset f.length f.endianness)) [
        | inl (n, read) ↦ rw read (
            Yields->>= Q (λ text. Unit) IsTyped (format_timestamp rt n) _ (writes n read)
              λ text _. (valid, refl))
        | inr (e, fails) ↦ absurd (
            subst (Ensures Any) fails (
              extract_integer_ok packet f.offset f.length fits inside f.endianness 64
                (omega arith)))
      ]
  typed_value_ok FieldType.custom h writes =
      Yields->>= Q (λ text. Unit) IsTyped (formatted_by f.formatter v.formatted bytes) _ writes
        λ text _. (valid, refl)
  typed_value_ok FieldType.float32 h _ = Ensures-Yields Q IsTyped _ (
      Ensures->>= Any IsTyped (extract_float packet f.offset f.length f.endianness) _
        (extract_float_ok packet f.offset f.length fits inside f.endianness) λ n _. (valid, refl))
  typed_value_ok FieldType.float64 h _ = Ensures-Yields Q IsTyped _ (
      Ensures->>= Any IsTyped (extract_double packet f.offset f.length f.endianness) _
        (extract_double_ok packet f.offset f.length fits inside f.endianness) λ n _. (valid, refl))
  typed_value_ok FieldType.boolean h _ =
      Ensures-Yields Q IsTyped _
        (Ensures->>= (λ b. Unit) IsTyped (first_is_set bytes) _ first_ok λ b _. (valid, refl))
    where
      first_ok : Ensures (λ b. Unit) (first_is_set bytes)
      first_ok =
          unfold first_is_set in
          Ensures->>= Any (λ b. Unit) (read_byte bytes 0) _ (read_byte_ok bytes 0 (omega arith))
            λ b _. tt
  typed_value_ok FieldType.bytes h _ = (valid, refl)
  typed_value_ok FieldType.string h _ = (valid, refl)
  typed_value_ok FieldType.mac_address h _ = (valid, refl)
  typed_value_ok FieldType.ipv4_address h _ = (valid, refl)
  typed_value_ok FieldType.ipv6_address h _ = (valid, refl)
