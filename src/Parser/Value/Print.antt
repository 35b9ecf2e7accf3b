-- ===== src/Parser/Value/Print.antt =====
-- FieldValue::toString, toHexString and toJsonString of src/parser/ParserResult.cpp, and the
-- std::get of a FieldValue. std::get of another alternative throws.
use beatrice.Base.{
  ℕ, ◌-◌, ◌^◌, Bool, true, false, not, [], ◌∷◌, ◌++◌, length, take, is_empty, Text, codes, ltb,
  if◌then◌else◌, decimal, hex_byte, Result, ok, err, ◌>>=◌, bad_variant_access,
}
use beatrice.Parser.Value.{Runtime, Value, FieldValueType, FieldValue}

unfoldable pub get_uint8 : Value → Result ℕ
get_uint8 (Value.uint8 a) = ok a
get_uint8 _ = err bad_variant_access

unfoldable pub get_uint16 : Value → Result ℕ
get_uint16 (Value.uint16 a) = ok a
get_uint16 _ = err bad_variant_access

unfoldable pub get_uint32 : Value → Result ℕ
get_uint32 (Value.uint32 a) = ok a
get_uint32 _ = err bad_variant_access

unfoldable pub get_uint64 : Value → Result ℕ
get_uint64 (Value.uint64 a) = ok a
get_uint64 _ = err bad_variant_access

unfoldable pub get_int8 : Value → Result ℕ
get_int8 (Value.int8 a) = ok a
get_int8 _ = err bad_variant_access

unfoldable pub get_int16 : Value → Result ℕ
get_int16 (Value.int16 a) = ok a
get_int16 _ = err bad_variant_access

unfoldable pub get_int32 : Value → Result ℕ
get_int32 (Value.int32 a) = ok a
get_int32 _ = err bad_variant_access

unfoldable pub get_int64 : Value → Result ℕ
get_int64 (Value.int64 a) = ok a
get_int64 _ = err bad_variant_access

unfoldable pub get_float32 : Value → Result ℕ
get_float32 (Value.float32 a) = ok a
get_float32 _ = err bad_variant_access

unfoldable pub get_float64 : Value → Result ℕ
get_float64 (Value.float64 a) = ok a
get_float64 _ = err bad_variant_access

unfoldable pub get_vector : Value → Result Text
get_vector (Value.vector a) = ok a
get_vector _ = err bad_variant_access

unfoldable pub get_string : Value → Result Text
get_string (Value.string a) = ok a
get_string _ = err bad_variant_access

unfoldable pub get_boolean : Value → Result Bool
get_boolean (Value.boolean a) = ok a
get_boolean _ = err bad_variant_access

-- std::to_string of a signed number of `word` bits.
unfoldable pub signed_decimal : ℕ → ℕ → Text
signed_decimal word n = if ltb n (2 ^ (word - 1)) then decimal n else b'-' ∷ decimal (2 ^ word - n)

unfoldable pub formatted_or : Text → Text
formatted_or formatted = if is_empty formatted then codes "formatted" else formatted

-- The switch of toString.
unfoldable pub typed_text : Runtime → FieldValue → FieldValueType → Result Text
unfolding get_uint8 get_uint16 get_uint32 get_uint64 get_int8 get_int16 get_int32 get_int64
    get_float32 get_float64 get_vector get_string get_boolean formatted_or
typed_text rt v FieldValueType.uint8 = do n ← get_uint8 v.value; ok (decimal n)
typed_text rt v FieldValueType.uint16 = do n ← get_uint16 v.value; ok (decimal n)
typed_text rt v FieldValueType.uint32 = do n ← get_uint32 v.value; ok (decimal n)
typed_text rt v FieldValueType.uint64 = do n ← get_uint64 v.value; ok (decimal n)
typed_text rt v FieldValueType.int8 = do n ← get_int8 v.value; ok (signed_decimal 8 n)
typed_text rt v FieldValueType.int16 = do n ← get_int16 v.value; ok (signed_decimal 16 n)
typed_text rt v FieldValueType.int32 = do n ← get_int32 v.value; ok (signed_decimal 32 n)
typed_text rt v FieldValueType.int64 = do n ← get_int64 v.value; ok (signed_decimal 64 n)
typed_text rt v FieldValueType.float32 = do n ← get_float32 v.value; ok (rt.float_text n)
typed_text rt v FieldValueType.float64 = do n ← get_float64 v.value; ok (rt.double_text n)
typed_text rt v FieldValueType.bytes = do
  bytes ← get_vector v.value
  ok (codes "[" ++ decimal (length bytes) ++ codes " bytes]")
typed_text rt v FieldValueType.string = get_string v.value
typed_text rt v FieldValueType.boolean = do
  b ← get_boolean v.value
  ok (if b then codes "true" else codes "false")
typed_text rt v FieldValueType.mac_address = ok (formatted_or v.formatted)
typed_text rt v FieldValueType.ipv4_address = ok (formatted_or v.formatted)
typed_text rt v FieldValueType.ipv6_address = ok (formatted_or v.formatted)
typed_text rt v FieldValueType.timestamp = ok (formatted_or v.formatted)
typed_text rt v FieldValueType.custom = ok (formatted_or v.formatted)

unfoldable pub to_text : Runtime → FieldValue → Result Text
to_text rt v = if not v.valid then ok (codes "INVALID") else typed_text rt v v.type

spaced : Text → Text
spaced [] = []
spaced (b ∷ bs) = hex_byte b ++ codes " " ++ spaced bs

abbrev is_bytes : FieldValueType → Bool
is_bytes FieldValueType.bytes = true
is_bytes _ = false

unfoldable pub to_hex_text : FieldValue → Result Text
unfolding spaced
to_hex_text v =
    if not v.valid
    then ok (codes "INVALID")
    else if is_bytes v.type
    then (do
      bytes ← get_vector v.value
      ok (spaced (take 16 bytes) ++ (if ltb 16 (length bytes) then codes "..." else [])))
    else ok v.raw_hex
