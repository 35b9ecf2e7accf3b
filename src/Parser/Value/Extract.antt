-- ===== src/Parser/Value/Extract.antt =====
-- extractValue and extractField of src/parser/ProtocolParser.cpp.
use beatrice.Base.{
  ℕ, zero, suc, ◌+◌, ◌*◌, ◌%◌, ◌^◌, bit_or, Bool, true, false, not, Option, none, some, length,
  get_elem?, take, drop, Text, ltb, leb, ◌==◌, if◌then◌else◌, Result, ok, err, ◌>>=◌, or_fault,
  out_of_bounds, bad_shift, signed_overflow, null_pointer, callback_exception, ◌-◌, ◌||◌,
}
use beatrice.Base.Words.{size_add, size_sub}
use beatrice.Parser.Field.{FieldType, Endianness, little, big, network, host, FieldDefinition}
use beatrice.Parser.Value.{Runtime, Value, FieldValueType, FieldValue, new_value}
use beatrice.Parser.Value.Format.{
  bytes_to_hex, format_mac_address, format_ipv4_address, format_ipv6_address,
}

abbrev pub is_little : Endianness → Bool
is_little little = true
is_little big = false
is_little network = false
is_little host = false

-- packet[i]
abbrev pub read_byte : Text → ℕ → Result ℕ
read_byte packet i = or_fault (get_elem? packet i) out_of_bounds

-- The bits of the type that a shift is made in: an integer narrower than int is promoted to int.
abbrev pub shift_width : ℕ → ℕ
shift_width word = if leb word 32 then 32 else word

-- for (i; rounds more) value |= static_cast<T>(packet[at i]) << (i * 8), for a T of `word` bits.
-- The bits of a sign extension lie above those that T keeps.
unfoldable pub gather : ℕ → Text → (ℕ → ℕ) → ℕ → ℕ → ℕ → Result ℕ
gather word packet at zero i value = ok value
gather word packet at (suc rounds) i value = elim (ltb (i * 8) (shift_width word)) [
  | false ↦ err bad_shift
  | true ↦ read_byte packet (at i) >>= λ byte.
      gather word packet at rounds (suc i) (bit_or value (byte * 2 ^ (i * 8)) % 2 ^ word)
]

-- The index that round i reads.
unfoldable pub place : Endianness → ℕ → ℕ → ℕ → ℕ
place endian offset len i =
    if is_little endian then size_add offset i else size_sub (size_sub (size_add offset len) 1) i

-- extractValue<T> for an integer type T of `word` bits.
unfoldable pub extract_integer : ℕ → Text → ℕ → ℕ → Endianness → Result ℕ
unfolding gather place
extract_integer word packet offset len endian =
    if ltb (length packet) (size_add offset len)
    then ok 0
    else gather word packet (place endian offset len) len 0 0

-- extractValue<float>: the bits of the result.
unfoldable pub extract_float : Text → ℕ → ℕ → Endianness → Result ℕ
extract_float packet offset len endian =
    if ltb (length packet) (size_add offset len)
    then ok 0
    else if len == 4
    then (do
      a ← read_byte packet offset
      b ← read_byte packet (size_add offset 1)
      c ← read_byte packet (size_add offset 2)
      d ← read_byte packet (size_add offset 3)
      ok (
          if is_little endian
          then bit_or (bit_or (bit_or a (b * 2 ^ 8)) (c * 2 ^ 16)) (d * 2 ^ 24) % 2 ^ 32
          else bit_or (bit_or (bit_or (a * 2 ^ 24) (b * 2 ^ 16)) (c * 2 ^ 8)) d % 2 ^ 32))
    else ok 0

-- extractValue<double>: the bits of the result.
unfoldable pub extract_double : Text → ℕ → ℕ → Endianness → Result ℕ
unfolding gather place
extract_double packet offset len endian =
    if ltb (length packet) (size_add offset len)
    then ok 0
    else if len == 8
    then gather 64 packet (place endian offset 8) 8 0 0
    else ok 0

-- std::vector(packet.begin() + offset, packet.begin() + offset + len)
unfoldable pub slice : Text → ℕ → ℕ → Result Text
slice packet offset len =
    if leb (offset + len) (length packet)
    then ok (take len (drop offset packet))
    else err out_of_bounds

-- fieldData[0] != 0
unfoldable pub first_is_set : Text → Result Bool
first_is_set bytes = read_byte bytes 0 >>= λ b. ok (not (b == 0))

-- The seconds, as the bits of a time_t, whose nanoseconds an int64 holds.
abbrev pub in_clock : ℕ → Bool
in_clock seconds = leb seconds 9223372036 || leb (2 ^ 64 - 9223372036) seconds

-- formatTimestamp: system_clock::from_time_t multiplies to nanoseconds.
unfoldable pub format_timestamp : Runtime → ℕ → Result Text
format_timestamp rt timestamp =
    if in_clock timestamp
    then or_fault (rt.local_time timestamp) null_pointer
    else err signed_overflow

unfoldable pub formatted_by : Option (Text → Option Text) → Text → Text → Result Text
formatted_by none old bytes = ok old
formatted_by (some f) old bytes = or_fault (f bytes) callback_exception

-- The switch of extractField: `bytes` is fieldData, `v` the value with rawHex set.
unfoldable pub typed_value :
    Runtime → Text → FieldDefinition → Text → FieldValue → FieldType → Result FieldValue
typed_value rt packet f bytes v FieldType.uint8 = do
  n ← extract_integer 8 packet f.offset f.length f.endianness
  ok (record v { type = FieldValueType.uint8; value = Value.uint8 n })
typed_value rt packet f bytes v FieldType.uint16 = do
  n ← extract_integer 16 packet f.offset f.length f.endianness
  ok (record v { type = FieldValueType.uint16; value = Value.uint16 n })
typed_value rt packet f bytes v FieldType.uint32 = do
  n ← extract_integer 32 packet f.offset f.length f.endianness
  ok (record v { type = FieldValueType.uint32; value = Value.uint32 n })
typed_value rt packet f bytes v FieldType.uint64 = do
  n ← extract_integer 64 packet f.offset f.length f.endianness
  ok (record v { type = FieldValueType.uint64; value = Value.uint64 n })
typed_value rt packet f bytes v FieldType.int8 = do
  n ← extract_integer 8 packet f.offset f.length f.endianness
  ok (record v { type = FieldValueType.int8; value = Value.int8 n })
typed_value rt packet f bytes v FieldType.int16 = do
  n ← extract_integer 16 packet f.offset f.length f.endianness
  ok (record v { type = FieldValueType.int16; value = Value.int16 n })
typed_value rt packet f bytes v FieldType.int32 = do
  n ← extract_integer 32 packet f.offset f.length f.endianness
  ok (record v { type = FieldValueType.int32; value = Value.int32 n })
typed_value rt packet f bytes v FieldType.int64 = do
  n ← extract_integer 64 packet f.offset f.length f.endianness
  ok (record v { type = FieldValueType.int64; value = Value.int64 n })
typed_value rt packet f bytes v FieldType.float32 = do
  n ← extract_float packet f.offset f.length f.endianness
  ok (record v { type = FieldValueType.float32; value = Value.float32 n })
typed_value rt packet f bytes v FieldType.float64 = do
  n ← extract_double packet f.offset f.length f.endianness
  ok (record v { type = FieldValueType.float64; value = Value.float64 n })
typed_value rt packet f bytes v FieldType.bytes =
    ok (record v { type = FieldValueType.bytes; value = Value.vector bytes })
typed_value rt packet f bytes v FieldType.string =
    ok (record v { type = FieldValueType.string; value = Value.string bytes })
typed_value rt packet f bytes v FieldType.boolean = do
  b ← first_is_set bytes
  ok (record v { type = FieldValueType.boolean; value = Value.boolean b })
typed_value rt packet f bytes v FieldType.mac_address = ok (record v {
  type = FieldValueType.mac_address;
  value = Value.vector bytes;
  formatted = format_mac_address bytes;
})
typed_value rt packet f bytes v FieldType.ipv4_address = ok (record v {
  type = FieldValueType.ipv4_address;
  value = Value.vector bytes;
  formatted = format_ipv4_address bytes;
})
typed_value rt packet f bytes v FieldType.ipv6_address = ok (record v {
  type = FieldValueType.ipv6_address;
  value = Value.vector bytes;
  formatted = format_ipv6_address bytes;
})
typed_value rt packet f bytes v FieldType.timestamp = do
  n ← extract_integer 64 packet f.offset f.length f.endianness
  text ← format_timestamp rt n
  ok (record v { type = FieldValueType.timestamp; value = Value.uint64 n; formatted = text })
typed_value rt packet f bytes v FieldType.custom = do
  text ← formatted_by f.formatter v.formatted bytes
  ok (record v { type = FieldValueType.custom; value = Value.vector bytes; formatted = text })

unfoldable pub extract_field : Runtime → Text → FieldDefinition → Result FieldValue
unfolding new_value
extract_field rt packet f =
    if ltb (length packet) (size_add f.offset f.length) then ok new_value else (do
      bytes ← slice packet f.offset f.length
      typed_value rt packet f bytes
          (record new_value { raw_hex = bytes_to_hex bytes; valid = true }) f.type)
