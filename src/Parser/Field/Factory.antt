-- ===== src/Parser/Field/Factory.antt =====
-- FieldFactory of src/parser/FieldDefinition.cpp.
use beatrice.Base.{ℕ, Bool, Option, none, Text}
use beatrice.Parser.Field.{
  FieldType, uint8, uint16, uint32, uint64, int8, int16, int32, int64, float32, float64, bytes,
  string, boolean, mac_address, ipv4_address, ipv6_address, timestamp, custom, Endianness, network,
  FieldDefinition,
}

-- FieldDefinition(n, off, len, t, desc, e, req)
unfoldable pub new_field : Text → ℕ → ℕ → FieldType → Text → Endianness → Bool → FieldDefinition
new_field name offset len type description endianness required = record {
  name = name;
  offset = offset;
  length = len;
  type = type;
  endianness = endianness;
  required = required;
  description = description;
  constraint = none;
  formatter = none;
  parser = none;
}

unfoldable pub create_uint8_field : Text → ℕ → Bool → Text → FieldDefinition
unfolding new_field
create_uint8_field name offset required desc = new_field name offset 1 uint8 desc network required

unfoldable pub create_uint16_field : Text → ℕ → Endianness → Bool → Text → FieldDefinition
unfolding new_field
create_uint16_field name offset endian required desc =
    new_field name offset 2 uint16 desc endian required

unfoldable pub create_uint32_field : Text → ℕ → Endianness → Bool → Text → FieldDefinition
unfolding new_field
create_uint32_field name offset endian required desc =
    new_field name offset 4 uint32 desc endian required

unfoldable pub create_uint64_field : Text → ℕ → Endianness → Bool → Text → FieldDefinition
unfolding new_field
create_uint64_field name offset endian required desc =
    new_field name offset 8 uint64 desc endian required

unfoldable pub create_int8_field : Text → ℕ → Bool → Text → FieldDefinition
unfolding new_field
create_int8_field name offset required desc = new_field name offset 1 int8 desc network required

unfoldable pub create_int16_field : Text → ℕ → Endianness → Bool → Text → FieldDefinition
unfolding new_field
create_int16_field name offset endian required desc =
    new_field name offset 2 int16 desc endian required

unfoldable pub create_int32_field : Text → ℕ → Endianness → Bool → Text → FieldDefinition
unfolding new_field
create_int32_field name offset endian required desc =
    new_field name offset 4 int32 desc endian required

unfoldable pub create_int64_field : Text → ℕ → Endianness → Bool → Text → FieldDefinition
unfolding new_field
create_int64_field name offset endian required desc =
    new_field name offset 8 int64 desc endian required

unfoldable pub create_float32_field : Text → ℕ → Endianness → Bool → Text → FieldDefinition
unfolding new_field
create_float32_field name offset endian required desc =
    new_field name offset 4 float32 desc endian required

unfoldable pub create_float64_field : Text → ℕ → Endianness → Bool → Text → FieldDefinition
unfolding new_field
create_float64_field name offset endian required desc =
    new_field name offset 8 float64 desc endian required

unfoldable pub create_boolean_field : Text → ℕ → Bool → Text → FieldDefinition
unfolding new_field
create_boolean_field name offset required desc =
    new_field name offset 1 boolean desc network required

unfoldable pub create_mac_address_field : Text → ℕ → Bool → Text → FieldDefinition
unfolding new_field
create_mac_address_field name offset required desc =
    new_field name offset 6 mac_address desc network required

unfoldable pub create_ipv4_address_field : Text → ℕ → Bool → Text → FieldDefinition
unfolding new_field
create_ipv4_address_field name offset required desc =
    new_field name offset 4 ipv4_address desc network required

unfoldable pub create_ipv6_address_field : Text → ℕ → Bool → Text → FieldDefinition
unfolding new_field
create_ipv6_address_field name offset required desc =
    new_field name offset 16 ipv6_address desc network required

unfoldable pub create_bytes_field : Text → ℕ → ℕ → Bool → Text → FieldDefinition
unfolding new_field
create_bytes_field name offset len required desc =
    new_field name offset len bytes desc network required

unfoldable pub create_string_field : Text → ℕ → ℕ → Bool → Text → FieldDefinition
unfolding new_field
create_string_field name offset len required desc =
    new_field name offset len string desc network required

unfoldable pub create_timestamp_field : Text → ℕ → ℕ → Endianness → Bool → Text → FieldDefinition
unfolding new_field
create_timestamp_field name offset len endian required desc =
    new_field name offset len timestamp desc endian required

unfoldable pub create_custom_field :
    Text
    → ℕ
    → ℕ
    → Option (Text → Option Text)
    → Option (Text → Text)
    → Bool
    → Text
    → FieldDefinition
unfolding new_field
create_custom_field name offset len formatter parser required desc =
    record (new_field name offset len custom desc network required) {
      formatter = formatter;
      parser = parser;
    }
