-- ===== src/Parser/Value.antt =====
-- FieldValue of include/parser/ParserResult.hpp, and the extraction and formatting of values in
-- src/parser/ProtocolParser.cpp. Integers of every width are their bit patterns; what needs
-- floating point or the local time zone comes from `Runtime`.
pub mod Format
pub mod Extract
pub mod Weighed
pub mod Endian
pub mod Print
pub mod Reads
pub mod Typed
pub mod Safe
use beatrice.Base.{ℕ, Bool, true, false, [], Option, Text}

-- What the C++ run time gives: std::to_string of a float and of a double, their conversions to
-- uint64_t, and std::put_time of the local time, `none` where std::localtime gives a null pointer.
pub record Runtime : Type 0 where
  pub float_text : ℕ → Text
  pub double_text : ℕ → Text
  pub float_to_uint64 : ℕ → ℕ
  pub double_to_uint64 : ℕ → ℕ
  pub local_time : ℕ → Option Text

-- The std::variant of a FieldValue.
pub data Value : Type 0 where
  uint8 uint16 uint32 uint64 int8 int16 int32 int64 float32 float64 : ℕ → Value
  vector string : Text → Value
  boolean : Bool → Value

pub data FieldValueType : Type 0 where
  uint8 uint16 uint32 uint64 int8 int16 int32 int64 float32 float64 : FieldValueType
  bytes string boolean mac_address ipv4_address ipv6_address timestamp custom : FieldValueType

pub record FieldValue : Type 0 where
  pub value : Value
  pub type : FieldValueType
  pub raw_hex : Text
  pub formatted : Text
  pub valid : Bool
  pub error_message : Text
  pub parse_time : ℕ

-- FieldValue()
unfoldable pub new_value : FieldValue
new_value = record {
  value = Value.uint8 0;
  type = FieldValueType.uint8;
  raw_hex = [];
  formatted = [];
  valid = false;
  error_message = [];
  parse_time = 0;
}
