-- ===== src/Parser/ParseResult.antt =====
-- ParseStatus, ValidationResult, ParseResult and ParseResultBuilder of
-- include/parser/ParserResult.hpp and src/parser/ParserResult.cpp. The builder is the result that it
-- holds. Times are numbers of microseconds.
use beatrice.Base.{
  ℕ, suc, ◌+◌, ◌-◌, ◌^◌, Bool, true, false, not, List, [], ◌∷◌, ◌++◌, length, Option, none, some,
  Text, ltb, if◌then◌else◌, Result, ok, ◌>>=◌,
}
use beatrice.Base.Maps.{Map, lookup, insert, has_key}
use beatrice.Parser.Value.{Runtime, FieldValueType, FieldValue}
use beatrice.Parser.Value.Print.{
  get_uint8, get_uint16, get_uint32, get_uint64, get_int8, get_int16, get_int32, get_int64,
  get_vector, get_boolean, to_text,
}

pub data ParseStatus : Type 0 where
  success invalid_protocol invalid_length field_not_found validation_failed : ParseStatus
  endianness_error checksum_error custom_error protocol_not_found packet_too_short : ParseStatus

pub data ValidationRule : Type 0 where
  no_rule range enumeration pattern checksum custom : ValidationRule

pub record ValidationResult : Type 0 where
  pub valid : Bool
  pub field_name : Text
  pub error_message : Text
  pub expected_value : Text
  pub actual_value : Text
  pub rule : ValidationRule
  pub validation_time : ℕ

pub record ParseResult : Type 0 where
  pub status : ParseStatus
  pub protocol_name : Text
  pub protocol_version : Text
  pub fields : Map FieldValue
  pub validation_results : List ValidationResult
  pub error_message : Text
  pub total_parse_time : ℕ
  pub total_validation_time : ℕ
  pub packet_length : ℕ
  pub parsed_bytes : ℕ
  pub raw_data : Text

-- ParseResult(), and ParseResultBuilder() and reset.
unfoldable pub new_result : ParseResult
new_result = record {
  status = success;
  protocol_name = [];
  protocol_version = [];
  fields = [];
  validation_results = [];
  error_message = [];
  total_parse_time = 0;
  total_validation_time = 0;
  packet_length = 0;
  parsed_bytes = 0;
  raw_data = [];
}

unfoldable pub clear : ParseResult → ParseResult
clear r = record r {
  status = success;
  protocol_name = [];
  protocol_version = [];
  fields = [];
  validation_results = [];
  error_message = [];
  total_parse_time = 0;
  total_validation_time = 0;
  packet_length = 0;
  parsed_bytes = 0;
  raw_data = [];
}

unfoldable pub is_success : ParseResult → Bool
is_success r = elim r.status [ success ↦ true | _ ↦ false ]

unfoldable pub has_field : ParseResult → Text → Bool
has_field r name = has_key name r.fields

unfoldable pub get_field_count : ParseResult → ℕ
get_field_count r = length r.fields

count_invalid : List ValidationResult → ℕ → ℕ
count_invalid [] count = count
count_invalid (v ∷ vs) count = count_invalid vs (if not v.valid then suc count else count)

unfoldable pub get_validation_error_count : ParseResult → ℕ
unfolding count_invalid
get_validation_error_count r = count_invalid r.validation_results 0

unfoldable pub set_protocol : ParseResult → Text → Text → ParseResult
set_protocol r name version = record r { protocol_name = name; protocol_version = version }

unfoldable pub add_field : ParseResult → Text → FieldValue → ParseResult
add_field r name v = record r { fields = insert name v r.fields }

unfoldable pub add_validation_result : ParseResult → ValidationResult → ParseResult
add_validation_result r v = record r { validation_results = r.validation_results ++ v ∷ [] }

unfoldable pub set_error : ParseResult → ParseStatus → Text → ParseResult
set_error r status message = record r { status = status; error_message = message }

unfoldable pub set_packet_info : ParseResult → ℕ → ℕ → ParseResult
set_packet_info r len parsed = record r { packet_length = len; parsed_bytes = parsed }

unfoldable pub set_raw_data : ParseResult → Text → ParseResult
set_raw_data r bytes = record r { raw_data = bytes }

unfoldable pub set_timing : ParseResult → ℕ → ℕ → ParseResult
set_timing r parse_time validation_time = record r {
  total_parse_time = parse_time;
  total_validation_time = validation_time;
}

-- The value of a field that is there and valid.
abbrev pub valid_field : ParseResult → Text → Option FieldValue
valid_field r name = elim (lookup name r.fields) [
  | none ↦ none
  | some v ↦ if v.valid then some v else none
]

unfoldable pub get_field_text : Runtime → ParseResult → Text → Result Text
get_field_text rt r name = elim (valid_field r name) [ none ↦ ok [] | some v ↦ to_text rt v ]

bytes_of : FieldValue → FieldValueType → Result Text
bytes_of v FieldValueType.bytes = get_vector v.value
bytes_of v _ = ok []

unfoldable pub get_field_bytes : ParseResult → Text → Result Text
unfolding bytes_of
get_field_bytes r name = elim (valid_field r name) [ none ↦ ok [] | some v ↦ bytes_of v v.type ]

-- The 64 bits of a signed number of `word` bits.
unfoldable pub sign_extend : ℕ → ℕ → ℕ
sign_extend word n = if ltb n (2 ^ (word - 1)) then n else n + (2 ^ 64 - 2 ^ word)

-- The switch of getFieldUInt and of getFieldInt: an int64_t is its bits.
unfoldable pub integer_of : FieldValue → FieldValueType → Result ℕ
unfolding sign_extend
integer_of v FieldValueType.uint8 = get_uint8 v.value
integer_of v FieldValueType.uint16 = get_uint16 v.value
integer_of v FieldValueType.uint32 = get_uint32 v.value
integer_of v FieldValueType.uint64 = get_uint64 v.value
integer_of v FieldValueType.int8 = do n ← get_int8 v.value; ok (sign_extend 8 n)
integer_of v FieldValueType.int16 = do n ← get_int16 v.value; ok (sign_extend 16 n)
integer_of v FieldValueType.int32 = do n ← get_int32 v.value; ok (sign_extend 32 n)
integer_of v FieldValueType.int64 = get_int64 v.value
integer_of v _ = ok 0

unfoldable pub get_field_uint : ParseResult → Text → Result ℕ
get_field_uint r name = elim (valid_field r name) [ none ↦ ok 0 | some v ↦ integer_of v v.type ]

unfoldable pub get_field_int : ParseResult → Text → Result ℕ
get_field_int r name = elim (valid_field r name) [ none ↦ ok 0 | some v ↦ integer_of v v.type ]

boolean_of : FieldValue → FieldValueType → Result Bool
boolean_of v FieldValueType.boolean = get_boolean v.value
boolean_of v _ = ok false

unfoldable pub get_field_bool : ParseResult → Text → Result Bool
unfolding boolean_of
get_field_bool r name = elim (valid_field r name) [ none ↦ ok false | some v ↦ boolean_of v v.type ]
