-- ===== src/Parser/Field.antt =====
-- include/parser/FieldDefinition.hpp and src/parser/FieldDefinition.cpp: what a field of a protocol
-- is, the protocols made of fields, and the factory. Offsets and lengths are size_t.
pub mod Factory
pub mod Length
pub mod Index
use beatrice.Base.{
  ℕ, ◌+◌, ◌-◌, Bool, true, false, ltb, if◌then◌else◌, List, [], ◌∷◌, ◌++◌, length, get_elem?,
  Option, none, some, Text, codes,
}
use beatrice.Base.Words.{size_add}
use beatrice.Base.Maps.{Map, lookup, insert, has_key}

pub data FieldType : Type 0 where
  uint8 uint16 uint32 uint64 int8 int16 int32 int64 float32 float64 : FieldType
  bytes string boolean mac_address ipv4_address ipv6_address timestamp custom : FieldType

pub data Endianness : Type 0 where
  little big network host : Endianness

-- std::variant<int64_t, uint64_t, double, std::string>; an int64_t and a double are their bits.
pub data Bound : Type 0 where
  int64_bound uint64_bound double_bound : ℕ → Bound
  text_bound : Text → Bound

pub record FieldConstraint : Type 0 where
  pub min_value : Bound
  pub max_value : Bound
  pub allowed_values : List Bound
  pub pattern : Text
  pub custom_validator : Option (Text → Bool)

-- A formatter that throws gives `none`.
pub record FieldDefinition : Type 0 where
  pub name : Text
  pub offset : ℕ
  pub length : ℕ
  pub type : FieldType
  pub endianness : Endianness
  pub required : Bool
  pub description : Text
  pub constraint : Option FieldConstraint
  pub formatter : Option (Text → Option Text)
  pub parser : Option (Text → Text)

pub record ProtocolDefinition : Type 0 where
  pub name : Text
  pub version : Text
  pub description : Text
  pub fields : List FieldDefinition
  pub field_index_map : Map ℕ
  pub validator : Option (Text → Bool)
  pub formatter : Option (Text → Text)

-- ProtocolDefinition(name, version)
unfoldable pub new_protocol : Text → Text → ProtocolDefinition
new_protocol name version = record {
  name = name;
  version = version;
  description = [];
  fields = [];
  field_index_map = [];
  validator = none;
  formatter = none;
}

unfoldable pub add_field : ProtocolDefinition → FieldDefinition → ProtocolDefinition
add_field p field =
    let fields = p.fields ++ field ∷ [] in
    record p {
      fields = fields;
      field_index_map = insert field.name (length fields - 1) p.field_index_map;
    }

-- A null pointer is `none`.
unfoldable pub get_field : ProtocolDefinition → Text → Option FieldDefinition
get_field p name = elim (lookup name p.field_index_map) [
  | none ↦ none
  | some i ↦ if ltb i (length p.fields) then get_elem? p.fields i else none
]

unfoldable pub has_field : ProtocolDefinition → Text → Bool
has_field p name = has_key name p.field_index_map

unfoldable pub get_field_count : ProtocolDefinition → ℕ
get_field_count p = length p.fields

-- The loop of getTotalLength over its two variables.
unfoldable pub widest : List FieldDefinition → ℕ → ℕ → ℕ
widest [] max_offset max_length = size_add max_offset max_length
widest (f ∷ fs) max_offset max_length =
    let grow = widest fs f.offset f.length in
    let keep = widest fs max_offset max_length in
    if ltb (size_add max_offset max_length) (size_add f.offset f.length) then grow else keep

unfoldable pub get_total_length : ProtocolDefinition → ℕ
unfolding widest
get_total_length p = elim p.fields [ [] ↦ 0 | f ∷ fs ↦ widest (f ∷ fs) 0 0 ]
