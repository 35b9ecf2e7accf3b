-- ===== src/Parser/ProtocolParser/Parse.antt =====
-- parsePacketInternal, validateField, validateChecksum, parsePacket, parsePacketMultipleProtocols
-- and validatePacket of src/parser/ProtocolParser.cpp. What the clock measures is an argument.
use beatrice.Base.{
  ℕ, suc, Bool, true, false, not, ◌&&◌, max, List, [], ◌∷◌, ◌++◌, length, none, some, Text, codes,
  contains, ltb, if◌then◌else◌, Result, ok, ◌>>=◌, or_fault, out_of_bounds, is_empty, get_elem?,
}
use beatrice.Base.Words.{size_add}
use beatrice.Base.Maps.{Map, lookup}
use beatrice.Parser.Field.{
  Bound, uint64_bound, FieldConstraint, FieldDefinition, ProtocolDefinition, get_total_length,
}
use beatrice.Parser.Value.{Runtime, Value, FieldValueType, FieldValue}
use beatrice.Parser.Value.Extract.{extract_field}
use beatrice.Parser.Value.Print.{to_text}
use beatrice.Parser.ParseResult.{
  ParseResult, ValidationResult, no_rule, packet_too_short, checksum_error, protocol_not_found,
  new_result, set_protocol, set_packet_info, set_raw_data, set_error, add_field,
  add_validation_result, is_success, sign_extend,
}
use beatrice.Parser.ProtocolParser.{ParserConfig, ProtocolParser, update_stats}

-- The microseconds measured for each field of a protocol, by its position, and for a whole parse.
pub record Clock : Type 0 where
  pub field_time : ℕ → ℕ
  pub parse_time : ℕ

abbrev pub is_unsigned : FieldValueType → Bool
is_unsigned FieldValueType.uint8 = true
is_unsigned FieldValueType.uint16 = true
is_unsigned FieldValueType.uint32 = true
is_unsigned FieldValueType.uint64 = true
is_unsigned _ = false

-- The std::visit of validateField: a number as uint64_t, 0 for what is no number.
unfoldable pub numeric_value : Runtime → Value → ℕ
numeric_value rt (Value.uint8 n) = n
numeric_value rt (Value.uint16 n) = n
numeric_value rt (Value.uint32 n) = n
numeric_value rt (Value.uint64 n) = n
numeric_value rt (Value.int8 n) = sign_extend 8 n
numeric_value rt (Value.int16 n) = sign_extend 16 n
numeric_value rt (Value.int32 n) = sign_extend 32 n
numeric_value rt (Value.int64 n) = n
numeric_value rt (Value.float32 n) = rt.float_to_uint64 n
numeric_value rt (Value.float64 n) = rt.double_to_uint64 n
numeric_value rt (Value.vector b) = 0
numeric_value rt (Value.string b) = 0
numeric_value rt (Value.boolean b) = if b then 1 else 0

-- A bound counts only if its variant holds a uint64_t.
unfoldable pub at_least : Bound → ℕ → Bool
at_least (uint64_bound m) n = not (ltb n m)
at_least _ n = true

unfoldable pub at_most : Bound → ℕ → Bool
at_most (uint64_bound m) n = not (ltb m n)
at_most _ n = true

unfoldable pub in_range : Runtime → FieldConstraint → FieldValue → Bool
unfolding at_least at_most
in_range rt c v =
    if is_unsigned v.type
    then at_least c.min_value (numeric_value rt v.value)
      && at_most c.max_value (numeric_value rt v.value)
    else true

unfoldable pub matches_pattern : Runtime → FieldConstraint → FieldValue → Result Bool
matches_pattern rt c v =
    if is_empty c.pattern then ok true else (do t ← to_text rt v; ok (contains t c.pattern))

unfoldable pub validate_field : Runtime → FieldValue → FieldDefinition → Result Bool
validate_field rt v f = if not v.valid then ok false else elim f.constraint [
  | none ↦ ok true
  | some c ↦ if in_range rt c v then matches_pattern rt c v else ok false
]

unfoldable pub validate_checksum : Text → ProtocolDefinition → Bool
validate_checksum packet protocol = true

abbrev pub failed_validation : Text → ℕ → ValidationResult
failed_validation name time = record {
  valid = false;
  field_name = name;
  error_message = codes "Field validation failed";
  expected_value = [];
  actual_value = [];
  rule = no_rule;
  validation_time = time;
}

-- What the loop makes of one field that lies in the packet.
unfoldable pub parse_field :
    Runtime → ParserConfig → Text → ℕ → FieldDefinition → ParseResult → Result ParseResult
parse_field rt config packet time f r = do
  extracted ← extract_field rt packet f
  let v = record extracted { parse_time = time }
  let r' = add_field r f.name v
  valid ← if config.enable_validation then validate_field rt v f else ok true
  ok (if valid then r' else add_validation_result r' (failed_validation f.name time))

-- The loop of parsePacketInternal over the fields, from the i-th on, with parsedBytes.
unfoldable pub parse_fields :
    Runtime
    → ParserConfig
    → Text
    → (ℕ → ℕ)
    → List FieldDefinition
    → ℕ
    → ℕ
    → ParseResult
    → Result (ParseResult × ℕ)
parse_fields rt config packet time [] i parsed r = ok (r, parsed)
parse_fields rt config packet time (f ∷ fs) i parsed r =
    elim (ltb (length packet) (size_add f.offset f.length)) [
      | true ↦ parse_fields rt config packet time fs (suc i) parsed r
      | false ↦ parse_field rt config packet (time i) f r >>= λ r'.
          parse_fields rt config packet time fs (suc i) (max parsed (size_add f.offset f.length)) r'
    ]

-- The builder as the function sets it up.
unfoldable pub started : Text → ProtocolDefinition → ParseResult
started packet protocol =
    set_raw_data
      (set_packet_info (set_protocol new_result protocol.name protocol.version) (length packet) 0)
      packet

-- The end of parsePacketInternal, after the loop.
unfoldable pub finish : ParserConfig → Text → ProtocolDefinition → ParseResult × ℕ → ParseResult
finish config packet protocol (r, parsed) =
    let r' = set_packet_info r (length packet) parsed in
    if config.enable_checksum_validation && not (validate_checksum packet protocol)
    then set_error r' checksum_error (codes "Checksum validation failed")
    else r'

unfoldable pub parse_packet_internal :
    Runtime → ParserConfig → (ℕ → ℕ) → Text → ProtocolDefinition → Result ParseResult
parse_packet_internal rt config time packet protocol =
    if ltb (length packet) (get_total_length protocol)
    then ok (
        set_error (started packet protocol) packet_too_short
          (codes "Packet too short for protocol"))
    else parse_fields rt config packet time protocol.fields 0 0 (started packet protocol) >>= λ out.
        ok (finish config packet protocol out)

-- parsePacket(packet, protocol): the statistics are kept if the configuration asks for it.
unfoldable pub parse_packet_as :
    Runtime
    → Clock
    → ProtocolParser
    → Text
    → ProtocolDefinition
    → Result (ParseResult × ProtocolParser)
parse_packet_as rt clock p packet protocol = do
  r ← parse_packet_internal rt p.config clock.field_time packet protocol
  s ←
      if p.config.enable_performance_metrics
      then update_stats p.stats r clock.parse_time 0
      else ok p.stats
  ok (r, record p { stats = s })

-- parsePacketMultipleProtocols: each protocol in the order of the map, measured by a clock each.
unfoldable pub parse_each :
    Runtime
    → (ℕ → Clock)
    → ProtocolParser
    → Text
    → Map ProtocolDefinition
    → ℕ
    → Result (List ParseResult × ProtocolParser)
parse_each rt clocks p packet [] i = ok ([], p)
parse_each rt clocks p packet ((name, protocol) ∷ m) i =
    parse_packet_as rt (clocks i) p packet protocol >>= λ first.
    parse_each rt clocks first.1 packet m (suc i) >>= λ rest. ok (first.0 ∷ rest.0, rest.1)

unfoldable pub parse_packet_multiple_protocols :
    Runtime → (ℕ → Clock) → ProtocolParser → Text → Result (List ParseResult × ProtocolParser)
unfolding parse_each
parse_packet_multiple_protocols rt clocks p packet = parse_each rt clocks p packet p.protocols 0

-- parsePacket(packet, protocolName)
unfoldable pub parse_packet :
    Runtime → (ℕ → Clock) → ProtocolParser → Text → Text → Result (ParseResult × ProtocolParser)
parse_packet rt clocks p packet name =
    if is_empty name
    then (do
      (results, q) ← parse_packet_multiple_protocols rt clocks p packet
      r ← or_fault (get_elem? results 0) out_of_bounds
      ok (r, q))
    else elim (lookup name p.protocols) [
      | none ↦
          ok (set_error new_result protocol_not_found (codes "Protocol not found: " ++ name), p)
      | some protocol ↦ parse_packet_as rt (clocks 0) p packet protocol
    ]

unfoldable pub validate_packet :
    Runtime → (ℕ → Clock) → ProtocolParser → Text → Text → Result (Bool × ProtocolParser)
validate_packet rt clocks p packet name = do
  (r, q) ← parse_packet rt clocks p packet name
  ok (is_success r, q)
