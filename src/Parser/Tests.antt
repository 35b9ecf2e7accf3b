-- ===== src/Parser/Tests.antt =====
-- The theorems on fields, values and packets applied to concrete ones.
use beatrice.Base.{
  ℕ, ◌≤◌, ◌<◌, ◌≡◌, refl, ◌⊎◌, true, [], ◌∷◌, none, some, All, length, take, drop, Text, codes,
  text_eq, if◌then◌else◌, ok, err, divide_by_zero, Ensures, Yields, arith,
}
use beatrice.Base.Words.{size_add}
use beatrice.Base.Maps.{lookup, insert}
use beatrice.Parser.Field.{
  FieldDefinition, ProtocolDefinition, uint16, timestamp, little, network, new_protocol, add_field,
  get_field, get_total_length,
}
use beatrice.Parser.Field.Index.{new_protocol-IsIndexed, get_field-add_field}
use beatrice.Parser.Field.Length.{farthest, get_total_length-farthest}
use beatrice.Parser.Value.{Runtime}
use beatrice.Parser.Value.Extract.{extract_integer, extract_field}
use beatrice.Parser.Value.Weighed.{value_of}
use beatrice.Parser.Value.Endian.{extract_integer-value_of}
use beatrice.Parser.Value.Typed.{IsTyped}
use beatrice.Parser.Value.Safe.{IsSpelling, extract_field_ok}
use beatrice.Parser.ParseResult.{is_success, new_result, set_error, success, packet_too_short}
use beatrice.Parser.ProtocolParser.{
  ParserStats, default_config, new_stats, new_parser, register_protocol, count_up, update_stats,
}
use beatrice.Parser.ProtocolParser.Parse.{Clock, started, parse_packet_internal, parse_packet}
use beatrice.Parser.ProtocolParser.Safety.{Parsed}
use beatrice.Parser.ProtocolParser.Status.{parse_packet_internal-status}
use beatrice.Parser.ProtocolParser.Stats.{
  IsCounted, new_stats-IsCounted, update_stats-IsCounted, parse_packet-first_failure,
}
use beatrice.Parser.Registry.Builtin.{create_udp_protocol, get_all_protocols}
use beatrice.Parser.Registry.Builtin.Layout.{get_all_protocols_total}

-- A run time that spells nothing.
abbrev silent : Runtime
silent = record {
  float_text = λ n. [];
  double_text = λ n. [];
  float_to_uint64 = λ n. n;
  double_to_uint64 = λ n. n;
  local_time = λ n. some [];
}

abbrev still : ℕ → ℕ
still i = 0

-- A UDP header from port 53 to port 80.
abbrev udp_packet : Text
udp_packet = 0 ∷ 53 ∷ 0 ∷ 80 ∷ 0 ∷ 8 ∷ 0 ∷ 0 ∷ []

get_total_length-farthest_example :
    get_total_length create_udp_protocol ≡ farthest (create_udp_protocol.fields)
unfolding create_udp_protocol
get_total_length-farthest_example = get_total_length-farthest create_udp_protocol (omega arith)

-- A port in two bytes at offset 2.
abbrev port : FieldDefinition
port = record {
  name = codes "port";
  offset = 2;
  length = 2;
  type = uint16;
  endianness = network;
  required = true;
  description = [];
  constraint = none;
  formatter = none;
  parser = none;
}

get_field-add_field_example :
    get_field (add_field (new_protocol (codes "p") (codes "1")) port) (codes "port") ≡ (
      if text_eq (codes "port") (codes "port")
      then some port
      else get_field (new_protocol (codes "p") (codes "1")) (codes "port"))
get_field-add_field_example =
    get_field-add_field (new_protocol (codes "p") (codes "1")) port (codes "port")
      (new_protocol-IsIndexed (codes "p") (codes "1"))

extract_integer-value_of_example :
    extract_integer 16 udp_packet 2 2 little ≡ ok (value_of little (take 2 (drop 2 udp_packet)))
extract_integer-value_of_example =
    extract_integer-value_of udp_packet 2 2 (omega arith) (omega arith) 16 little (omega arith)
      (omega arith)

extract_field_ok_example : Yields IsSpelling IsTyped (extract_field silent udp_packet port)
extract_field_ok_example =
    extract_field_ok silent udp_packet port (omega arith) (omega arith) (omega arith)

-- A port and the seconds at which something was sent.
abbrev stamped : ProtocolDefinition
stamped = record (new_protocol (codes "stamped") (codes "1")) {
  fields =
      record port { offset = 0 }
      ∷ record port { name = codes "sent"; type = timestamp; length = 4 }
      ∷ [];
}

abbrev stamped_packet : Text
stamped_packet = 0 ∷ 80 ∷ 101 ∷ 83 ∷ 241 ∷ 0 ∷ []

get_all_protocols_total_example :
    All
      (λ p.
        Ensures
          (Parsed udp_packet p)
          (parse_packet_internal silent default_config still udp_packet p))
      get_all_protocols
get_all_protocols_total_example =
    get_all_protocols_total silent default_config still udp_packet (omega arith)

parse_packet_internal-status_example :
    ((length (take 7 udp_packet) < get_total_length create_udp_protocol)
      × ((set_error
            (started (take 7 udp_packet) create_udp_protocol)
            packet_too_short
            (codes "Packet too short for protocol")).status
          ≡ packet_too_short)
      × ((set_error
            (started (take 7 udp_packet) create_udp_protocol)
            packet_too_short
            (codes "Packet too short for protocol")).fields
          ≡ []))
    ⊎ ((get_total_length create_udp_protocol ≤ length (take 7 udp_packet))
        × ((set_error
              (started (take 7 udp_packet) create_udp_protocol)
              packet_too_short
              (codes "Packet too short for protocol")).status
            ≡ success))
unfolding parse_packet_internal create_udp_protocol get_total_length
parse_packet_internal-status_example =
    parse_packet_internal-status silent default_config (take 7 udp_packet) still create_udp_protocol
      (set_error (started (take 7 udp_packet) create_udp_protocol) packet_too_short
        (codes "Packet too short for protocol"))
      refl

-- The statistics after one success of 7 microseconds.
abbrev one_success : ParserStats
one_success = record new_stats {
  total_packets_parsed = 1;
  successful_parses = 1;
  total_parse_time = 7;
  min_parse_time = 7;
  max_parse_time = 7;
  average_parse_time = 7;
  protocol_usage_count = ([], 1) ∷ [];
}

update_stats-IsCounted_example :
    IsCounted one_success
    × (one_success.total_packets_parsed ≡ size_add new_stats.total_packets_parsed 1)
    × (one_success.min_parse_time ≤ 7)
    × (7 ≤ one_success.max_parse_time)
unfolding update_stats new_stats new_result is_success count_up insert lookup
update_stats-IsCounted_example =
    update_stats-IsCounted new_stats new_result 7 0 one_success new_stats-IsCounted refl

abbrev clocks : ℕ → Clock
clocks i = record { field_time = still; parse_time = 7 }

parse_packet-first_failure_example :
    parse_packet silent clocks
      (register_protocol (new_parser default_config) create_udp_protocol).0
      []
      (codes "udp")
    ≡ err divide_by_zero
unfolding register_protocol new_parser new_stats lookup create_udp_protocol get_total_length insert
    text_eq
parse_packet-first_failure_example =
    parse_packet-first_failure silent clocks
      (register_protocol (new_parser default_config) create_udp_protocol).0 [] (codes "udp")
      create_udp_protocol refl refl refl refl (omega arith)
