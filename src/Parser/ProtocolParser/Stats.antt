-- ===== src/Parser/ProtocolParser/Stats.antt =====
-- The statistics of a parser.
use beatrice.Base.{
  ℕ, ◌+◌, ◌%◌, ◌≤◌, ◌<◌, ◌≡◌, ◌↔◌, if◌then◌else◌, true, false, some, Text, length, is_empty, lt→ltb,
  ok, err, divide_by_zero, arith,
}
use beatrice.Base.Words.{size_add, size_mod}
use beatrice.Base.Maps.{lookup}
use beatrice.Parser.Field.{ProtocolDefinition, get_total_length}
use beatrice.Parser.Value.{Runtime}
use beatrice.Parser.ParseResult.{ParseResult, set_error, is_success}
use beatrice.Parser.ProtocolParser.{ProtocolParser, ParserStats, new_stats, update_stats}
use beatrice.Parser.ProtocolParser.Parse.{
  Clock, parse_packet_internal, parse_packet_as, parse_packet,
}

-- The counters are uint64_t, and every packet is counted once.
pub record IsCounted (s : ParserStats) : Type 0 where
  pub total_fits : s.total_packets_parsed < size_mod
  pub successes_fit : s.successful_parses < size_mod
  pub failures_fit : s.failed_parses < size_mod
  pub counted : s.total_packets_parsed ≡ (s.successful_parses + s.failed_parses) % size_mod

pub new_stats-IsCounted : IsCounted new_stats
unfolding new_stats
new_stats-IsCounted = omega arith

-- If the counters fit and add up (successes plus failures are all packets, modulo 2^64) and
-- updateStats returns, they still do, one more packet is counted, and the fastest and the slowest
-- parse enclose the time just measured.
pub update_stats-IsCounted :
    (s : ParserStats) (r : ParseResult) (parse_time validation_time : ℕ) (s' : ParserStats)
    → IsCounted s
    → update_stats s r parse_time validation_time ≡ ok s'
    → IsCounted s'
      × (s'.total_packets_parsed ≡ size_add s.total_packets_parsed 1)
      × (s'.min_parse_time ≤ parse_time)
      × (parse_time ≤ s'.max_parse_time)
unfolding update_stats
update_stats-IsCounted s r pt vt s' v h = ground arith

-- updateStats divides by zero exactly when there is no successful parse in its count: the result is
-- a failure and none succeeded before (or the counter of successes has just wrapped around).
update_stats_fault :
    (s : ParserStats) (r : ParseResult) (parse_time validation_time : ℕ)
    → (update_stats s r parse_time validation_time ≡ err divide_by_zero)
      ↔ ((if is_success r then size_add s.successful_parses 1 else s.successful_parses) ≡ 0)
unfolding update_stats
update_stats_fault s r pt vt = ground arith

-- parsePacket with the statistics on, as they are by default, and no successful parse so far, faults
-- on any packet that is too short for the named protocol: it divides by zero.
pub parse_packet-first_failure :
    (rt : Runtime) (clocks : ℕ → Clock) (p : ProtocolParser) (packet name : Text)
    (protocol : ProtocolDefinition)
    → is_empty name ≡ false
    → lookup name p.protocols ≡ some protocol
    → p.config.enable_performance_metrics ≡ true
    → p.stats.successful_parses ≡ 0
    → length packet < get_total_length protocol
    → parse_packet rt clocks p packet name ≡ err divide_by_zero
unfolding parse_packet parse_packet_as parse_packet_internal update_stats set_error is_success
parse_packet-first_failure rt clocks p packet name protocol named found metrics none_yet short =
    ground (arith, lt→ltb (length packet) (get_total_length protocol) short)
