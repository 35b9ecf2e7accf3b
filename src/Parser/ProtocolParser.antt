-- ===== src/Parser/ProtocolParser.antt =====
-- The class ProtocolParser of include/parser/ProtocolParser.hpp and src/parser/ProtocolParser.cpp:
-- its state, the protocols that it knows, its statistics and its cache. A method is one step: the
-- locks are not modelled. The callbacks of the configuration only write logs and are left out.
pub mod Parse
pub mod Status
pub mod Safety
pub mod Stats
use beatrice.Base.{
  ℕ, ◌+◌, ◌-◌, ◌/◌, ◌^◌, ◌≤◌, Bool, true, false, not, ◌&&◌, List, [], ◌∷◌, ◌++◌, map, length,
  Option, none, some, Text, codes, ltb, leb, ◌==◌, if◌then◌else◌, Result, ok, err, ◌>>=◌, or_fault,
  out_of_bounds, divide_by_zero, is_empty,
}
use beatrice.Base.Words.{size_add}
use beatrice.Base.Maps.{Map, lookup, insert, erase, has_key, keys}
use beatrice.Parser.Field.{ProtocolDefinition}
use beatrice.Parser.Value.{FieldValue}
use beatrice.Parser.ParseResult.{ParseResult, is_success}

pub record ParserConfig : Type 0 where
  pub enable_validation : Bool
  pub enable_checksum_validation : Bool
  pub enable_field_constraints : Bool
  pub enable_custom_validators : Bool
  pub enable_performance_metrics : Bool
  pub enable_field_caching : Bool
  pub max_field_cache_size : ℕ
  pub max_validation_errors : ℕ
  pub max_parse_time : ℕ

-- ParserConfig()
abbrev pub default_config : ParserConfig
default_config = record {
  enable_validation = true;
  enable_checksum_validation = true;
  enable_field_constraints = true;
  enable_custom_validators = true;
  enable_performance_metrics = true;
  enable_field_caching = true;
  max_field_cache_size = 1000;
  max_validation_errors = 100;
  max_parse_time = 1000;
}

pub record ParserStats : Type 0 where
  pub total_packets_parsed : ℕ
  pub successful_parses : ℕ
  pub failed_parses : ℕ
  pub validation_errors : ℕ
  pub checksum_errors : ℕ
  pub total_parse_time : ℕ
  pub total_validation_time : ℕ
  pub average_parse_time : ℕ
  pub average_validation_time : ℕ
  pub min_parse_time : ℕ
  pub max_parse_time : ℕ
  pub protocol_usage_count : Map ℕ
  pub field_usage_count : Map ℕ

-- ParserStats{}; microseconds::max() is the largest int64_t.
unfoldable pub new_stats : ParserStats
new_stats = record {
  total_packets_parsed = 0;
  successful_parses = 0;
  failed_parses = 0;
  validation_errors = 0;
  checksum_errors = 0;
  total_parse_time = 0;
  total_validation_time = 0;
  average_parse_time = 0;
  average_validation_time = 0;
  min_parse_time = 2 ^ 63 - 1;
  max_parse_time = 0;
  protocol_usage_count = [];
  field_usage_count = [];
}

pub record ProtocolParser : Type 0 where
  pub config : ParserConfig
  pub stats : ParserStats
  pub profiling_enabled : Bool
  pub protocols : Map ProtocolDefinition
  pub custom_validators : Map (Text → ParseResult → Bool)
  pub custom_formatters : Map (ParseResult → Text)
  pub field_cache : Map (List FieldValue)

-- The constructor, and ProtocolParser::create.
unfoldable pub new_parser : ParserConfig → ProtocolParser
unfolding new_stats
new_parser config = record {
  config = config;
  stats = new_stats;
  profiling_enabled = config.enable_performance_metrics;
  protocols = [];
  custom_validators = [];
  custom_formatters = [];
  field_cache = [];
}

unfoldable pub register_protocol : ProtocolParser → ProtocolDefinition → ProtocolParser × Bool
register_protocol p protocol =
    if has_key protocol.name p.protocols
    then (p, false)
    else (record p { protocols = insert protocol.name protocol p.protocols }, true)

unfoldable pub unregister_protocol : ProtocolParser → Text → ProtocolParser × Bool
unregister_protocol p name =
    if has_key name p.protocols
    then (record p { protocols = erase name p.protocols }, true)
    else (p, false)

unfoldable pub has_protocol : ProtocolParser → Text → Bool
has_protocol p name = has_key name p.protocols

unfoldable pub set_config : ProtocolParser → ParserConfig → ProtocolParser
set_config p config = record p {
  config = config;
  profiling_enabled = if config.enable_performance_metrics then true else p.profiling_enabled;
}

unfoldable pub reset_stats : ProtocolParser → ProtocolParser
unfolding new_stats
reset_stats p = record p { stats = new_stats }

unfoldable pub clear_cache : ProtocolParser → ProtocolParser
clear_cache p = record p { field_cache = [] }

abbrev pub get_supported_formats : List Text
get_supported_formats = codes "json" ∷ codes "xml" ∷ codes "csv" ∷ codes "human" ∷ []

unfoldable pub get_supported_protocols : ProtocolParser → List Text
get_supported_protocols p = keys p.protocols

unfoldable pub add_custom_validator :
    ProtocolParser → Text → (Text → ParseResult → Bool) → ProtocolParser × Bool
add_custom_validator p name validator =
    if has_key name p.protocols
    then (record p { custom_validators = insert name validator p.custom_validators }, true)
    else (p, false)

unfoldable pub add_custom_formatter :
    ProtocolParser → Text → (ParseResult → Text) → ProtocolParser × Bool
add_custom_formatter p name formatter =
    if has_key name p.protocols
    then (record p { custom_formatters = insert name formatter p.custom_formatters }, true)
    else (p, false)

unfoldable pub enable_profiling : ProtocolParser → Bool → ProtocolParser
enable_profiling p enable = record p { profiling_enabled = enable }

-- m[k]++ of a map of uint64_t.
unfoldable pub count_up : Text → Map ℕ → Map ℕ
count_up k m = insert k (size_add (elim (lookup k m) [ none ↦ 0 | some n ↦ n ]) 1) m

-- updateStats: the averages divide by the number of successful parses. The sum of the times stays below
-- 2^63 microseconds.
unfoldable pub update_stats : ParserStats → ParseResult → ℕ → ℕ → Result ParserStats
update_stats s r parse_time validation_time =
    let succeeded = if is_success r then size_add s.successful_parses 1 else s.successful_parses in
    let failed = if is_success r then s.failed_parses else size_add s.failed_parses 1 in
    if succeeded == 0
    then err divide_by_zero
    else ok (record s {
      total_packets_parsed = size_add s.total_packets_parsed 1;
      successful_parses = succeeded;
      failed_parses = failed;
      total_parse_time = s.total_parse_time + parse_time;
      total_validation_time = s.total_validation_time + validation_time;
      min_parse_time = if ltb parse_time s.min_parse_time then parse_time else s.min_parse_time;
      max_parse_time = if ltb s.max_parse_time parse_time then parse_time else s.max_parse_time;
      average_parse_time = (s.total_parse_time + parse_time) / succeeded;
      average_validation_time = (s.total_validation_time + validation_time) / succeeded;
      protocol_usage_count = count_up r.protocol_name s.protocol_usage_count;
    })

-- keysToRemove of cleanupCache: the loop stops once `limit` keys are collected.
unfoldable pub keys_to_remove {ℓ} : {V : Type ℓ} → ℕ → Map V → List Text → List Text
keys_to_remove limit [] found = found
keys_to_remove limit ((k, v) ∷ m) found =
    let found' = found ++ k ∷ [] in
    elim (leb limit (length found')) [ true ↦ found' | false ↦ keys_to_remove limit m found' ]

unfoldable pub erase_all {ℓ} : {V : Type ℓ} → List Text → Map V → Map V
erase_all [] m = m
erase_all (k ∷ ks) m = erase_all ks (erase k m)

unfoldable pub cleanup_cache : ProtocolParser → ProtocolParser
unfolding keys_to_remove erase_all
cleanup_cache p =
    if leb (length p.field_cache) (p.config.max_field_cache_size / 2) then p else record p {
      field_cache =
          erase_all (keys_to_remove (length p.field_cache / 2) p.field_cache []) p.field_cache;
    }

unfoldable pub cache_field_value : ProtocolParser → Text → List FieldValue → ProtocolParser
cache_field_value p key values =
    if not p.config.enable_field_caching
    then p
    else (let q =
          if leb p.config.max_field_cache_size (length p.field_cache) then cleanup_cache p else p in
        record q { field_cache = insert key values q.field_cache })

unfoldable pub get_cached_field_values : ProtocolParser → Text → Option (List FieldValue)
get_cached_field_values p key =
    if not p.config.enable_field_caching then none else lookup key p.field_cache
