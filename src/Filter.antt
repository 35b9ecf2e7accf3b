-- ===== src/Filter.antt =====
-- PacketFilter of include/beatrice/PacketFilter.hpp and src/PacketFilter.cpp, over the packets of
-- include/beatrice/Packet.hpp: named filters with a priority each, and counts of what they let pass.
-- A method is one step: the locks are not modelled.
pub mod Range
pub mod Headers
pub mod Chain
pub mod Order
pub mod Active
pub mod Verdict
pub mod Stats
mod Tests
use beatrice.Base.{
  ℕ, ◌+◌, Bool, true, false, List, [], ◌∷◌, ◌++◌, Option, none, some, Text, codes, if◌then◌else◌,
  Result,
}
use beatrice.Base.Int.{ℤ}
use beatrice.Base.Maps.{Map, lookup, insert, erase, has_key}

-- The bytes behind data_ (none for a null pointer) and length_. The metadata is not read here.
pub record Packet : Type 0 where
  pub data_bytes : Text
  pub length : ℕ

pub data FilterType : Type 0 where
  bpf protocol ip_range port_range payload custom : FilterType

pub record FilterConfig : Type 0 where
  pub type : FilterType
  pub expression : Text
  pub enabled : Bool
  pub priority : ℤ
  pub description : Text
  pub parameters : Map Text

-- A custom function may throw. The counters of an entry are never written.
pub record FilterEntry : Type 0 where
  pub config : FilterConfig
  pub custom_func : Option (Packet → Result Bool)

pub record FilterResult : Type 0 where
  pub passed : Bool
  pub filter_name : Text
  pub processing_time : ℕ
  pub reason : Text

pub record FilterStats : Type 0 where
  pub packets_processed : ℕ
  pub packets_passed : ℕ
  pub packets_dropped : ℕ
  pub total_processing_time : ℕ
  pub filter_counts : Map ℕ

abbrev pub new_stats : FilterStats
new_stats = record {
  packets_processed = 0;
  packets_passed = 0;
  packets_dropped = 0;
  total_processing_time = 0;
  filter_counts = [];
}

pub record PacketFilter : Type 0 where
  pub filters : Map FilterEntry
  pub stats : FilterStats

-- A Result<void>: the message of an error INVALID_ARGUMENT, or success.
pub data Outcome : Type 0 where
  success : Outcome
  invalid_argument : Text → Outcome

unfoldable pub add_filter : PacketFilter → Text → FilterConfig → PacketFilter × Outcome
add_filter p name config =
    if has_key name p.filters
    then (p, invalid_argument (codes "Filter already exists: " ++ name))
    else (
      record p { filters = insert name (record { config = config; custom_func = none }) p.filters },
      success,
    )

unfoldable pub not_found : Text → Outcome
not_found name = invalid_argument (codes "Filter not found: " ++ name)

unfoldable pub remove_filter : PacketFilter → Text → PacketFilter × Outcome
unfolding not_found
remove_filter p name =
    if has_key name p.filters
    then (record p { filters = erase name p.filters }, success)
    else (p, not_found name)

unfoldable pub set_filter_enabled : PacketFilter → Text → Bool → PacketFilter × Outcome
unfolding not_found
set_filter_enabled p name enabled = elim (lookup name p.filters) [
  | none ↦ (p, not_found name)
  | some e ↦ (
    record p {
      filters =
          insert name (record e { config = record (e.config) { enabled = enabled } }) p.filters;
    },
    success,
  )
]

unfoldable pub set_custom_filter :
    PacketFilter → Text → Option (Packet → Result Bool) → PacketFilter × Outcome
unfolding not_found
set_custom_filter p name func = elim (lookup name p.filters) [
  | none ↦ (p, not_found name)
  | some e ↦
      (record p { filters = insert name (record e { custom_func = func }) p.filters }, success)
]

unfoldable pub get_active_filters : Map FilterEntry → List Text
get_active_filters [] = []
get_active_filters ((name, e) ∷ m) =
    if e.config.enabled then name ∷ get_active_filters m else get_active_filters m

unfoldable pub reset_stats : PacketFilter → PacketFilter
reset_stats p = record p { stats = new_stats }
