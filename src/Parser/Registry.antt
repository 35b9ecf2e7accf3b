-- ===== src/Parser/Registry.antt =====
-- ProtocolRegistry of include/parser/ProtocolRegistry.hpp and src/parser/ProtocolRegistry.cpp: the
-- protocols and factories by name, with the number of uses. The time of a change is an argument.
pub mod Builtin
pub mod Laws
pub mod Detect
mod Tests
use beatrice.Base.{
  ℕ, ◌+◌, Bool, true, false, List, [], ◌∷◌, map, length, Option, none, some, Text, codes,
  if◌then◌else◌,
}
use beatrice.Base.Words.{size_add, size_sub}
use beatrice.Base.Maps.{Map, lookup, insert, erase, has_key, keys}
use beatrice.Parser.Field.{ProtocolDefinition, new_protocol}
use Builtin.{
  create_ethernet_protocol, create_ipv4_protocol, create_tcp_protocol, create_udp_protocol,
  create_icmp_protocol,
}

pub record ProtocolRegistry : Type 0 where
  pub protocols : Map ProtocolDefinition
  pub factories : Map ProtocolDefinition
  pub usage_count : Map ℕ
  pub last_update_time : ℕ

pub record RegistryStats : Type 0 where
  pub total_protocols : ℕ
  pub custom_protocols : ℕ
  pub builtin_protocols : ℕ
  pub last_update_time : ℕ
  pub usage_count : Map ℕ

unfoldable pub register_protocol :
    ProtocolRegistry → ℕ → ProtocolDefinition → ProtocolRegistry × Bool
register_protocol r now protocol = if has_key protocol.name r.protocols then (r, false) else (
  record r {
    protocols = insert protocol.name protocol r.protocols;
    usage_count = insert protocol.name 0 r.usage_count;
    last_update_time = now;
  },
  true,
)

unfoldable pub unregister_protocol : ProtocolRegistry → ℕ → Text → ProtocolRegistry × Bool
unregister_protocol r now name =
    if has_key name r.protocols
    then (
      record r {
        protocols = erase name r.protocols;
        usage_count = erase name r.usage_count;
        last_update_time = now;
      },
      true,
    )
    else (r, false)

unfoldable pub has_protocol : ProtocolRegistry → Text → Bool
has_protocol r name = has_key name r.protocols

-- usageCount_[name]++ on size_t.
unfoldable pub bump_usage : Text → Map ℕ → Map ℕ
bump_usage name m = insert name (size_add (elim (lookup name m) [ none ↦ 0 | some n ↦ n ]) 1) m

-- A lookup counts as a use; a null pointer is `none`.
unfoldable pub get_protocol : ProtocolRegistry → Text → ProtocolRegistry × Option ProtocolDefinition
get_protocol r name = elim (lookup name r.protocols) [
  | none ↦ (r, none)
  | some p ↦ (record r { usage_count = bump_usage name r.usage_count }, some p)
]

unfoldable pub get_registered_protocols : ProtocolRegistry → List Text
get_registered_protocols r = keys r.protocols

unfoldable pub get_protocol_count : ProtocolRegistry → ℕ
get_protocol_count r = length r.protocols

-- A factory is a function without arguments: the definition that it makes stands for it.
unfoldable pub register_protocol_factory :
    ProtocolRegistry → ℕ → Text → ProtocolDefinition → ProtocolRegistry × Bool
register_protocol_factory r now name factory =
    if has_key name r.factories
    then (r, false)
    else (record r { factories = insert name factory r.factories; last_update_time = now }, true)

unfoldable pub create_protocol : ProtocolRegistry → Text → ProtocolDefinition
create_protocol r name = elim (lookup name r.factories) [ none ↦ new_protocol [] [] | some p ↦ p ]

unfoldable pub clear : ProtocolRegistry → ℕ → ProtocolRegistry
clear r now = record { protocols = []; factories = []; usage_count = []; last_update_time = now }

-- usageCount_[name] = 0 for every registered name.
unfoldable pub zero_usage : List Text → Map ℕ → Map ℕ
zero_usage [] m = m
zero_usage (k ∷ ks) m = zero_usage ks (insert k 0 m)

unfoldable pub load_builtin_protocols : ProtocolRegistry → ℕ → ProtocolRegistry
load_builtin_protocols r now =
    let protocols = insert (codes "icmp") create_icmp_protocol (
      insert (codes "udp") create_udp_protocol (
        insert (codes "tcp") create_tcp_protocol (
          insert (codes "ipv4") create_ipv4_protocol
            (insert (codes "ethernet") create_ethernet_protocol r.protocols)))) in
    record r {
      protocols = protocols;
      usage_count = zero_usage (keys protocols) r.usage_count;
      last_update_time = now;
    }

-- getStats: the five built-in protocols are counted whether or not they are loaded.
unfoldable pub get_stats : ProtocolRegistry → RegistryStats
get_stats r = record {
  total_protocols = length r.protocols;
  builtin_protocols = 5;
  custom_protocols = size_sub (length r.protocols) 5;
  last_update_time = r.last_update_time;
  usage_count = r.usage_count;
}
