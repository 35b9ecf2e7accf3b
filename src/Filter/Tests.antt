-- ===== src/Filter/Tests.antt =====
-- The theorems on the filters applied to concrete filters and packets.
use beatrice.Base.{
  ℕ, ◌/◌, ◌^◌, ◌≡◌, refl, Bool, true, false, [], ◌∷◌, ◌++◌, none, some, Text, codes, ◌==◌, ok,
  Ensures, arith,
}
use beatrice.Base.Int.{pos}
use beatrice.Base.Numbers.{stoi, get_lines, has_byte, before_byte, after_byte}
use beatrice.Filter.{Packet, FilterType, ip_range, port_range, FilterEntry, PacketFilter, new_stats}
use beatrice.Filter.Headers.{Regex, apply_filter, apply_ip_range_filter, apply_port_range_filter}
use beatrice.Filter.Chain.{update_stats, apply_filters, apply_filters_to_all}
use beatrice.Filter.Order.{insertion_sorter}
use beatrice.Parser.Value.Format.{format_ipv4_address}
use beatrice.Filter.Range.Printed.{parse_ip_address-format_ipv4_address}
use beatrice.Filter.Range.{in_network, parse_ip_address, is_ip_in_range, is_port_in_range}
use beatrice.Filter.Range.Cidr.{number, in_network-div}
use beatrice.Filter.Active.{all}
use beatrice.Filter.Verdict.{returns, Decides, apply_filters-Decides}
use beatrice.Filter.Stats.{Tallies, apply_filters_to_all-Tallies}

-- A search that finds nothing.
abbrev nothing : Regex
nothing = record { search_text = λ pattern s. some false }

abbrev entry : FilterType → Text → Bool → ℕ → FilterEntry
entry type expression enabled priority = record {
  config = record {
    type = type;
    expression = expression;
    enabled = enabled;
    priority = pos priority;
    description = [];
    parameters = [];
  };
  custom_func = none;
}

-- The web filter goes first; the disabled one could not read its expression.
abbrev two_filters : PacketFilter
two_filters = record {
  filters =
      (codes "net", entry ip_range (codes "10.0.0.0/8") true 1)
      ∷ (codes "web", entry port_range (codes "80-443") true 5)
      ∷ (codes "off", entry port_range (codes "x") false 9)
      ∷ [];
  stats = new_stats;
}

-- A TCP segment from 192.168.0.1, port 1024, to 10.1.2.3, port 80.
abbrev segment : Packet
segment = record {
  data_bytes =
      codes "123456abcdef"
      ++ 8
        ∷ 0
        ∷ 0x45
        ∷ 0
        ∷ 0
        ∷ 40
        ∷ 0
        ∷ 0
        ∷ 0
        ∷ 0
        ∷ 64
        ∷ 6
        ∷ 0
        ∷ 0
        ∷ 192
        ∷ 168
        ∷ 0
        ∷ 1
        ∷ 10
        ∷ 1
        ∷ 2
        ∷ 3
        ∷ 4
        ∷ 0
        ∷ 0
        ∷ 80
        ∷ codes "0123456789abcdef";
  length = 54;
}

-- The tests of the two enabled filters return.
two_filters_return : all (returns nothing segment) two_filters.filters ≡ true
unfolding apply_filter apply_ip_range_filter is_ip_in_range has_byte stoi after_byte get_lines
    before_byte apply_port_range_filter is_port_in_range
two_filters_return = refl

apply_filters-Decides_example :
    Ensures
      (λ out.
        Decides nothing segment two_filters.filters out.0
        × (out.1 ≡ record two_filters {
          stats = update_stats two_filters.stats out.0.filter_name out.0.passed 3;
        }))
      (apply_filters insertion_sorter nothing 3 two_filters segment)
apply_filters-Decides_example =
    apply_filters-Decides insertion_sorter nothing 3 two_filters segment two_filters_return

apply_filters_to_all-Tallies_example :
    Ensures (Tallies insertion_sorter nothing (λ i. i) two_filters (segment ∷ segment ∷ [])) (
      apply_filters_to_all insertion_sorter nothing (λ i. i) two_filters (segment ∷ segment ∷ []) 0)
apply_filters_to_all-Tallies_example =
    apply_filters_to_all-Tallies insertion_sorter nothing (λ i. i) two_filters
      (segment ∷ segment ∷ []) 0 (two_filters_return, (two_filters_return, tt)) refl

-- 10.1.2.3 is in 10.0.0.0/8.
in_network-div_example :
    in_network (10 ∷ 1 ∷ 2 ∷ 3 ∷ []) (10 ∷ 0 ∷ 0 ∷ 0 ∷ []) 8
    ≡ ok (number 10 0 0 0 / 2 ^ 24 == number 10 1 2 3 / 2 ^ 24)
in_network-div_example =
    in_network-div 10 1 2 3 10 0 0 0 24 (omega arith) (omega arith) (omega arith)

parse_ip_address-format_ipv4_address_example :
    parse_ip_address (format_ipv4_address (192 ∷ 168 ∷ 0 ∷ 1 ∷ [])) ≡ ok (192 ∷ 168 ∷ 0 ∷ 1 ∷ [])
parse_ip_address-format_ipv4_address_example =
    parse_ip_address-format_ipv4_address 192 168 0 1 (omega arith)
