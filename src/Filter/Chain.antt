-- ===== src/Filter/Chain.antt =====
-- applyFilters and updateStats of src/PacketFilter.cpp. std::sort leaves the order of equal
-- priorities open: it is an interface with its two laws, and so is the time that the clock measures.
use mathlib.Core.List.{Perm}
use beatrice.Base.{
  ℕ, ◌+◌, Bool, true, false, List, [], ◌∷◌, ◌++◌, none, some, All, Text, codes, if◌then◌else◌,
  Result, ok, ◌>>=◌,
}
use beatrice.Base.Int.{◌≤ℤ◌}
use beatrice.Base.Words.{size_add}
use beatrice.Base.Maps.{Map, lookup, insert}
use beatrice.Filter.{Packet, FilterEntry, FilterResult, FilterStats, PacketFilter}
use beatrice.Filter.Headers.{Regex, apply_filter}

abbrev pub Entry : Type 0
Entry = Text × FilterEntry

-- Higher priorities come first.
abbrev pub IsOrdered : List Entry → Type 0
IsOrdered [] = Unit
IsOrdered (x ∷ xs) = All (λ y. y.1.config.priority ≤ℤ x.1.config.priority) xs × IsOrdered xs

-- std::sort by descending priority.
pub record Sorter : Type 0 where
  pub sort : List Entry → List Entry
  pub sort-perm : (xs : List Entry) → Perm (sort xs) xs
  pub sort-IsOrdered : (xs : List Entry) → IsOrdered (sort xs)

-- sortedFilters before it is sorted.
unfoldable pub active : Map FilterEntry → List Entry
active [] = []
active ((name, e) ∷ m) = if e.config.enabled then (name, e) ∷ active m else active m

abbrev pub rejected : Text → FilterResult → FilterResult
rejected name r = record r {
  passed = false;
  filter_name = name;
  reason = codes "Filter " ++ name ++ codes " rejected packet";
}

abbrev pub accepted : Text → FilterResult → FilterResult
accepted name r = record r { filter_name = name; reason = codes "Packet passed all filters" }

-- The loop over the sorted filters: the first that rejects ends it.
unfoldable pub run_filters : Regex → Packet → List Entry → FilterResult → Result FilterResult
run_filters re p [] r = ok r
run_filters re p ((name, e) ∷ es) r = elim e.config.enabled [
  | false ↦ run_filters re p es r
  | true ↦ apply_filter re p e e.config.type >>= λ pass. elim pass [
    | true ↦ run_filters re p es (accepted name r)
    | false ↦ ok (rejected name r)
  ]
]

unfoldable pub update_stats : FilterStats → Text → Bool → ℕ → FilterStats
update_stats s name passed time = record s {
  packets_processed = size_add s.packets_processed 1;
  packets_passed = if passed then size_add s.packets_passed 1 else s.packets_passed;
  packets_dropped = if passed then s.packets_dropped else size_add s.packets_dropped 1;
  total_processing_time = s.total_processing_time + time;
  filter_counts =
      insert name (size_add (elim (lookup name s.filter_counts) [ none ↦ 0 | some n ↦ n ]) 1)
        s.filter_counts;
}

abbrev pub new_result : FilterResult
new_result = record { passed = true; filter_name = []; processing_time = 0; reason = [] }

-- applyFilters of one packet. If a test throws, the statistics are not updated.
unfoldable pub apply_filters :
    Sorter → Regex → ℕ → PacketFilter → Packet → Result (FilterResult × PacketFilter)
apply_filters sorter re time f p =
    run_filters re p (sorter.sort (active f.filters)) new_result >>= λ r. ok (
      record r { processing_time = time },
      record f { stats = update_stats f.stats r.filter_name r.passed time },
    )

-- applyFilters of packets, in their order, with a time each.
unfoldable pub apply_filters_to_all :
    Sorter
    → Regex
    → (ℕ → ℕ)
    → PacketFilter
    → List Packet
    → ℕ
    → Result (List FilterResult × PacketFilter)
unfolding apply_filters
apply_filters_to_all sorter re time f [] i = ok ([], f)
apply_filters_to_all sorter re time f (p ∷ ps) i = apply_filters sorter re (time i) f p >>= λ first.
    apply_filters_to_all sorter re time first.1 ps (i + 1) >>= λ rest. ok (first.0 ∷ rest.0, rest.1)
