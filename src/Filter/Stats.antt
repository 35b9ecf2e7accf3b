-- ===== src/Filter/Stats.antt =====
-- The counts that applyFilters keeps, over several packets.
use mathlib.Core.List.{map}
use beatrice.Base.{
  ℕ, ◌+◌, ◌≡◌, refl, sym, ◌∙◌, ap, subst, Bool, true, false, List, [], ◌∷◌, length, All, Text,
  Ensures, Ensures->>=, arith,
}
use beatrice.Base.Words.{size_add}
use beatrice.Filter.{Packet, FilterResult, FilterStats, PacketFilter}
use beatrice.Filter.Headers.{Regex}
use beatrice.Filter.Chain.{Sorter, update_stats, apply_filters, apply_filters_to_all}
use beatrice.Filter.Active.{all}
use beatrice.Filter.Verdict.{accepts, returns, apply_filters-Decides}

-- What passed and what was dropped is what was processed, as size_t.
abbrev pub IsCounted : FilterStats → Type 0
IsCounted s = s.packets_processed ≡ size_add s.packets_passed s.packets_dropped

update_stats-IsCounted :
    (s : FilterStats) (name : Text) (b : Bool) (time : ℕ)
    → IsCounted s
    → IsCounted (update_stats s name b time)
unfolding update_stats
update_stats-IsCounted s name true time h = omega (arith, h)
update_stats-IsCounted s name false time h = omega (arith, h)

module _ (sorter : Sorter) (re : Regex) (time : ℕ → ℕ) where
  -- One result for each packet, with the verdict of the filters, and each packet counted once.
  abbrev pub Tallies : PacketFilter → List Packet → List FilterResult × PacketFilter → Type 0
  Tallies f ps out =
      (map (λ r. r.passed) out.0 ≡ map (λ p. all (accepts re p) f.filters) ps)
      × (out.1.filters ≡ f.filters)
      × IsCounted out.1.stats
      × (out.1.stats.packets_processed ≡ size_add f.stats.packets_processed (length ps))

  Tallies-step :
      (f g : PacketFilter) (p : Packet) (ps : List Packet) (r : FilterResult) (t : ℕ)
      → (r.passed ≡ all (accepts re p) f.filters)
      → g ≡ record f { stats = update_stats f.stats r.filter_name r.passed t }
      → (out : List FilterResult × PacketFilter) → Tallies g ps out
      → Tallies f (p ∷ ps) (r ∷ out.0, out.1)
  unfolding update_stats
  Tallies-step f g p ps r t verdict moved out (passes, kept, counted, total) = (
    ap (◌∷◌ r.passed) passes
        ∙ ap (λ m. r.passed ∷ map (λ q. all (accepts re q) m) ps) (ap (λ x. x.filters) moved)
        ∙ ap (λ b. b ∷ map (λ q. all (accepts re q) f.filters) ps) verdict,
    kept ∙ ap (λ x. x.filters) moved,
    counted,
    omega (arith, total, ap (λ x. x.stats.packets_processed) moved),
  )

  -- For packets on which no test of an enabled filter throws or reads out of bounds, applyFilters of
  -- a vector returns one result per packet, each with the verdict that the packet passes exactly if
  -- every enabled filter accepts it. The filters are kept, each packet is counted once as processed,
  -- and if processed was passed plus dropped (modulo 2^64) before, it is so after.
  pub apply_filters_to_all-Tallies :
      (f : PacketFilter) (ps : List Packet) (i : ℕ)
      → All (λ p. all (returns re p) f.filters ≡ true) ps
      → IsCounted f.stats
      → Ensures (Tallies f ps) (apply_filters_to_all sorter re time f ps i)
  unfolding apply_filters_to_all
  apply_filters_to_all-Tallies f [] i safe counted = (refl, refl, counted, omega (arith, counted))
  apply_filters_to_all-Tallies f (p ∷ ps) i (safe, rest_safe) counted =
      Ensures->>= _ (Tallies f (p ∷ ps)) (apply_filters sorter re (time i) f p) _
        (apply_filters-Decides sorter re (time i) f p safe)
        (λ first h.
          Ensures->>= (Tallies first.1 ps) (Tallies f (p ∷ ps))
            (apply_filters_to_all sorter re time first.1 ps (i + 1)) _
            (apply_filters_to_all-Tallies first.1 ps (i + 1)
              (subst (λ m. All (λ q. all (returns re q) m ≡ true) ps)
                (sym (ap (λ x. x.filters) h.1)) rest_safe)
              (subst (λ x. IsCounted x.stats) (sym h.1)
                (update_stats-IsCounted f.stats first.0.filter_name first.0.passed (time i)
                  counted)))
            (λ out done. Tallies-step f first.1 p ps first.0 (time i) h.0.0 h.1 out done))
