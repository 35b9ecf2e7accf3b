-- ===== src/Filter/Verdict.antt =====
-- What applyFilters decides: it does not depend on the order of the filters, and a rejection is by a
-- filter of the highest priority that rejects.
use mathlib.Core.List.{Mem, mem-cons_self, mem-cons_of_mem}
use mathlib.Core.List.Perm
use beatrice.Base.{
  ℕ, ◌≡◌, refl, sym, ◌∙◌, ap, subst, Bool, true, false, not, ◌&&◌, ◌||◌, List, [], ◌∷◌, All, Text,
  Bool-cases, ◌⊎◌, inl, inr, if◌then◌else◌, ok, err, is_ok, Result-cases, Ensures, Ensures->>=,
  Ensures-mono, arith,
}
use beatrice.Base.Int.{ltb_ℤ, ◌≤ℤ◌}
use beatrice.Base.Maps.{Map}
use beatrice.Filter.{Packet, FilterEntry, FilterResult, PacketFilter}
use beatrice.Filter.Headers.{Regex, apply_filter}
use beatrice.Filter.Chain.{
  Entry, IsOrdered, Sorter, active, rejected, accepted, new_result, run_filters, update_stats,
  apply_filters,
}
use beatrice.Filter.Active.{all, all-perm, Mem-active, cons_true, all-below, all-active}

module _ (re : Regex) (p : Packet) where
  -- A filter that is not enabled accepts every packet; one that is accepts it if its test holds.
  abbrev pub accepts : Entry → Bool
  accepts x =
      if x.1.config.enabled
      then elim (apply_filter re p x.1 x.1.config.type) [ ok b ↦ b | err e ↦ false ]
      else true

  -- The test of an enabled filter neither throws nor reads out of bounds.
  abbrev pub returns : Entry → Bool
  returns x = if x.1.config.enabled then is_ok (apply_filter re p x.1 x.1.config.type) else true

  -- A filter of the list with the result's name rejects, and those of a higher priority accept.
  abbrev pub Blames : List Entry → FilterResult → Type 0
  Blames es r =
      (x : Entry) × Mem x es
      × (r.filter_name ≡ x.0)
      × (accepts x ≡ false)
      × (all (λ y. not (ltb_ℤ x.1.config.priority y.1.config.priority) || accepts y) es ≡ true)

  -- A packet passes if every filter accepts it; if it does not pass, a filter is to blame.
  abbrev pub Decides : List Entry → FilterResult → Type 0
  Decides es r = (r.passed ≡ all accepts es) × ((r.passed ≡ true) ⊎ Blames es r)

  Decides-skip :
      (x : Entry) (es : List Entry) (r : FilterResult)
      → accepts x ≡ true
      → Decides es r
      → Decides (x ∷ es) r
  Decides-skip x es r h (passes, verdict) =
      (passes ∙ sym (ap (λ b. b && all accepts es) h), skip verdict)
    where
      blame_skip : Blames es r → Blames (x ∷ es) r
      blame_skip (y, m, named, rejects, above) = (
        y,
        mem-cons_of_mem x m,
        named,
        rejects,
        cons_true (ltb_ℤ y.1.config.priority x.1.config.priority) h above,
      )

      skip : (r.passed ≡ true) ⊎ Blames es r → (r.passed ≡ true) ⊎ Blames (x ∷ es) r
      skip (inl passed) = inl passed
      skip (inr blames) = inr (blame_skip blames)

  Decides-blame :
      (x : Entry) (es : List Entry) (r : FilterResult)
      → accepts x ≡ false
      → All (λ y. y.1.config.priority ≤ℤ x.1.config.priority) es
      → Decides (x ∷ es) (rejected x.0 r)
  Decides-blame x es r fails top = (
    sym (ap (λ b. b && all accepts es) fails),
    inr (x, mem-cons_self, refl, fails, all-below accepts x (x ∷ es) (ground arith, top)),
  )

  accepts-off :
      (name : Text) (e : FilterEntry) → e.config.enabled ≡ false → accepts (name, e) ≡ true
  accepts-off name e off = ground (arith, off)

  run_filters-off :
      (name : Text) (e : FilterEntry) (es : List Entry) (r : FilterResult)
      → e.config.enabled ≡ false
      → run_filters re p ((name, e) ∷ es) r ≡ run_filters re p es r
  unfolding run_filters
  run_filters-off name e es r off = ground (arith, off)

  run_filters-on :
      (name : Text) (e : FilterEntry) (es : List Entry) (r : FilterResult) (b : Bool)
      → e.config.enabled ≡ true
      → apply_filter re p e e.config.type ≡ ok b
      → run_filters re p ((name, e) ∷ es) r
        ≡ (if b then run_filters re p es (accepted name r) else ok (rejected name r))
  unfolding run_filters
  run_filters-on name e es r b on h = ground (arith, on, h)

  verdict-Decides :
      (x : Entry) (es : List Entry) (r : FilterResult) (b : Bool)
      → accepts x ≡ b
      → All (λ y. y.1.config.priority ≤ℤ x.1.config.priority) es
      → Ensures (Decides es) (run_filters re p es (accepted x.0 r))
      → Ensures
          (Decides (x ∷ es))
          (if b then run_filters re p es (accepted x.0 r) else ok (rejected x.0 r))
  verdict-Decides x es r true h top rest =
      Ensures-mono (Decides es) (Decides (x ∷ es)) (run_filters re p es (accepted x.0 r)) rest
        (λ a. Decides-skip x es a h)
  verdict-Decides x es r false h top rest = Decides-blame x es r h top

  run_filters-Decides :
      (es : List Entry) (r : FilterResult)
      → r.passed ≡ true
      → IsOrdered es
      → all returns es ≡ true
      → Ensures (Decides es) (run_filters re p es r)
  unfolding run_filters
  run_filters-Decides [] r passed ordered safe = (passed, inl passed)
  run_filters-Decides ((name, e) ∷ es) r passed (top, ordered) safe =
      elim (Bool-cases e.config.enabled) [
        | inr off ↦
            subst (Ensures (Decides ((name, e) ∷ es))) (sym (run_filters-off name e es r off)) (
              Ensures-mono (Decides es) (Decides ((name, e) ∷ es)) (run_filters re p es r)
                (run_filters-Decides es r passed ordered (ground (arith, safe)))
                (λ a. Decides-skip (name, e) es a (accepts-off name e off)))
        | inl on ↦ elim (Result-cases (apply_filter re p e e.config.type)) [
          | inr (f, h) ↦ absurd (ground (arith, on, h, safe))
          | inl (b, h) ↦
              subst (Ensures (Decides ((name, e) ∷ es))) (sym (run_filters-on name e es r b on h)) (
                verdict-Decides (name, e) es r b (ground (arith, on, h)) top
                  (run_filters-Decides es (accepted name r) passed ordered (ground (arith, safe))))
        ]
      ]

  accepts-above_off :
      (b : Bool) (x : Entry) → x.1.config.enabled ≡ false → (not b || accepts x) ≡ true
  accepts-above_off b x off = ground (arith, accepts-off x.0 x.1 off)

  module _ (sorter : Sorter) (m : Map FilterEntry) where
    all-sort :
        (t : Entry → Bool)
        → ((x : Entry) → x.1.config.enabled ≡ false → t x ≡ true)
        → all t (sorter.sort (active m)) ≡ all t m
    all-sort t h =
        all-perm t (sorter.sort (active m)) (active m) (sorter.sort-perm (active m))
        ∙ all-active t m h

    Decides-sort : (r : FilterResult) → Decides (sorter.sort (active m)) r → Decides m r
    Decides-sort r (passes, verdict) =
        (passes ∙ all-sort accepts (λ x off. accepts-off x.0 x.1 off), move verdict)
      where
        blame : Blames (sorter.sort (active m)) r → Blames m r
        blame (x, found, named, rejects, above) = (
          x,
          Mem-active m x ((Perm.mem_iff (sorter.sort-perm (active m))).0 found),
          named,
          rejects,
          sym (
                all-sort (λ y. not (ltb_ℤ x.1.config.priority y.1.config.priority) || accepts y)
                  (λ y off.
                    accepts-above_off (ltb_ℤ x.1.config.priority y.1.config.priority) y off))
              ∙ above,
        )

        move :
            (r.passed ≡ true) ⊎ Blames (sorter.sort (active m)) r → (r.passed ≡ true) ⊎ Blames m r
        move (inl passed) = inl passed
        move (inr blames) = inr (blame blames)

-- applyFilters returns a result if no test of an enabled filter throws or reads out of bounds,
-- whatever order std::sort gives equal priorities: the packet passes exactly if every enabled
-- filter accepts it, and otherwise the result names a filter that rejects it while all those of a
-- higher priority accept it. Only the statistics change, as updateStats says.
pub apply_filters-Decides :
    (sorter : Sorter) (re : Regex) (time : ℕ) (f : PacketFilter) (p : Packet)
    → all (returns re p) f.filters ≡ true
    → Ensures
        (λ out.
          Decides re p f.filters out.0
          × (out.1 ≡ record f { stats = update_stats f.stats out.0.filter_name out.0.passed time }))
        (apply_filters sorter re time f p)
unfolding apply_filters
apply_filters-Decides sorter re time f p safe =
    Ensures->>= (Decides re p (sorter.sort (active f.filters)))
      (λ out.
        Decides re p f.filters out.0
        × (out.1 ≡ record f { stats = update_stats f.stats out.0.filter_name out.0.passed time }))
      (run_filters re p (sorter.sort (active f.filters)) new_result) _
      (run_filters-Decides re p (sorter.sort (active f.filters)) new_result refl
        (sorter.sort-IsOrdered (active f.filters))
        (all-sort re p sorter f.filters (returns re p) (λ x off. ground (arith, off)) ∙ safe))
      (λ r h. (Decides-sort re p sorter f.filters r h, refl))
