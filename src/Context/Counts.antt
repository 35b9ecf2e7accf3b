-- ===== src/Context/Counts.antt =====
-- The counts of BeatriceContext: what one packet adds to them, and how they add up.
use beatrice.Base.{
  ℕ, ◌≡◌, refl, sym, ◌∙◌, ap, Bool, false, not, ◌&&◌, List, [], ◌∷◌, ◌++◌, Option, none, some,
  length, get_elem?, get_elem?-set, get_elem?-lt, is_empty, if◌then◌else◌, ◌==◌, Bool-cases,
  Option-cases, inl, inr, arith,
}
use beatrice.Base.Doubles.{Doubles}
use beatrice.Metrics.{Body, MetricsRegistry, update_body, added, increment, increment_by}
use beatrice.Metrics.Handles.{update_body-other}
use beatrice.PluginManager
use beatrice.PluginManager.{Host, World}
use beatrice.PluginManager.Batches.{process_each}
use beatrice.Context.{Context, Round, process_packet}

-- What an object of the registry holds.
abbrev pub held_by : MetricsRegistry → ℕ → Option Body
held_by r i = elim (get_elem? r.objects i) [ none ↦ none | some m ↦ some m.body ]

-- Several additions to a counter, one after the other.
abbrev pub adds : Doubles → Option Body → List ℕ → Option Body
adds d o [] = o
adds d o (n ∷ ns) =
    adds d
      (elim o as (λ o. Option Body) [ none ↦ none | some b ↦ some (added d (d.of_uint64 n) b) ]) ns

-- The packets that are looked at while the context runs, and whether it runs afterwards.
abbrev pub looked_at {ℓ} : {P : Type ℓ} → Bool → List (P × Bool) → List P × Bool
looked_at running [] = ([], running)
looked_at running ((packet, signalled) ∷ packets) =
    let now = running && not signalled in
    let rest = looked_at now packets in (if now then packet ∷ rest.0 else rest.0, rest.1)

abbrev pub batch_of {ℓ} : {A : Type ℓ} → Option (List A) → List A
batch_of none = []
batch_of (some packets) = packets

-- Over the rounds: the packets that are looked at, and the sizes of the batches that are not empty.
abbrev pub over_rounds : {P : Type 0} → Bool → List (Round P) → List P × List ℕ
over_rounds running [] = ([], [])
over_rounds running (round ∷ rounds) =
    let now = running && not round.signalled in
    let packets = batch_of round.packets in
    let seen = looked_at now packets in
    let rest = over_rounds seen.1 rounds in
    if now
    then (seen.0 ++ rest.0, if is_empty packets then rest.1 else length packets ∷ rest.1)
    else ([], [])

-- The packets with no bytes, and the others.
abbrev pub empties : {P : Type 0} → (P → Bool) → List P → List ℕ
empties empty [] = []
empties empty (packet ∷ packets) =
    if empty packet then 1 ∷ empties empty packets else empties empty packets

abbrev pub nonempties : {P : Type 0} → (P → Bool) → List P → List P
nonempties empty [] = []
nonempties empty (packet ∷ packets) =
    if empty packet then nonempties empty packets else packet ∷ nonempties empty packets

pub held_by-same :
    (f : Body → Body) (r : MetricsRegistry) (i : ℕ)
    → held_by (record r { objects = update_body f r.objects i }) i
      ≡ elim (held_by r i) as (λ o. Option Body) [ none ↦ none | some b ↦ some (f b) ]
unfolding update_body
held_by-same f r i = elim (Option-cases (get_elem? r.objects i)) [
  | inl nothing ↦ ground (arith, nothing)
  | inr (m, found) ↦ ground (
    arith,
    found,
    get_elem?-set r.objects i i (record m { body = f m.body }) (get_elem?-lt r.objects i found),
  )
]

pub held_by-other :
    (f : Body → Body) (r : MetricsRegistry) (i j : ℕ)
    → (i == j) ≡ false
    → held_by (record r { objects = update_body f r.objects i }) j ≡ held_by r j
held_by-other f r i j apart =
    ap (λ o. elim o as (λ o. Option Body) [ none ↦ none | some m ↦ some m.body ])
      (update_body-other f r.objects i j apart)

adds-append :
    (d : Doubles) (o : Option Body) (ns ms : List ℕ) → adds d o (ns ++ ms) ≡ adds d (adds d o ns) ms
adds-append d o [] ms = refl
adds-append d o (n ∷ ns) ms = adds-append d (adds d o (n ∷ [])) ns ms

module _ {S P : Type 0} (host : Host S P) (empty : P → Bool) where
  empties-append :
      (ps qs : List P) → empties empty (ps ++ qs) ≡ empties empty ps ++ empties empty qs
  empties-append [] qs = refl
  empties-append (p ∷ ps) qs = ground (arith, empties-append ps qs)

  nonempties-append :
      (ps qs : List P) → nonempties empty (ps ++ qs) ≡ nonempties empty ps ++ nonempties empty qs
  nonempties-append [] qs = refl
  nonempties-append (p ∷ ps) qs = ground (arith, nonempties-append ps qs)

  process_each-append :
      (w : World S) (ps qs : List P)
      → (process_each host w (ps ++ qs)).0 ≡ (process_each host (process_each host w ps).0 qs).0
  process_each-append w [] qs = refl
  process_each-append w (p ∷ ps) qs =
      process_each-append (PluginManager.process_packet host w p).0 ps qs

module _ {S P : Type 0} (d : Doubles) (host : Host S P) (empty : P → Bool) where
  -- From c to out these packets were looked at, and batches of these sizes counted.
  pub record Counted (c out : Context S) (packets : List P) (sizes : List ℕ) : Type 0 where
    pub same_processed : out.packets_processed ≡ c.packets_processed
    pub same_dropped : out.packets_dropped ≡ c.packets_dropped
    pub same_latency : out.processing_latency ≡ c.processing_latency
    pub processed :
        held_by out.registry c.packets_processed
        ≡ adds d (held_by c.registry c.packets_processed) sizes
    pub dropped :
        held_by out.registry c.packets_dropped
        ≡ adds d (held_by c.registry c.packets_dropped) (empties empty packets)
    pub plugins : out.plugins ≡ (process_each host c.plugins (nonempties empty packets)).0

  -- The three metrics are different objects.
  pub record AreApart (c : Context S) : Type 0 where
    pub processed_dropped : (c.packets_processed == c.packets_dropped) ≡ false
    pub dropped_processed : (c.packets_dropped == c.packets_processed) ≡ false
    pub latency_processed : (c.processing_latency == c.packets_processed) ≡ false
    pub latency_dropped : (c.processing_latency == c.packets_dropped) ≡ false

  pub Counted-refl : (c : Context S) → Counted c c [] []
  Counted-refl c = record {
    same_processed = refl;
    same_dropped = refl;
    same_latency = refl;
    processed = refl;
    dropped = refl;
    plugins = refl;
  }

  pub Counted-trans :
      (a b c : Context S) (ps qs : List P) (ns ms : List ℕ)
      → Counted a b ps ns
      → Counted b c qs ms
      → Counted a c (ps ++ qs) (ns ++ ms)
  Counted-trans a b c ps qs ns ms x y = record {
    same_processed = y.same_processed ∙ x.same_processed;
    same_dropped = y.same_dropped ∙ x.same_dropped;
    same_latency = y.same_latency ∙ x.same_latency;
    processed =
        ap (held_by c.registry) (sym x.same_processed)
        ∙ y.processed
        ∙ ap (λ i. adds d (held_by b.registry i) ms) x.same_processed
        ∙ ap (λ o. adds d o ms) x.processed
        ∙ sym (adds-append d (held_by a.registry a.packets_processed) ns ms);
    dropped =
        ap (held_by c.registry) (sym x.same_dropped)
        ∙ y.dropped
        ∙ ap (λ i. adds d (held_by b.registry i) (empties empty qs)) x.same_dropped
        ∙ ap (λ o. adds d o (empties empty qs)) x.dropped
        ∙ sym (
            adds-append d (held_by a.registry a.packets_dropped) (empties empty ps)
              (empties empty qs))
        ∙ ap (adds d (held_by a.registry a.packets_dropped))
            (sym (empties-append host empty ps qs));
    plugins =
        y.plugins
        ∙ ap (λ w. (process_each host w (nonempties empty qs)).0) x.plugins
        ∙ sym (process_each-append host empty a.plugins (nonempties empty ps) (nonempties empty qs))
        ∙ ap (λ ps. (process_each host a.plugins ps).0) (sym (nonempties-append host empty ps qs));
  }

  pub AreApart-Counted :
      (c out : Context S) (ps : List P) (ns : List ℕ)
      → Counted c out ps ns
      → AreApart c
      → AreApart out
  AreApart-Counted c out ps ns x v = record {
    processed_dropped = ground (arith, x.same_processed, x.same_dropped, v.processed_dropped);
    dropped_processed = ground (arith, x.same_processed, x.same_dropped, v.dropped_processed);
    latency_processed = ground (arith, x.same_processed, x.same_latency, v.latency_processed);
    latency_dropped = ground (arith, x.same_dropped, x.same_latency, v.latency_dropped);
  }

  pub process_packet-Counted :
      (c : Context S) (packet : P)
      → AreApart c
      → Counted c (process_packet d host empty c packet) (packet ∷ []) []
  unfolding process_packet increment increment_by
  process_packet-Counted c packet v = elim (Bool-cases (empty packet)) [
    | inl none_there ↦
        rw (process_packet, none_there)
          (record {
            same_processed = refl;
            same_dropped = refl;
            same_latency = refl;
            processed =
                held_by-other (added d (d.of_uint64 1)) c.registry c.packets_dropped
                  c.packets_processed v.dropped_processed;
            dropped =
                held_by-same (added d (d.of_uint64 1)) c.registry c.packets_dropped
                ∙ rw none_there refl;
            plugins = rw none_there refl;
          })
    | inr some_there ↦
        rw (process_packet, some_there)
          (record {
            same_processed = refl;
            same_dropped = refl;
            same_latency = refl;
            processed = refl;
            dropped = rw some_there refl;
            plugins = rw some_there refl;
          })
  ]
