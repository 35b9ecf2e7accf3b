-- ===== src/PluginManager/Batches.antt =====
-- processPackets against processPacket for each packet of the batch.
use beatrice.Base.{
  ◌≡◌, refl, sym, ◌∙◌, ap, true, false, ◌||◌, List, [], ◌∷◌, is_empty, Bool-cases, inl, inr, arith,
}
use beatrice.PluginManager.{
  Host, Plugin, World, pass, pass_all, pass_batch, process_packet, process_packets,
}

module _ {S P : Type 0} (host : Host S P) where
  -- The packets one after the other.
  abbrev pub process_each : World S → List P → World S × List P
  process_each w [] = (w, [])
  process_each w (packet ∷ packets) =
      let out = process_packet host w packet in
      let rest = process_each out.0 packets in (rest.0, out.1 ∷ rest.1)

  abbrev pass_each : List (Plugin S) → List P → List (Plugin S) × List P
  pass_each ps [] = (ps, [])
  pass_each ps (packet ∷ packets) =
      let out = pass host ps packet in
      let rest = pass_each out.0 packets in (rest.0, out.1 ∷ rest.1)

  process_each-pass_each :
      (w : World S) (packets : List P)
      → process_each w packets ≡ (
        record w {
          manager = record w.manager { plugins = (pass_each w.manager.plugins packets).0 };
        },
        (pass_each w.manager.plugins packets).1,
      )
  unfolding process_packet
  process_each-pass_each w [] = refl
  process_each-pass_each w (packet ∷ packets) =
      ap (λ r. (r.0, (pass host w.manager.plugins packet).1 ∷ r.1))
        (process_each-pass_each (process_packet host w packet).0 packets)

  module _ (calm : (s : S) (packet : P) → (host.on_packet s packet).0 ≡ false) where
    pass_each-first :
        (p : Plugin S) (ps : List (Plugin S)) (packets : List P)
        → pass_each (p ∷ ps) packets ≡ (
          record p { state = (pass_all host p.state packets).0 }
              ∷ (pass_each ps (pass_all host p.state packets).1).0,
          (pass_each ps (pass_all host p.state packets).1).1,
        )
    unfolding pass pass_all
    pass_each-first p ps [] = refl
    pass_each-first p ps (packet ∷ packets) = rw (calm p.state packet) (
        ap (λ r. (r.0, (pass host ps (host.on_packet p.state packet).2).1 ∷ r.1))
          (pass_each-first (record p { state = (host.on_packet p.state packet).1 })
            (pass host ps (host.on_packet p.state packet).2).0 packets))

    pass_each-none : (packets : List P) → pass_each [] packets ≡ ([], packets)
    unfolding pass
    pass_each-none [] = refl
    pass_each-none (packet ∷ packets) = ap (λ r. (r.0, packet ∷ r.1)) (pass_each-none packets)

    pass_batch-pass_each :
        (ps : List (Plugin S)) (packets : List P)
        → pass_batch host ps packets ≡ pass_each ps packets
    unfolding pass_batch
    pass_batch-pass_each [] packets = sym (pass_each-none packets)
    pass_batch-pass_each (p ∷ ps) packets =
        ap (λ r. (record p { state = (pass_all host p.state packets).0 } ∷ r.0, r.1))
          (pass_batch-pass_each ps (pass_all host p.state packets).1)
        ∙ sym (pass_each-first p ps packets)

    nothing_to_do :
        (ps : List (Plugin S)) (packets : List P)
        → (is_empty ps || is_empty packets) ≡ true
        → pass_batch host ps packets ≡ (ps, packets)
    unfolding pass_batch pass_all
    nothing_to_do [] packets h = refl
    nothing_to_do (p ∷ ps) [] h = ap (λ r. (p ∷ r.0, r.1)) (nothing_to_do ps [] (ground arith))
    nothing_to_do (p ∷ ps) (packet ∷ packets) h = cc

    -- Where no onPacket throws, a batch leaves the plugins and the packets as its packets do when they
    -- are processed one at a time in order, although each plugin takes the whole batch first.
    pub process_packets-each :
        (w : World S) (packets : List P) → process_packets host w packets ≡ process_each w packets
    unfolding process_packets
    process_packets-each w packets =
        elim (Bool-cases (is_empty w.manager.plugins || is_empty packets)) [
          | inl nothing ↦ rw nothing (
              ap (both w) (sym (nothing_to_do w.manager.plugins packets nothing))
              ∙ through w packets)
          | inr work ↦ rw work (through w packets)
        ]
      where
        both : World S → List (Plugin S) × List P → World S × List P
        both w r = (record w { manager = record w.manager { plugins = r.0 } }, r.1)

        through :
            (w : World S) (packets : List P)
            → both w (pass_batch host w.manager.plugins packets) ≡ process_each w packets
        through w packets =
            ap (both w) (pass_batch-pass_each w.manager.plugins packets)
            ∙ sym (process_each-pass_each w packets)
