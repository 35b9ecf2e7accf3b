-- ===== src/Context/Batch.antt =====
-- One batch of BeatriceContext::runSingleThreaded, and the signals between its packets.
use beatrice.Base.{
  ◌≡◌, refl, ◌∙◌, ap, Bool, true, false, not, ◌&&◌, List, [], ◌∷◌, if◌then◌else◌, Bool-cases, inl,
  inr, arith,
}
use beatrice.Base.Doubles.{Doubles}
use beatrice.PluginManager.{Host}
use beatrice.Context.{Context, process_packet, signal, process_batch}
use beatrice.Context.Counts.{
  looked_at, Counted, AreApart, Counted-refl, Counted-trans, AreApart-Counted,
  process_packet-Counted,
}

module _ {S P : Type 0} (d : Doubles) (host : Host S P) (empty : P → Bool) where
  pub signal-Counted :
      (c : Context S) (b : Bool) → Counted d host empty c (signal d host empty b c) [] []
  unfolding signal
  signal-Counted c true = record {
    same_processed = refl;
    same_dropped = refl;
    same_latency = refl;
    processed = refl;
    dropped = refl;
    plugins = refl;
  }
  signal-Counted c false = Counted-refl d host empty c

  pub signal-running :
      (c : Context S) (b : Bool) → (signal d host empty b c).running ≡ (c.running && not b)
  unfolding signal
  signal-running c b = ground arith

  process_packet-running :
      (c : Context S) (packet : P) → (process_packet d host empty c packet).running ≡ c.running
  unfolding process_packet
  process_packet-running c packet = ground arith

  process_batch-goes :
      (c : Context S) (packet : P) (signalled : Bool) (packets : List (P × Bool))
      → (signal d host empty signalled c).running ≡ true
      → process_batch d host empty c ((packet, signalled) ∷ packets)
        ≡ process_batch d host empty
            (process_packet d host empty (signal d host empty signalled c) packet)
            packets
  unfolding process_batch
  process_batch-goes c packet signalled packets e =
      ap
        (λ b.
          process_batch d host empty
            (if b
              then process_packet d host empty (signal d host empty signalled c) packet
              else signal d host empty signalled c)
            packets)
        e

  process_batch-stops :
      (c : Context S) (packet : P) (signalled : Bool) (packets : List (P × Bool))
      → (signal d host empty signalled c).running ≡ false
      → process_batch d host empty c ((packet, signalled) ∷ packets)
        ≡ process_batch d host empty (signal d host empty signalled c) packets
  unfolding process_batch
  process_batch-stops c packet signalled packets e =
      ap
        (λ b.
          process_batch d host empty
            (if b
              then process_packet d host empty (signal d host empty signalled c) packet
              else signal d host empty signalled c)
            packets)
        e

  -- One batch, and whether the context runs after it.
  pub process_batch-Counted :
      (c : Context S) (running : Bool) (packets : List (P × Bool))
      → c.running ≡ running
      → AreApart d host empty c
      → Counted d host empty c
          (process_batch d host empty c packets)
          (looked_at running packets).0
          []
        × ((process_batch d host empty c packets).running ≡ (looked_at running packets).1)
  unfolding process_batch
  process_batch-Counted c running [] e v = (Counted-refl d host empty c, e)
  process_batch-Counted c running ((packet, signalled) ∷ packets) e v =
      elim (Bool-cases (running && not signalled)) [
        | inl goes ↦
            let after = process_packet d host empty seen packet in
            let first = process_packet-Counted d host empty seen packet apart in
            let (rest, ends) =
              process_batch-Counted after true packets
                (process_packet-running seen packet ∙ now ∙ goes)
                (AreApart-Counted d host empty seen after (packet ∷ []) [] first apart) in
            let out = process_batch d host empty after packets in
            rw (process_batch-goes c packet signalled packets (now ∙ goes), goes)
              (
                Counted-trans d host empty c seen out [] (packet ∷ (looked_at true packets).0) [] []
                    (signal-Counted c signalled)
                    (Counted-trans d host empty seen after out (packet ∷ [])
                      (looked_at true packets).0 [] [] first rest),
                ends,
              )
        | inr stopped ↦
            let (rest, ends) = process_batch-Counted seen false packets (now ∙ stopped) apart in
            let out = process_batch d host empty seen packets in
            rw (process_batch-stops c packet signalled packets (now ∙ stopped), stopped)
              (
                Counted-trans d host empty c seen out [] (looked_at false packets).0 [] []
                    (signal-Counted c signalled) rest,
                ends,
              )
      ]
    where
      seen : Context S
      seen = signal d host empty signalled c

      apart : AreApart d host empty seen
      apart = AreApart-Counted d host empty c seen [] [] (signal-Counted c signalled) v

      now : seen.running ≡ (running && not signalled)
      now = signal-running c signalled ∙ ap (λ b. b && not signalled) e
