-- ===== src/Context/Rounds.antt =====
-- What the loop of BeatriceContext::runSingleThreaded counts, and what it hands to the plugins.
use beatrice.Base.{
  ℕ, ◌≡◌, refl, ◌∙◌, ap, subst, Bool, true, false, not, ◌&&◌, List, [], ◌∷◌, ◌++◌, append-nil,
  Option, none, some, length, is_empty, if◌then◌else◌, ◌==◌, Bool-cases, inl, inr,
}
use beatrice.Base.Doubles.{Doubles}
use beatrice.Metrics.{MetricsRegistry, added, with_observed, increment_by, observe}
use beatrice.PluginManager.{Host}
use beatrice.PluginManager.Batches.{process_each}
use beatrice.Context.{Context, Round, signal, process_batch, run_round, run_single_threaded}
use beatrice.Context.Counts.{
  held_by, adds, looked_at, batch_of, over_rounds, empties, nonempties, held_by-same, held_by-other,
  Counted, AreApart, Counted-refl, Counted-trans, AreApart-Counted,
}
use beatrice.Context.Batch.{signal-Counted, signal-running, process_batch-Counted}

module _ {S P : Type 0} (d : Doubles) (host : Host S P) (empty : P → Bool) where
  -- The end of a round: the size is added to one metric, the time observed by another.
  round-Counted :
      (c : Context S) (size spent : ℕ)
      → AreApart d host empty c
      → Counted d host empty c
          (record c {
            registry =
                observe d
                  (increment_by d c.registry c.packets_processed (d.of_uint64 size))
                  c.processing_latency
                  spent;
          })
          []
          (size ∷ [])
  unfolding observe increment_by
  round-Counted c size spent v = record {
    same_processed = refl;
    same_dropped = refl;
    same_latency = refl;
    processed =
        held_by-other (with_observed d spent) counted c.processing_latency c.packets_processed
          v.latency_processed
        ∙ held_by-same (added d (d.of_uint64 size)) c.registry c.packets_processed;
    dropped =
        held_by-other (with_observed d spent) counted c.processing_latency c.packets_dropped
          v.latency_dropped
        ∙ held_by-other (added d (d.of_uint64 size)) c.registry c.packets_processed
            c.packets_dropped v.processed_dropped;
    plugins = refl;
  }
    where
      counted : MetricsRegistry
      counted = increment_by d c.registry c.packets_processed (d.of_uint64 size)

  run_round-Counted :
      (c : Context S) (running : Bool) (round : Round P)
      → c.running ≡ running
      → AreApart d host empty c
      → let packets = batch_of round.packets in
        Counted d host empty c
          (run_round d host empty c round)
          (looked_at running packets).0
          (if is_empty packets then [] else length packets ∷ [])
        × ((run_round d host empty c round).running ≡ (looked_at running packets).1)
  unfolding run_round
  run_round-Counted c running round e v = by_packets round.packets
    where
      by_packets :
          (o : Option (List (P × Bool)))
          → let out = run_round d host empty c (record round { packets = o }) in
            Counted d host empty c out
              (looked_at running (batch_of o)).0
              (if is_empty (batch_of o) then [] else length (batch_of o) ∷ [])
            × (out.running ≡ (looked_at running (batch_of o)).1)
      by_packets none = (Counted-refl d host empty c, e)
      by_packets (some []) = (Counted-refl d host empty c, e)
      by_packets (some (packet ∷ packets)) =
          let batch = packet ∷ packets in
          let done = process_batch d host empty c batch in
          let (rest, ends) = process_batch-Counted d host empty c running batch e v in
          let counted =
            round-Counted done (length batch) round.spent
              (AreApart-Counted d host empty c done (looked_at running batch).0 [] rest v) in
          (
            subst
                (λ ps.
                  Counted d host empty c
                    (run_round d host empty c (record round { packets = some batch })) ps
                    (length batch ∷ []))
                (append-nil (looked_at running batch).0)
                (Counted-trans d host empty c done
                  (run_round d host empty c (record round { packets = some batch }))
                  (looked_at running batch).0 [] [] (length batch ∷ []) rest counted),
            ends,
          )

  run-Counted :
      (c : Context S) (running : Bool) (rounds : List (Round P))
      → c.running ≡ running
      → AreApart d host empty c
      → Counted d host empty c
          (run_single_threaded d host empty c rounds)
          (over_rounds running rounds).0
          (over_rounds running rounds).1
  unfolding run_single_threaded
  run-Counted c running [] e v = Counted-refl d host empty c
  run-Counted c running (round ∷ rounds) e v = elim (Bool-cases (running && not round.signalled)) [
    | inr stopped ↦ rw (now ∙ stopped, stopped) (signal-Counted d host empty c round.signalled)
    | inl goes ↦
        let packets = batch_of round.packets in
        let (first, ends) = run_round-Counted seen true round (now ∙ goes) apart in
        let after = run_round d host empty seen round in
        let rest = run-Counted after (looked_at true packets).1 rounds ends (
          AreApart-Counted d host empty seen after (looked_at true packets).0
            (if is_empty packets then [] else length packets ∷ []) first apart) in
        rw (run_single_threaded, now ∙ goes, goes)
          (subst
            (Counted d host empty c (run_single_threaded d host empty after rounds)
              ((looked_at true packets).0 ++ (over_rounds (looked_at true packets).1 rounds).0))
            (sizes (is_empty packets) (length packets)
              (over_rounds (looked_at true packets).1 rounds).1)
            (Counted-trans d host empty c seen (run_single_threaded d host empty after rounds) []
              ((looked_at true packets).0 ++ (over_rounds (looked_at true packets).1 rounds).0) []
              ((if is_empty packets then [] else length packets ∷ [])
                ++ (over_rounds (looked_at true packets).1 rounds).1)
              (signal-Counted d host empty c round.signalled)
              (Counted-trans d host empty seen after (run_single_threaded d host empty after rounds)
                (looked_at true packets).0 (over_rounds (looked_at true packets).1 rounds).0
                (if is_empty packets then [] else length packets ∷ [])
                (over_rounds (looked_at true packets).1 rounds).1 first rest)))
  ]
    where
      seen : Context S
      seen = signal d host empty round.signalled c

      apart : AreApart d host empty seen
      apart =
          AreApart-Counted d host empty c seen [] [] (signal-Counted d host empty c round.signalled)
            v

      now : seen.running ≡ (running && not round.signalled)
      now = signal-running d host empty c round.signalled ∙ ap (λ b. b && not round.signalled) e

      sizes :
          (b : Bool) (n : ℕ) (ns : List ℕ)
          → (if b then [] else n ∷ []) ++ ns ≡ (if b then ns else n ∷ ns)
      sizes true n ns = refl
      sizes false n ns = refl

  -- For a context whose three metrics are different objects, after any rounds: the counter of processed
  -- packets has the sizes of the batches that were not empty added, as far as the rounds were run,
  -- packets that were not looked at or had no bytes among them; the counter of dropped packets has 1
  -- added for each packet with no bytes that was looked at while the context ran; and the plugins are
  -- as after the other packets that were looked at, in order.
  pub run_single_threaded-counts :
      (c : Context S) (rounds : List (Round P))
      → (c.packets_processed == c.packets_dropped) ≡ false
      → (c.packets_dropped == c.packets_processed) ≡ false
      → (c.processing_latency == c.packets_processed) ≡ false
      → (c.processing_latency == c.packets_dropped) ≡ false
      → let out = run_single_threaded d host empty c rounds in
        let seen = over_rounds c.running rounds in
        (held_by out.registry c.packets_processed
          ≡ adds d (held_by c.registry c.packets_processed) seen.1)
        × (held_by out.registry c.packets_dropped
            ≡ adds d (held_by c.registry c.packets_dropped) (empties empty seen.0))
        × (out.plugins ≡ (process_each host c.plugins (nonempties empty seen.0)).0)
  run_single_threaded-counts c rounds a1 a2 a3 a4 =
      let v = run-Counted c c.running rounds refl (record {
        processed_dropped = a1;
        dropped_processed = a2;
        latency_processed = a3;
        latency_dropped = a4;
      }) in
      (v.processed, v.dropped, v.plugins)
