-- ===== src/Context/Tests.antt =====
-- The theorem on the context's loop applied to concrete rounds.
use beatrice.Base.{ℕ, ◌+◌, ◌==◌, ◌≡◌, refl, true, false, List, [], ◌∷◌, none, some, codes}
use beatrice.Base.Doubles.{whole_numbers}
use beatrice.Metrics.{create_counter, create_histogram, register}
use beatrice.PluginManager.{Host, null}
use beatrice.PluginManager.Batches.{process_each}
use beatrice.Context.{Context, Round, create_metrics, run_single_threaded}
use beatrice.Context.Counts.{held_by, adds, over_rounds, empties, nonempties}
use beatrice.Context.Rounds.{run_single_threaded-counts}

-- No library is there. A packet is its length.
abbrev no_plugins : Host ℕ ℕ
no_plugins = record {
  exists = λ path. false;
  stem = λ path. path;
  open_library = λ path. none;
  create = λ h. null;
  on_start = λ s. (false, s);
  on_stop = λ s. (false, s);
  on_packet = λ s p. (false, s + 1, p);
  get_name = λ s. codes "counter";
}

-- One plugin is loaded.
abbrev context : Context ℕ
context =
    create_metrics whole_numbers (record { objects = []; metrics = [] })
      (record {
        manager = record {
          plugins = record { library = 1; state = 0 } ∷ [];
          handles = [];
          max_plugins = 10;
        };
        calls = [];
      })

-- The signal comes before the last packet of the second batch.
abbrev rounds : List (Round ℕ)
rounds =
    record { signalled = false; packets = some ((60, false) ∷ (0, false) ∷ []); spent = 3 }
    ∷ record { signalled = false; packets = some ((90, false) ∷ (70, true) ∷ []); spent = 4 }
    ∷ record { signalled = false; packets = none; spent = 0 }
    ∷ []

run_single_threaded-counts_example :
    let out = run_single_threaded whole_numbers no_plugins (λ p. p == 0) context rounds in
    let seen = over_rounds context.running rounds in
    (held_by out.registry context.packets_processed
      ≡ adds whole_numbers (held_by context.registry context.packets_processed) seen.1)
    × (held_by out.registry context.packets_dropped
        ≡ adds whole_numbers
            (held_by context.registry context.packets_dropped)
            (empties (λ p. p == 0) seen.0))
    × (out.plugins ≡ (process_each no_plugins context.plugins (nonempties (λ p. p == 0) seen.0)).0)
unfolding create_metrics create_counter create_histogram register
run_single_threaded-counts_example =
    run_single_threaded-counts whole_numbers no_plugins (λ p. p == 0) context rounds refl refl refl
      refl
