-- ===== src/Context.antt =====
-- The class BeatriceContext of include/beatrice/BeatriceContext.hpp and src/BeatriceContext.cpp: the
-- configuration, the plugins and the metrics put together. The capture backend is a parameter.
pub mod Settings
pub mod Counts
pub mod Batch
pub mod Rounds
mod Tests
use beatrice.Base.{
  ℕ, ◌+◌, ◌-◌, ◌^◌, Bool, true, false, not, ◌&&◌, ◌||◌, List, [], ◌∷◌, ◌++◌, Option, none, some,
  length, Text, codes, is_empty, if◌then◌else◌, ltb,
}
use beatrice.Base.Doubles.{Doubles}
use beatrice.Base.Json.{Json}
use beatrice.Metrics.{
  MetricsRegistry, create_counter, create_histogram, increment, increment_by, observe,
}
use beatrice.PluginManager.{Host, World, load_plugin}
use beatrice.PluginManager
use beatrice.Config.{Config, get_string, get_int, get_bool}

-- A size_t from an int, which is the word of its 32 bits.
unfoldable pub size_of_int : ℕ → ℕ
size_of_int n = if ltb n (2 ^ 31) then n else n + (2 ^ 64 - 2 ^ 32)

-- ICaptureBackend::Config, what initialize sets of it.
pub record BackendConfig : Type 0 where
  pub interface : Text
  pub buffer_size : ℕ
  pub num_buffers : ℕ
  pub promiscuous : Bool
  pub timeout : ℕ
  pub batch_size : ℕ
  pub enable_timestamping : Bool
  pub enable_zero_copy : Bool

unfoldable pub backend_config : {J : Type 0} → Json J → Config J → BackendConfig
unfolding size_of_int
backend_config json c = record {
  interface = get_string json c (codes "network.interface") (codes "eth0");
  buffer_size = size_of_int (get_int json c (codes "network.bufferSize") 4096);
  num_buffers = size_of_int (get_int json c (codes "network.numBuffers") 1024);
  promiscuous = get_bool json c (codes "network.promiscuous") true;
  timeout = get_int json c (codes "network.timeout") 1000;
  batch_size = size_of_int (get_int json c (codes "network.batchSize") 64);
  enable_timestamping = get_bool json c (codes "network.enableTimestamping") true;
  enable_zero_copy = get_bool json c (codes "network.enableZeroCopy") true;
}

-- What the loop reads and writes. A shared_ptr to a metric is the number of an object.
pub record Context (S : Type 0) : Type 0 where
  pub running : Bool
  pub plugins : World S
  pub registry : MetricsRegistry
  pub packets_processed : ℕ
  pub packets_dropped : ℕ
  pub processing_latency : ℕ

-- One round of the loop: whether a signal is handled before running_ is read, what getPackets gives
-- (`none` when it throws), each packet with whether a signal is handled before it is looked at, and
-- the microseconds that are observed, as a double.
pub record Round (P : Type 0) : Type 0 where
  pub signalled : Bool
  pub packets : Option (List (P × Bool))
  pub spent : ℕ

-- The metrics that initialize creates.
unfoldable pub create_metrics : {S : Type 0} → Doubles → MetricsRegistry → World S → Context S
create_metrics d r plugins =
    let processed =
      create_counter d r (codes "packets_processed") (codes "Total packets processed") in
    let dropped =
      create_counter d processed.0 (codes "packets_dropped") (codes "Total packets dropped") in
    let latency =
      create_histogram d dropped.0 (codes "processing_latency")
        (codes "Packet processing latency") in
    record {
      running = true;
      plugins = plugins;
      registry = latency.0;
      packets_processed = processed.1;
      packets_dropped = dropped.1;
      processing_latency = latency.1;
    }

module _ {S P : Type 0} (d : Doubles) (host : Host S P) where
  -- The entries of a directory in its order, with whether each is a regular file that ends in .so.
  unfoldable pub load_plugins_from_directory : World S → List (Text × Bool) → World S × ℕ
  load_plugins_from_directory w [] = (w, 0)
  load_plugins_from_directory w ((path, is_library) ∷ entries) =
      let loaded = load_plugin host w path in
      let skip = load_plugins_from_directory w entries in
      let rest = load_plugins_from_directory loaded.0 entries in
      if is_library then (if loaded.1 then (rest.0, rest.1 + 1) else rest) else skip

  -- The loop over plugins.enabled, with the names that are strings.
  unfoldable pub load_enabled : World S → Text → List Text → World S
  load_enabled w directory [] = w
  load_enabled w directory (name ∷ names) =
      load_enabled (load_plugin host w (directory ++ codes "/" ++ name ++ codes ".so")).0 directory
        names

  module _ (empty : P → Bool) where
    unfoldable pub process_packet : Context S → P → Context S
    process_packet c packet =
        if empty packet
        then record c { registry = increment d c.registry c.packets_dropped }
        else record c { plugins = (PluginManager.process_packet host c.plugins packet).0 }

    -- A signal clears running_, which is never set again.
    unfoldable pub signal : Bool → Context S → Context S
    signal handled c = if handled then record c { running = false } else c

    -- The packets of one batch.
    unfoldable pub process_batch : Context S → List (P × Bool) → Context S
    unfolding process_packet signal
    process_batch c [] = c
    process_batch c ((packet, signalled) ∷ packets) =
        let seen = signal signalled c in
        process_batch (if seen.running then process_packet seen packet else seen) packets

    unfoldable pub run_round : Context S → Round P → Context S
    unfolding process_batch
    run_round c round = elim round.packets [
      | none ↦ c
      | some packets ↦
          if is_empty packets
          then c
          else let done = process_batch c packets in
            let counted =
              increment_by d done.registry done.packets_processed (d.of_uint64 (length packets)) in
            record done { registry = observe d counted done.processing_latency round.spent }
    ]

    -- runSingleThreaded, for the rounds given.
    unfoldable pub run_single_threaded : Context S → List (Round P) → Context S
    unfolding run_round signal
    run_single_threaded c [] = c
    run_single_threaded c (round ∷ rounds) =
        let seen = signal round.signalled c in
        let rest = run_single_threaded (run_round seen round) rounds in
        if seen.running then rest else seen
