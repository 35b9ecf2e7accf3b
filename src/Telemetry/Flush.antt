-- ===== src/Telemetry/Flush.antt =====
-- The threads that take events from the queue of a TelemetryCollector of src/Telemetry.cpp: the
-- collector's own thread, which the constructor starts, and the callers of flush. Each holds the lock
-- of the queue while it tests and pops, and not while it processes an event.
-- The lock of the collector, which a thread holds within the custom backend, is left out: it keeps two
-- threads from being there at once, so the turns here include all those of the program, and the thread
-- that holds it can always go on.
pub mod Counts
pub mod Drained
pub mod Ends
use beatrice.Base.{ℕ, ◌≡◌, Bool, true, false, List, [], ◌∷◌, ◌++◌, length, ltb, if◌then◌else◌}
use beatrice.Base.Doubles.{Doubles}
use beatrice.Metrics.{MetricsRegistry}
use beatrice.Telemetry.{TelemetryEvent, TelemetryCollector, collect_event, new_collector, max_queue}
use beatrice.Telemetry.Process.{collected_by, begin_event, end_event}

unfoldable pub clear : TelemetryCollector → TelemetryCollector
clear t = record t {
  context = [];
  active_traces = [];
  performance_measurements = [];
  health_status = [];
  event_queue = [];
}

-- Where a thread is in its loop: at the test, with an event that it popped, within the custom backend,
-- which is still to collect some events, or past the loop.
pub data Phase : Type 0 where
  looping returned : Phase
  popped : TelemetryEvent → Phase
  sending : TelemetryEvent → List TelemetryEvent → Phase

-- The collector's own thread or a call of flush.
pub data Role : Type 0 where
  worker flush : Role

pub record Thread : Type 0 where
  pub role : Role
  pub phase : Phase

-- The collector with its threads. accepted are the events that came into the queue and were not
-- cleared, taken those that were popped, processed those whose processing has ended.
pub record World : Type 0 where
  pub collector : TelemetryCollector
  pub running : Bool
  pub threads : List Thread
  pub accepted : List TelemetryEvent
  pub taken : List TelemetryEvent
  pub processed : List TelemetryEvent

-- Whether the loop of the thread takes another event: the worker asks running_ too.
abbrev pub goes_on : Role → Bool → Bool
goes_on worker running = running
goes_on flush running = true

-- What an event adds to the accepted ones.
abbrev pub arrival : TelemetryCollector → TelemetryEvent → List TelemetryEvent
arrival t event = if ltb (length t.event_queue) max_queue then event ∷ [] else []

module _ (d : Doubles) where
  -- collectEvent in a world.
  unfoldable pub collect_in : World → TelemetryEvent → World
  unfolding collect_event
  collect_in w event = record w {
    collector = collect_event d w.collector event;
    accepted = w.accepted ++ arrival w.collector event;
  }

  -- A step of one of the threads, which stands between the others.
  pub data Turn : World → World → Type 0 where
    pops :
        {w : World} (role : Role) (before later : List Thread) (event : TelemetryEvent)
        (events : List TelemetryEvent)
        → w.threads ≡ before ++ (record { role = role; phase = looping }) ∷ later
        → w.collector.event_queue ≡ event ∷ events
        → goes_on role w.running ≡ true
        → Turn w (record w {
          collector = record w.collector { event_queue = events };
          threads = before ++ (record { role = role; phase = popped event }) ∷ later;
          taken = w.taken ++ event ∷ [];
        })
    sends :
        {w : World} (role : Role) (before later : List Thread) (event : TelemetryEvent)
        → w.threads ≡ before ++ (record { role = role; phase = popped event }) ∷ later
        → Turn w (record w {
          collector = begin_event d w.collector;
          threads =
              before
              ++ (record { role = role; phase = sending event (collected_by w.collector event) })
                ∷ later;
        })
    posts :
        {w : World} (role : Role) (before later : List Thread) (event post : TelemetryEvent)
        (posts : List TelemetryEvent)
        → w.threads
          ≡ before ++ (record { role = role; phase = sending event (post ∷ posts) }) ∷ later
        → Turn w (record (collect_in w post) {
          threads = before ++ (record { role = role; phase = sending event posts }) ∷ later;
        })
    ends :
        {w : World} (role : Role) (before later : List Thread) (event : TelemetryEvent) (spent : ℕ)
        → w.threads ≡ before ++ (record { role = role; phase = sending event [] }) ∷ later
        → Turn w (record w {
          collector = end_event d spent w.collector event;
          threads = before ++ (record { role = role; phase = looping }) ∷ later;
          processed = w.processed ++ event ∷ [];
        })
    returns :
        {w : World} (before later : List Thread)
        → w.threads ≡ before ++ (record { role = flush; phase = looping }) ∷ later
        → w.collector.event_queue ≡ []
        → Turn w
            (record w { threads = before ++ (record { role = flush; phase = returned }) ∷ later })
    retires :
        {w : World} (before later : List Thread)
        → w.threads ≡ before ++ (record { role = worker; phase = looping }) ∷ later
        → w.running ≡ false
        → Turn w
            (record w { threads = before ++ (record { role = worker; phase = returned }) ∷ later })

  -- A turn, or a call from outside. `changes` is any function of the collector that leaves the queue and
  -- the threads alone, such as setCustomBackend and startTrace.
  pub data Step : World → World → Type 0 where
    turns : {w w' : World} → Turn w w' → Step w w'
    collects : {w : World} (event : TelemetryEvent) → Step w (collect_in w event)
    calls_flush :
        {w : World}
        → Step w
            (record w { threads = w.threads ++ (record { role = flush; phase = looping }) ∷ [] })
    clears : {w : World} → Step w (record w { collector = clear w.collector; accepted = w.taken })
    changes :
        {w : World} (changed : TelemetryCollector)
        → changed.event_queue ≡ w.collector.event_queue
        → Step w (record w { collector = changed })
    stops : {w : World} → Step w (record w { running = false })

  -- A new collector with its thread.
  unfoldable pub opening : MetricsRegistry → World
  unfolding new_collector
  opening r = record {
    collector = new_collector d r;
    running = true;
    threads = (record { role = worker; phase = looping }) ∷ [];
    accepted = [];
    taken = [];
    processed = [];
  }

  pub data Reach : World → Type 0 where
    begin : (r : MetricsRegistry) → Reach (opening r)
    after : {w w' : World} → Reach w → Step w w' → Reach w'
