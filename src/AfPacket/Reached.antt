-- ===== src/AfPacket/Reached.antt =====
-- What any sequence of calls of an AF_PACKET backend keeps, with the reads of its thread between them.
use beatrice.Base.{
  ℕ, ◌<◌, ◌≡◌, true, List, [], ◌∷◌, ◌++◌, Option, some, take, Text, is_empty, if◌then◌else◌,
  Option-cases, inl, inr, arith,
}
use beatrice.AfPacket.Buffers.{
  free-IsSound, shutdown-IsSound, allocate-IsSound, set-IsSound, next_packet-IsSound,
}
use beatrice.AfPacket.Sound.{
  opened, closed, is_some, IsSound, initialize-IsSound, start-IsSound, stop-IsSound,
  receive-IsSound,
}
use beatrice.AfPacket.{
  AfPacketBackend, new_backend, Answers, initialize, start, stop, Read, frame, again, failed,
  receive, next_packet, get_packets, reset_statistics, Setting, set, allocate_dma_buffers,
  free_dma_buffers, shutdown,
}

-- The backend, the packets that its thread has read, and those that it has given out.
pub record World : Type 0 where
  pub backend : AfPacketBackend
  pub received : List Text
  pub delivered : List Text

-- The packet of a read.
unfoldable pub arrival : AfPacketBackend → Read → List Text
arrival b (frame bytes) =
    if is_empty (take b.buffer_size bytes) then [] else take b.buffer_size bytes ∷ []
arrival b again = []
arrival b failed = []

pub data Step : World → World → Type 0 where
  initializes :
      {w : World} (interface : Text) (answers : Answers)
      → Step w (record w { backend = (initialize w.backend interface answers).0 })
  starts : {w : World} → Step w (record w { backend = (start w.backend).0 })
  stops : {w : World} → Step w (record w { backend = stop w.backend })
  shuts_down : {w : World} → Step w (record w { backend = shutdown w.backend })
  reads :
      {w : World} (read : Read)
      → w.backend.looping ≡ true
      → Step w (record w {
        backend = receive w.backend read;
        received = w.received ++ arrival w.backend read;
      })
  gives_next :
      {w : World} (queue : List Text) (packet : Text)
      → w.backend.packet_queue ≡ packet ∷ queue
      → Step w
          (record w { backend = (next_packet w.backend).0; delivered = w.delivered ++ packet ∷ [] })
  gives :
      {w : World} (max : ℕ)
      → Step w (record w {
        backend = (get_packets w.backend max).0;
        delivered = w.delivered ++ (get_packets w.backend max).1;
      })
  sets : {w : World} (setting : Setting) → Step w (record w { backend = (set w.backend setting).0 })
  resets : {w : World} → Step w (record w { backend = reset_statistics w.backend })
  allocates :
      {w : World} (count : ℕ) (opened mapped : Option ℕ)
      → Step w (record w { backend = (allocate_dma_buffers w.backend count opened mapped).0 })
  frees : {w : World} → Step w (record w { backend = free_dma_buffers w.backend })

pub data Reach : World → Type 0 where
  begin : Reach (record { backend = new_backend; received = []; delivered = [] })
  after : {w w' : World} → Reach w → Step w w' → Reach w'

Reach-IsSound : {w : World} → Reach w → IsSound w.backend
unfolding new_backend get_packets reset_statistics
Reach-IsSound begin = record {
  balanced = λ fd. omega arith;
  with_socket = λ h. cc;
  when_running = λ h. cc;
  when_looping = λ h. cc;
}
Reach-IsSound (after r (initializes {w} interface answers)) =
    initialize-IsSound w.backend interface answers (Reach-IsSound r)
Reach-IsSound (after r (starts {w})) = start-IsSound w.backend (Reach-IsSound r)
Reach-IsSound (after r (stops {w})) = stop-IsSound w.backend (Reach-IsSound r)
Reach-IsSound (after r (shuts_down {w})) = shutdown-IsSound w.backend (Reach-IsSound r)
Reach-IsSound (after r (reads {w} read h)) = receive-IsSound w.backend read (Reach-IsSound r)
Reach-IsSound (after r (gives_next {w} queue packet h)) =
    next_packet-IsSound w.backend (Reach-IsSound r)
Reach-IsSound (after r (gives max)) = Reach-IsSound r
Reach-IsSound (after r (sets {w} setting)) = set-IsSound w.backend setting (Reach-IsSound r)
Reach-IsSound (after r resets) = Reach-IsSound r
Reach-IsSound (after r (allocates {w} count device mapped)) =
    allocate-IsSound w.backend count device mapped (Reach-IsSound r)
Reach-IsSound (after r (frees {w})) = free-IsSound w.backend (Reach-IsSound r)

socket_open :
    (b : AfPacketBackend)
    → IsSound b
    → is_some b.socket_fd ≡ true
    → (fd : ℕ) × (b.socket_fd ≡ some fd) × (closed fd b.calls < opened fd b.calls)
socket_open b v h = elim (Option-cases b.socket_fd) [
  | inl missing ↦ absurd (ground (arith, missing, h))
  | inr (fd, found) ↦ (fd, found, ground (arith, found, v.balanced fd))
]

-- Whatever calls and reads there have been, failed ones among them: when the backend runs it is
-- initialized and has a socket, which has been opened more often than closed.
pub Reach-socket :
    (w : World)
    → Reach w
    → w.backend.running ≡ true
    → (w.backend.initialized ≡ true)
      × (fd : ℕ) × (w.backend.socket_fd ≡ some fd)
      × (closed fd w.backend.calls < opened fd w.backend.calls)
Reach-socket w r h =
    let v = Reach-IsSound r in
    let done = v.when_running h in
    let (fd, found, open_still) = socket_open w.backend v (v.with_socket done) in
    (done, fd, found, open_still)
