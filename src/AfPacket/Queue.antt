-- ===== src/AfPacket/Queue.antt =====
-- The queue between the thread of an AF_PACKET backend and those who take its packets.
use beatrice.Base.{
  ℕ, ◌≤◌, ◌≡◌, refl, sym, ◌∙◌, ap, List, [], ◌∷◌, ◌++◌, append_assoc, append-nil, Option, length,
  length-append, Text, ltb, arith,
}
use beatrice.AfPacket.{
  AfPacketBackend, Outcome, new_backend, Answers, create_socket, initialize, start, stop, Read,
  frame, again, failed, receive, next_packet, pop_packets, get_packets, reset_statistics, Setting,
  update_config, set_promiscuous_mode, set_blocking_mode, enable_zero_copy, set_buffer_size,
  set_dma_buffer_size, enable_dma_access, changed, set, map_buffers, allocate_dma_buffers,
  free_dma_buffers, shutdown,
}
use beatrice.AfPacket.Sound.{by_test}
use beatrice.AfPacket.Reached.{
  World, arrival, initializes, starts, stops, shuts_down, reads, gives_next, gives, sets, resets,
  allocates, frees, Reach, begin, after,
}

pop_packets-append :
    (max : ℕ) (packets queue : List Text)
    → (pop_packets max packets queue).0 ++ (pop_packets max packets queue).1 ≡ packets ++ queue
unfolding pop_packets
pop_packets-append max packets [] = refl
pop_packets-append max packets (packet ∷ queue) =
    by_test (λ (out : List Text × List Text). out.0 ++ out.1 ≡ packets ++ packet ∷ queue)
      (ltb (length packets) max)
      (λ room.
        pop_packets-append max (packets ++ packet ∷ []) queue
        ∙ append_assoc packets (packet ∷ []) queue)
      (λ full. refl)

length-pop_packets :
    (max : ℕ) (packets queue : List Text)
    → length packets ≤ max
    → length (pop_packets max packets queue).0 ≤ max
unfolding pop_packets
length-pop_packets max packets [] h = h
length-pop_packets max packets (packet ∷ queue) h =
    by_test (λ (out : List Text × List Text). length out.0 ≤ max) (ltb (length packets) max)
      (λ room.
        length-pop_packets max (packets ++ packet ∷ []) queue
          (ground (arith, room, length-append packets (packet ∷ []))))
      (λ full. h)

-- An operation that leaves the queue alone.
abbrev SameQueue : AfPacketBackend → AfPacketBackend → Type 0
SameQueue b out = out.packet_queue ≡ b.packet_queue

receive-queue :
    (b : AfPacketBackend) (read : Read)
    → (receive b read).packet_queue ≡ b.packet_queue ++ arrival b read
unfolding receive arrival
receive-queue b (frame bytes) = ground (arith, append-nil b.packet_queue)
receive-queue b again = sym (append-nil b.packet_queue)
receive-queue b failed = sym (append-nil b.packet_queue)

initialize-queue :
    (b : AfPacketBackend) (interface : Text) (answers : Answers)
    → SameQueue b (initialize b interface answers).0
unfolding initialize create_socket
initialize-queue b interface answers = ground (arith)

shutdown-queue : (b : AfPacketBackend) → SameQueue b (shutdown b)
unfolding shutdown stop free_dma_buffers
shutdown-queue b = ground (arith)

allocate-queue :
    (b : AfPacketBackend) (count : ℕ) (device mapped : Option ℕ)
    → SameQueue b (allocate_dma_buffers b count device mapped).0
unfolding allocate_dma_buffers map_buffers
allocate-queue b count device mapped = ground arith

changed-queue : (b : AfPacketBackend) (setting : Setting) → SameQueue b (changed b setting)
unfolding changed
changed-queue b (update_config interface) = refl
changed-queue b (set_promiscuous_mode on) = refl
changed-queue b (set_blocking_mode on) = refl
changed-queue b (enable_zero_copy on) = refl
changed-queue b (set_buffer_size size) = refl
changed-queue b (set_dma_buffer_size size) = refl
changed-queue b (enable_dma_access on device) = ground arith

set-queue : (b : AfPacketBackend) (setting : Setting) → SameQueue b (set b setting).0
unfolding set
set-queue b setting =
    by_test (λ (out : AfPacketBackend × Outcome). SameQueue b out.0) b.running (λ h. refl)
      (λ h. changed-queue b setting)

start-queue : (b : AfPacketBackend) → SameQueue b (start b).0
unfolding start
start-queue b = ground arith

stop-queue : (b : AfPacketBackend) → SameQueue b (stop b)
unfolding stop
stop-queue b = ground arith

free-queue : (b : AfPacketBackend) → SameQueue b (free_dma_buffers b)
unfolding free_dma_buffers
free-queue b = ground arith

next_packet-queue :
    (b : AfPacketBackend) (queue : List Text) (packet : Text)
    → b.packet_queue ≡ packet ∷ queue
    → (next_packet b).0.packet_queue ≡ queue
unfolding next_packet
next_packet-queue b queue packet h = ground (arith, h)

Reach-received : {w : World} → Reach w → w.received ≡ w.delivered ++ w.backend.packet_queue
unfolding get_packets reset_statistics new_backend
Reach-received begin = refl
Reach-received (after r (initializes {w} interface answers)) =
    Reach-received r ∙ ap (◌++◌ w.delivered) (sym (initialize-queue w.backend interface answers))
Reach-received (after r (starts {w})) =
    Reach-received r ∙ ap (◌++◌ w.delivered) (sym (start-queue w.backend))
Reach-received (after r (stops {w})) =
    Reach-received r ∙ ap (◌++◌ w.delivered) (sym (stop-queue w.backend))
Reach-received (after r (shuts_down {w})) =
    Reach-received r ∙ ap (◌++◌ w.delivered) (sym (shutdown-queue w.backend))
Reach-received (after r (reads {w} read h)) =
    ap (λ l. l ++ arrival w.backend read) (Reach-received r)
    ∙ append_assoc w.delivered w.backend.packet_queue (arrival w.backend read)
    ∙ ap (◌++◌ w.delivered) (sym (receive-queue w.backend read))
Reach-received (after r (gives_next {w} queue packet h)) =
    Reach-received r
    ∙ ap (◌++◌ w.delivered) (h ∙ ap (◌∷◌ packet) (sym (next_packet-queue w.backend queue packet h)))
    ∙ sym (append_assoc w.delivered (packet ∷ []) (next_packet w.backend).0.packet_queue)
Reach-received (after r (gives {w} max)) =
    Reach-received r
    ∙ ap (◌++◌ w.delivered) (sym (pop_packets-append max [] w.backend.packet_queue))
    ∙ sym (
        append_assoc w.delivered (pop_packets max [] w.backend.packet_queue).0
          (pop_packets max [] w.backend.packet_queue).1)
Reach-received (after r (sets {w} setting)) =
    Reach-received r ∙ ap (◌++◌ w.delivered) (sym (set-queue w.backend setting))
Reach-received (after r resets) = Reach-received r
Reach-received (after r (allocates {w} count device mapped)) =
    Reach-received r ∙ ap (◌++◌ w.delivered) (sym (allocate-queue w.backend count device mapped))
Reach-received (after r (frees {w})) =
    Reach-received r ∙ ap (◌++◌ w.delivered) (sym (free-queue w.backend))

-- Whatever calls and reads there have been, the packets read are those given out and then those in
-- the queue, each once and in the order of the reads; and getPackets gives its maximum at most.
pub Reach-order :
    (w : World) (max : ℕ)
    → Reach w
    → (w.received ≡ w.delivered ++ w.backend.packet_queue)
      × (length (get_packets w.backend max).1 ≤ max)
unfolding get_packets
Reach-order w max r =
    (Reach-received r, length-pop_packets max [] w.backend.packet_queue (omega arith))
