-- ===== src/AfPacket/Tests.antt =====
-- The theorems on the AF_PACKET backend applied to a concrete run.
use beatrice.Base.{ℕ, ◌≡◌, ◌≤◌, ◌<◌, refl, true, [], ◌∷◌, ◌++◌, some, length, codes}
use beatrice.AfPacket.{
  AfPacketBackend, Answers, frame, failed, new_backend, initialize, validate_interface,
  create_socket, start, receive, get_packets, pop_packets,
}
use beatrice.AfPacket.Sound.{opened, closed}
use beatrice.AfPacket.Reached.{
  World, Reach, begin, after, initializes, starts, reads, gives, arrival, Reach-socket,
}
use beatrice.AfPacket.Queue.{Reach-order}

abbrev answers : Answers
answers = record {
  socket = some 3;
  index_found = true;
  bound = true;
  buffer_set = true;
  flags_set = true;
}

abbrev started : AfPacketBackend
started = (start (initialize new_backend (codes "eth0") answers).0).0

abbrev two_frames : AfPacketBackend
two_frames = receive (receive started (frame (8 ∷ 0 ∷ []))) (frame (6 ∷ []))

-- Two frames are read, one is given out, and then a read fails.
abbrev run : World
run = record {
  backend = receive (get_packets two_frames 1).0 failed;
  received = (8 ∷ 0 ∷ []) ∷ (6 ∷ []) ∷ [];
  delivered = (8 ∷ 0 ∷ []) ∷ [];
}

run-Reach : Reach run
unfolding initialize validate_interface create_socket start receive get_packets pop_packets arrival
    new_backend
run-Reach =
    after
      (after
        (after
          (after (after (after begin (initializes (codes "eth0") answers)) starts)
            (reads (frame (8 ∷ 0 ∷ [])) refl))
          (reads (frame (6 ∷ [])) refl))
        (gives 1))
      (reads failed refl)

Reach-socket_example :
    (run.backend.initialized ≡ true)
    × (fd : ℕ) × (run.backend.socket_fd ≡ some fd)
    × (closed fd run.backend.calls < opened fd run.backend.calls)
unfolding initialize validate_interface create_socket start receive get_packets new_backend
Reach-socket_example = Reach-socket run run-Reach refl

Reach-order_example :
    (run.received ≡ run.delivered ++ run.backend.packet_queue)
    × (length (get_packets run.backend 5).1 ≤ 5)
Reach-order_example = Reach-order run 5 run-Reach
