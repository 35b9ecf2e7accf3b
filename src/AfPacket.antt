-- ===== src/AfPacket.antt =====
-- The class AF_PacketBackend of include/beatrice/AF_PacketBackend.hpp and src/AF_PacketBackend.cpp.
-- What the system calls give is an argument of each operation; descriptors that are opened and
-- closed are kept.

pub mod Sound
pub mod Buffers
pub mod Reached
pub mod Queue
mod Tests
use beatrice.Base.{
  ℕ, suc, ◌+◌, Bool, true, false, not, ◌&&◌, List, [], ◌∷◌, ◌++◌, Option, none, some, length, take,
  Text, is_empty, if◌then◌else◌, ltb, ◌==◌,
}
use beatrice.Base.Words.{size_add}

pub data Outcome : Type 0 where
  success invalid_argument initialization_failed : Outcome

-- Descriptors that the backend has opened and closed.
pub data FdCall : Type 0 where
  opens closes : ℕ → FdCall

-- Of config_ the class reads the interface alone. -1 is `none` for a descriptor. dma_buffers is `none` for nullptr, and `some none` for MAP_FAILED.
-- looping tells that the loop of the processing thread has not ended.
pub record AfPacketBackend : Type 0 where
  pub running : Bool
  pub initialized : Bool
  pub interface : Text
  pub socket_fd : Option ℕ
  pub promiscuous_mode : Bool
  pub buffer_size : ℕ
  pub blocking_mode : Bool
  pub zero_copy_enabled : Bool
  pub dma_access_enabled : Bool
  pub dma_device : Text
  pub dma_buffer_size : ℕ
  pub dma_buffers : Option (Option ℕ)
  pub dma_buffer_count : ℕ
  pub dma_fd : Option ℕ
  pub looping : Bool
  pub packet_queue : List Text
  pub packets_captured : ℕ
  pub bytes_captured : ℕ
  pub calls : List FdCall

unfoldable pub new_backend : AfPacketBackend
new_backend = record {
  running = false;
  initialized = false;
  interface = [];
  socket_fd = none;
  promiscuous_mode = true;
  buffer_size = 65536;
  blocking_mode = false;
  zero_copy_enabled = false;
  dma_access_enabled = false;
  dma_device = [];
  dma_buffer_size = 0;
  dma_buffers = none;
  dma_buffer_count = 0;
  dma_fd = none;
  looping = false;
  packet_queue = [];
  packets_captured = 0;
  bytes_captured = 0;
  calls = [];
}

-- What socket gives, and whether the ioctl for the index, bind, setsockopt and the two fcntl succeed.
pub record Answers : Type 0 where
  pub socket : Option ℕ
  pub index_found : Bool
  pub bound : Bool
  pub buffer_set : Bool
  pub flags_set : Bool

-- IFNAMSIZ is 16.
unfoldable pub validate_interface : Text → Bool
validate_interface interface = not (is_empty interface) && ltb (length interface) 16

unfoldable pub create_socket : AfPacketBackend → Option ℕ → AfPacketBackend
create_socket b none = record b { socket_fd = none }
create_socket b (some fd) = record b { socket_fd = some fd; calls = opens fd ∷ b.calls }

unfoldable pub initialize : AfPacketBackend → Text → Answers → AfPacketBackend × Outcome
unfolding validate_interface create_socket
initialize b interface answers =
    let configured = record b { interface = interface } in
    let with_socket = create_socket configured answers.socket in
    if b.initialized
    then (b, success)
    else if not (validate_interface interface)
    then (configured, invalid_argument)
    else elim answers.socket [
      | none ↦ (with_socket, initialization_failed)
      | some fd ↦
          if not (answers.index_found && answers.bound)
          then (with_socket, initialization_failed)
          else if not (answers.buffer_set && (if b.blocking_mode then true else answers.flags_set))
          then (with_socket, initialization_failed)
          else (record with_socket { initialized = true }, success)
    ]

unfoldable pub start : AfPacketBackend → AfPacketBackend × Outcome
start b =
    if not b.initialized
    then (b, initialization_failed)
    else if b.running
    then (b, success)
    else (record b { running = true; looping = true }, success)

-- The thread is joined.
unfoldable pub stop : AfPacketBackend → AfPacketBackend
stop b = if b.running then record b { running = false; looping = false } else b

-- One read of the loop: a frame, nothing to read, or an error, which ends the loop.
pub data Read : Type 0 where
  frame : Text → Read
  again failed : Read

unfoldable pub receive : AfPacketBackend → Read → AfPacketBackend
receive b (frame bytes) =
    let packet = take b.buffer_size bytes in
    if is_empty packet then b else record b {
      packets_captured = size_add b.packets_captured 1;
      bytes_captured = size_add b.bytes_captured (length packet);
      packet_queue = b.packet_queue ++ packet ∷ [];
    }
receive b again = b
receive b failed = record b { looping = false }

unfoldable pub next_packet : AfPacketBackend → AfPacketBackend × Option Text
next_packet b = elim b.packet_queue [
  | [] ↦ (b, none)
  | packet ∷ queue ↦ (record b { packet_queue = queue }, some packet)
]

-- The loop of getPackets, with the packets it has.
unfoldable pub pop_packets : ℕ → List Text → List Text → List Text × List Text
pop_packets max packets [] = (packets, [])
pop_packets max packets (packet ∷ queue) =
    let rest = pop_packets max (packets ++ packet ∷ []) queue in
    if ltb (length packets) max then rest else (packets, packet ∷ queue)

unfoldable pub get_packets : AfPacketBackend → ℕ → AfPacketBackend × List Text
unfolding pop_packets
get_packets b max = (
  record b { packet_queue = (pop_packets max [] b.packet_queue).1 },
  (pop_packets max [] b.packet_queue).0,
)

unfoldable pub reset_statistics : AfPacketBackend → AfPacketBackend
reset_statistics b = record b { packets_captured = 0; bytes_captured = 0 }

-- The settings that are refused while the backend runs.
pub data Setting : Type 0 where
  update_config : Text → Setting
  set_promiscuous_mode set_blocking_mode enable_zero_copy : Bool → Setting
  set_buffer_size set_dma_buffer_size : ℕ → Setting
  enable_dma_access : Bool → Text → Setting

unfoldable pub changed : AfPacketBackend → Setting → AfPacketBackend
changed b (update_config interface) = record b { interface = interface }
changed b (set_promiscuous_mode on) = record b { promiscuous_mode = on }
changed b (set_blocking_mode on) = record b { blocking_mode = on }
changed b (enable_zero_copy on) = record b { zero_copy_enabled = on }
changed b (set_buffer_size size) = record b { buffer_size = size }
changed b (set_dma_buffer_size size) = record b {
  dma_buffer_size = if size == 0 then b.buffer_size else size;
}
changed b (enable_dma_access on device) =
    if on && not (is_empty device)
    then record b { dma_device = device; dma_access_enabled = true }
    else record b { dma_device = []; dma_access_enabled = false }

unfoldable pub set : AfPacketBackend → Setting → AfPacketBackend × Outcome
unfolding changed
set b setting = if b.running then (b, invalid_argument) else (changed b setting, success)

unfoldable pub is_healthy : AfPacketBackend → Bool
is_healthy b = b.initialized && elim b.socket_fd as (λ o. Bool) [ none ↦ false | some fd ↦ true ]

-- close of a descriptor that is kept.
unfoldable pub close_fd : Option ℕ → List FdCall → List FdCall
close_fd none calls = calls
close_fd (some fd) calls = closes fd ∷ calls

-- opened is what open of the device gives, mapped what mmap gives (`none` for MAP_FAILED).
unfoldable pub map_buffers : AfPacketBackend → ℕ → Option ℕ → AfPacketBackend × Outcome
unfolding close_fd
map_buffers b count none = (
  record b { dma_buffers = some none; dma_fd = none; calls = close_fd b.dma_fd b.calls },
  initialization_failed,
)
map_buffers b count (some address) =
    (record b { dma_buffers = some (some address); dma_buffer_count = count }, success)

unfoldable pub allocate_dma_buffers :
    AfPacketBackend → ℕ → Option ℕ → Option ℕ → AfPacketBackend × Outcome
unfolding map_buffers
allocate_dma_buffers b count opened mapped =
    if not b.dma_access_enabled then (b, invalid_argument) else elim b.dma_buffers [
      | some buffers ↦ (b, invalid_argument)
      | none ↦ if is_empty b.dma_device then map_buffers b count mapped else elim opened [
        | none ↦ (record b { dma_fd = none }, initialization_failed)
        | some fd ↦
            map_buffers (record b { dma_fd = some fd; calls = opens fd ∷ b.calls }) count mapped
      ]
    ]

-- munmap may fail, with no effect on what follows.
unfoldable pub free_dma_buffers : AfPacketBackend → AfPacketBackend
unfolding close_fd
free_dma_buffers b = elim b.dma_buffers [
  | none ↦ b
  | some buffers ↦ record b {
    dma_buffers = none;
    dma_buffer_count = 0;
    dma_fd = none;
    calls = close_fd b.dma_fd b.calls;
  }
]

unfoldable pub shutdown : AfPacketBackend → AfPacketBackend
unfolding stop close_fd free_dma_buffers
shutdown b =
    let stopped = stop b in
    let closed = record stopped {
      socket_fd = none;
      calls = close_fd stopped.socket_fd stopped.calls;
    } in
    record (free_dma_buffers closed) { initialized = false }
