-- ===== src/AfPacket/Buffers.antt =====
-- What the buffers for DMA, shutdown and the settings keep of the flags and the descriptors.
use beatrice.Base.{
  ℕ, ◌+◌, ◌≤◌, ◌≡◌, false, not, ◌&&◌, List, [], ◌∷◌, Option, none, some, Text, is_empty,
  if◌then◌else◌, arith,
}
use beatrice.AfPacket.{
  AfPacketBackend, Outcome, invalid_argument, initialization_failed, FdCall, opens, stop,
  next_packet, Setting, update_config, set_promiscuous_mode, set_blocking_mode, enable_zero_copy,
  set_buffer_size, set_dma_buffer_size, enable_dma_access, changed, set, close_fd, map_buffers,
  allocate_dma_buffers, free_dma_buffers, shutdown,
}
use beatrice.AfPacket.Sound.{opened, closed, is_at, by_test, IsSound, stop-IsSound, stop-looping}

close_fd-balanced :
    (fd : ℕ) (o : Option ℕ) (calls : List FdCall) (rest : ℕ)
    → closed fd calls + is_at fd o + rest ≤ opened fd calls
    → closed fd (close_fd o calls) + rest ≤ opened fd (close_fd o calls)
unfolding close_fd
close_fd-balanced fd none calls rest h = omega (arith, h)
close_fd-balanced fd (some n) calls rest h = ground (arith, h)

free_cases :
    (P : AfPacketBackend → Type 0) (b : AfPacketBackend)
    → P b
    → P (record b {
      dma_buffers = none;
      dma_buffer_count = 0;
      dma_fd = none;
      calls = close_fd b.dma_fd b.calls;
    })
    → P (free_dma_buffers b)
unfolding free_dma_buffers
free_cases P b kept freed = by_buffers b.dma_buffers
  where
    by_buffers :
        (o : Option (Option ℕ))
        → P (elim o as (λ o. AfPacketBackend) [
          | none ↦ b
          | some buffers ↦ record b {
            dma_buffers = none;
            dma_buffer_count = 0;
            dma_fd = none;
            calls = close_fd b.dma_fd b.calls;
          }
        ])
    by_buffers none = kept
    by_buffers (some buffers) = freed

pub free-IsSound : (b : AfPacketBackend) → IsSound b → IsSound (free_dma_buffers b)
free-IsSound b v = free_cases IsSound b v (record {
  balanced = λ fd. omega (
    arith,
    close_fd-balanced fd b.dma_fd b.calls (is_at fd b.socket_fd) (omega (arith, v.balanced fd)),
  );
  with_socket = v.with_socket;
  when_running = v.when_running;
  when_looping = v.when_looping;
})

-- A backend that has ended: what holds of it after stop and the closing of its socket.
record HasEnded (b : AfPacketBackend) : Type 0 where
  balanced :
      (fd : ℕ) → closed fd b.calls + is_at fd b.socket_fd + is_at fd b.dma_fd ≤ opened fd b.calls
  not_running : b.running ≡ false
  not_looping : b.looping ≡ false

pub shutdown-IsSound : (b : AfPacketBackend) → IsSound b → IsSound (shutdown b)
unfolding shutdown
shutdown-IsSound b v =
    let e = free_cases HasEnded ended (without_socket) (record {
      balanced = λ fd. omega (
        arith,
        close_fd-balanced fd ended.dma_fd ended.calls 0 (omega (arith, without_socket.balanced fd)),
      );
      not_running = without_socket.not_running;
      not_looping = without_socket.not_looping;
    }) in
    record {
      balanced = e.balanced;
      with_socket = λ h. cc;
      when_running = λ h. ground (arith, h, e.not_running);
      when_looping = λ h. ground (arith, h, e.not_looping);
    }
  where
    stopped : AfPacketBackend
    stopped = stop b

    ended : AfPacketBackend
    ended = record stopped { socket_fd = none; calls = close_fd stopped.socket_fd stopped.calls }

    without_socket : HasEnded ended
    without_socket = record {
      balanced = λ fd. omega (
        arith,
        close_fd-balanced fd stopped.socket_fd stopped.calls (is_at fd stopped.dma_fd)
            ((stop-IsSound b v).balanced fd),
      );
      not_running = (stop-looping b v).0;
      not_looping = (stop-looping b v).1;
    }

map_buffers-IsSound :
    (b : AfPacketBackend) (count : ℕ) (mapped : Option ℕ)
    → IsSound b
    → IsSound (map_buffers b count mapped).0
unfolding map_buffers
map_buffers-IsSound b count none v = record {
  balanced = λ fd. omega (
    arith,
    close_fd-balanced fd b.dma_fd b.calls (is_at fd b.socket_fd) (omega (arith, v.balanced fd)),
  );
  with_socket = v.with_socket;
  when_running = v.when_running;
  when_looping = v.when_looping;
}
map_buffers-IsSound b count (some address) v = v

pub allocate-IsSound :
    (b : AfPacketBackend) (count : ℕ) (device mapped : Option ℕ)
    → IsSound b
    → IsSound (allocate_dma_buffers b count device mapped).0
unfolding allocate_dma_buffers
allocate-IsSound b count device mapped v =
    by_test Good (not b.dma_access_enabled) (λ h. v) (λ h. by_buffers b.dma_buffers)
  where
    Good : AfPacketBackend × Outcome → Type 0
    Good out = IsSound out.0

    by_device :
        (o : Option ℕ)
        → Good (elim o as (λ o. AfPacketBackend × Outcome) [
          | none ↦ (record b { dma_fd = none }, initialization_failed)
          | some fd ↦
              map_buffers (record b { dma_fd = some fd; calls = opens fd ∷ b.calls }) count mapped
        ])
    by_device none = record {
      balanced = λ fd. omega (arith, v.balanced fd);
      with_socket = v.with_socket;
      when_running = v.when_running;
      when_looping = v.when_looping;
    }
    by_device (some n) =
        map_buffers-IsSound (record b { dma_fd = some n; calls = opens n ∷ b.calls }) count mapped
          (record {
            balanced = λ fd. ground (arith, v.balanced fd);
            with_socket = v.with_socket;
            when_running = v.when_running;
            when_looping = v.when_looping;
          })

    by_buffers :
        (o : Option (Option ℕ))
        → Good (elim o as (λ o. AfPacketBackend × Outcome) [
          | some buffers ↦ (b, invalid_argument)
          | none ↦
              if is_empty b.dma_device
              then map_buffers b count mapped
              else elim device as (λ o. AfPacketBackend × Outcome) [
                | none ↦ (record b { dma_fd = none }, initialization_failed)
                | some fd ↦
                    map_buffers
                      (record b { dma_fd = some fd; calls = opens fd ∷ b.calls })
                      count
                      mapped
              ]
        ])
    by_buffers (some buffers) = v
    by_buffers none =
        by_test Good (is_empty b.dma_device) (λ h. map_buffers-IsSound b count mapped v)
          (λ h. by_device device)

changed-IsSound :
    (b : AfPacketBackend) (setting : Setting) → IsSound b → IsSound (changed b setting)
unfolding changed
changed-IsSound b (update_config interface) v = v
changed-IsSound b (set_promiscuous_mode on) v = v
changed-IsSound b (set_blocking_mode on) v = v
changed-IsSound b (enable_zero_copy on) v = v
changed-IsSound b (set_buffer_size size) v = v
changed-IsSound b (set_dma_buffer_size size) v = v
changed-IsSound b (enable_dma_access on device) v =
    by_test IsSound (on && not (is_empty device)) (λ h. v) (λ h. v)

pub set-IsSound : (b : AfPacketBackend) (setting : Setting) → IsSound b → IsSound (set b setting).0
unfolding set
set-IsSound b setting v =
    by_test (λ (out : AfPacketBackend × Outcome). IsSound out.0) b.running (λ h. v)
      (λ h. changed-IsSound b setting v)

pub next_packet-IsSound : (b : AfPacketBackend) → IsSound b → IsSound (next_packet b).0
unfolding next_packet
next_packet-IsSound b v = by_queue b.packet_queue
  where
    by_queue :
        (q : List Text)
        → IsSound
            (elim q as (λ q. AfPacketBackend × Option Text) [
              | [] ↦ (b, none)
              | packet ∷ queue ↦ (record b { packet_queue = queue }, some packet)
            ]).0
    by_queue [] = v
    by_queue (packet ∷ queue) = v
