-- ===== src/AfPacket/Sound.antt =====
-- What the calls of an AF_PACKET backend keep of its flags and its descriptors.
use beatrice.Base.{
  ℕ, suc, ◌+◌, ◌≤◌, ◌≡◌, refl, Bool, true, false, not, ◌&&◌, List, [], ◌∷◌, Option, none, some,
  take, Text, is_empty, if◌then◌else◌, ◌==◌, arith,
}
use beatrice.AfPacket.{
  AfPacketBackend, Outcome, success, initialization_failed, FdCall, opens, closes, Answers,
  validate_interface, create_socket, initialize, start, stop, Read, frame, again, failed, receive,
}

-- How often a descriptor has been opened, and closed.
abbrev pub opened : ℕ → List FdCall → ℕ
opened fd [] = 0
opened fd (opens n ∷ cs) = if n == fd then suc (opened fd cs) else opened fd cs
opened fd (closes n ∷ cs) = opened fd cs

abbrev pub closed : ℕ → List FdCall → ℕ
closed fd [] = 0
closed fd (opens n ∷ cs) = closed fd cs
closed fd (closes n ∷ cs) = if n == fd then suc (closed fd cs) else closed fd cs

abbrev pub is_at : ℕ → Option ℕ → ℕ
is_at fd none = 0
is_at fd (some n) = if n == fd then 1 else 0

abbrev pub is_some : Option ℕ → Bool
is_some none = false
is_some (some n) = true

-- What the life of the descriptors depends on.
pub record Core : Type 0 where
  pub running : Bool
  pub initialized : Bool
  pub looping : Bool
  pub socket_fd : Option ℕ
  pub dma_fd : Option ℕ
  pub calls : List FdCall

abbrev pub core : AfPacketBackend → Core
core b = record {
  running = b.running;
  initialized = b.initialized;
  looping = b.looping;
  socket_fd = b.socket_fd;
  dma_fd = b.dma_fd;
  calls = b.calls;
}

pub record IsSoundCore (c : Core) : Type 0 where
  pub balanced :
      (fd : ℕ) → closed fd c.calls + is_at fd c.socket_fd + is_at fd c.dma_fd ≤ opened fd c.calls
  pub with_socket : c.initialized ≡ true → is_some c.socket_fd ≡ true
  pub when_running : c.running ≡ true → c.initialized ≡ true
  pub when_looping : c.looping ≡ true → c.running ≡ true

abbrev pub IsSound : AfPacketBackend → Type 0
IsSound b = IsSoundCore (core b)

-- A test that is split, in a statement on the outcome.
pub by_test {ℓ κ} :
    {A : Type ℓ} (P : A → Type κ) (c : Bool) {x y : A}
    → (c ≡ true → P x)
    → (c ≡ false → P y)
    → P (if c then x else y)
by_test P true t f = t refl
by_test P false t f = f refl

create_socket-IsSound :
    (b : AfPacketBackend) (o : Option ℕ)
    → b.initialized ≡ false
    → IsSound b
    → IsSound (create_socket b o)
unfolding create_socket
create_socket-IsSound b none fresh v = record {
  balanced = λ fd. omega (arith, v.balanced fd);
  with_socket = λ h. cc;
  when_running = v.when_running;
  when_looping = v.when_looping;
}
create_socket-IsSound b (some n) fresh v = record {
  balanced = λ fd. ground (arith, v.balanced fd);
  with_socket = λ h. refl;
  when_running = v.when_running;
  when_looping = v.when_looping;
}

initialized-IsSound :
    (b : AfPacketBackend) (fd : ℕ)
    → IsSound (create_socket b (some fd))
    → IsSound (record (create_socket b (some fd)) { initialized = true })
unfolding create_socket
initialized-IsSound b fd v = record {
  balanced = v.balanced;
  with_socket = λ h. refl;
  when_running = λ h. refl;
  when_looping = v.when_looping;
}

pub initialize-IsSound :
    (b : AfPacketBackend) (interface : Text) (answers : Answers)
    → IsSound b
    → IsSound (initialize b interface answers).0
unfolding initialize
initialize-IsSound b interface answers v =
    by_test Good b.initialized (λ done. v)
      (λ fresh.
        by_test Good (not (validate_interface interface)) (λ bad. configured)
          (λ fine.
            with_answer answers.socket
              (create_socket-IsSound named answers.socket fresh configured)))
  where
    Good : AfPacketBackend × Outcome → Type 0
    Good out = IsSound out.0

    named : AfPacketBackend
    named = record b { interface = interface }

    configured : IsSound named
    configured = v

    with_answer :
        (o : Option ℕ)
        → IsSound (create_socket named o)
        → Good (elim o as (λ o. AfPacketBackend × Outcome) [
          | none ↦ (create_socket named o, initialization_failed)
          | some fd ↦
              if not (answers.index_found && answers.bound)
              then (create_socket named o, initialization_failed)
              else if not
                  (answers.buffer_set && (if b.blocking_mode then true else answers.flags_set))
              then (create_socket named o, initialization_failed)
              else (record (create_socket named o) { initialized = true }, success)
        ])
    with_answer none s = s
    with_answer (some fd) s =
        by_test Good (not (answers.index_found && answers.bound)) (λ h. s)
          (λ h.
            by_test Good
              (not (answers.buffer_set && (if b.blocking_mode then true else answers.flags_set)))
              (λ h. s) (λ h. initialized-IsSound named fd s))

pub start-IsSound : (b : AfPacketBackend) → IsSound b → IsSound (start b).0
unfolding start
start-IsSound b v =
    by_test Good (not b.initialized) (λ h. v)
      (λ h.
        by_test Good b.running (λ h. v)
          (λ off. record {
            balanced = v.balanced;
            with_socket = v.with_socket;
            when_running = λ on. ground (arith, h);
            when_looping = λ on. refl;
          }))
  where
    Good : AfPacketBackend × Outcome → Type 0
    Good out = IsSound out.0

pub stop-IsSound : (b : AfPacketBackend) → IsSound b → IsSound (stop b)
unfolding stop
stop-IsSound b v =
    by_test IsSound b.running
      (λ on. record {
        balanced = v.balanced;
        with_socket = v.with_socket;
        when_running = λ h. cc;
        when_looping = λ h. cc;
      })
      (λ off. v)

pub stop-looping :
    (b : AfPacketBackend) → IsSound b → ((stop b).running ≡ false) × ((stop b).looping ≡ false)
unfolding stop
stop-looping b v =
    by_test (λ (out : AfPacketBackend). (out.running ≡ false) × (out.looping ≡ false)) b.running
      (λ on. (refl, refl)) (λ off. (off, ground (arith, off, v.when_looping)))

pub receive-IsSound : (b : AfPacketBackend) (read : Read) → IsSound b → IsSound (receive b read)
unfolding receive
receive-IsSound b (frame bytes) v =
    by_test IsSound (is_empty (take b.buffer_size bytes)) (λ h. v) (λ h. v)
receive-IsSound b again v = v
receive-IsSound b failed v = record {
  balanced = v.balanced;
  with_socket = v.with_socket;
  when_running = v.when_running;
  when_looping = λ h. cc;
}
