-- ===== src/Parser/Registry/Laws.antt =====
-- The registry counts the uses of exactly the protocols that it holds.
use beatrice.Base.{
  ℕ, ◌≡◌, refl, ◌∙◌, ◌||◌, List, [], ◌∷◌, Option-cases, inl, inr, Text, text_eq, text_eq_iff, codes,
  arith,
}
use beatrice.Base.Maps.{
  Map, lookup, insert, has_key, keys, listed, has_key-insert, has_key-erase, listed-keys,
}
use beatrice.Parser.Field.{ProtocolDefinition}
use beatrice.Parser.Registry.Builtin.{
  create_ethernet_protocol, create_ipv4_protocol, create_tcp_protocol, create_udp_protocol,
  create_icmp_protocol,
}
use beatrice.Parser.Registry.{
  ProtocolRegistry, register_protocol, unregister_protocol, get_protocol, bump_usage,
  register_protocol_factory, clear, zero_usage, load_builtin_protocols,
}

-- A name has a usage count exactly if it has a protocol.
abbrev pub IsRegistry : ProtocolRegistry → Type 0
IsRegistry r = (k : Text) → has_key k r.usage_count ≡ has_key k r.protocols

clear-IsRegistry : (r : ProtocolRegistry) (now : ℕ) → IsRegistry (clear r now)
unfolding clear lookup
clear-IsRegistry r now k = refl

register_protocol-IsRegistry :
    (r : ProtocolRegistry) (now : ℕ) (p : ProtocolDefinition)
    → IsRegistry r
    → IsRegistry (register_protocol r now p).0
unfolding register_protocol
register_protocol-IsRegistry r now p v k =
    ground
      (arith, v k, has_key-insert p.name k p r.protocols, has_key-insert p.name k 0 r.usage_count)

unregister_protocol-IsRegistry :
    (r : ProtocolRegistry) (now : ℕ) (name : Text)
    → IsRegistry r
    → IsRegistry (unregister_protocol r now name).0
unfolding unregister_protocol
unregister_protocol-IsRegistry r now name v k =
    ground (arith, v k, has_key-erase name k r.protocols, has_key-erase name k r.usage_count)

has_key-bump_usage :
    (name k : Text) (m : Map ℕ) → has_key k (bump_usage name m) ≡ (text_eq name k || has_key k m)
unfolding bump_usage
has_key-bump_usage name k m = has_key-insert name k _ m

get_protocol-IsRegistry :
    (r : ProtocolRegistry) (name : Text) → IsRegistry r → IsRegistry (get_protocol r name).0
unfolding get_protocol
get_protocol-IsRegistry r name v k = elim (Option-cases (lookup name r.protocols)) [
  | inl e ↦ ground (arith, e, v k)
  | inr (p, e) ↦ ground (arith, e, v k, has_key-bump_usage name k r.usage_count, text_eq_iff name k)
]

has_key-zero_usage :
    (ks : List Text) (m : Map ℕ) (k : Text)
    → has_key k (zero_usage ks m) ≡ (listed k ks || has_key k m)
unfolding zero_usage
has_key-zero_usage [] m k = refl
has_key-zero_usage (j ∷ js) m k =
    ground (arith, has_key-zero_usage js (insert j 0 m) k, has_key-insert j k 0 m)

load_builtin_protocols-IsRegistry :
    (r : ProtocolRegistry) (now : ℕ) → IsRegistry r → IsRegistry (load_builtin_protocols r now)
unfolding load_builtin_protocols
load_builtin_protocols-IsRegistry r now v k =
    has_key-zero_usage _ r.usage_count k ∙ absorbed k r.protocols r.usage_count (v k)
  where
    absorbed :
        (k : Text) (ps : Map ProtocolDefinition) (us : Map ℕ)
        → has_key k us ≡ has_key k ps
        → let qs = insert (codes "icmp") create_icmp_protocol (
            insert (codes "udp") create_udp_protocol (
              insert (codes "tcp") create_tcp_protocol (
                insert
                  (codes "ipv4")
                  create_ipv4_protocol
                  (insert (codes "ethernet") create_ethernet_protocol ps)))) in
          (listed k (keys qs) || has_key k us) ≡ has_key k qs
    absorbed k ps us h =
        let q1 = insert (codes "ethernet") create_ethernet_protocol ps in
        let q2 = insert (codes "ipv4") create_ipv4_protocol q1 in
        let q3 = insert (codes "tcp") create_tcp_protocol q2 in
        let q4 = insert (codes "udp") create_udp_protocol q3 in
        let q5 = insert (codes "icmp") create_icmp_protocol q4 in
        ground (
          arith,
          h,
          listed-keys k q5,
          has_key-insert (codes "icmp") k create_icmp_protocol q4,
          has_key-insert (codes "udp") k create_udp_protocol q3,
          has_key-insert (codes "tcp") k create_tcp_protocol q2,
          has_key-insert (codes "ipv4") k create_ipv4_protocol q1,
          has_key-insert (codes "ethernet") k create_ethernet_protocol ps,
        )

-- The calls that change the registry, each at its time.
pub data Call : Type 0 where
  registers : ProtocolDefinition → Call
  unregisters gets : Text → Call
  registers_factory : Text → ProtocolDefinition → Call
  loads_builtin clears : Call

abbrev pub step : ProtocolRegistry → ℕ × Call → ProtocolRegistry
step r (now, registers p) = (register_protocol r now p).0
step r (now, unregisters name) = (unregister_protocol r now name).0
step r (now, gets name) = (get_protocol r name).0
step r (now, registers_factory name p) = (register_protocol_factory r now name p).0
step r (now, loads_builtin) = load_builtin_protocols r now
step r (now, clears) = clear r now

abbrev pub run : ProtocolRegistry → List (ℕ × Call) → ProtocolRegistry
run r [] = r
run r (c ∷ cs) = run (step r c) cs

step-IsRegistry : (r : ProtocolRegistry) (c : ℕ × Call) → IsRegistry r → IsRegistry (step r c)
step-IsRegistry r (now, registers p) v = register_protocol-IsRegistry r now p v
step-IsRegistry r (now, unregisters name) v = unregister_protocol-IsRegistry r now name v
step-IsRegistry r (now, gets name) v = get_protocol-IsRegistry r name v
step-IsRegistry r (now, registers_factory name p) v =
    unfold register_protocol_factory in λ k. ground (arith, v k)
step-IsRegistry r (now, loads_builtin) v = load_builtin_protocols-IsRegistry r now v
step-IsRegistry r (now, clears) v = clear-IsRegistry r now

-- Whatever calls a registry gets, a name has a usage count exactly if it has a protocol, if that
-- was so before.
pub run-IsRegistry :
    (r : ProtocolRegistry) (cs : List (ℕ × Call)) → IsRegistry r → IsRegistry (run r cs)
run-IsRegistry r [] v = v
run-IsRegistry r (c ∷ cs) v = run-IsRegistry (step r c) cs (step-IsRegistry r c v)
