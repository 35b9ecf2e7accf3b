-- ===== src/Parser/Registry/Detect/Verdict.antt =====
-- What the detector answers, and that it reads within the packet.
use beatrice.Base.{
  ℕ, ◌≤◌, ◌≡◌, true, some, length, ◌⊎◌, get_elem?, get_elem?-IsSome, Text, ltb, Bool-cases, inl,
  inr, arith, is_ok,
}
use beatrice.Parser.Registry.Detect.{
  detect_multiple_protocols, is_carried, has_port, is_icmp, is_http, is_dns, is_arp, is_ipv6,
}

read_cases :
    (packet : Text) (i : ℕ) → (length packet ≤ i) ⊎ ((b : ℕ) × (get_elem? packet i ≡ some b))
read_cases packet i = elim (Bool-cases (ltb i (length packet))) [
  | inl inside ↦ inr (get_elem?-IsSome packet i (ground arith))
  | inr outside ↦ inl (ground arith)
]

module _ (packet : Text) where
  detect_multiple_protocols-is_ok : is_ok (detect_multiple_protocols packet) ≡ true
  unfolding detect_multiple_protocols
  detect_multiple_protocols-is_ok =
      ground (arith, read_cases packet 12, read_cases packet 13, read_cases packet 23)

  has_port-is_ok :
      (shortest port : ℕ) → 38 ≤ shortest → is_ok (has_port shortest port packet) ≡ true
  unfolding has_port
  has_port-is_ok shortest port h = ground (
    arith,
    read_cases packet 34,
    read_cases packet 35,
    read_cases packet 36,
    read_cases packet 37,
  )

  is_carried-is_ok : (number : ℕ) → is_ok (is_carried number packet) ≡ true
  unfolding is_carried
  is_carried-is_ok number = ground (arith, read_cases packet 0, read_cases packet 23)

  is_http-is_ok : is_ok (is_http packet) ≡ true
  unfolding is_http
  is_http-is_ok = ground (arith, is_carried-is_ok 6, has_port-is_ok 54 80)

  is_dns-is_ok : is_ok (is_dns packet) ≡ true
  unfolding is_dns
  is_dns-is_ok = ground (arith, is_carried-is_ok 17, has_port-is_ok 42 53)

  is_arp-is_ok : is_ok (is_arp packet) ≡ true
  unfolding is_arp
  is_arp-is_ok = ground (arith, read_cases packet 12, read_cases packet 13)

  is_ipv6-is_ok : is_ok (is_ipv6 packet) ≡ true
  unfolding is_ipv6
  is_ipv6-is_ok = ground (arith, read_cases packet 0)

-- Whatever the packet, detectMultipleProtocols and the tests for HTTP, DNS, ICMP, ARP and IPv6
-- return: they read within the packet.
pub detector_is_safe :
    (packet : Text)
    → (is_ok (detect_multiple_protocols packet) ≡ true)
      × (is_ok (is_http packet) ≡ true)
      × (is_ok (is_dns packet) ≡ true)
      × (is_ok (is_icmp packet) ≡ true)
      × (is_ok (is_arp packet) ≡ true)
      × (is_ok (is_ipv6 packet) ≡ true)
unfolding is_icmp
detector_is_safe packet = (
  detect_multiple_protocols-is_ok packet,
  is_http-is_ok packet,
  is_dns-is_ok packet,
  is_carried-is_ok packet 1,
  is_arp-is_ok packet,
  is_ipv6-is_ok packet,
)
