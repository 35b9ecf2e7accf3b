-- ===== src/Parser/Registry/Detect.antt =====
-- ProtocolDetector of src/parser/ProtocolRegistry.cpp. A confidence is in hundredths, and `none`
-- where the source leaves it uninitialised. The detection time is always 0 or uninitialised.
pub mod Verdict
use beatrice.Base.{
  ℕ, ◌+◌, ◌*◌, ◌/◌, ◌%◌, ◌^◌, ◌≤◌, ◌<◌, ◌≡◌, ◌≢◌, refl, bit_or, Bool, true, false, not, ◌&&◌, ◌||◌,
  List, [], ◌∷◌, ◌++◌, Option, none, some, length, get_elem?, get_elem?-IsSome, Text, codes, ltb,
  le→ltb, leb, ◌==◌, if◌then◌else◌, Result, ok, err, ◌>>=◌, or_fault, out_of_bounds,
}

pub record DetectionResult : Type 0 where
  pub protocol_name : Text
  pub confidence : Option ℕ
  pub reason : Text

-- packet[i]
abbrev byte : Text → ℕ → Result ℕ
byte packet i = or_fault (get_elem? packet i) out_of_bounds

-- (packet[i] << 8) | packet[i + 1], as uint16_t.
unfoldable pub half_word : Text → ℕ → Result ℕ
half_word packet i = do
  hi ← byte packet i
  lo ← byte packet (i + 1)
  ok (bit_or (hi * 2 ^ 8) lo % 2 ^ 16)

unfoldable pub is_ethernet : Text → Result Bool
unfolding half_word
is_ethernet packet =
    if ltb (length packet) 14
    then ok false
    else (do t ← half_word packet 12; ok (t == 0x0800 || t == 0x0806 || t == 0x86dd))

-- The version nibble of an IP header at the front of the packet.
unfoldable pub has_version : ℕ → ℕ → Text → Result Bool
has_version shortest version packet =
    if ltb (length packet) shortest
    then ok false
    else (do b ← byte packet 0; ok (b / 2 ^ 4 == version))

unfoldable pub is_ipv4 : Text → Result Bool
unfolding has_version
is_ipv4 = has_version 34 4

unfoldable pub is_ipv6 : Text → Result Bool
unfolding has_version
is_ipv6 = has_version 54 6

-- isTCP, isUDP and isICMP, by their protocol number.
unfoldable pub is_carried : ℕ → Text → Result Bool
unfolding is_ipv4
is_carried number packet = do
  v4 ← is_ipv4 packet
  if not v4 then ok false else (do b ← byte packet 23; ok (b == number))

unfoldable pub is_tcp : Text → Result Bool
is_tcp = is_carried 6

unfoldable pub is_udp : Text → Result Bool
is_udp = is_carried 17

unfoldable pub is_icmp : Text → Result Bool
is_icmp = is_carried 1

-- Either port, read behind an Ethernet and an IPv4 header, is the given one.
unfoldable pub has_port : ℕ → ℕ → Text → Result Bool
unfolding half_word
has_port shortest port packet = if ltb (length packet) shortest then ok false else (do
  dest ← half_word packet 36
  source ← half_word packet 34
  ok (dest == port || source == port))

unfoldable pub is_http : Text → Result Bool
unfolding is_tcp
is_http packet = do tcp ← is_tcp packet; if not tcp then ok false else has_port 54 80 packet

unfoldable pub is_dns : Text → Result Bool
unfolding is_udp
is_dns packet = do udp ← is_udp packet; if not udp then ok false else has_port 42 53 packet

unfoldable pub is_arp : Text → Result Bool
unfolding half_word
is_arp packet =
    if ltb (length packet) 28 then ok false else (do t ← half_word packet 12; ok (t == 0x0806))

abbrev detected : Text → ℕ → Text → DetectionResult
detected name confidence reason = record {
  protocol_name = name;
  confidence = some confidence;
  reason = reason;
}

abbrev undetected : DetectionResult
undetected = record { protocol_name = []; confidence = none; reason = [] }

-- The inner branches of detectProtocol, by the byte at 23.
unfoldable pub by_protocol_byte : ℕ → DetectionResult
by_protocol_byte b =
    if b == 6
    then detected (codes "tcp") 98 (codes "Ethernet + IPv4 + TCP")
    else if b == 17
    then detected (codes "udp") 98 (codes "Ethernet + IPv4 + UDP")
    else if b == 1
    then detected (codes "icmp") 98 (codes "Ethernet + IPv4 + ICMP")
    else detected (codes "ethernet") 95 (codes "Valid Ethernet frame")

unfoldable pub detect_protocol : Text → Result DetectionResult
unfolding by_protocol_byte is_ethernet
detect_protocol packet =
    if ltb (length packet) 14
    then ok (detected (codes "unknown") 0 (codes "Packet too short"))
    else (do
      ethernet ← is_ethernet packet
      (if not ethernet
          then ok undetected
          else if leb 34 (length packet)
          then (do b ← byte packet 23; ok (by_protocol_byte b))
          else ok (detected (codes "ethernet") 95 (codes "Valid Ethernet frame"))))

abbrev over_ipv4 : ℕ → List DetectionResult
over_ipv4 b =
    if b == 6
    then detected (codes "tcp") 98 (codes "TCP over IPv4") ∷ []
    else if b == 17
    then detected (codes "udp") 98 (codes "UDP over IPv4") ∷ []
    else []

unfoldable pub detect_multiple_protocols : Text → Result (List DetectionResult)
unfolding detect_protocol
detect_multiple_protocols packet = do
  first ← detect_protocol packet
  (if leb 34 (length packet)
      then (do b ← byte packet 23; ok (first ∷ over_ipv4 b))
      else ok (first ∷ []))
