-- ===== src/Filter/Headers.antt =====
-- The tests that each type of filter makes of a packet, in src/PacketFilter.cpp. The sizes of the
-- headers and the protocol numbers are those of the system's headers.
use beatrice.Base.{
  ℕ, ◌+◌, ◌-◌, ◌*◌, ◌/◌, ◌%◌, ◌^◌, min, Bool, true, false, not, ◌&&◌, ◌||◌, [], ◌∷◌, Option, none,
  some, length, get_elem?, take, drop, Text, text_eq, codes, contains, is_empty, ltb, leb, ◌==◌,
  if◌then◌else◌, Result, ok, err, ◌>>=◌, or_fault, out_of_bounds,
}
use beatrice.Filter.{
  Packet, FilterType, bpf, protocol, ip_range, port_range, payload, custom, FilterConfig,
  FilterEntry,
}
use beatrice.Filter.Range.{is_ip_in_range, is_port_in_range}

-- std::regex: a search of the second text for the first, `none` for a std::regex_error.
pub record Regex : Type 0 where
  pub search_text : Text → Text → Option Bool

-- sizeof of ether_header, iphdr, tcphdr and udphdr.
abbrev pub ether_size : ℕ
ether_size = 14

abbrev pub ip_size : ℕ
ip_size = 20

abbrev tcp_size : ℕ
tcp_size = 20

abbrev udp_size : ℕ
udp_size = 8

abbrev pub byte : Packet → ℕ → Result ℕ
byte p i = or_fault (get_elem? p.data_bytes i) out_of_bounds

-- ntohs of the two bytes at an offset.
unfoldable pub half_word : Packet → ℕ → Result ℕ
half_word p i = do hi ← byte p i; lo ← byte p (i + 1); ok (hi * 2 ^ 8 + lo)

abbrev pub has_ip_type : Packet → Result Bool
has_ip_type p = half_word p 12 >>= λ t. ok (t == 0x0800)

-- ntohl of the four bytes at an offset, taken apart again into bytes, highest first.
unfoldable pub ip_bytes : Packet → ℕ → Result Text
ip_bytes p i = do
  a ← byte p i
  b ← byte p (i + 1)
  c ← byte p (i + 2)
  d ← byte p (i + 3)
  let w = a * 2 ^ 24 + b * 2 ^ 16 + c * 2 ^ 8 + d
  ok ((w / 2 ^ 24 % 2 ^ 8) ∷ (w / 2 ^ 16 % 2 ^ 8) ∷ (w / 2 ^ 8 % 2 ^ 8) ∷ (w % 2 ^ 8) ∷ [])

-- a || b, where b is evaluated only if a is false.
abbrev pub or_else : Result Bool → Result Bool → Result Bool
or_else a b = a >>= λ x. elim x [ true ↦ ok true | false ↦ b ]

abbrev names_protocol : (Text → Text → Bool) → Text → ℕ → Bool
names_protocol fits expression number =
    fits expression (codes "tcp") && number == 6
    || fits expression (codes "udp") && number == 17
    || fits expression (codes "icmp") && number == 1

-- What applyBPFFilter and applyProtocolFilter share: a test of the IP protocol number.
unfoldable pub by_number : Packet → FilterConfig → (ℕ → Bool) → Result Bool
unfolding half_word
by_number p config test =
    if is_empty config.expression
    then ok true
    else if ltb p.length ether_size
    then ok false
    else (do
      ip ← has_ip_type p
      (if ip
          then (if ltb p.length (ether_size + ip_size)
              then ok false
              else (do number ← byte p 23; ok (test number)))
          else ok false))

unfoldable pub apply_bpf_filter : Packet → FilterConfig → Result Bool
unfolding by_number
apply_bpf_filter p config = by_number p config (names_protocol contains config.expression)

unfoldable pub apply_protocol_filter : Packet → FilterConfig → Result Bool
unfolding by_number
apply_protocol_filter p config = by_number p config λ number.
    names_protocol text_eq config.expression number
    || text_eq config.expression (codes "ip") && not (number == 0)

unfoldable pub apply_ip_range_filter : Packet → FilterConfig → Result Bool
unfolding half_word ip_bytes
apply_ip_range_filter p config =
    if is_empty config.expression
    then ok true
    else if ltb p.length (ether_size + ip_size)
    then ok false
    else (do
      ip ← has_ip_type p
      (if ip
          then (do
            source ← ip_bytes p 26
            dest ← ip_bytes p 30
            or_else (is_ip_in_range source config.expression)
                (is_ip_in_range dest config.expression))
          else ok false))

-- The ports of a TCP or UDP header right behind an IP header without options.
unfoldable pub ports_in_range : Packet → FilterConfig → Result Bool
unfolding half_word
ports_in_range p config = do
  source ← half_word p 34
  dest ← half_word p 36
  or_else (is_port_in_range source config.expression) (is_port_in_range dest config.expression)

unfoldable pub apply_port_range_filter : Packet → FilterConfig → Result Bool
unfolding half_word ports_in_range
apply_port_range_filter p config =
    if is_empty config.expression
    then ok true
    else if ltb p.length (ether_size + ip_size)
    then ok false
    else (do
      ip ← has_ip_type p
      (if ip
          then (do
            number ← byte p 23
            (if number == 6 && leb (ether_size + ip_size + tcp_size) p.length
                then ports_in_range p config
                else if number == 17 && leb (ether_size + ip_size + udp_size) p.length
                then ports_in_range p config
                else ok false))
          else ok false))

-- std::string(payload, n)
unfoldable pub payload_text : Packet → ℕ → ℕ → Result Text
payload_text p offset n =
    if leb (offset + n) (length p.data_bytes)
    then ok (take n (drop offset p.data_bytes))
    else err out_of_bounds

unfoldable pub apply_payload_filter : Regex → Packet → FilterConfig → Result Bool
unfolding half_word payload_text
apply_payload_filter re p config =
    if is_empty config.expression
    then ok true
    else if ltb p.length (ether_size + ip_size)
    then ok false
    else (do
      ip ← has_ip_type p
      (if ip
          then (do
            first ← byte p 14
            let offset = ether_size + first % 2 ^ 4 * 4
            (if ltb offset p.length
                then (do
                  text ← payload_text p offset (min (p.length - offset) 100)
                  ok (elim (re.search_text config.expression text) [ none ↦ false | some b ↦ b ]))
                else ok false))
          else ok false))

unfoldable pub apply_custom_filter : Packet → FilterEntry → Result Bool
apply_custom_filter p e = elim e.custom_func [ none ↦ ok true | some f ↦ f p ]

-- The switch of applyFilters.
unfoldable pub apply_filter : Regex → Packet → FilterEntry → FilterType → Result Bool
apply_filter re p e bpf = apply_bpf_filter p e.config
apply_filter re p e protocol = apply_protocol_filter p e.config
apply_filter re p e ip_range = apply_ip_range_filter p e.config
apply_filter re p e port_range = apply_port_range_filter p e.config
apply_filter re p e payload = apply_payload_filter re p e.config
apply_filter re p e custom = apply_custom_filter p e
