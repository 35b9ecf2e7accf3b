-- ===== src/Filter/Range.antt =====
-- parseIPAddress, isIPInRange and isPortInRange of src/PacketFilter.cpp. An int is its 32 bits.
pub mod Cidr
pub mod Printed
use beatrice.Base.{
  ℕ, ◌+◌, ◌-◌, ◌*◌, ◌/◌, ◌%◌, ◌^◌, ◌≤◌, bit_and, bit_or, Bool, true, false, not, ◌&&◌, List, [],
  ◌∷◌, length, get_elem?, Text, text_eq, ltb, leb, ◌==◌, if◌then◌else◌, Result, ok, err, ◌>>=◌,
  or_fault, out_of_bounds, bad_shift,
}
use beatrice.Base.Numbers.{stoi, get_lines, has_byte, before_byte, after_byte}

-- The uint8_t of each piece.
unfoldable pub octets : List Text → Result Text
octets [] = ok []
octets (t ∷ ts) = stoi t >>= λ n. octets ts >>= λ rest. ok ((n % 2 ^ 8) ∷ rest)

unfoldable pub parse_ip_address : Text → Result Text
unfolding octets
parse_ip_address s = octets (get_lines b'.' s)

-- (v[0] << 24) | (v[1] << 16) | (v[2] << 8) | v[3] as uint32_t.
unfoldable pub address : Text → Result ℕ
address v = do
  a ← or_fault (get_elem? v 0) out_of_bounds
  b ← or_fault (get_elem? v 1) out_of_bounds
  c ← or_fault (get_elem? v 2) out_of_bounds
  d ← or_fault (get_elem? v 3) out_of_bounds
  ok (bit_or (bit_or (bit_or (a * 2 ^ 24) (b * 2 ^ 16)) (c * 2 ^ 8)) d % 2 ^ 32)

-- (0xFFFFFFFF << (32 - prefixLen)) & 0xFFFFFFFF: the shift is defined for 0 to 31 places only.
unfoldable pub prefix_mask : ℕ → Result ℕ
prefix_mask prefix_len =
    if leb 1 prefix_len && leb prefix_len 32
    then ok (bit_and (0xffff_ffff * 2 ^ (32 - prefix_len) % 2 ^ 32) 0xffff_ffff)
    else err bad_shift

-- The two addresses agree under the mask of a prefix length.
unfoldable pub in_network : Text → Text → ℕ → Result Bool
unfolding address prefix_mask
in_network ip network prefix_len = if not (length network == 4) then ok false else (do
  network_addr ← address network
  ip_addr ← address ip
  mask ← prefix_mask prefix_len
  ok (bit_and network_addr mask == bit_and ip_addr mask))

unfoldable pub is_ip_in_range : Text → Text → Result Bool
unfolding parse_ip_address in_network
is_ip_in_range ip range =
    if has_byte b'/' range
    then (do
      prefix_len ← stoi (after_byte b'/' range)
      network ← parse_ip_address (before_byte b'/' range)
      in_network ip network prefix_len)
    else (do range_ip ← parse_ip_address range; ok (text_eq ip range_ip))

unfoldable pub is_port_in_range : ℕ → Text → Result Bool
is_port_in_range port range =
    if has_byte b'-' range
    then (do
      first ← stoi (before_byte b'-' range)
      last ← stoi (after_byte b'-' range)
      ok (leb (first % 2 ^ 16) port && leb port (last % 2 ^ 16)))
    else (do target ← stoi range; ok (port == target % 2 ^ 16))
