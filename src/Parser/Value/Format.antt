-- ===== src/Parser/Value/Format.antt =====
-- bytesToHex, formatMacAddress, formatIPv4Address and formatIPv6Address of
-- src/parser/ProtocolParser.cpp.
use beatrice.Base.{
  ◌*◌, ◌%◌, ◌^◌, bit_or, List, [], ◌∷◌, ◌++◌, map, length, Text, codes, ◌==◌, if◌then◌else◌,
  decimal, hexadecimal, hex_byte, joined,
}

unfoldable pub bytes_to_hex : Text → Text
unfolding hex_byte
bytes_to_hex [] = []
bytes_to_hex (b ∷ bs) = hex_byte b ++ bytes_to_hex bs

unfoldable pub format_mac_address : Text → Text
unfolding hex_byte joined
format_mac_address bytes =
    if length bytes == 6 then joined (codes ":") (map hex_byte bytes) else codes "invalid"

unfoldable pub format_ipv4_address : Text → Text
unfolding decimal joined
format_ipv4_address bytes =
    if length bytes == 4 then joined (codes ".") (map decimal bytes) else codes "invalid"

-- The loop of formatIPv6Address takes two bytes in each round.
unfoldable pub ipv6_groups : Text → List Text
unfolding hexadecimal
ipv6_groups [] = []
ipv6_groups (a ∷ []) = []
ipv6_groups (a ∷ b ∷ rest) = hexadecimal (bit_or (a * 2 ^ 8) b % 2 ^ 16) ∷ ipv6_groups rest

unfoldable pub format_ipv6_address : Text → Text
unfolding ipv6_groups joined
format_ipv6_address bytes =
    if length bytes == 16 then joined (codes ":") (ipv6_groups bytes) else codes "invalid"
