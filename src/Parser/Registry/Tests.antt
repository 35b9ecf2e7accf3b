-- ===== src/Parser/Registry/Tests.antt =====
-- The theorems on the registry and the detector applied to concrete states and packets.
use beatrice.Base.{ℕ, ◌≡◌, refl, true, List, [], ◌∷◌, ◌++◌, Text, codes, is_ok}
use beatrice.Base.Maps.{lookup}
use beatrice.Parser.Registry.{ProtocolRegistry}
use beatrice.Parser.Registry.Builtin.{create_arp_protocol}
use beatrice.Parser.Registry.Laws.{
  IsRegistry, Call, registers, unregisters, gets, loads_builtin, run, run-IsRegistry,
}
use beatrice.Parser.Registry.Detect.{
  detect_multiple_protocols, is_http, is_dns, is_icmp, is_arp, is_ipv6,
}
use beatrice.Parser.Registry.Detect.Verdict.{detector_is_safe}

abbrev empty : ProtocolRegistry
empty = record { protocols = []; factories = []; usage_count = []; last_update_time = 0 }

abbrev calls : List (ℕ × Call)
calls =
    (1, loads_builtin)
    ∷ (2, registers create_arp_protocol)
    ∷ (3, gets (codes "arp"))
    ∷ (4, unregisters (codes "udp"))
    ∷ []

run-IsRegistry_example : IsRegistry (run empty calls)
unfolding lookup
run-IsRegistry_example = run-IsRegistry empty calls λ k. refl

-- An ARP frame with the number 6 in byte 23, and 10 bytes behind it.
abbrev arp_frame : Text
arp_frame =
    codes "123456abcdef" ++ 0x08 ∷ 0x06 ∷ [] ++ codes "012345678" ++ 6 ∷ [] ++ codes "0123456789"

detector_is_safe_example :
    (is_ok (detect_multiple_protocols arp_frame) ≡ true)
    × (is_ok (is_http arp_frame) ≡ true)
    × (is_ok (is_dns arp_frame) ≡ true)
    × (is_ok (is_icmp arp_frame) ≡ true)
    × (is_ok (is_arp arp_frame) ≡ true)
    × (is_ok (is_ipv6 arp_frame) ≡ true)
detector_is_safe_example = detector_is_safe arp_frame
