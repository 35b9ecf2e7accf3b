-- ===== src/Parser/Registry/Builtin/Layout.antt =====
-- The built-in protocols can be parsed safely.
use beatrice.Base.{ℕ, ◌<◌, All, All-mono, All-both, length, Text, Ensures, arith}
use beatrice.Base.Words.{size_mod}
use beatrice.Parser.Value.{Runtime}
use beatrice.Parser.Value.Safe.{IsReadable, IsWritten}
use beatrice.Parser.ProtocolParser.{ParserConfig}
use beatrice.Parser.ProtocolParser.Parse.{parse_packet_internal}
use beatrice.Parser.ProtocolParser.Safety.{Parsed, parse_packet_internal_total}
use beatrice.Parser.Registry.Builtin.{get_all_protocols}

-- Every field of every built-in protocol is readable.
get_all_protocols-IsReadable : All (λ p. All IsReadable p.fields) get_all_protocols
unfolding get_all_protocols
get_all_protocols-IsReadable = omega arith

-- No field of a built-in protocol is a timestamp or has a formatter.
get_all_protocols-IsWritten :
    (rt : Runtime) (packet : Text)
    → All (λ p. All (λ f. IsWritten rt packet f f.type) p.fields) get_all_protocols
unfolding get_all_protocols
get_all_protocols-IsWritten rt packet = omega arith

-- Parsing any packet (shorter than 2^64) by any of the twelve built-in protocols returns, with no
-- undefined behaviour and no exception: PACKET_TOO_SHORT and no fields for a packet shorter than the
-- protocol's header, and otherwise SUCCESS with exactly the declared fields.
pub get_all_protocols_total :
    (rt : Runtime) (config : ParserConfig) (time : ℕ → ℕ) (packet : Text)
    → length packet < size_mod
    → All
        (λ p. Ensures (Parsed packet p) (parse_packet_internal rt config time packet p))
        get_all_protocols
get_all_protocols_total rt config time packet fits =
    All-mono (λ p. All IsReadable p.fields × All (λ f. IsWritten rt packet f f.type) p.fields)
      (λ p. Ensures (Parsed packet p) (parse_packet_internal rt config time packet p))
      get_all_protocols (λ p h. parse_packet_internal_total rt config time packet p fits h.0 h.1)
      (All-both (λ p. All IsReadable p.fields)
        (λ p. All (λ f. IsWritten rt packet f f.type) p.fields) get_all_protocols
        get_all_protocols-IsReadable (get_all_protocols-IsWritten rt packet))
