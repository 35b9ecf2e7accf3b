-- ===== src/Base/Texts.antt =====
-- A std::string, and a std::vector<uint8_t>, is the list of its bytes.
use Prim.Native.Char.{code}
use Prim.Native.String.{String}
use Prim.Native.Nat.{ℕ, zero, suc, ◌+◌, ◌-◌, ◌/◌, ◌%◌, ◌<◌}
use mathlib.Core.Path.{◌≡◌}
use mathlib.Core.Logic.{◌↔◌}
use mathlib.Core.Bool.{Bool, true, false, ◌&&◌}
use mathlib.Core.List.{List, [], ◌∷◌, ◌++◌}
use native.Mathlib.Omega.{arith}
use beatrice.Base.Tests.{◌==◌, ltb, if◌then◌else◌}
use beatrice.Base.Lists.{All}

abbrev pub Text : Type 0
Text = List ℕ

abbrev pub IsByte : ℕ → Type 0
IsByte b = b < 256

abbrev pub AllBytes : Text → Type 0
AllBytes = All IsByte

-- The bytes of a literal (ASCII).
abbrev pub codes : String → Text
codes String.[] = []
codes (String.◌∷◌ c s) = code c ∷ codes s

-- operator== of std::string.
unfoldable pub text_eq : Text → Text → Bool
text_eq [] [] = true
text_eq [] (b ∷ y) = false
text_eq (a ∷ x) [] = false
text_eq (a ∷ x) (b ∷ y) = a == b && text_eq x y

pub text_eq_iff : (x y : Text) → (text_eq x y ≡ true) ↔ (x ≡ y)
unfolding text_eq
text_eq_iff [] [] = ground arith
text_eq_iff [] (b ∷ y) = ground arith
text_eq_iff (a ∷ x) [] = ground arith
text_eq_iff (a ∷ x) (b ∷ y) = ground (arith, text_eq_iff x y)

is_prefix : Text → Text → Bool
is_prefix [] y = true
is_prefix (a ∷ x) [] = false
is_prefix (a ∷ x) (b ∷ y) = a == b && is_prefix x y

-- y.find(x) != npos.
unfoldable pub contains : Text → Text → Bool
unfolding is_prefix
contains [] x = is_prefix x []
contains (b ∷ y) x = if is_prefix x (b ∷ y) then true else contains y x

-- A digit in base 16 at most: 0-9, a-f.
unfoldable pub digit : ℕ → ℕ
digit d = if ltb d 10 then b'0' + d else b'a' + (d - 10)

-- The digits of n in a base in front of `out`; the fuel is above n.
digits : ℕ → ℕ → ℕ → Text → Text
unfolding digit
digits base zero n out = out
digits base (suc fuel) n out =
    let rest = digits base fuel (n / base) (digit (n % base) ∷ out) in
    if ltb n base then digit n ∷ out else rest

-- std::to_string of an unsigned number.
unfoldable pub decimal : ℕ → Text
unfolding digits
decimal n = digits 10 (suc n) n []

-- A number written to a stream after std::hex.
unfoldable pub hexadecimal : ℕ → Text
unfolding digits
hexadecimal n = digits 16 (suc n) n []

-- A byte after std::hex << std::setw(2) << std::setfill('0').
unfoldable pub hex_byte : ℕ → Text
unfolding digit
hex_byte b = digit (b / 16) ∷ digit (b % 16) ∷ []

-- The pieces with a separator between them.
unfoldable pub joined : Text → List Text → Text
joined sep [] = []
joined sep (x ∷ []) = x
joined sep (x ∷ y ∷ r) = x ++ sep ++ joined sep (y ∷ r)
