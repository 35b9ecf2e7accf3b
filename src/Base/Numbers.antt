-- ===== src/Base/Numbers.antt =====
-- std::stoi, and the texts that it reads.
use beatrice.Base.Tests.{ltb, leb, ◌==◌, if◌then◌else◌}
use beatrice.Base.Lists.{is_empty}
use beatrice.Base.Texts.{Text, codes}
use beatrice.Base.Results.{Result, ok, err, invalid_argument, out_of_range}
use Prim.Native.Nat.{ℕ, ◌+◌, ◌-◌, ◌*◌, ◌^◌}
use mathlib.Core.Path.{◌≡◌, refl, sym, ap, ◌∙◌}
use native.Mathlib.Omega.{arith}
use mathlib.Core.Bool.{Bool, true, false, ◌&&◌, ◌||◌}
use mathlib.Core.List.{List, [], ◌∷◌, ◌++◌, append_assoc, append-nil}
use mathlib.Core.Option.{Option, none, some}

abbrev pub is_digit : ℕ → Bool
is_digit c = leb b'0' c && leb c b'9'

-- isspace in the "C" locale.
abbrev is_space : ℕ → Bool
is_space c = c == 32 || (leb 9 c && leb c 13)

skip_spaces : Text → Text
skip_spaces [] = []
skip_spaces (c ∷ s) = if is_space c then skip_spaces s else c ∷ s

-- The number that the leading digits spell behind n; `none` if there was none so far.
read_digits : Text → Option ℕ → Option ℕ
read_digits [] n = n
read_digits (c ∷ s) n =
    let m : ℕ = elim n [ none ↦ 0 | some k ↦ k ] in
    let rest = read_digits s (some (m * 10 + (c - b'0'))) in if is_digit c then rest else n

-- An int is its 32 bits.
signed_int : Bool → Option ℕ → Result ℕ
signed_int negative none = err invalid_argument
signed_int true (some n) =
    if ltb (2 ^ 31) n then err out_of_range else if n == 0 then ok 0 else ok (2 ^ 32 - n)
signed_int false (some n) = if leb (2 ^ 31) n then err out_of_range else ok n

after_spaces : Text → Result ℕ
unfolding read_digits signed_int
after_spaces [] = err invalid_argument
after_spaces (c ∷ s) =
    if c == b'-'
    then signed_int true (read_digits s none)
    else if c == b'+'
    then signed_int false (read_digits s none)
    else signed_int false (read_digits (c ∷ s) none)

unfoldable pub stoi : Text → Result ℕ
unfolding skip_spaces after_spaces
stoi s = after_spaces (skip_spaces s)

-- The pieces that std::getline reads up to each separator: an empty piece at the end is none.
pieces : ℕ → Text → Text → List Text
pieces sep [] [] = []
pieces sep [] (c ∷ cur) = (c ∷ cur) ∷ []
pieces sep (c ∷ s) cur = elim (c == sep) [
  | true ↦ cur ∷ pieces sep s []
  | false ↦ pieces sep s (cur ++ c ∷ [])
]

unfoldable pub get_lines : ℕ → Text → List Text
unfolding pieces
get_lines sep s = pieces sep s []

-- s.find(c) != npos, and the texts in front of the first c and behind it.
unfoldable pub has_byte : ℕ → Text → Bool
has_byte c [] = false
has_byte c (b ∷ s) = b == c || has_byte c s

unfoldable pub before_byte : ℕ → Text → Text
before_byte c [] = []
before_byte c (b ∷ s) = if b == c then [] else b ∷ before_byte c s

unfoldable pub after_byte : ℕ → Text → Text
after_byte c [] = []
after_byte c (b ∷ s) = if b == c then s else after_byte c s

int_texts :
    (stoi (codes " 24") ≡ ok 24)
    × (stoi (codes "-1") ≡ ok (2 ^ 32 - 1))
    × (stoi (codes "80x") ≡ ok 80)
    × (stoi (codes "tcp") ≡ err invalid_argument)
    × (stoi (codes "4294967296") ≡ err out_of_range)
unfolding stoi
int_texts = (refl, refl, refl, refl, refl)

line_texts : get_lines b'.' (codes "1..2.") ≡ codes "1" ∷ [] ∷ codes "2" ∷ []
unfolding get_lines
line_texts = refl

pieces-append :
    (sep : ℕ) (s rest cur : Text)
    → has_byte sep s ≡ false
    → pieces sep (s ++ rest) cur ≡ pieces sep rest (cur ++ s)
unfolding pieces has_byte
pieces-append sep [] rest cur h = ap (pieces sep rest) (sym (append-nil cur))
pieces-append sep (c ∷ s) rest cur h =
    ground (arith, pieces-append sep s rest (cur ++ c ∷ []) (ground (arith, h)), h)
    ∙ ap (pieces sep rest) (append_assoc cur (c ∷ []) s)

-- A piece without a separator, and what follows the separator behind it.
pub get_lines-append :
    (sep : ℕ) (s rest : Text)
    → has_byte sep s ≡ false
    → get_lines sep (s ++ sep ∷ rest) ≡ s ∷ get_lines sep rest
unfolding get_lines pieces
get_lines-append sep s rest h = pieces-append sep s (sep ∷ rest) [] h ∙ ground arith

-- A piece that ends the text.
pub get_lines_last :
    (sep : ℕ) (s : Text) → has_byte sep s ≡ false → is_empty s ≡ false → get_lines sep s ≡ s ∷ []
unfolding get_lines pieces
get_lines_last sep s h some_text =
    ap (λ t. pieces sep t []) (sym (append-nil s)) ∙ pieces-append sep s [] [] h ∙ whole s some_text
  where
    whole : (t : Text) → is_empty t ≡ false → pieces sep [] t ≡ t ∷ []
    whole [] h = absurd (cc)
    whole (c ∷ t) h = refl
