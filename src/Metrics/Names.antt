-- ===== src/Metrics/Names.antt =====
-- sanitizeMetricName of src/Metrics.cpp, with isalnum and isalpha of the "C" locale.
use beatrice.Base.{
  ℕ, ◌≡◌, refl, ◌∙◌, ap, Bool, true, ◌&&◌, ◌||◌, [], ◌∷◌, ◌++◌, Text, codes, All, leb, ◌==◌,
  if◌then◌else◌, Bool-cases, inl, inr, arith,
}

abbrev pub is_alpha : ℕ → Bool
is_alpha c = leb b'a' c && leb c b'z' || leb b'A' c && leb c b'Z'

abbrev pub is_alnum : ℕ → Bool
is_alnum c = is_alpha c || leb b'0' c && leb c b'9'

-- The characters that are kept.
unfoldable pub is_kept : ℕ → Bool
is_kept c = is_alnum c || c == b'_' || c == b':' || c == b'.'

unfoldable pub replace_invalid : Text → Text
unfolding is_kept
replace_invalid [] = []
replace_invalid (c ∷ s) = (if is_kept c then c else b'_') ∷ replace_invalid s

unfoldable pub with_letter : Text → Text
with_letter [] = []
with_letter (c ∷ s) = if is_alpha c then c ∷ s else codes "metric_" ++ c ∷ s

unfoldable pub sanitize_metric_name : Text → Text
unfolding replace_invalid with_letter
sanitize_metric_name name = with_letter (replace_invalid name)

abbrev pub StartsWithLetter : Text → Type 0
StartsWithLetter [] = Unit
StartsWithLetter (c ∷ s) = is_alpha c ≡ true

abbrev pub AllKept : Text → Type 0
AllKept = All (λ c. is_kept c ≡ true)

kept_lem : (c : ℕ) → is_kept (if is_kept c then c else b'_') ≡ true
unfolding is_kept
kept_lem c = elim (Bool-cases (is_kept c)) [ inl kept ↦ rw kept kept | inr other ↦ rw other refl ]

replace_invalid-AllKept : (s : Text) → AllKept (replace_invalid s)
unfolding replace_invalid
replace_invalid-AllKept [] = tt
replace_invalid-AllKept (c ∷ s) = (kept_lem c, replace_invalid-AllKept s)

replace_invalid_fixed : (s : Text) → AllKept s → replace_invalid s ≡ s
unfolding replace_invalid
replace_invalid_fixed [] h = refl
replace_invalid_fixed (c ∷ s) (h, hs) = ground (arith, h, replace_invalid_fixed s hs)

with_letter-AllKept :
    (s : Text) → AllKept s → AllKept (with_letter s) × StartsWithLetter (with_letter s)
unfolding with_letter is_kept
with_letter-AllKept [] h = (tt, tt)
with_letter-AllKept (c ∷ s) (h, hs) = elim (Bool-cases (is_alpha c)) [
  | inl letter ↦ rw letter ((h, hs), letter)
  | inr other ↦ rw other ((refl, (refl, (refl, (refl, (refl, (refl, (refl, (h, hs)))))))), refl)
]

with_letter_fixed : (s : Text) → StartsWithLetter s → with_letter s ≡ s
unfolding with_letter
with_letter_fixed [] h = refl
with_letter_fixed (c ∷ s) h = rw h refl

-- A sanitized name has kept characters only and starts with a letter, unless it is empty, and
-- sanitizing it again changes nothing.
pub sanitize_metric_name_lem :
    (name : Text)
    → AllKept (sanitize_metric_name name)
      × StartsWithLetter (sanitize_metric_name name)
      × (sanitize_metric_name (sanitize_metric_name name) ≡ sanitize_metric_name name)
unfolding sanitize_metric_name
sanitize_metric_name_lem name =
    let h = with_letter-AllKept (replace_invalid name) (replace_invalid-AllKept name) in
    (
      h.0,
      h.1,
      ap with_letter (replace_invalid_fixed (with_letter (replace_invalid name)) h.0)
          ∙ with_letter_fixed (with_letter (replace_invalid name)) h.1,
    )
