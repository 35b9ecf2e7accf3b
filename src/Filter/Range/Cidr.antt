-- ===== src/Filter/Range/Cidr.antt =====
-- What a CIDR range of an IP filter accepts.
use beatrice.Base.{
  ℕ, zero, suc, ◌+◌, ◌-◌, ◌*◌, ◌/◌, ◌%◌, ◌^◌, ◌<◌, ◌≡◌, refl, sym, ◌∙◌, ap, bit_and, bit_or, Bool,
  true, ◌&&◌, [], ◌∷◌, leb, ◌==◌, ==_iff, Bool-cases, inl, inr, ok, ◌>>=◌, arith,
}
use native.Mathlib.Nat.{div-lt_iff_lt-mul, mul-div_cancel, one-le-pow}
use beatrice.Base.Words.{bit_and-shift, bit_and-ones, bit_or-below}
use beatrice.Filter.Range.{prefix_mask, in_network}

-- A test holds of every number below a bound.
unfoldable pub all_below : ℕ → (ℕ → Bool) → Bool
all_below zero t = true
all_below (suc n) t = t n && all_below n t

pub all_below-lt : (n : ℕ) (t : ℕ → Bool) (i : ℕ) → all_below n t ≡ true → i < n → t i ≡ true
unfolding all_below
all_below-lt zero t i h below = absurd (omega arith)
all_below-lt (suc n) t i h below = elim (Bool-cases (i == n)) [
  | inl same ↦ ap t (same_lem same) ∙ ground (arith, h)
  | inr other ↦ all_below-lt n t i (ground (arith, h)) (ground arith)
]
  where
    same_lem : (i == n) ≡ true → i ≡ n
    same_lem e = ground arith

mask_at : ℕ → ℕ
mask_at k = bit_and (0xffff_ffff * 2 ^ k % 2 ^ 32) 0xffff_ffff

mask_at-lt : (k : ℕ) → k < 32 → mask_at k ≡ (2 ^ (32 - k) - 1) * 2 ^ k
unfolding mask_at all_below
mask_at-lt k h =
    (==_iff _ _).0 (all_below-lt 32 (λ i. mask_at i == (2 ^ (32 - i) - 1) * 2 ^ i) k refl h)

-- The number that four bytes spell, the first one highest.
abbrev pub number : ℕ → ℕ → ℕ → ℕ → ℕ
number a b c d = a * 2 ^ 24 + b * 2 ^ 16 + c * 2 ^ 8 + d

pow_split : (k : ℕ) → k < 32 → 2 ^ (32 - k) * 2 ^ k ≡ 2 ^ 32
unfolding all_below
pow_split k h = (==_iff _ _).0 (all_below-lt 32 (λ i. 2 ^ (32 - i) * 2 ^ i == 2 ^ 32) k refl h)

masked : (k x : ℕ) → k < 32 → x < 2 ^ 32 → bit_and x (mask_at k) ≡ x / 2 ^ k * 2 ^ k
masked k x h below =
    ap (λ (t : ℕ). bit_and x t) (mask_at-lt k h)
    ∙ bit_and-shift k x (2 ^ (32 - k) - 1)
    ∙ ap (λ (t : ℕ). t * 2 ^ k) (bit_and-ones (32 - k) (x / 2 ^ k) below_quotient)
  where
    below_quotient : x / 2 ^ k < 2 ^ (32 - k)
    below_quotient =
        (div-lt_iff_lt-mul {k = 2 ^ k} {x = x} {y = 2 ^ (32 - k)} (one-le-pow k 2 (omega arith))).1
          (omega (arith, pow_split k h))

abbrev pub IsByte4 : ℕ → ℕ → ℕ → ℕ → Type 0
IsByte4 a b c d = (a < 256) × (b < 256) × (c < 256) × (d < 256)

abbrev word : ℕ → ℕ → ℕ → ℕ → ℕ
word a b c d = bit_or (bit_or (bit_or (a * 2 ^ 24) (b * 2 ^ 16)) (c * 2 ^ 8)) d % 2 ^ 32

word-number : (a b c d : ℕ) → IsByte4 a b c d → word a b c d ≡ number a b c d
word-number a b c d (ha, hb, hc, hd) =
    ap (λ (t : ℕ). bit_or (bit_or t (c * 2 ^ 8)) d % 2 ^ 32)
      (bit_or-below 24 (b * 2 ^ 16) a (omega arith))
    ∙ ap (λ (t : ℕ). bit_or (bit_or t (c * 2 ^ 8)) d % 2 ^ 32) high
    ∙ ap (λ (t : ℕ). bit_or t d % 2 ^ 32)
        (bit_or-below 16 (c * 2 ^ 8) (a * 2 ^ 8 + b) (omega arith))
    ∙ ap (λ (t : ℕ). bit_or t d % 2 ^ 32) middle
    ∙ ap (λ (t : ℕ). t % 2 ^ 32) (bit_or-below 8 d (a * 2 ^ 16 + b * 2 ^ 8 + c) hd)
    ∙ omega arith
  where
    high : a * 2 ^ 24 + b * 2 ^ 16 ≡ (a * 2 ^ 8 + b) * 2 ^ 16
    high = omega arith

    middle : (a * 2 ^ 8 + b) * 2 ^ 16 + c * 2 ^ 8 ≡ (a * 2 ^ 16 + b * 2 ^ 8 + c) * 2 ^ 8
    middle = omega arith

same_products : (u v t : ℕ) → 0 < t → (u * t == v * t) ≡ (u == v)
same_products u v t h = elim (Bool-cases (u == v)) [
  | inl same ↦ (==_iff (u * t) (v * t)).1 (ap (λ (x : ℕ). x * t) ((==_iff u v).0 same)) ∙ sym same
  | inr other ↦ elim (Bool-cases (u * t == v * t)) [
    | inr differ ↦ differ ∙ sym other
    | inl equal ↦ absurd (
        ground (
          arith,
          other,
          sym (mul-div_cancel u h)
              ∙ ap (λ (x : ℕ). x / t) ((==_iff (u * t) (v * t)).0 equal)
              ∙ mul-div_cancel v h,
        ))
  ]
]

number-lt : (a b c d : ℕ) → IsByte4 a b c d → number a b c d < 2 ^ 32
number-lt a b c d h = omega (arith, h)

prefix_mask-at : (k : ℕ) → k < 32 → prefix_mask (32 - k) ≡ ok (mask_at k)
unfolding prefix_mask mask_at
prefix_mask-at k h =
    rw (inside) (ap (λ (t : ℕ). ok (bit_and (0xffff_ffff * 2 ^ t % 2 ^ 32) 0xffff_ffff)) back)
  where
    inside : (leb 1 (32 - k) && leb (32 - k) 32) ≡ true
    inside = ground arith

    back : 32 - (32 - k) ≡ k
    back = omega arith

-- The prefix of a CIDR range of 1 to 32 bits: two addresses are in one network exactly if the
-- numbers that they spell agree above the last 32 - prefix bits.
pub in_network-div :
    (a b c d a' b' c' d' k : ℕ)
    → IsByte4 a b c d
    → IsByte4 a' b' c' d'
    → k < 32
    → in_network (a ∷ b ∷ c ∷ d ∷ []) (a' ∷ b' ∷ c' ∷ d' ∷ []) (32 - k)
      ≡ ok (number a' b' c' d' / 2 ^ k == number a b c d / 2 ^ k)
unfolding in_network
in_network-div a b c d a' b' c' d' k h h' small =
    ap (λ m. m >>= λ mask. ok (bit_and (word a' b' c' d') mask == bit_and (word a b c d) mask))
      (prefix_mask-at k small)
    ∙ ap ok (
        ap (λ (t : ℕ). bit_and t (mask_at k) == bit_and (word a b c d) (mask_at k))
          (word-number a' b' c' d' h')
        ∙ ap (λ (t : ℕ). bit_and (number a' b' c' d') (mask_at k) == bit_and t (mask_at k))
            (word-number a b c d h)
        ∙ ap (λ (t : ℕ). t == bit_and (number a b c d) (mask_at k))
            (masked k (number a' b' c' d') small (number-lt a' b' c' d' h'))
        ∙ ap (λ (t : ℕ). number a' b' c' d' / 2 ^ k * 2 ^ k == t)
            (masked k (number a b c d) small (number-lt a b c d h))
        ∙ same_products (number a' b' c' d' / 2 ^ k) (number a b c d / 2 ^ k) (2 ^ k)
            (one-le-pow k 2 (omega arith)))
