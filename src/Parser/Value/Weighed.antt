-- ===== src/Parser/Value/Weighed.antt =====
-- The bytes of an integer field and the sums that the loop of extractValue builds from them.
use beatrice.Base.{
  ℕ, zero, suc, ◌+◌, ◌-◌, ◌*◌, ◌%◌, ◌^◌, ◌≤◌, ◌<◌, ◌≡◌, refl, ap, ◌∙◌, true, false, [], ◌∷◌, some,
  arith, length, get_elem?, Text, AllBytes, ok, get_elem?-lt, get_or, bit_or,
}
use beatrice.Base.Words.{size_mod, bit_or-shift, two-pow-byte}
use native.Mathlib.Nat.{pow-le-pow_right, pow-suc, mod-eq_of_lt}
use beatrice.Parser.Field.{Endianness, little, big, network, host}
use beatrice.Parser.Value.Extract.{is_little, gather, place}

-- The number that bytes spell, least significant first.
abbrev pub little_value : Text → ℕ
little_value [] = 0
little_value (b ∷ bs) = b + 256 * little_value bs

-- The number that bytes spell behind n, most significant first.
abbrev pub big_value : ℕ → Text → ℕ
big_value n [] = n
big_value n (b ∷ bs) = big_value (n * 256 + b) bs

abbrev pub value_of : Endianness → Text → ℕ
value_of e bs = elim (is_little e) [ true ↦ little_value bs | false ↦ big_value 0 bs ]

-- The numbers that `gather` reads from round i on, weighed by their rounds.
unfoldable pub weighed : (ℕ → ℕ) → ℕ → ℕ → ℕ
weighed byte zero i = 0
weighed byte (suc n) i = byte i + 256 * weighed byte n (suc i)

module _ (word : ℕ) (packet : Text) (at : ℕ → ℕ) where
  -- A round that is in range adds its byte at its place.
  gather-step :
      (rounds i value b : ℕ)
      → get_elem? packet (at i) ≡ some b
      → b < 256
      → suc i * 8 ≤ word
      → value < 2 ^ (i * 8)
      → (gather word packet at (suc rounds) i value
          ≡ gather word packet at rounds (suc i) (value + b * 2 ^ (i * 8)))
        × (value + b * 2 ^ (i * 8) < 2 ^ (suc i * 8))
  unfolding gather
  gather-step rounds i value b read small room fits =
      let below : value + b * 2 ^ (i * 8) < 2 ^ (suc i * 8) =
        omega (arith, two-pow-byte i, product b (2 ^ (i * 8)) small) in
      let word_fits = pow-le-pow_right {n = 2} (omega arith) {i = suc i * 8} {j = word} room in
      let merged : bit_or value (b * 2 ^ (i * 8)) % 2 ^ word ≡ value + b * 2 ^ (i * 8) =
        rw (bit_or-shift (i * 8) value b fits) (mod-eq_of_lt (omega arith)) in
      (ground (arith, read, merged), below)
    where
      product : (x y : ℕ) → x < 256 → x * y + y ≤ 256 * y
      product x y h = grind arith

module _ (word : ℕ) (packet : Text) (at byte : ℕ → ℕ) (small : (j : ℕ) → byte j < 256) where
  -- The rounds that are left add their bytes at their places.
  pub gather-weighed :
      (rounds i value : ℕ)
      → ((j : ℕ) → j < i + rounds → get_elem? packet (at j) ≡ some (byte j))
      → (i + rounds) * 8 ≤ word
      → value < 2 ^ (i * 8)
      → gather word packet at rounds i value ≡ ok (value + weighed byte rounds i * 2 ^ (i * 8))
  unfolding weighed
  gather-weighed zero i value reads room fits = unfold gather in ap ok (omega arith)
  gather-weighed (suc rounds) i value reads room fits =
      let here =
        gather-step word packet at rounds i value (byte i) (reads i (omega arith)) (small i)
          (omega arith) fits in
      here.0
      ∙ gather-weighed rounds (suc i) (value + byte i * 2 ^ (i * 8)) (λ j h. reads j (omega arith))
          (omega arith) here.1
      ∙ ap ok (
          omega (
            arith,
            two-pow-byte i,
            ap (λ (t : ℕ). weighed byte rounds (suc i) * t) (two-pow-byte i),
          ))

-- The last round weighs most.
weighed_last : (f : ℕ → ℕ) (n i : ℕ) → weighed f (suc n) i ≡ weighed f n i + f (i + n) * 256 ^ n
unfolding weighed
weighed_last f zero i = omega (arith, ap f (same i))
  where
    same : (i : ℕ) → i ≡ i + 0
    same i = omega arith
weighed_last f (suc n) i = omega (
  arith,
  weighed_last f n (suc i),
  ap f (next i n),
  ap (λ (t : ℕ). f (i + suc n) * t) (pow-suc 256 n),
  ap (λ (t : ℕ). t * 256 ^ n) (ap f (next i n)),
)
  where
    next : (i n : ℕ) → suc i + n ≡ i + suc n
    next i n = omega arith

big_value-split : (n : ℕ) (bs : Text) → big_value n bs ≡ n * 256 ^ length bs + big_value 0 bs
big_value-split n [] = omega arith
big_value-split n (b ∷ bs) = omega (
  arith,
  big_value-split (n * 256 + b) bs,
  big_value-split b bs,
  big_value-split (0 * 256 + b) bs,
  ap (λ (t : ℕ). n * t) (pow-suc 256 (length bs)),
)

pub weighed-little :
    (f : ℕ → ℕ) (bs : Text) (i : ℕ)
    → ((j b : ℕ) → get_elem? bs j ≡ some b → f (i + j) ≡ b)
    → weighed f (length bs) i ≡ little_value bs
unfolding weighed
weighed-little f [] i h = refl
weighed-little f (b ∷ bs) i h = omega (
  arith,
  ap f (same i) ∙ h 0 b refl,
  weighed-little f bs (suc i) (λ j c e. ap f (next i j) ∙ h (suc j) c e),
)
  where
    same : (i : ℕ) → i ≡ i + 0
    same i = omega arith

    next : (i j : ℕ) → suc i + j ≡ i + suc j
    next i j = omega arith

pub weighed-big :
    (f : ℕ → ℕ) (bs : Text)
    → ((j b : ℕ) → get_elem? bs j ≡ some b → f (length bs - 1 - j) ≡ b)
    → weighed f (length bs) 0 ≡ big_value 0 bs
weighed-big f [] h = unfold weighed in refl
weighed-big f (b ∷ bs) h = omega (
  arith,
  weighed_last f (length bs) 0,
  ap (λ (t : ℕ). t * 256 ^ length bs) (ap f (top (length bs)) ∙ h 0 b refl),
  weighed-big f bs (λ j c e. ap f (inner (length bs) j (get_elem?-lt bs j e)) ∙ h (suc j) c e),
  big_value-split (0 * 256 + b) bs,
)
  where
    top : (n : ℕ) → 0 + n ≡ suc n - 1 - 0
    top n = omega arith

    inner : (n j : ℕ) → j < n → n - 1 - j ≡ suc n - 1 - suc j
    inner n j h = omega arith

unfoldable pub byte_at : Text → ℕ → ℕ
byte_at packet i = get_or packet i 0

pub byte_at-lt : (packet : Text) (i : ℕ) → AllBytes packet → byte_at packet i < 256
unfolding byte_at
byte_at-lt [] i h = omega arith
byte_at-lt (b ∷ bs) zero h = h.0
byte_at-lt (b ∷ bs) (suc i) h = byte_at-lt bs i h.1

-- What round i reads of a field within the packet.
pub place-lt :
    (endian : Endianness) (offset len n i : ℕ)
    → n < size_mod
    → offset + len ≤ n
    → i < len
    → place endian offset len i < n
unfolding place
place-lt little offset len n i h k l = omega arith
place-lt big offset len n i h k l = omega arith
place-lt network offset len n i h k l = omega arith
place-lt host offset len n i h k l = omega arith
