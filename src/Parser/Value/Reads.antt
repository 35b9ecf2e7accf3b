-- ===== src/Parser/Value/Reads.antt =====
-- The reads and the shifts of extractValue and extractField, for a field within the packet.
use beatrice.Base.{
  ℕ, zero, suc, ◌+◌, ◌*◌, ◌%◌, ◌^◌, ◌≤◌, ◌<◌, ◌≡◌, some, length, get_elem?, get_elem?-IsSome, drop,
  length-take, length-drop, Text, le→ltb, leb, ◌==◌, Ensures, Ensures->>=, arith, Bool-cases, inl,
  inr, bit_or,
}
use beatrice.Base.Words.{size_add, size_mod}
use beatrice.Parser.Field.{Endianness}
use beatrice.Parser.Value.Extract.{
  read_byte, shift_width, gather, place, extract_integer, extract_float, extract_double, slice,
}
use beatrice.Parser.Value.Weighed.{place-lt}

abbrev pub Any : ℕ → Type 0
Any n = Unit

pub read_byte_ok : (packet : Text) (i : ℕ) → i < length packet → Ensures Any (read_byte packet i)
read_byte_ok packet i h = let (b, e) = get_elem?-IsSome packet i h in rw e tt

gather_round :
    (word : ℕ) (packet : Text) (at : ℕ → ℕ) (rounds i value b : ℕ)
    → i * 8 < shift_width word
    → get_elem? packet (at i) ≡ some b
    → gather word packet at (suc rounds) i value
      ≡ gather word packet at rounds (suc i) (bit_or value (b * 2 ^ (i * 8)) % 2 ^ word)
unfolding gather
gather_round word packet at rounds i value b room read = ground arith

gather_ok :
    (word : ℕ) (packet : Text) (at : ℕ → ℕ) (rounds i value : ℕ)
    → ((j : ℕ) → j < i + rounds → at j < length packet)
    → (i + rounds) * 8 ≤ shift_width word
    → Ensures Any (gather word packet at rounds i value)
gather_ok word packet at zero i value inside room = unfold gather in tt
gather_ok word packet at (suc rounds) i value inside room =
    let (b, read) = get_elem?-IsSome packet (at i) (inside i (omega arith)) in
    rw (gather_round word packet at rounds i value b (omega arith) read)
      (gather_ok word packet at rounds (suc i) _ (λ j h. inside j (omega arith)) (omega arith))

module _ (packet : Text) (offset len : ℕ) (fits : length packet < size_mod)
    (inside : offset + len ≤ length packet) (endian : Endianness) where
  pub extract_integer_ok :
      (word : ℕ)
      → len * 8 ≤ shift_width word
      → Ensures Any (extract_integer word packet offset len endian)
  unfolding extract_integer
  extract_integer_ok word room = rw (le→ltb (length packet) (size_add offset len) (omega arith)) (
      gather_ok word packet (place endian offset len) len 0 0
        (λ j h. place-lt endian offset len (length packet) j fits inside (omega arith))
        (omega arith))

  pub extract_double_ok : Ensures Any (extract_double packet offset len endian)
  unfolding extract_double
  extract_double_ok =
      rw (le→ltb (length packet) (size_add offset len) (omega arith))
        (elim (Bool-cases (len == 8)) [
          | inl eight ↦ rw eight (
              gather_ok 64 packet (place endian offset 8) 8 0 0
                (λ j h.
                  place-lt endian offset 8 (length packet) j fits (ground arith) (omega arith))
                (omega arith))
          | inr other ↦ rw other tt
        ])

  pub extract_float_ok : Ensures Any (extract_float packet offset len endian)
  unfolding extract_float
  extract_float_ok =
      rw (le→ltb (length packet) (size_add offset len) (omega arith))
        (elim (Bool-cases (len == 4)) [
          | inl four ↦ rw four (
              Ensures->>= Any Any (read_byte packet offset) _
                (read_byte_ok packet offset (ground arith))
                λ a _.
                  Ensures->>= Any Any (read_byte packet (size_add offset 1)) _
                    (read_byte_ok packet _ (ground arith))
                    λ b _.
                      Ensures->>= Any Any (read_byte packet (size_add offset 2)) _
                        (read_byte_ok packet _ (ground arith))
                        λ c _.
                          Ensures->>= Any Any (read_byte packet (size_add offset 3)) _
                            (read_byte_ok packet _ (ground arith)) λ d _. tt)
          | inr other ↦ rw other tt
        ])

pub slice_ok :
    (packet : Text) (offset len : ℕ)
    → offset + len ≤ length packet
    → Ensures (λ bs. length bs ≡ len) (slice packet offset len)
unfolding slice
slice_ok packet offset len inside = elim (Bool-cases (leb (offset + len) (length packet))) [
  | inl holds ↦
      rw holds (omega (arith, length-take len (drop offset packet), length-drop offset packet))
  | inr fails ↦ absurd (ground arith)
]
