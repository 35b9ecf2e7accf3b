-- ===== src/Parser/Value/Endian.antt =====
-- The bytes that extractValue puts together, as positional numbers.
use beatrice.Base.{
  ℕ, ◌+◌, ◌-◌, ◌*◌, ◌≤◌, ◌<◌, ◌≡◌, refl, subst, ap, ◌∙◌, false, some, arith, length, get_elem?,
  take, drop, Text, AllBytes, ok, get_elem?-take, get_elem?-drop, length-take, length-drop,
  get_elem?-lt, get_elem?-get_or, le→ltb,
}
use beatrice.Base.Words.{size_add, size_mod}
use beatrice.Parser.Field.{Endianness, little, big, network, host}
use beatrice.Parser.Value.Extract.{is_little, place, extract_integer}
use beatrice.Parser.Value.Weighed.{
  little_value, big_value, value_of, weighed, gather-weighed, weighed-little, weighed-big, byte_at,
  byte_at-lt, place-lt,
}

module _ (packet : Text) (offset len : ℕ) (fits : length packet < size_mod)
    (inside : offset + len ≤ length packet) where
  sliced : Text
  sliced = take len (drop offset packet)

  length-sliced : length sliced ≡ len
  unfolding sliced
  length-sliced = omega (arith, length-take len (drop offset packet), length-drop offset packet)

  sliced_at : (j b : ℕ) → get_elem? sliced j ≡ some b → byte_at packet (offset + j) ≡ b
  unfolding sliced byte_at
  sliced_at j b e =
      let lt : j < len = omega (arith, get_elem?-lt sliced j e, length-sliced) in
      cc (
        e,
        get_elem?-take len (drop offset packet) j lt,
        get_elem?-drop offset packet j,
        get_elem?-get_or packet (offset + j) 0 (omega arith),
      )

  place_little : (j : ℕ) → j < len → place little offset len (0 + j) ≡ offset + j
  unfolding place
  place_little j h = omega arith

  place_big :
      (endian : Endianness) (j : ℕ)
      → is_little endian ≡ false
      → j < len
      → place endian offset len (length sliced - 1 - j) ≡ offset + j
  unfolding place
  place_big endian j e h = rw e (omega (arith, length-sliced))

  weighed_big :
      (endian : Endianness)
      → is_little endian ≡ false
      → weighed (λ i. byte_at packet (place endian offset len i)) len 0 ≡ big_value 0 sliced
  weighed_big endian e =
      subst
        (λ n. weighed (λ i. byte_at packet (place endian offset len i)) n 0 ≡ big_value 0 sliced)
        length-sliced
        (weighed-big (λ i. byte_at packet (place endian offset len i)) sliced
          (λ j b h.
            ap (byte_at packet)
              (place_big endian j e (omega (arith, get_elem?-lt sliced j h, length-sliced)))
            ∙ sliced_at j b h))

  weighed-sliced :
      (endian : Endianness)
      → weighed (λ i. byte_at packet (place endian offset len i)) len 0 ≡ value_of endian sliced
  weighed-sliced little =
      subst
        (λ n. weighed (λ i. byte_at packet (place little offset len i)) n 0 ≡ little_value sliced)
        length-sliced
        (weighed-little (λ i. byte_at packet (place little offset len i)) sliced 0
          (λ j b h.
            ap (byte_at packet)
              (place_little j (omega (arith, get_elem?-lt sliced j h, length-sliced)))
            ∙ sliced_at j b h))
  weighed-sliced big = weighed_big big refl
  weighed-sliced network = weighed_big network refl
  weighed-sliced host = weighed_big host refl

  -- An integer field that lies in the packet and fits the word is the number that its bytes spell
  -- in the order that the field asks for: little endian least significant first, all others (host
  -- order too) most significant first. The packet is one of bytes, shorter than 2^64.
  pub extract_integer-value_of :
      (word : ℕ) (endian : Endianness)
      → AllBytes packet
      → len * 8 ≤ word
      → extract_integer word packet offset len endian
        ≡ ok (value_of endian (take len (drop offset packet)))
  unfolding extract_integer sliced byte_at
  extract_integer-value_of word endian small room =
      rw (le→ltb (length packet) (size_add offset len) (omega arith)) (
        gather-weighed word packet (place endian offset len)
          (λ i. byte_at packet (place endian offset len i))
          (λ i. byte_at-lt packet (place endian offset len i) small) len 0 0
          (λ j h.
            get_elem?-get_or packet (place endian offset len j) 0
              (place-lt endian offset len (length packet) j fits inside (omega arith)))
          (omega arith) (omega arith)
        ∙ ap ok (omega (arith, weighed-sliced endian)))
