-- ===== src/Config/Paths.antt =====
-- Config::splitKey against the path that a key writes out.
use beatrice.Base.{
  ℕ, ◌≡◌, refl, sym, ◌∙◌, ap, Bool, false, ◌||◌, List, [], ◌∷◌, ◌++◌, append_assoc, append-nil,
  Text, is_empty, ◌==◌, All, Bool-cases, inl, inr, arith,
}
use beatrice.Config.{dot, keep_part, split_from, split_key}

abbrev pub has_dot : Text → Bool
has_dot [] = false
has_dot (c ∷ k) = c == dot || has_dot k

-- A part of a key.
abbrev pub IsPart : Text → Type 0
IsPart k = (is_empty k ≡ false) × (has_dot k ≡ false)

abbrev pub join : List Text → Text
join [] = []
join (k ∷ []) = k
join (k ∷ i ∷ ks) = k ++ dot ∷ join (i ∷ ks)

has_dot-append : (k i : Text) → has_dot (k ++ i) ≡ (has_dot k || has_dot i)
has_dot-append [] i = refl
has_dot-append (c ∷ k) i = ground (arith, has_dot-append k i)

is_empty-append : (k : Text) (c : ℕ) → is_empty (k ++ c ∷ []) ≡ false
is_empty-append [] c = refl
is_empty-append (d ∷ k) c = refl

split_from-append :
    (current k rest : Text)
    → has_dot k ≡ false
    → split_from current (k ++ rest) ≡ split_from (current ++ k) rest
unfolding split_from
split_from-append current [] rest h = ap (λ x. split_from x rest) (sym (append-nil current))
split_from-append current (c ∷ k) rest h = rw letter (
    split_from-append (current ++ c ∷ []) k rest (ground (arith, h))
    ∙ ap (λ x. split_from x rest) (append_assoc current (c ∷ []) k))
  where
    letter : (c == dot) ≡ false
    letter = ground (arith, h)

keep_part-IsPart :
    (current : Text) (keys : List Text)
    → has_dot current ≡ false
    → All IsPart keys
    → All IsPart (keep_part current keys)
keep_part-IsPart [] keys h hs = hs
keep_part-IsPart (c ∷ current) keys h hs = ((refl, h), hs)

split_from-IsPart :
    (current key : Text) → has_dot current ≡ false → All IsPart (split_from current key)
unfolding split_from
split_from-IsPart current [] h = keep_part-IsPart current [] h tt
split_from-IsPart current (c ∷ key) h = elim (Bool-cases (c == dot)) [
  | inl at_dot ↦
      rw at_dot (keep_part-IsPart current (split_from [] key) h (split_from-IsPart [] key refl))
  | inr letter ↦ rw letter (
      split_from-IsPart (current ++ c ∷ []) key
        (ground (arith, h, letter, has_dot-append current (c ∷ []))))
]

-- Whatever the key, no part of it is empty or has a dot.
pub split_key-IsPart : (key : Text) → All IsPart (split_key key)
unfolding split_key
split_key-IsPart key = split_from-IsPart [] key refl

keep_part-full : (k : Text) (keys : List Text) → is_empty k ≡ false → keep_part k keys ≡ k ∷ keys
keep_part-full k keys h = ground (arith, h)

-- The key that writes a path out, its parts with a dot between them, is split into that path, when no
-- part is empty or has a dot.
pub split_key-join : (keys : List Text) → All IsPart keys → split_key (join keys) ≡ keys
unfolding split_key split_from
split_key-join [] h = refl
split_key-join (k ∷ []) ((full, plain), h) =
    ap split_key (sym (append-nil k)) ∙ split_from-append [] k [] plain ∙ keep_part-full k [] full
split_key-join (k ∷ i ∷ ks) ((full, plain), h) =
    split_from-append [] k (dot ∷ join (i ∷ ks)) plain
    ∙ keep_part-full k (split_key (join (i ∷ ks))) full
    ∙ ap (◌∷◌ k) (split_key-join (i ∷ ks) h)
