-- ===== src/Base/Maps.antt =====
-- std::unordered_map<std::string, V> as an association list. The list's order stands for the
-- iteration order, which the standard leaves open; a new key is put last.
use mathlib.Core.Path.{◌≡◌, refl}
use mathlib.Core.Bool.{Bool, true, false, not, ◌&&◌, ◌||◌}
use mathlib.Core.List.{List, [], ◌∷◌, map}
use mathlib.Core.Option.{Option, none, some}
use native.Mathlib.Omega.{arith}
use beatrice.Base.Tests.{if◌then◌else◌}
use beatrice.Base.Texts.{Text, text_eq, text_eq_iff}

abbrev pub Map {ℓ} : Type ℓ → Type ℓ
Map V = List (Text × V)

-- k is in the list.
abbrev pub listed : Text → List Text → Bool
listed k [] = false
listed k (j ∷ js) = text_eq j k || listed k js

module _ {ℓ} {V : Type ℓ} where
  unfoldable pub lookup : Text → Map V → Option V
  lookup k [] = none
  lookup k ((j, v) ∷ m) = if text_eq j k then some v else lookup k m

  -- m[k] = v
  unfoldable pub insert : Text → V → Map V → Map V
  insert k v [] = (k, v) ∷ []
  insert k v ((j, w) ∷ m) = if text_eq j k then (j, v) ∷ m else (j, w) ∷ insert k v m

  -- m.erase(k)
  unfoldable pub erase : Text → Map V → Map V
  erase k [] = []
  erase k ((j, w) ∷ m) = if text_eq j k then erase k m else (j, w) ∷ erase k m

  abbrev pub keys : Map V → List Text
  keys = map (λ p. p.0)

  abbrev pub has_key : Text → Map V → Bool
  has_key k m = elim (lookup k m) [ none ↦ false | some v ↦ true ]

  pub lookup-insert :
      (k j : Text) (v : V) (m : Map V)
      → lookup j (insert k v m) ≡ (if text_eq k j then some v else lookup j m)
  unfolding lookup insert
  lookup-insert k j v [] = refl
  lookup-insert k j v ((i, w) ∷ m) =
      ground (arith, text_eq_iff k j, text_eq_iff i k, text_eq_iff i j, lookup-insert k j v m)

  pub lookup-erase :
      (k j : Text) (m : Map V) → lookup j (erase k m) ≡ (if text_eq k j then none else lookup j m)
  unfolding lookup erase
  lookup-erase k j [] = ground arith
  lookup-erase k j ((i, w) ∷ m) =
      ground (arith, text_eq_iff k j, text_eq_iff i k, text_eq_iff i j, lookup-erase k j m)

  pub has_key-insert :
      (k j : Text) (v : V) (m : Map V) → has_key j (insert k v m) ≡ (text_eq k j || has_key j m)
  has_key-insert k j v m = ground (arith, lookup-insert k j v m)

  pub has_key-erase :
      (k j : Text) (m : Map V) → has_key j (erase k m) ≡ (not (text_eq k j) && has_key j m)
  has_key-erase k j m = ground (arith, lookup-erase k j m)

  pub listed-keys : (k : Text) (m : Map V) → listed k (keys m) ≡ has_key k m
  unfolding lookup
  listed-keys k [] = refl
  listed-keys k ((j, v) ∷ m) = ground (arith, listed-keys k m)
