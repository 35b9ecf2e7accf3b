-- ===== src/Base/Json.antt =====
-- What the code uses of nlohmann::json, as the library documents it.
use beatrice.Base.Tests.{if◌then◌else◌}
use beatrice.Base.Texts.{Text, text_eq}
use Prim.Native.Nat.{ℕ}
use mathlib.Core.Path.{◌≡◌}
use mathlib.Core.Bool.{Bool, true, false, ◌||◌}
use mathlib.Core.Option.{Option, none, some}

-- `member` is contains with operator[]: it finds nothing in a value that is no object. `put` is an
-- assignment through operator[]: it throws on a value that is neither an object nor null, and makes
-- an object of null. An int is the word of its 32 bits, a double its bit pattern.
pub record Json (J : Type 0) : Type 0 where
  pub is_object : J → Bool
  pub is_array : J → Bool
  pub is_string : J → Bool
  pub is_number : J → Bool
  pub is_boolean : J → Bool
  pub is_null : J → Bool
  pub member : J → Text → Option J
  pub put : J → Text → J → Option J
  pub empty_object : J
  pub empty_array : J
  pub null_value : J
  pub to_text : J → Text
  pub to_int : J → ℕ
  pub to_double : J → ℕ
  pub to_bool : J → Bool
  pub of_text : Text → J
  pub of_int : ℕ → J
  pub of_double : ℕ → J
  pub parse : Text → Option J
  pub merge_patch : J → J → J
  pub member-none : (j : J) (k : Text) → is_object j ≡ false → member j k ≡ none
  pub member-empty_object : (k : Text) → member empty_object k ≡ none
  pub is_object-empty_object : is_object empty_object ≡ true
  pub put-some :
      (j : J) (k : Text) (v : J)
      → (is_object j || is_null j) ≡ true
      → (j' : J) × (put j k v ≡ some j')
  pub put-is_object : (j : J) (k : Text) (v j' : J) → put j k v ≡ some j' → is_object j' ≡ true
  pub put-member :
      (j : J) (k i : Text) (v j' : J)
      → put j k v ≡ some j'
      → member j' i ≡ (if text_eq k i then some v else member j i)
