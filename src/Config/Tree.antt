-- ===== src/Config/Tree.antt =====
-- Values that meet the laws of the interface to the JSON library.
use beatrice.Base.{
  ℕ, ◌≡◌, refl, ◌∙◌, ap, [], Bool, true, false, ◌||◌, Option, none, some, Text, text_eq,
  text_eq_iff, if◌then◌else◌, arith,
}
use beatrice.Base.Json.{Json}

mutual
  pub data Tree : Type 0 where
    null : Tree
    boolean : Bool → Tree
    number : ℕ → Tree
    text : Text → Tree
    object : Members → Tree

  pub data Members : Type 0 where
    end : Members
    member : Text → Tree → Members → Members

abbrev find : Text → Members → Option Tree
find k end = none
find k (member n v ms) = if text_eq n k then some v else find k ms

abbrev put : Text → Tree → Members → Members
put k v end = member k v end
put k v (member n w ms) = if text_eq n k then member n v ms else member n w (put k v ms)

pub find-put :
    (k i : Text) (v : Tree) (ms : Members)
    → find i (put k v ms) ≡ (if text_eq k i then some v else find i ms)
find-put k i v end = refl
find-put k i v (member n w ms) =
    ground (arith, text_eq_iff k i, text_eq_iff n k, text_eq_iff n i, find-put k i v ms)

abbrev members_of : Tree → Members
members_of (object ms) = ms
members_of null = end
members_of (boolean b) = end
members_of (number n) = end
members_of (text s) = end

abbrev is_object : Tree → Bool
is_object (object ms) = true
is_object null = false
is_object (boolean b) = false
is_object (number n) = false
is_object (text s) = false

abbrev put_in : Tree → Text → Tree → Option Tree
put_in (object ms) k v = some (object (put k v ms))
put_in null k v = some (object (put k v end))
put_in (boolean b) k v = none
put_in (number n) k v = none
put_in (text s) k v = none

abbrev is_null : Tree → Bool
is_null null = true
is_null (boolean b) = false
is_null (number n) = false
is_null (text s) = false
is_null (object ms) = false

pub find-none : (j : Tree) (k : Text) → is_object j ≡ false → find k (members_of j) ≡ none
find-none (object ms) k h = cc
find-none null k h = refl
find-none (boolean b) k h = refl
find-none (number n) k h = refl
find-none (text s) k h = refl

pub put_in-some :
    (j : Tree) (k : Text) (v : Tree)
    → (is_object j || is_null j) ≡ true
    → (j' : Tree) × (put_in j k v ≡ some j')
put_in-some (object ms) k v h = (object (put k v ms), refl)
put_in-some null k v h = (object (put k v end), refl)
put_in-some (boolean b) k v h = cc
put_in-some (number n) k v h = cc
put_in-some (text s) k v h = cc

pub put_in-object :
    (j : Tree) (k : Text) (v j' : Tree)
    → put_in j k v ≡ some j'
    → j' ≡ object (put k v (members_of j))
put_in-object (object ms) k v j' e = ground (arith, e)
put_in-object null k v j' e = ground (arith, e)
put_in-object (boolean b) k v j' e = cc
put_in-object (number n) k v j' e = cc
put_in-object (text s) k v j' e = cc

abbrev pub trees : Json Tree
trees = record {
  is_object = is_object;
  is_array = λ j. false;
  is_string = λ j. elim j as (λ j. Bool) [ text s ↦ true | _ ↦ false ];
  is_number = λ j. elim j as (λ j. Bool) [ number n ↦ true | _ ↦ false ];
  is_boolean = λ j. elim j as (λ j. Bool) [ boolean b ↦ true | _ ↦ false ];
  is_null = is_null;
  member = λ j k. find k (members_of j);
  put = put_in;
  empty_object = object end;
  empty_array = null;
  null_value = null;
  to_text = λ j. elim j as (λ j. Text) [ text s ↦ s | _ ↦ [] ];
  to_int = λ j. elim j as (λ j. ℕ) [ number n ↦ n | _ ↦ 0 ];
  to_double = λ j. elim j as (λ j. ℕ) [ number n ↦ n | _ ↦ 0 ];
  to_bool = λ j. elim j as (λ j. Bool) [ boolean b ↦ b | _ ↦ false ];
  of_text = text;
  of_int = number;
  of_double = number;
  parse = λ s. none;
  merge_patch = λ j k. j;
  member-none = find-none;
  member-empty_object = λ k. refl;
  is_object-empty_object = refl;
  put-some = put_in-some;
  put-is_object = λ j k v j' e. ap is_object (put_in-object j k v j' e);
  put-member = λ j k i v j' e.
      ap (λ t. find i (members_of t)) (put_in-object j k v j' e) ∙ find-put k i v (members_of j);
}
