-- ===== src/Filter/Order.antt =====
-- A sorter exists: insertion sort.
use mathlib.Core.List.{Perm}
use mathlib.Core.List.Perm
use beatrice.Base.{List, [], ◌∷◌, All, Bool-cases, inl, inr, if◌then◌else◌, arith}
use beatrice.Base.Int.{ℤ, ltb_ℤ, ◌≤ℤ◌}
use beatrice.Filter.Chain.{Entry, IsOrdered, Sorter}

abbrev priority_of : Entry → ℤ
priority_of x = x.1.config.priority

insert_sorted : Entry → List Entry → List Entry
insert_sorted x [] = x ∷ []
insert_sorted x (y ∷ ys) =
    if ltb_ℤ (priority_of y) (priority_of x) then x ∷ y ∷ ys else y ∷ insert_sorted x ys

unfoldable pub insertion_sort : List Entry → List Entry
unfolding insert_sorted
insertion_sort [] = []
insertion_sort (x ∷ xs) = insert_sorted x (insertion_sort xs)

insert_sorted-perm : (x : Entry) (ys : List Entry) → Perm (insert_sorted x ys) (x ∷ ys)
unfolding insert_sorted
insert_sorted-perm x [] = Perm.rfl
insert_sorted-perm x (y ∷ ys) = elim (Bool-cases (ltb_ℤ (priority_of y) (priority_of x))) [
  | inl above ↦ rw above Perm.rfl
  | inr below ↦ rw below (Perm.trans (Perm.cons y (insert_sorted-perm x ys)) (Perm.swap x y ys))
]

pub insertion_sort-perm : (xs : List Entry) → Perm (insertion_sort xs) xs
unfolding insertion_sort
insertion_sort-perm [] = Perm.nil
insertion_sort-perm (x ∷ xs) =
    Perm.trans (insert_sorted-perm x (insertion_sort xs)) (Perm.cons x (insertion_sort-perm xs))

abbrev Below : ℤ → List Entry → Type 0
Below b = All (λ y. priority_of y ≤ℤ b)

Below-mono : (a b : ℤ) (ys : List Entry) → a ≤ℤ b → Below a ys → Below b ys
Below-mono a b [] h hs = tt
Below-mono a b (y ∷ ys) h (hy, hs) = (omega arith, Below-mono a b ys h hs)

insert_sorted-Below :
    (x : Entry) (ys : List Entry) (b : ℤ)
    → priority_of x ≤ℤ b
    → Below b ys
    → Below b (insert_sorted x ys)
unfolding insert_sorted
insert_sorted-Below x [] b h hs = (h, tt)
insert_sorted-Below x (y ∷ ys) b h (hy, hs) =
    elim (Bool-cases (ltb_ℤ (priority_of y) (priority_of x))) [
      | inl above ↦ rw above (h, (hy, hs))
      | inr below ↦ rw below (hy, insert_sorted-Below x ys b h hs)
    ]

insert_sorted-IsOrdered :
    (x : Entry) (ys : List Entry) → IsOrdered ys → IsOrdered (insert_sorted x ys)
unfolding insert_sorted
insert_sorted-IsOrdered x [] h = (tt, tt)
insert_sorted-IsOrdered x (y ∷ ys) (hy, hs) =
    elim (Bool-cases (ltb_ℤ (priority_of y) (priority_of x))) [
      | inl above ↦ rw above (
        (ground arith, Below-mono (priority_of y) (priority_of x) ys (ground arith) hy),
        (hy, hs),
      )
      | inr below ↦ rw below (
        insert_sorted-Below x ys (priority_of y) (ground arith) hy,
        insert_sorted-IsOrdered x ys hs,
      )
    ]

pub insertion_sort-IsOrdered : (xs : List Entry) → IsOrdered (insertion_sort xs)
unfolding insertion_sort
insertion_sort-IsOrdered [] = tt
insertion_sort-IsOrdered (x ∷ xs) =
    insert_sorted-IsOrdered x (insertion_sort xs) (insertion_sort-IsOrdered xs)

-- The interface can be met.
unfoldable pub insertion_sorter : Sorter
insertion_sorter = record {
  sort = insertion_sort;
  sort-perm = insertion_sort-perm;
  sort-IsOrdered = insertion_sort-IsOrdered;
}
