-- ===== src/PluginManager/Libraries.antt =====
-- The references to the plugins' libraries: what dlopen and dlclose leave open.
use beatrice.Base.{ℕ, suc, ◌≤◌, ◌≡◌, List, [], ◌∷◌, some, Text, if◌then◌else◌, ◌==◌, arith}
use beatrice.Base.Maps.{Map, lookup, insert, erase}
use beatrice.PluginManager.{Call, opens, closes}

-- How often a library has been opened, and closed.
abbrev pub opened : ℕ → List Call → ℕ
opened h [] = 0
opened h (opens k ∷ cs) = if k == h then suc (opened h cs) else opened h cs
opened h (_ ∷ cs) = opened h cs

abbrev pub closed : ℕ → List Call → ℕ
closed h [] = 0
closed h (closes k ∷ cs) = if k == h then suc (closed h cs) else closed h cs
closed h (_ ∷ cs) = closed h cs

-- How many names have the handle.
abbrev pub entries : ℕ → Map ℕ → ℕ
entries h [] = 0
entries h ((n, k) ∷ m) = if k == h then suc (entries h m) else entries h m

pub entries-lookup : (n : Text) (h : ℕ) (m : Map ℕ) → lookup n m ≡ some h → 1 ≤ entries h m
unfolding lookup
entries-lookup n h [] e = cc
entries-lookup n h ((j, k) ∷ m) e = ground (arith, e, entries-lookup n h m)

pub entries-insert :
    (n : Text) (k h : ℕ) (m : Map ℕ)
    → entries h (insert n k m) ≤ (if k == h then suc (entries h m) else entries h m)
unfolding insert
entries-insert n k h [] = ground arith
entries-insert n k h ((j, i) ∷ m) = ground (arith, entries-insert n k h m)

entries-erase_le : (n : Text) (h : ℕ) (m : Map ℕ) → entries h (erase n m) ≤ entries h m
unfolding erase
entries-erase_le n h [] = omega arith
entries-erase_le n h ((j, i) ∷ m) = ground (arith, entries-erase_le n h m)

pub entries-erase :
    (n : Text) (k h : ℕ) (m : Map ℕ)
    → lookup n m ≡ some k
    → (if k == h then suc (entries h (erase n m)) else entries h (erase n m)) ≤ entries h m
unfolding erase lookup
entries-erase n k h [] e = cc
entries-erase n k h ((j, i) ∷ m) e =
    ground (arith, e, entries-erase_le n h m, entries-erase n k h m)
