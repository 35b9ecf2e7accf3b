-- ===== src/ThreadPool/Select.antt =====
-- roundRobinSelect and leastLoadedSelect of src/ThreadPool.cpp.
use beatrice.Base.{
  ℕ, zero, suc, ◌+◌, ◌-◌, ◌%◌, ◌≤◌, ◌<◌, ◌≡◌, refl, sym, ◌∙◌, ap, List, [], ◌∷◌, Option, none, some,
  All, length, ltb, ltb→lt, ltb→le, ◌⊎◌, if◌then◌else◌, Result, ok, err, divide_by_zero, arith,
  Bool-cases, inl, inr,
}
use beatrice.Base.Words.{size_mod, size_add}
use beatrice.ThreadPool.{ThreadInfo, ThreadPool}

-- fetch_add returns the old value; without threads the remainder is undefined.
unfoldable pub round_robin_select : ThreadPool → Result (ℕ × ThreadPool)
round_robin_select p = elim (length p.threads) [
  | zero ↦ err divide_by_zero
  | suc n ↦ ok (p.next_thread % suc n, record p { next_thread = size_add p.next_thread 1 })
]

-- The loop from thread i on, with leastLoaded and minLoad so far.
unfoldable pub least_from : List ThreadInfo → ℕ → ℕ → ℕ → ℕ
least_from [] i least min_load = least
least_from (t ∷ ts) i least min_load =
    if ltb t.current_load min_load
    then least_from ts (i + 1) i t.current_load
    else least_from ts (i + 1) least min_load

unfoldable pub least_loaded_select : List ThreadInfo → ℕ
unfolding least_from
least_loaded_select ts = least_from ts 0 0 (size_mod - 1)

-- The load of thread i.
abbrev pub load_at : List ThreadInfo → ℕ → Option ℕ
load_at [] i = none
load_at (t ∷ ts) zero = some t.current_load
load_at (t ∷ ts) (suc i) = load_at ts i

-- What the loop finds from thread i on: the thread that it had, if its load is at most every other,
-- or else a thread of the smallest load.
abbrev Found : List ThreadInfo → ℕ → ℕ → ℕ → ℕ → Type 0
Found ts i least min_load r =
    (m : ℕ) × All (λ t. m ≤ t.current_load) ts
    × (m ≤ min_load)
    × (((r ≡ least) × (m ≡ min_load)) ⊎ ((k : ℕ) × (r ≡ i + k) × (load_at ts k ≡ some m)))

Found-lower :
    (t : ThreadInfo) (ts : List ThreadInfo) (i least min_load r : ℕ)
    → t.current_load < min_load
    → Found ts (i + 1) i t.current_load r
    → Found (t ∷ ts) i least min_load r
Found-lower t ts i least min_load r h (m, hs, le, inl (e, same)) =
    (m, (le, hs), omega arith, inr (0, omega (arith, e), ap some (sym same)))
Found-lower t ts i least min_load r h (m, hs, le, inr (k, e, l)) =
    (m, (le, hs), omega arith, inr (suc k, omega (arith, e), l))

Found-higher :
    (t : ThreadInfo) (ts : List ThreadInfo) (i least min_load r : ℕ)
    → min_load ≤ t.current_load
    → Found ts (i + 1) least min_load r
    → Found (t ∷ ts) i least min_load r
Found-higher t ts i least min_load r h (m, hs, le, inl same) = (m, (omega arith, hs), le, inl same)
Found-higher t ts i least min_load r h (m, hs, le, inr (k, e, l)) =
    (m, (omega arith, hs), le, inr (suc k, omega (arith, e), l))

least_from-Found :
    (ts : List ThreadInfo) (i least min_load : ℕ)
    → Found ts i least min_load (least_from ts i least min_load)
unfolding least_from
least_from-Found [] i least min_load = (min_load, tt, omega arith, inl (refl, refl))
least_from-Found (t ∷ ts) i least min_load = elim (Bool-cases (ltb t.current_load min_load)) [
  | inl lower ↦ rw lower (
      Found-lower t ts i least min_load (least_from ts (i + 1) i t.current_load)
        (ltb→lt t.current_load min_load lower) (least_from-Found ts (i + 1) i t.current_load))
  | inr higher ↦ rw higher (
      Found-higher t ts i least min_load (least_from ts (i + 1) least min_load)
        (ltb→le t.current_load min_load higher) (least_from-Found ts (i + 1) least min_load))
]

-- If there is a thread, and each load is a size_t, leastLoadedSelect names a thread whose load is at
-- most that of every thread.
pub least_loaded_select-least :
    (ts : List ThreadInfo)
    → 0 < length ts
    → All (λ t. t.current_load < size_mod) ts
    → (m : ℕ) × (load_at ts (least_loaded_select ts) ≡ some m) × All (λ t. m ≤ t.current_load) ts
unfolding least_loaded_select
least_loaded_select-least [] some_thread fit = absurd (omega arith)
least_loaded_select-least (t ∷ ts) some_thread (fits, fit) =
    least_lem (least_from-Found (t ∷ ts) 0 0 (size_mod - 1))
  where
    least_lem :
        Found (t ∷ ts) 0 0 (size_mod - 1) (least_loaded_select (t ∷ ts))
        → (m : ℕ) × (load_at (t ∷ ts) (least_loaded_select (t ∷ ts)) ≡ some m)
          × All (λ x. m ≤ x.current_load) (t ∷ ts)
    least_lem (m, (below, hs), le, inl (e, same)) =
        (m, ap (load_at (t ∷ ts)) e ∙ ap some (omega arith), (below, hs))
    least_lem (m, hs, le, inr (k, e, l)) = (m, ap (load_at (t ∷ ts)) (e ∙ omega arith) ∙ l, hs)
