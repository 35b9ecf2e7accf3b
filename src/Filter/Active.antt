-- ===== src/Filter/Active.antt =====
-- Tests of all the filters of a list, and the filters that are enabled.
use mathlib.Core.List.{Perm, Permᴰ, Mem, Memᴰ, mem-cons_of_mem}
use mathlib.Core.Logic.{∥∥₁_elim, ∥∥₁_prop}
use beatrice.Base.{
  ◌≡◌, refl, sym, ◌∙◌, ap, subst, Bool, true, false, not, ◌&&◌, ◌||◌, List, [], ◌∷◌, All, Text,
  Bool-cases, inl, inr, if◌then◌else◌, arith,
}
use beatrice.Base.Int.{ltb_ℤ, ◌≤ℤ◌}
use beatrice.Base.Maps.{Map}
use beatrice.Filter.{FilterEntry}
use beatrice.Filter.Chain.{Entry, active}

abbrev pub all : (Entry → Bool) → List Entry → Bool
all p [] = true
all p (x ∷ xs) = p x && all p xs

all-permᴰ : (p : Entry → Bool) {xs ys : List Entry} → Permᴰ xs ys → all p xs ≡ all p ys
all-permᴰ p Permᴰ.nil = refl
all-permᴰ p (Permᴰ.cons e q) = ground (arith, ap p e, all-permᴰ p q)
all-permᴰ p (Permᴰ.swap e e') = ground (arith, ap p e, ap p e')
all-permᴰ p (Permᴰ.trans q r) = all-permᴰ p q ∙ all-permᴰ p r

Bool-set : IsSet Bool
Bool-set = hlevel

pub all-perm : (p : Entry → Bool) (xs ys : List Entry) → Perm xs ys → all p xs ≡ all p ys
all-perm p xs ys h = ∥∥₁_elim h (Bool-set _ _) (λ q. all-permᴰ p q)

pub active-on :
    (name : Text) (e : FilterEntry) (m : Map FilterEntry)
    → e.config.enabled ≡ true
    → active ((name, e) ∷ m) ≡ (name, e) ∷ active m
unfolding active
active-on name e m on = ap (λ b. if b then (name, e) ∷ active m else active m) on

pub active-off :
    (name : Text) (e : FilterEntry) (m : Map FilterEntry)
    → e.config.enabled ≡ false
    → active ((name, e) ∷ m) ≡ active m
unfolding active
active-off name e m off = ap (λ b. if b then (name, e) ∷ active m else active m) off

active_nil : active [] ≡ []
unfolding active
active_nil = refl

Mem-cons_mono :
    (x y : Entry) (xs ys : List Entry) → (Mem x xs → Mem x ys) → Mem x (y ∷ xs) → Mem x (y ∷ ys)
Mem-cons_mono x y xs ys h m = ∥∥₁_elim m ∥∥₁_prop step
  where
    step : Memᴰ x (y ∷ xs) → Mem x (y ∷ ys)
    step (Memᴰ.head e) = ∣ Memᴰ.head e ∣₁
    step (Memᴰ.tail d) = mem-cons_of_mem y (h ∣ d ∣₁)

pub Mem-active : (m : Map FilterEntry) (x : Entry) → Mem x (active m) → Mem x m
Mem-active [] x h = subst (Mem x) active_nil h
Mem-active ((name, e) ∷ m) x h = elim (Bool-cases e.config.enabled) [
  | inl on ↦
      Mem-cons_mono x (name, e) (active m) m (Mem-active m x)
        (subst (Mem x) (active-on name e m on) h)
  | inr off ↦ mem-cons_of_mem (name, e) (Mem-active m x (subst (Mem x) (active-off name e m off) h))
]

pub cons_true : (b : Bool) {c d : Bool} → c ≡ true → d ≡ true → ((not b || c) && d) ≡ true
cons_true b h k = ground (arith, h, k)

pub all-below :
    (t : Entry → Bool) (x : Entry) (es : List Entry)
    → All (λ y. y.1.config.priority ≤ℤ x.1.config.priority) es
    → all (λ y. not (ltb_ℤ x.1.config.priority y.1.config.priority) || t y) es ≡ true
all-below t x [] h = refl
all-below t x (y ∷ es) (h, hs) = ground (arith, all-below t x es hs)

-- Tests that the disabled filters meet need only the enabled ones.
pub all-active :
    (t : Entry → Bool) (m : Map FilterEntry)
    → ((x : Entry) → x.1.config.enabled ≡ false → t x ≡ true)
    → all t (active m) ≡ all t m
all-active t [] h = ap (all t) active_nil
all-active t ((name, e) ∷ m) h = elim (Bool-cases e.config.enabled) [
  | inl on ↦ ap (all t) (active-on name e m on) ∙ ap (λ b. t (name, e) && b) (all-active t m h)
  | inr off ↦
      ap (all t) (active-off name e m off)
      ∙ all-active t m h
      ∙ sym (ap (λ b. b && all t m) (h (name, e) off))
]
