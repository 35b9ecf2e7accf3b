-- ===== src/Base/Results.antt =====
-- What a call may end in: a value, a C++ exception, or behaviour that the standard leaves undefined.
use mathlib.Core.Path.{◌≡◌, refl}
use mathlib.Core.Logic.{◌⊎◌, inl, inr}
use mathlib.Core.Bool.{Bool, true, false}
use mathlib.Core.Option.{Option, none, some}

-- Those of the first line are undefined behaviour, then exceptions of the standard library, and at last
-- one that a callback throws.
pub data Fault : Type 0 where
  out_of_bounds bad_shift divide_by_zero signed_overflow null_pointer : Fault
  bad_variant_access invalid_argument out_of_range : Fault
  callback_exception : Fault

pub data Result {ℓ} (A : Type ℓ) : Type ℓ where
  err : Fault → Result A
  ok : A → Result A

-- The rest of a call runs on the value, and a fault ends it.
infixl 5 ◌>>=◌
abbrev pub ◌>>=◌ {ℓ κ} : {A : Type ℓ} {B : Type κ} → Result A → (A → Result B) → Result B
err fault >>= rest = err fault
ok value >>= rest = rest value

abbrev pub or_fault {ℓ} : {A : Type ℓ} → Option A → Fault → Result A
or_fault none e = err e
or_fault (some a) e = ok a

pub Result-cases {ℓ} :
    {A : Type ℓ} (r : Result A) → ((a : A) × (r ≡ ok a)) ⊎ ((e : Fault) × (r ≡ err e))
Result-cases (ok a) = inl (a, refl)
Result-cases (err e) = inr (e, refl)

pub >>=-eq-ok {ℓ κ} :
    {A : Type ℓ} {B : Type κ} (call : Result A) (rest : A → Result B) {out : B}
    → (call >>= rest) ≡ ok out
    → (value : A) × (call ≡ ok value) × (rest value ≡ ok out)
>>=-eq-ok (err fault) rest h = cc
>>=-eq-ok (ok value) rest h = (value, refl, h)

-- The call returns a value, and P holds of it.
abbrev pub Ensures {ℓ} : {A : Type ℓ} → (A → Type 0) → Result A → Type 0
Ensures P (ok a) = P a
Ensures P (err e) = ⊥

pub Ensures->>= {ℓ κ} :
    {A : Type ℓ} {B : Type κ} (P : A → Type 0) (Q : B → Type 0) (m : Result A) (f : A → Result B)
    → Ensures P m
    → ((a : A) → P a → Ensures Q (f a))
    → Ensures Q (m >>= f)
Ensures->>= P Q (ok a) f h k = k a h
Ensures->>= P Q (err e) f h k = absurd h

pub Ensures-mono {ℓ} :
    {A : Type ℓ} (P Q : A → Type 0) (m : Result A)
    → Ensures P m
    → ((a : A) → P a → Q a)
    → Ensures Q m
Ensures-mono P Q (ok a) h k = k a h
Ensures-mono P Q (err e) h k = absurd h

-- The call returns a value of which P holds, or ends in a fault of which Q holds.
abbrev pub Yields {ℓ} : {A : Type ℓ} → (Fault → Type 0) → (A → Type 0) → Result A → Type 0
Yields Q P (ok a) = P a
Yields Q P (err e) = Q e

pub Yields->>= {ℓ κ} :
    {A : Type ℓ} {B : Type κ} (Q : Fault → Type 0) (P : A → Type 0) (R : B → Type 0) (m : Result A)
    (f : A → Result B)
    → Yields Q P m
    → ((a : A) → P a → Yields Q R (f a))
    → Yields Q R (m >>= f)
Yields->>= Q P R (ok a) f h k = k a h
Yields->>= Q P R (err e) f h k = h

pub Ensures-Yields {ℓ} :
    {A : Type ℓ} (Q : Fault → Type 0) (P : A → Type 0) (m : Result A) → Ensures P m → Yields Q P m
Ensures-Yields Q P (ok a) h = h
Ensures-Yields Q P (err e) h = absurd h

pub Yields-Ensures {ℓ} :
    {A : Type ℓ} (P : A → Type 0) (m : Result A) → Yields (λ e. ⊥) P m → Ensures P m
Yields-Ensures P (ok a) h = h
Yields-Ensures P (err e) h = h

abbrev pub is_ok {ℓ} : {A : Type ℓ} → Result A → Bool
is_ok (ok a) = true
is_ok (err e) = false

pub Ensures-of_is_ok {ℓ} : {A : Type ℓ} (m : Result A) → is_ok m ≡ true → Ensures (λ a. Unit) m
Ensures-of_is_ok (ok a) h = tt
Ensures-of_is_ok (err e) h = cc
