-- ===== src/Prelude/Results.antt =====
-- What a function that may raise returns: a value, or the error it raised.
use mathlib.Core.Path.{◌≡◌, subst}
use mathlib.Core.Bool.{Bool, false}
use smbpal_desktop.Prelude.Tests.{if◌then◌else◌, Bool-cases}
use mathlib.Core.Logic.{inl, inr}

pub data Result {ℓ} (E : Type 0) (A : Type ℓ) : Type ℓ where
  ok : A → Result E A
  err : E → Result E A

infixl 5 ◌>>=◌
abbrev pub ◌>>=◌ {ℓ κ} :
    {E : Type 0} {A : Type ℓ} {B : Type κ} → Result E A → (A → Result E B) → Result E B
ok a >>= f = f a
err e >>= f = err e

-- What is returned, if it is, has the property.
abbrev pub Ensures {ℓ κ} : {E : Type 0} {A : Type ℓ} → (A → Type κ) → Result E A → Type κ
Ensures P (ok a) = P a
Ensures P (err e) = Unit

pub Ensures-bind {ℓ κ μ} :
    {E : Type 0} {A : Type ℓ} {B : Type κ} (Q : A → Type μ) (P : B → Type μ) (first : Result E A)
    (next : A → Result E B)
    → Ensures Q first
    → ((a : A) → Q a → Ensures P (next a))
    → Ensures P (first >>= next)
Ensures-bind Q P (ok a) next q n = n a q
Ensures-bind Q P (err e) next q n = tt

pub Ensures-ok {ℓ κ} :
    {E : Type 0} {A : Type ℓ} (P : A → Type κ) (result : Result E A) {a : A}
    → Ensures P result
    → result ≡ ok a
    → P a
Ensures-ok P result e h = subst (Ensures P) h e

pub Ensures-any {ℓ} :
    {E : Type 0} {A : Type ℓ} (result : Result E A) → Ensures (λ (a : A). Unit {0}) result
Ensures-any (ok a) = tt
Ensures-any (err e) = tt

pub Ensures-unless {ℓ κ} :
    {E : Type 0} {A : Type ℓ} (P : A → Type κ) (refused : Bool) (e : E) (result : Result E A)
    → (refused ≡ false → Ensures P result)
    → Ensures P (if refused then err e else result)
Ensures-unless P refused e result h = elim (Bool-cases refused) [
  | inl t ↦ rw t tt
  | inr f ↦ rw f (h f)
]
