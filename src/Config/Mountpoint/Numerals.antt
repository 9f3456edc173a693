-- ===== src/Config/Mountpoint/Numerals.antt =====
-- Numbers written in decimal are read back, so two numbers are not written alike.
use mathlib.Core.List.{◌++◌ as ◌⊕◌}
use smbpal_desktop.Prelude.{
  ℕ, zero, suc, ◌+◌, ◌-◌, ◌*◌, ◌/◌, ◌%◌, ◌<◌, ◌≡◌, refl, sym, ap, ◌∙◌, List, [], ◌∷◌, arith, ltb,
  Bool-cases, inl, inr,
}
use smbpal_desktop.Config.Naming.{numeral_from, numeral}

value_from : ℕ → List ℕ → ℕ
value_from n [] = n
value_from n (c ∷ text) = value_from (n * 10 + (c - b'0')) text

value-append :
    (n c : ℕ) (text : List ℕ) → value_from n (text ⊕ c ∷ []) ≡ value_from n text * 10 + (c - b'0')
unfolding value_from
value-append n c [] = refl
value-append n c (d ∷ text) = value-append (n * 10 + (d - b'0')) c text

value-numeral_from : (f n : ℕ) → n < f → value_from 0 (numeral_from f n) ≡ n
unfolding value_from numeral_from
value-numeral_from zero n h = omega arith
value-numeral_from (suc f) n h = elim (Bool-cases (ltb n 10)) [
  | inl small ↦ rw small (omega arith)
  | inr large ↦
      rw
        (
          large,
          value-append 0 (b'0' + n % 10) (numeral_from f (n / 10)),
          value-numeral_from f (n / 10) (ground arith),
        )
        (omega arith)
]

pub numeral_injective : (m n : ℕ) → numeral m ≡ numeral n → m ≡ n
unfolding numeral
numeral_injective m n h =
    sym (value-numeral_from (suc m) m (omega arith))
    ∙ ap (value_from 0) h
    ∙ value-numeral_from (suc n) n (omega arith)
