-- ===== src/Prelude/Show.antt =====
-- Numbers in decimal, as an f-string prints them.
use Prim.Native.Nat.{ℕ, zero, suc, ◌<◌, ◌/◌, ◌%◌}
use Prim.Native.String.{String, ◌++◌}
use Prim.Native.String.append
use mathlib.Core.Path.{◌≡◌, refl, ap}
use mathlib.Core.Bool.{Bool, true, false, ◌||◌}
use mathlib.Core.Logic.{inl, inr}
use native.Mathlib.Omega.{arith}
use smbpal_desktop.Prelude.Tests.{if◌then◌else◌, ltb, ◌==◌, Bool-cases, all_below_lem}

digit : ℕ → String
digit d =
    if d == 0
    then "0"
    else if d == 1
    then "1"
    else if d == 2
    then "2"
    else if d == 3
    then "3"
    else if d == 4
    then "4"
    else if d == 5
    then "5"
    else if d == 6
    then "6"
    else if d == 7
    then "7"
    else if d == 8
    then "8"
    else "9"

-- The fuel is the number plus one; each round divides it by ten.
decimal_from : ℕ → ℕ → String
decimal_from zero n = ""
decimal_from (suc f) n =
    let shorter = decimal_from f (n / 10) ++ digit (n % 10) in if ltb n 10 then digit n else shorter

-- str(n)
unfoldable pub decimal : ℕ → String
unfolding decimal_from digit
decimal n = decimal_from (suc n) n

-- A text that is not empty.
abbrev pub is_filled : String → Bool
is_filled String.[] = false
is_filled (String.◌∷◌ c s) = true

is_filled-append : (s t : String) → is_filled (s ++ t) ≡ (is_filled s || is_filled t)
is_filled-append String.[] t = ap is_filled (append.nil t)
is_filled-append (String.◌∷◌ c s) t = ap is_filled (append.cons c s t)

is_filled-digit : (d : ℕ) → d < 10 → is_filled (digit d) ≡ true
unfolding digit
is_filled-digit d h = all_below_lem (λ n. is_filled (digit n)) 10 d h refl

pub is_filled-decimal : (n : ℕ) → is_filled (decimal n) ≡ true
unfolding decimal decimal_from
is_filled-decimal n = elim (Bool-cases (ltb n 10)) [
  | inl e ↦ rw e (is_filled-digit n (ground (arith, e)))
  | inr e ↦
      let last = is_filled-digit (n % 10) (omega arith) in
      rw (e, is_filled-append (decimal_from n (n / 10)) (digit (n % 10))) (ground (arith, last))
]
