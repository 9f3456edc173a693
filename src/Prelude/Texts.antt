-- ===== src/Prelude/Texts.antt =====
-- The code points of a text, and lists of them.
use Prim.Native.Nat.{ℕ}
use Prim.Native.String.{String}
use Prim.Native.String.{◌++◌ as ◌⧺◌}
use Prim.Native.String.append
use mathlib.Core.Path.{◌≡◌, refl, ap, ◌∙◌}
use mathlib.Core.Bool.{Bool, true, false, ◌&&◌, ◌||◌}
use mathlib.Core.List.{List, [], ◌∷◌, ◌++◌}
use native.Mathlib.Omega.{arith}
use smbpal_desktop.Prelude.Tests.{codes, ◌==◌, if◌then◌else◌}
use smbpal_desktop.Prelude.Lists.{any, elem, codes_eq}

pub codes-append : (s t : String) → codes (s ⧺ t) ≡ codes s ++ codes t
codes-append String.[] t = ap codes (append.nil t)
codes-append (String.◌∷◌ c s) t = ap codes (append.cons c s t) ∙ cc (codes-append s t)

pub elem-append : (c : ℕ) (xs ys : List ℕ) → elem c (xs ++ ys) ≡ (elem c xs || elem c ys)
elem-append c [] ys = refl
elem-append c (x ∷ xs) ys = ground (arith, elem-append c xs ys)

pub any-append {ℓ} :
    {A : Type ℓ} (test : A → Bool) (xs ys : List A)
    → any test (xs ++ ys) ≡ (any test xs || any test ys)
any-append test [] ys = refl
any-append test (x ∷ xs) ys = ground (arith, any-append test xs ys)

pub codes_eq_refl : (a : List ℕ) → codes_eq a a ≡ true
codes_eq_refl [] = refl
codes_eq_refl (x ∷ a) = ground (arith, codes_eq_refl a)

pub codes_eq_path : (a b : List ℕ) → codes_eq a b ≡ true → a ≡ b
codes_eq_path [] [] h = refl
codes_eq_path [] (y ∷ b) h = ground arith
codes_eq_path (x ∷ a) [] h = ground arith
codes_eq_path (x ∷ a) (y ∷ b) h =
    let head : x ≡ y = ground arith in
    let tail : a ≡ b = codes_eq_path a b (ground arith) in cc (head, tail)

-- text.startswith(part)
abbrev pub is_prefix : List ℕ → List ℕ → Bool
is_prefix [] text = true
is_prefix (c ∷ part) [] = false
is_prefix (c ∷ part) (d ∷ text) = c == d && is_prefix part text

-- `part in text`
unfoldable pub contains : List ℕ → List ℕ → Bool
contains part [] = is_prefix part []
contains part (c ∷ text) = is_prefix part (c ∷ text) || contains part text

-- text.endswith(part)
unfoldable pub ends_with : List ℕ → List ℕ → Bool
ends_with part [] = codes_eq part []
ends_with part (c ∷ text) = codes_eq part (c ∷ text) || ends_with part text

-- A text cut at its line ends.
unfoldable pub split_lines : List ℕ → List ℕ → List (List ℕ)
split_lines line [] = line ∷ []
split_lines line (c ∷ text) =
    let next = split_lines [] text in
    let longer = split_lines (line ++ c ∷ []) text in if c == 10 then line ∷ next else longer
