-- ===== src/Prelude/Codes.antt =====
-- A text of code points.
use Prim.Native.Nat.{ℕ, compare, Ordering}
use Prim.Native.Char.{Char, char, nul}
use Prim.Native.String.{String}
use mathlib.Core.Path.{◌≡◌, refl}
use mathlib.Core.List.{List, [], ◌∷◌}
use smbpal_desktop.Prelude.Tests.{codes}

-- chr(n), of a number that is one of a character; of another it is the character 0.
unfoldable pub chr : ℕ → Char
chr n = below (compare n 55296) refl
  where
    last :
        (o : Ordering)
        → compare n 1114112 ≡ o
        → compare 57343 n ≡ Ordering.lt
        → (p : Ordering) → compare n 55296 ≡ p
        → Char
    last Ordering.lt e f Ordering.lt g = char n (rw g tt)
    last Ordering.lt e f Ordering.eq g = char n (rw (g, f, e) tt)
    last Ordering.lt e f Ordering.gt g = char n (rw (g, f, e) tt)
    last Ordering.eq e f p g = nul
    last Ordering.gt e f p g = nul

    above : (o : Ordering) → compare 57343 n ≡ o → (p : Ordering) → compare n 55296 ≡ p → Char
    above Ordering.lt f p g = last (compare n 1114112) refl f p g
    above Ordering.eq f p g = nul
    above Ordering.gt f p g = nul

    below : (p : Ordering) → compare n 55296 ≡ p → Char
    below Ordering.lt g = char n (rw g tt)
    below Ordering.eq g = nul
    below Ordering.gt g = above (compare 57343 n) refl Ordering.gt g

unfoldable pub text_of : List ℕ → String
unfolding chr
text_of [] = ""
text_of (c ∷ text) = String.◌∷◌ (chr c) (text_of text)

text_of-codes : text_of (codes "aé😀") ≡ "aé😀"
unfolding text_of
text_of-codes = refl
