-- ===== src/State/Translate/Scanning.antt =====
-- The scan for `mount error(…)`, cut at a line end: no match crosses it.
use smbpal_desktop.Prelude.{
  ℕ, zero, suc, ◌+◌, ◌*◌, ◌≤◌, ◌≡◌, refl, false, Option, none, some, List, [], ◌∷◌, ◌++◌, arith,
  elem, Option-cases, length, inl, inr,
}
use smbpal_desktop.State.Translate.{
  strip_prefix, digits, close, close_of, match_rest, match_error, literal, folded,
}

-- A literal without line ends is found at the head of `a` exactly when it is found at the head of
-- `a` followed by a line end and anything.
pub strip_prefix-append :
    (literal a b : List ℕ)
    → elem 10 literal ≡ false
    → strip_prefix literal (a ++ 10 ∷ b)
      ≡ (elim (strip_prefix literal a) [ none ↦ none | some r ↦ some (r ++ 10 ∷ b) ])
unfolding strip_prefix folded
strip_prefix-append [] a b h = refl
strip_prefix-append (p ∷ ps) [] b h = ground arith
strip_prefix-append (p ∷ ps) (c ∷ a) b h = ground (arith, strip_prefix-append ps a b)

strip_prefix-length :
    (literal a : List ℕ) {r : List ℕ}
    → strip_prefix literal a ≡ some r
    → length a ≡ length literal + length r
unfolding strip_prefix
strip_prefix-length [] a h = ground arith
strip_prefix-length (p ∷ ps) [] h = ground arith
strip_prefix-length (p ∷ ps) (c ∷ a) {r} h = ground (arith, strip_prefix-length ps a {r = r})

close-length :
    (value count : ℕ) (a : List ℕ) {n size : ℕ}
    → close value count a ≡ some (n, size)
    → size + length a ≤ 13 + count + length a
unfolding close
close-length value count [] h = ground arith
close-length value zero (c ∷ a) h = ground arith
close-length value (suc k) (c ∷ a) h = ground arith

close_nonempty :
    (value count : ℕ) (a : List ℕ) {n size : ℕ}
    → close value count a ≡ some (n, size)
    → 1 ≤ length a
unfolding close
close_nonempty value count [] h = ground arith
close_nonempty value count (c ∷ a) h = omega arith

module _ (digit_value : ℕ → Option ℕ) where
  digits-length :
      (value count : ℕ) (a : List ℕ)
      → (digits digit_value value count a).1 + length (digits digit_value value count a).2
        ≡ count + length a
  unfolding digits
  digits-length value count [] = refl
  digits-length value count (c ∷ a) = elim (Option-cases (digit_value c)) [
    | inl e ↦ ground arith
    | inr (d, e) ↦ ground (arith, digits-length (value * 10 + d) (suc count) a)
  ]

  -- A match is no longer than the text.
  pub match_error-length :
      (a : List ℕ) {n size : ℕ} → match_error digit_value a ≡ some (n, size) → size ≤ length a
  unfolding match_error match_rest close_of
  match_error-length a {n} {size} h = elim (Option-cases (strip_prefix literal a)) [
    | inl e ↦ ground arith
    | inr (r, e) ↦ fits r e (rw e at h)
  ]
    where
      fits :
          (r : List ℕ)
          → strip_prefix literal a ≡ some r
          → close_of (digits digit_value 0 0 r) ≡ some (n, size)
          → size ≤ length a
      fits r e k =
          let d = digits digit_value 0 0 r in
          omega (
            arith,
            strip_prefix-length literal a {r = r} e,
            digits-length 0 0 r,
            close-length d.0 d.1 d.2 {n = n} {size = size} k,
            close_nonempty d.0 d.1 d.2 {n = n} {size = size} k,
          )
