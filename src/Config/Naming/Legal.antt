-- ===== src/Config/Naming/Legal.antt =====
-- What a slug is made of, and the digits of a suffix.
use mathlib.Core.List.{◌++◌ as ◌⊕◌}
use smbpal_desktop.Prelude.{
  ℕ, zero, suc, ◌+◌, ◌/◌, ◌%◌, ◌≤◌, ◌<◌, ◌≡◌, refl, Bool, true, false, ◌||◌, ◌&&◌, List, [], ◌∷◌,
  arith, ◌==◌, all, take, length, length-append,
}
use smbpal_desktop.Config.Schema.{is_digit, is_id_char, is_id}
use smbpal_desktop.Config.Naming.{
  is_slug_char, squeeze, lstrip_dashes, cons_unless_dash, rstrip_dashes, cut_slug, named_slug,
  numeral_from,
}

pub all-append : (p : ℕ → Bool) (xs ys : List ℕ) → all p (xs ⊕ ys) ≡ (all p xs && all p ys)
all-append p [] ys = refl
all-append p (x ∷ xs) ys = ground (arith, all-append p xs ys)

pub all-take : (p : ℕ → Bool) (n : ℕ) (xs : List ℕ) → all p xs ≡ true → all p (take n xs) ≡ true
all-take p zero xs h = refl
all-take p (suc n) [] h = refl
all-take p (suc n) (x ∷ xs) h = ground (arith, all-take p n xs)

pub length-take_le : (n : ℕ) (xs : List ℕ) → length (take n xs) ≤ n
length-take_le zero xs = omega arith
length-take_le (suc n) [] = omega arith
length-take_le (suc n) (x ∷ xs) = omega (arith, length-take_le n xs)

-- A slug is made of letters, digits and dashes, and begins with none of the last.
abbrev is_kept : ℕ → Bool
is_kept c = is_slug_char c || (c == b'-')

abbrev starts_well : List ℕ → Bool
starts_well [] = true
starts_well (c ∷ text) = is_slug_char c

all-squeeze : (inside : Bool) (text : List ℕ) → all is_kept (squeeze inside text) ≡ true
unfolding squeeze
all-squeeze inside [] = refl
all-squeeze inside (c ∷ text) = ground (arith, all-squeeze false text, all-squeeze true text)

lstrip_good :
    (text : List ℕ)
    → all is_kept text ≡ true
    → (all is_kept (lstrip_dashes text) ≡ true) × (starts_well (lstrip_dashes text) ≡ true)
unfolding lstrip_dashes
lstrip_good [] h = (refl, refl)
lstrip_good (c ∷ text) h = ground (arith, lstrip_good text)

cons_good :
    (c : ℕ) (text : List ℕ)
    → is_kept c ≡ true
    → all is_kept text ≡ true
    → (all is_kept (cons_unless_dash c text) ≡ true)
      × (is_slug_char c ≡ true → starts_well (cons_unless_dash c text) ≡ true)
cons_good c [] h k = ground arith
cons_good c (d ∷ text) h k = ground arith

rstrip_kept : (text : List ℕ) → all is_kept text ≡ true → all is_kept (rstrip_dashes text) ≡ true
unfolding rstrip_dashes
rstrip_kept [] h = refl
rstrip_kept (c ∷ text) h =
    (cons_good c (rstrip_dashes text) (ground arith) (rstrip_kept text (ground arith))).0

rstrip_starts :
    (text : List ℕ)
    → all is_kept text ≡ true
    → starts_well text ≡ true
    → starts_well (rstrip_dashes text) ≡ true
unfolding rstrip_dashes
rstrip_starts [] h k = refl
rstrip_starts (c ∷ text) h k =
    (cons_good c (rstrip_dashes text) (ground arith) (rstrip_kept text (ground arith))).1 k

take_starts : (n : ℕ) (text : List ℕ) → starts_well text ≡ true → starts_well (take n text) ≡ true
take_starts zero text h = refl
take_starts (suc n) [] h = refl
take_starts (suc n) (c ∷ text) h = h

pub record Slug (slug : List ℕ) : Type 0 where
  kept : all is_kept slug ≡ true
  starts : starts_well slug ≡ true
  short : length slug ≤ 64

pub cut_slug-Slug : (lowered : List ℕ) → Slug (cut_slug lowered)
unfolding cut_slug
cut_slug-Slug lowered =
    let squeezed = squeeze false lowered in
    let (kept, starts) = lstrip_good squeezed (all-squeeze false lowered) in
    let stripped = rstrip_dashes (lstrip_dashes squeezed) in
    record {
      kept = all-take is_kept 64 stripped (rstrip_kept (lstrip_dashes squeezed) kept);
      starts = take_starts 64 stripped (rstrip_starts (lstrip_dashes squeezed) kept starts);
      short = length-take_le 64 stripped;
    }

kept_id : (text : List ℕ) → all is_kept text ≡ true → all is_id_char text ≡ true
kept_id [] h = refl
kept_id (c ∷ text) h = ground (arith, kept_id text)

pub named_slug_legal : (slug : List ℕ) → Slug slug → is_id (named_slug slug) ≡ true
unfolding named_slug is_id
named_slug_legal [] s = refl
named_slug_legal (c ∷ slug) s = ground (arith, s.kept, s.starts, s.short, kept_id slug)

-- A suffix below 1000 has at most three digits.
pub numeral_digits : (f n : ℕ) → all is_digit (numeral_from f n) ≡ true
unfolding numeral_from
numeral_digits zero n = refl
numeral_digits (suc f) n = ground (
  arith,
  numeral_digits f (n / 10),
  all-append is_digit (numeral_from f (n / 10)) ((b'0' + n % 10) ∷ []),
)

one_digit : (f n : ℕ) → n < 10 → length (numeral_from f n) ≤ 1
unfolding numeral_from
one_digit zero n h = omega arith
one_digit (suc f) n h = ground arith

two_digits : (f n : ℕ) → n < 100 → length (numeral_from f n) ≤ 2
unfolding numeral_from
two_digits zero n h = omega arith
two_digits (suc f) n h =
    ground
      (arith, one_digit f (n / 10), length-append (numeral_from f (n / 10)) ((b'0' + n % 10) ∷ []))

pub three_digits : (f n : ℕ) → n < 1000 → length (numeral_from f n) ≤ 3
unfolding numeral_from
three_digits zero n h = omega arith
three_digits (suc f) n h =
    ground
      (arith, two_digits f (n / 10), length-append (numeral_from f (n / 10)) ((b'0' + n % 10) ∷ []))
