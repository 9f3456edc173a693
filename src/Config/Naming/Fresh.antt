-- ===== src/Config/Naming/Fresh.antt =====
-- What make_id returns.
use mathlib.Core.List.{◌++◌ as ◌⊕◌}
use smbpal_desktop.Prelude.{
  ℕ, zero, suc, ◌+◌, ◌-◌, ◌≤◌, ◌<◌, ◌≡◌, refl, sym, subst, String, true, false, Option, none, some,
  List, [], ◌∷◌, arith, codes, all, All, take, length, length-append, Bool-cases, inl, inr, ◌⊎◌,
}
use smbpal_desktop.Config.Schema.{is_digit, is_id_char, is_id}
use smbpal_desktop.Config.Naming.{
  cut_slug, named_slug, numeral, candidate, is_taken, range, first_free, make_id,
}
use smbpal_desktop.Config.Naming.Legal.{
  all-append, all-take, length-take_le, cut_slug-Slug, named_slug_legal, numeral_digits,
  three_digits,
}

digits_id : (text : List ℕ) → all is_digit text ≡ true → all is_id_char text ≡ true
digits_id [] h = refl
digits_id (c ∷ text) h = ground (arith, digits_id text)

cut_legal :
    (c : ℕ) (text tail : List ℕ) (m : ℕ)
    → is_id (c ∷ text) ≡ true
    → all is_id_char tail ≡ true
    → m + length tail ≤ 63
    → is_id (take (suc m) (c ∷ text) ⊕ tail) ≡ true
unfolding is_id
cut_legal c text tail m h t l = ground (
  arith,
  all-append is_id_char (take m text) tail,
  all-take is_id_char m text,
  length-append (take m text) tail,
  length-take_le m text,
)

candidate_legal :
    (slug : List ℕ) (suffix : ℕ)
    → is_id slug ≡ true
    → suffix < 1000
    → is_id (candidate slug suffix) ≡ true
unfolding candidate numeral
candidate_legal [] suffix h l = absurd (unfold is_id in ground arith)
candidate_legal (c ∷ text) suffix h l =
    let few = three_digits (suc suffix) suffix l in
    let tail = b'-' ∷ numeral suffix in
    let size : 64 - length (numeral suffix) - 1 ≡ suc (62 - length (numeral suffix)) =
      omega (arith, few) in
    subst (λ (n : ℕ). is_id (take n (c ∷ text) ⊕ tail) ≡ true) (sym size)
      (cut_legal c text tail (62 - length (numeral suffix)) h
        (digits_id (numeral suffix) (numeral_digits (suc suffix) suffix)) (omega (arith, few)))

range_below : (start count n : ℕ) → start + count ≤ n → All (λ k. k < n) (range start count)
unfolding range
range_below start zero n h = tt
range_below start (suc count) n h = (omega arith, range_below (suc start) count n (omega arith))

-- What an id that is found is, and what it takes that none is.
abbrev pub IsMade : List String → List ℕ → Option (List ℕ) → Type 0
IsMade taken slug (some id) = (is_id id ≡ true) × (is_taken taken id ≡ false)
IsMade taken slug none =
    (is_taken taken slug ≡ true)
    × (all (λ k. is_taken taken (candidate slug k)) (range 2 998) ≡ true)

first_free_lem :
    (taken : List String) (slug suffixes : List ℕ)
    → is_id slug ≡ true
    → All (λ k. k < 1000) suffixes
    → ((first_free taken slug suffixes ≡ none)
        × (all (λ k. is_taken taken (candidate slug k)) suffixes ≡ true))
      ⊎ ((id : List ℕ) × (first_free taken slug suffixes ≡ some id)
          × (is_id id ≡ true)
          × (is_taken taken id ≡ false))
unfolding first_free
first_free_lem taken slug [] h a = inl (refl, refl)
first_free_lem taken slug (suffix ∷ suffixes) h a =
    elim (Bool-cases (is_taken taken (candidate slug suffix))) [
      | inr free ↦
          inr (candidate slug suffix, rw free refl, candidate_legal slug suffix h a.0, free)
      | inl used ↦ elim (first_free_lem taken slug suffixes h a.1) [
        | inl (e, rest) ↦ inl (rw used e, rw (used, rest) refl)
        | inr (id, e, legal, free) ↦ inr (id, rw used e, legal, free)
      ]
    ]

-- An id that make_id returns matches the schema's pattern for ids and is not taken; it raises only
-- if the slug and all of the slug's candidates with the suffixes 2 to 999 are taken.
pub make_id-IsMade :
    (lower : String → String) (name : String) (taken : List String)
    → IsMade taken (named_slug (cut_slug (codes (lower name)))) (make_id lower name taken)
unfolding make_id
make_id-IsMade lower name taken = elim (Bool-cases (is_taken taken slug)) [
  | inr free ↦ rw free (legal, free)
  | inl used ↦
      elim (first_free_lem taken slug (range 2 998) legal (range_below 2 998 1000 (omega arith))) [
        | inl (e, rest) ↦ rw (used, e) (used, rest)
        | inr (id, e, fine, free) ↦ rw (used, e) (fine, free)
      ]
]
  where
    slug : List ℕ
    slug = named_slug (cut_slug (codes (lower name)))

    legal : is_id slug ≡ true
    legal = named_slug_legal (cut_slug (codes (lower name))) (cut_slug-Slug (codes (lower name)))
