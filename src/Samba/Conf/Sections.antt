-- ===== src/Samba/Conf/Sections.antt =====
-- The lines of the generated file, and the section headers among them.
use mathlib.Core.List.{◌++◌ as ◌⊕◌}
use smbpal_desktop.Prelude.{
  elem-append, ℕ, ◌≡◌, refl, sym, ap, ◌∙◌, Bool, false, not, ◌&&◌, ◌||◌, Option, none, some, List,
  [], ◌∷◌, arith, if◌then◌else◌, str_eq, codes, elem, All, ◌==◌, Dict, append_assoc, append-nil,
  Bool-cases, inl, inr,
}
use smbpal_desktop.Config.Json.{Json, string, null, bool, int, float, list, object, get}
use smbpal_desktop.Samba.Conf.{is_true, is_clean, safe_value, join_lines, is_enabled}

-- What ends a line for one reader or another: a line feed, a carriage return, a NUL.
abbrev pub ends_line : ℕ → Bool
ends_line c = (c == 10) || (c == 13) || (c == 0)

-- A text cut at all of them, of which `line` was read already.
unfoldable pub cut_lines : List ℕ → List ℕ → List (List ℕ)
cut_lines line [] = line ∷ []
cut_lines line (c ∷ text) =
    let next = cut_lines [] text in
    let longer = cut_lines (line ⊕ c ∷ []) text in if ends_line c then line ∷ next else longer

abbrev pub OneLine : List ℕ → Type 0
OneLine line = (elem 10 line || elem 13 line || elem 0 line) ≡ false

pub OneLine-append : (xs ys : List ℕ) → OneLine xs → OneLine ys → OneLine (xs ⊕ ys)
OneLine-append xs ys h k =
    ground (arith, h, k, elem-append 10 xs ys, elem-append 13 xs ys, elem-append 0 xs ys)

-- A line that is followed by a line end is cut off.
cut_lines-append :
    (before line text : List ℕ)
    → OneLine line
    → cut_lines before (line ⊕ 10 ∷ text) ≡ (before ⊕ line) ∷ cut_lines [] text
unfolding cut_lines
cut_lines-append before [] text h =
    ap (λ (l : List ℕ). l ∷ cut_lines [] text) (sym (append-nil before))
cut_lines-append before (c ∷ line) text h =
    let rest = cut_lines-append (before ⊕ c ∷ []) line text (ground arith) in
    let other : ends_line c ≡ false = ground arith in
    rw other (rest ∙ ap (λ (l : List ℕ). l ∷ cut_lines [] text) (append_assoc before (c ∷ []) line))

pub cut_lines-join :
    (lines : List (List ℕ)) (line text : List ℕ)
    → All OneLine (line ∷ lines)
    → cut_lines [] (join_lines (line ∷ lines) ⊕ 10 ∷ text) ≡ (line ∷ lines) ⊕ cut_lines [] text
unfolding join_lines
cut_lines-join [] line text a = cut_lines-append [] line text a.0
cut_lines-join (next ∷ lines) line text a =
    ap (cut_lines []) (append_assoc line (10 ∷ join_lines (next ∷ lines)) (10 ∷ text))
    ∙ cut_lines-append [] line (join_lines (next ∷ lines) ⊕ 10 ∷ text) a.0
    ∙ ap (λ (ls : List (List ℕ)). line ∷ ls) (cut_lines-join lines next text a.1)

-- A section header may have blanks before it.
abbrev pub starts_section : List ℕ → Bool
starts_section [] = false
starts_section (c ∷ line) =
    let later = starts_section line in if (c == 32) || (c == 9) then later else c == b'['

unfoldable pub section_headers : List (List ℕ) → List (List ℕ)
section_headers [] = []
section_headers (line ∷ lines) =
    let rest = section_headers lines in if starts_section line then line ∷ rest else rest

pub section_headers-append :
    (xs ys : List (List ℕ)) → section_headers (xs ⊕ ys) ≡ section_headers xs ⊕ section_headers ys
unfolding section_headers
section_headers-append [] ys = refl
section_headers-append (x ∷ xs) ys = elim (Bool-cases (starts_section x)) [
  | inl e ↦ rw e (ap (λ (ls : List (List ℕ)). x ∷ ls) (section_headers-append xs ys))
  | inr e ↦ rw e (section_headers-append xs ys)
]

-- The text of a field as it stands in the configuration.
abbrev pub raw : Json → List ℕ
raw (string s) = codes s
raw _ = []

pub safe_value-raw :
    (value : Json) (text : List ℕ)
    → safe_value value ≡ some text
    → (text ≡ raw value) × OneLine (raw value)
unfolding safe_value
safe_value-raw (string s) text h = elim (Bool-cases (not (str_eq s "") && is_clean (codes s))) [
  | inl e ↦
      let same : ◌≡◌ {A = Option (List ℕ)} (some (codes s)) (some text) = ground (arith, e) in
      (
        sym (ap (λ (o : Option (List ℕ)). elim o [ none ↦ codes s | some t ↦ t ]) same),
        ground arith,
      )
  | inr e ↦ ground (arith, e)
]
safe_value-raw null text h = ground arith
safe_value-raw (bool b) text h = ground arith
safe_value-raw (int i) text h = ground arith
safe_value-raw (float f) text h = ground arith
safe_value-raw (list xs) text h = ground arith
safe_value-raw (object o) text h = ground arith

-- The lines that the section of a share is to have.
abbrev pub expected_header : Dict Json → List ℕ
expected_header share = b'[' ∷ raw (get "name" share) ⊕ b']' ∷ []

abbrev pub expected_users : Dict Json → List (List ℕ)
expected_users share =
    if is_true (get "credential_ref" share)
    then (codes "   valid users = " ⊕ raw (get "credential_ref" share)) ∷ []
    else []

abbrev pub expected_others : Dict Json → List (List ℕ)
expected_others share =
    (codes "   path = " ⊕ raw (get "path" share))
    ∷ codes (if is_true (get "read_only" share) then "   read only = yes" else "   read only = no")
    ∷ codes "   browseable = yes"
    ∷ codes "   guest ok = no"
    ∷ expected_users share

abbrev pub expected_section : Dict Json → List (List ℕ)
expected_section share = expected_header share ∷ expected_others share

-- The lines behind the comment at the top: an empty one before the section of each enabled share, and
-- one at the end.
unfoldable pub expected_lines : List (Dict Json) → List (List ℕ)
expected_lines [] = [] ∷ []
expected_lines (share ∷ shares) =
    let rest = expected_lines shares in
    if is_enabled share then [] ∷ (expected_section share ⊕ rest) else rest

unfoldable pub enabled_headers : List (Dict Json) → List (List ℕ)
enabled_headers [] = []
enabled_headers (share ∷ shares) =
    let rest = enabled_headers shares in
    if is_enabled share then expected_header share ∷ rest else rest

one_header :
    (share : Dict Json) → section_headers (expected_section share) ≡ expected_header share ∷ []
unfolding section_headers
one_header share = elim (Bool-cases (is_true (get "read_only" share))) [
  | inl e ↦ elim (Bool-cases (is_true (get "credential_ref" share))) [
    | inl u ↦ rw (e, u) refl
    | inr u ↦ rw (e, u) refl
  ]
  | inr e ↦ elim (Bool-cases (is_true (get "credential_ref" share))) [
    | inl u ↦ rw (e, u) refl
    | inr u ↦ rw (e, u) refl
  ]
]

pub expected_headers :
    (shares : List (Dict Json)) → section_headers (expected_lines shares) ≡ enabled_headers shares
unfolding expected_lines enabled_headers section_headers
expected_headers [] = refl
expected_headers (share ∷ shares) = elim (Bool-cases (is_enabled share)) [
  | inr e ↦ rw e (expected_headers shares)
  | inl e ↦ rw e (
      section_headers-append (expected_section share) (expected_lines shares)
      ∙ ap (λ (hs : List (List ℕ)). hs ⊕ section_headers (expected_lines shares)) (one_header share)
      ∙ ap (λ (hs : List (List ℕ)). expected_header share ∷ hs) (expected_headers shares))
]
