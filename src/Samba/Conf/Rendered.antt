-- ===== src/Samba/Conf/Rendered.antt =====
-- The lines of the generated file are those of the enabled shares.
use mathlib.Core.List.{◌++◌ as ◌⊕◌}
use smbpal_desktop.Prelude.{
  All-append, ℕ, ◌≡◌, refl, sym, subst, ap, ◌∙◌, Bool, true, false, Option, none, some, List, [],
  ◌∷◌, arith, codes, All, Dict, append_assoc, Bool-cases, inl, inr,
}
use smbpal_desktop.Config.Json.{Json, get}
use smbpal_desktop.Samba.Conf.{
  is_true, safe_value, safe, join_lines, section_header, fixed_lines, user_lines, section_of,
  section_lines, section_text, header_lines, is_enabled, add_section, sections, with_header, render,
}
use smbpal_desktop.Samba.Conf.Sections.{
  cut_lines, OneLine, OneLine-append, cut_lines-join, section_headers, section_headers-append, raw,
  safe_value-raw, expected_header, expected_users, expected_others, expected_section,
  expected_lines, enabled_headers, expected_headers,
}

-- The lines are those that are expected, and none of them is cut.
abbrev Made : Dict Json → List (List ℕ) → Type 0
Made share lines = (lines ≡ expected_section share) × All OneLine (expected_section share)

abbrev MadeUsers : Dict Json → Option (List (List ℕ)) → Type 0
MadeUsers share none = Unit
MadeUsers share (some users) = (users ≡ expected_users share) × All OneLine (expected_users share)

user_lines-MadeUsers : (share : Dict Json) → MadeUsers share (user_lines share)
unfolding user_lines safe
user_lines-MadeUsers share = elim (Bool-cases (is_true (get "credential_ref" share))) [
  | inr e ↦ rw (e, e) (refl, tt)
  | inl e ↦ rw e (users e (safe_value (get "credential_ref" share)) refl)
]
  where
    users :
        is_true (get "credential_ref" share) ≡ true
        → (o : Option (List ℕ)) → safe_value (get "credential_ref" share) ≡ o
        → MadeUsers share (elim o as (λ _. Option (List (List ℕ))) [
          | none ↦ none
          | some user ↦ some ((codes "   valid users = " ⊕ user) ∷ [])
        ])
    users e none h = tt
    users e (some user) h =
        let (same, line) = safe_value-raw (get "credential_ref" share) user h in
        rw e (
          ap (λ (u : List ℕ). (codes "   valid users = " ⊕ u) ∷ []) same,
          (
            OneLine-append (codes "   valid users = ") (raw (get "credential_ref" share)) refl line,
            tt,
          ),
        )

some_lines :
    (xs ys : List (List ℕ)) → ◌≡◌ {A = Option (List (List ℕ))} (some xs) (some ys) → xs ≡ ys
some_lines xs ys h = ap (λ (o : Option (List (List ℕ))). elim o [ none ↦ xs | some zs ↦ zs ]) h

fixed-OneLine :
    (path : List ℕ) (read_only : Bool) → OneLine path → All OneLine (fixed_lines path read_only)
fixed-OneLine path true h =
    (OneLine-append (codes "   path = ") path refl h, (refl, (refl, (refl, tt))))
fixed-OneLine path false h =
    (OneLine-append (codes "   path = ") path refl h, (refl, (refl, (refl, tt))))

section_of-Made :
    (share : Dict Json) (name path : Option (List ℕ)) (users : Option (List (List ℕ)))
    (lines : List (List ℕ))
    → safe share "name" ≡ name
    → safe share "path" ≡ path
    → MadeUsers share users
    → section_of name path (is_true (get "read_only" share)) users ≡ some lines
    → Made share lines
unfolding safe
section_of-Made share (some name) (some path) (some users) lines n p u h =
    let (named, name_line) = safe_value-raw (get "name" share) name n in
    let (placed, path_line) = safe_value-raw (get "path" share) path p in
    let read_only = is_true (get "read_only" share) in
    (
      sym (some_lines _ lines h)
          ∙ ap (λ (t : List ℕ). section_header t ∷ (fixed_lines path read_only ⊕ users)) named
          ∙ ap (λ (t : List ℕ). expected_header share ∷ (fixed_lines t read_only ⊕ users)) placed
          ∙ ap
              (λ (us : List (List ℕ)).
                expected_header share ∷ (fixed_lines (raw (get "path" share)) read_only ⊕ us))
              u.0,
      (
        OneLine-append (b'[' ∷ raw (get "name" share)) (b']' ∷ []) (ground (arith, name_line)) refl,
        All-append OneLine (fixed_lines (raw (get "path" share)) read_only) (expected_users share)
            (fixed-OneLine (raw (get "path" share)) read_only path_line) u.1,
      ),
    )
section_of-Made share (some name) (some path) none lines n p u h = ground arith
section_of-Made share (some name) none users lines n p u h = ground arith
section_of-Made share none path users lines n p u h = ground arith

section_lines-Made :
    (share : Dict Json) (lines : List (List ℕ))
    → section_lines share ≡ some lines
    → Made share lines
unfolding section_lines
section_lines-Made share lines h =
    section_of-Made share (safe share "name") (safe share "path") (user_lines share) lines refl refl
      (user_lines-MadeUsers share) h

join_one : (line : List ℕ) → join_lines (line ∷ []) ≡ line
unfolding join_lines
join_one line = refl

join_next :
    (line next : List ℕ) (lines : List (List ℕ))
    → join_lines (line ∷ next ∷ lines) ≡ line ⊕ 10 ∷ join_lines (next ∷ lines)
unfolding join_lines
join_next line next lines = refl

empty_line : (text : List ℕ) → cut_lines [] (10 ∷ text) ≡ [] ∷ cut_lines [] text
unfolding cut_lines
empty_line text = refl

nothing_left : cut_lines [] [] ≡ [] ∷ []
unfolding cut_lines
nothing_left = refl

last_section :
    (line : List ℕ) (lines : List (List ℕ))
    → All OneLine (line ∷ lines)
    → cut_lines [] (section_text (line ∷ lines)) ≡ (line ∷ lines) ⊕ [] ∷ []
last_section line lines a =
    cut_lines-join lines line [] a ∙ ap (λ (ls : List (List ℕ)). (line ∷ lines) ⊕ ls) nothing_left

next_section :
    (line : List ℕ) (lines : List (List ℕ)) (text : List ℕ) (texts : List (List ℕ))
    → All OneLine (line ∷ lines)
    → cut_lines [] (join_lines (section_text (line ∷ lines) ∷ text ∷ texts))
      ≡ (line ∷ lines) ⊕ [] ∷ cut_lines [] (join_lines (text ∷ texts))
next_section line lines text texts a =
    let behind = join_lines (text ∷ texts) in
    ap (cut_lines []) (
      join_next (section_text (line ∷ lines)) text texts
      ∙ append_assoc (join_lines (line ∷ lines)) (10 ∷ []) (10 ∷ behind))
    ∙ cut_lines-join lines line (10 ∷ behind) a
    ∙ ap (λ (ls : List (List ℕ)). (line ∷ lines) ⊕ ls) (empty_line behind)

add_section-some :
    (own rest : Option (List (List ℕ))) (texts : List (List ℕ))
    → add_section own rest ≡ some texts
    → (lines : List (List ℕ)) × (behind : List (List ℕ)) × (own ≡ some lines)
      × (rest ≡ some behind)
      × (texts ≡ section_text lines ∷ behind)
add_section-some (some lines) (some behind) texts h =
    (lines, behind, refl, refl, sym (some_lines (section_text lines ∷ behind) texts h))
add_section-some (some lines) none texts h = ground arith
add_section-some none rest texts h = ground arith

-- The texts of sections, behind a text of lines.
lines_behind :
    (shares : List (Dict Json)) (texts : List (List ℕ)) (line : List ℕ) (lines : List (List ℕ))
    → sections shares ≡ some texts
    → All OneLine (line ∷ lines)
    → cut_lines [] (join_lines (section_text (line ∷ lines) ∷ texts))
      ≡ (line ∷ lines) ⊕ expected_lines shares
unfolding sections expected_lines
lines_behind [] texts line lines h a =
    subst
      (λ (ts : List (List ℕ)).
        cut_lines [] (join_lines (section_text (line ∷ lines) ∷ ts)) ≡ (line ∷ lines) ⊕ [] ∷ [])
      (some_lines [] texts h)
      (ap (cut_lines []) (join_one (section_text (line ∷ lines))) ∙ last_section line lines a)
lines_behind (share ∷ shares) texts line lines h a = elim (Bool-cases (is_enabled share)) [
  | inr e ↦ rw e (lines_behind shares texts line lines (rw e at h) a)
  | inl e ↦
      let (own, behind, o, r, t) =
        add_section-some (section_lines share) (sections shares) texts (rw e at h) in
      let (made, one_line) = section_lines-Made share own o in
      let inner =
        lines_behind shares behind (expected_header share) (expected_others share) r one_line in
      rw e (
        ap (λ (ts : List (List ℕ)). cut_lines [] (join_lines (section_text (line ∷ lines) ∷ ts)))
          (t ∙ ap (λ (ls : List (List ℕ)). section_text ls ∷ behind) made)
        ∙ next_section line lines (section_text (expected_section share)) behind a
        ∙ ap (λ (ls : List (List ℕ)). (line ∷ lines) ⊕ [] ∷ ls) inner)
]

-- HEADER without its first line
abbrev header_rest : List (List ℕ)
header_rest =
    codes "#"
    ∷ codes "# This file is rewritten in full whenever a share changes. SMBPal owns it"
    ∷ codes "# completely and never parses or modifies /etc/samba/smb.conf beyond the one"
    ∷ codes "# marked include block that points here."
    ∷ []

-- The lines of a generated file, wherever a line feed, a carriage return or a NUL ends one, are the
-- comment at the top and for each enabled share, in order, an empty line, its name in brackets, its
-- path, whether it is read only, the two settings that are the same for all, and its account if it has
-- one, with the texts as they are in the configuration; and an empty line at the end. So the section
-- headers among them, blanks before one or not, are those of the enabled shares.
pub render_sections :
    (shares : List (Dict Json)) (text : List ℕ)
    → render shares ≡ some text
    → (cut_lines [] text ≡ header_lines ⊕ expected_lines shares)
      × (section_headers (cut_lines [] text) ≡ enabled_headers shares)
unfolding render
render_sections shares text h =
    let lines = rendered (sections shares) refl h in
    (
      lines,
      ap section_headers lines
          ∙ section_headers-append header_lines (expected_lines shares)
          ∙ ap (λ (hs : List (List ℕ)). hs ⊕ section_headers (expected_lines shares)) comment_only
          ∙ expected_headers shares,
    )
  where
    comment_only : section_headers header_lines ≡ []
    comment_only = unfold section_headers in refl

    rendered :
        (o : Option (List (List ℕ)))
        → sections shares ≡ o
        → with_header o ≡ some text
        → cut_lines [] text ≡ header_lines ⊕ expected_lines shares
    rendered none e h' = ground arith
    rendered (some texts) e h' =
        subst (λ (t : List ℕ). cut_lines [] t ≡ header_lines ⊕ expected_lines shares)
          (ap (λ (o : Option (List ℕ)). elim o [ none ↦ text | some t ↦ t ]) h')
          (lines_behind shares texts (codes "# Generated by SMBPal. Do not edit.") header_rest e
            (refl, (refl, (refl, (refl, (refl, tt))))))
