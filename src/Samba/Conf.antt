-- ===== src/Samba/Conf.antt =====
-- samba/conf.py: the file that SMBPal owns, as a list of code points; none is GenerationRefused.
pub mod Sections
pub mod Rendered
pub mod Accepts
use mathlib.Core.List.{◌++◌ as ◌⊕◌}
use smbpal_desktop.Prelude.{
  ℕ, zero, suc, String, Bool, true, false, not, ◌||◌, ◌&&◌, Option, none, some, List, [], ◌∷◌,
  if◌then◌else◌, str_eq, codes, elem, ◌==◌, Dict, lookup,
}
use smbpal_desktop.Config.Json.{
  ℤ, pos, negsuc, Json, null, bool, int, float, string, list, object, no_items, no_members, get,
}

-- Whether Python takes a value for true.
unfoldable pub is_true : Json → Bool
is_true null = false
is_true (bool b) = b
is_true (int (pos zero)) = false
is_true (int (pos (suc n))) = true
is_true (int (negsuc n)) = true
is_true (float f) = not (str_eq f "0.0" || str_eq f "-0.0")
is_true (string s) = not (str_eq s "")
is_true (list no_items) = false
is_true (list _) = true
is_true (object no_members) = false
is_true (object _) = true

abbrev pub is_clean : List ℕ → Bool
is_clean text = not (elem 10 text || elem 13 text || elem 0 text)

-- _safe
unfoldable pub safe_value : Json → Option (List ℕ)
safe_value (string s) = if not (str_eq s "") && is_clean (codes s) then some (codes s) else none
safe_value _ = none

unfoldable pub safe : Dict Json → String → Option (List ℕ)
unfolding safe_value
safe share key = safe_value (get key share)

-- `"\n".join(lines)`
unfoldable pub join_lines : List (List ℕ) → List ℕ
join_lines [] = []
join_lines (line ∷ []) = line
join_lines (line ∷ next ∷ lines) = line ⊕ 10 ∷ join_lines (next ∷ lines)

abbrev pub section_header : List ℕ → List ℕ
section_header name = b'[' ∷ name ⊕ b']' ∷ []

abbrev pub fixed_lines : List ℕ → Bool → List (List ℕ)
fixed_lines path read_only =
    (codes "   path = " ⊕ path)
    ∷ codes (if read_only then "   read only = yes" else "   read only = no")
    ∷ codes "   browseable = yes"
    ∷ codes "   guest ok = no"
    ∷ []

-- The lines of a section, of which the last is there for a share with a `credential_ref`.
unfoldable pub user_lines : Dict Json → Option (List (List ℕ))
user_lines share =
    if is_true (get "credential_ref" share)
    then elim (safe share "credential_ref") [
      | none ↦ none
      | some user ↦ some ((codes "   valid users = " ⊕ user) ∷ [])
    ]
    else some []

abbrev pub section_of :
    Option (List ℕ) → Option (List ℕ) → Bool → Option (List (List ℕ)) → Option (List (List ℕ))
section_of (some name) (some path) read_only (some users) =
    some (section_header name ∷ (fixed_lines path read_only ⊕ users))
section_of _ _ _ _ = none

unfoldable pub section_lines : Dict Json → Option (List (List ℕ))
unfolding safe user_lines
section_lines share =
    section_of (safe share "name") (safe share "path") (is_true (get "read_only" share))
      (user_lines share)

-- _render_share
abbrev pub section_text : List (List ℕ) → List ℕ
section_text lines = join_lines lines ⊕ 10 ∷ []

-- HEADER
abbrev pub header_lines : List (List ℕ)
header_lines =
    codes "# Generated by SMBPal. Do not edit."
    ∷ codes "#"
    ∷ codes "# This file is rewritten in full whenever a share changes. SMBPal owns it"
    ∷ codes "# completely and never parses or modifies /etc/samba/smb.conf beyond the one"
    ∷ codes "# marked include block that points here."
    ∷ []

-- `share.get("enabled", True)`
unfoldable pub is_enabled : Dict Json → Bool
unfolding lookup is_true
is_enabled share = elim (lookup "enabled" share) [ none ↦ true | some value ↦ is_true value ]

abbrev pub add_section : Option (List (List ℕ)) → Option (List (List ℕ)) → Option (List (List ℕ))
add_section (some lines) (some sections) = some (section_text lines ∷ sections)
add_section _ _ = none

-- The loop: the texts of the sections behind HEADER.
unfoldable pub sections : List (Dict Json) → Option (List (List ℕ))
unfolding section_lines
sections [] = some []
sections (share ∷ shares) =
    let rest = sections shares in
    if is_enabled share then add_section (section_lines share) rest else rest

abbrev pub with_header : Option (List (List ℕ)) → Option (List ℕ)
with_header none = none
with_header (some texts) = some (join_lines (section_text header_lines ∷ texts))

-- render
unfoldable pub render : List (Dict Json) → Option (List ℕ)
unfolding sections join_lines
render shares = with_header (sections shares)
