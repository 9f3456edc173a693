-- ===== src/Config/Schema.antt =====
-- config/schema.py: the problems, the patterns and the sets of characters.
pub mod Fields
pub mod Records
pub mod Document
pub mod Accepted
pub mod Valid
pub mod Checks
pub mod UniqueIds
pub mod UniqueNames
pub mod Unhashable
pub mod SafeText
use Prim.Native.Nat.{Ordering}
use Prim.Native.String.{◌++◌, compare}
use mathlib.Core.List.{◌++◌ as ◌⊕◌}
use smbpal_desktop.Prelude.{
  ℕ, ◌+◌, String, Bool, true, false, not, ◌&&◌, ◌||◌, Option, none, some, List, [], ◌∷◌,
  if◌then◌else◌, leb, ltb, ◌==◌, str_eq, codes, elem, any, all, length, Dict, lookup,
}
use smbpal_desktop.Config.Json.{Json, null, bool, int, float, string, list, object, get, kind}

-- The tables and texts of Python that the checks use: `str.lower`, `repr` of a value and of a
-- character.
pub record Texts : Type 0 where
  pub lower : String → String
  pub repr : Json → String
  pub repr_char : ℕ → String

pub record Problem : Type 0 where
  pub where_ : String
  pub message : String

abbrev pub problem : String → String → List Problem
problem where_ message = record { where_ = where_; message = message } ∷ []

abbrev pub is_letter : ℕ → Bool
is_letter c = (leb b'a' c && leb c b'z') || (leb b'A' c && leb c b'Z')

abbrev pub is_digit : ℕ → Bool
is_digit c = leb b'0' c && leb c b'9'

-- _ID_RE
abbrev pub is_id_char : ℕ → Bool
is_id_char c = is_letter c || is_digit c || (c == b'_') || (c == b'-')

unfoldable pub is_id : List ℕ → Bool
is_id [] = false
is_id (c ∷ text) = (is_letter c || is_digit c) && all is_id_char text && leb (length text) 63

-- `[a-z_][a-z0-9_-]{0,31}`
abbrev pub is_user_char : ℕ → Bool
is_user_char c = (leb b'a' c && leb c b'z') || is_digit c || (c == b'_') || (c == b'-')

unfoldable pub is_user_name : List ℕ → Bool
is_user_name [] = false
is_user_name (c ∷ text) =
    ((leb b'a' c && leb c b'z') || (c == b'_')) && all is_user_char text && leb (length text) 31

-- _SHARE_NAME_FORBIDDEN, _REMOTE_SHARE_NAME_FORBIDDEN and _HOST_FORBIDDEN, in order.
abbrev pub share_name_forbidden : List ℕ
share_name_forbidden = 0 ∷ 9 ∷ 10 ∷ 13 ∷ 34 ∷ 36 ∷ 37 ∷ 39 ∷ 47 ∷ 58 ∷ 59 ∷ 91 ∷ 92 ∷ 93 ∷ 96 ∷ []

abbrev pub remote_share_name_forbidden : List ℕ
remote_share_name_forbidden = 0 ∷ 9 ∷ 10 ∷ 13 ∷ 37 ∷ 47 ∷ 92 ∷ []

abbrev pub host_forbidden : List ℕ
host_forbidden = 0 ∷ 9 ∷ 10 ∷ 13 ∷ 32 ∷ 34 ∷ 36 ∷ 37 ∷ 39 ∷ 47 ∷ 91 ∷ 92 ∷ 93 ∷ 96 ∷ []

abbrev pub is_one_of : String → List String → Bool
is_one_of s texts = any (str_eq s) texts

abbrev pub reserved_share_names : List String
reserved_share_names = "global" ∷ "homes" ∷ "printers" ∷ "print$" ∷ []

-- `sorted(forbidden & set(value))`
unfoldable pub bad_chars : List ℕ → List ℕ → List ℕ
bad_chars [] text = []
bad_chars (c ∷ forbidden) text =
    let rest = bad_chars forbidden text in if elem c text then c ∷ rest else rest

-- `", ".join(…)`
unfoldable pub join_comma : List String → String
join_comma [] = ""
join_comma (s ∷ []) = s
join_comma (s ∷ t ∷ texts) = s ++ ", " ++ join_comma (t ∷ texts)

unfoldable pub reprs : (ℕ → String) → List ℕ → List String
reprs repr_char [] = []
reprs repr_char (c ∷ cs) = repr_char c ∷ reprs repr_char cs

-- `"/" in`, `value.split("/")` with a component "..": `dots` counts the characters of the component
-- so far if they are all dots.
unfoldable pub has_parent : Option ℕ → List ℕ → Bool
has_parent none [] = false
has_parent (some n) [] = n == 2
has_parent dots (c ∷ text) =
    let next = has_parent (some 0) text in
    if c == b'/' then elim dots [ none ↦ next | some n ↦ (n == 2) || next ] else elim dots [
      | none ↦ has_parent none text
      | some n ↦ if c == b'.' then has_parent (some (n + 1)) text else has_parent none text
    ]
