-- ===== src/Samba/Conf/Accepts.antt =====
-- The generator refuses no share of a valid document that has a name and a path.
use Prim.Native.String.{◌++◌}
use mathlib.Core.List.{◌++◌ as ◌⊕◌}
use smbpal_desktop.Prelude.{
  ℕ, ◌≡◌, refl, subst, String, Bool, true, false, not, ◌&&◌, Option, some, List, [], ◌∷◌, arith,
  str_eq, eq_iff, codes, all, All, Dict, Bool-cases, inl, inr,
}
use smbpal_desktop.Config.Json.{Json, string, null, bool, int, float, list, object, get, to_dict}
use smbpal_desktop.Config.Ids.{items_of}
use smbpal_desktop.Config.Schema.{Texts, is_id, is_id_char}
use smbpal_desktop.Config.Schema.Fields.{check_optional_ref, is_absolute, forbidden_in}
use smbpal_desktop.Config.Schema.Records.{validate_share}
use smbpal_desktop.Config.Schema.Document.{validate_object}
use smbpal_desktop.Config.Schema.Accepted.{Accepted}
use smbpal_desktop.Config.Schema.Checks.{validate_share-ShareChecks}
use smbpal_desktop.Config.Schema.Valid.{validate_object-Valid}
use smbpal_desktop.Config.Schema.SafeText.{
  IsName, IsPath, check_share_name-IsName, check_absolute_path-IsPath,
}
use smbpal_desktop.Samba.Conf.{
  is_true, is_clean, safe_value, safe, user_lines, section_lines, is_enabled, sections, render,
  section_header, fixed_lines, section_text, join_lines, header_lines,
}

abbrev Succeeds {ℓ} : {A : Type ℓ} → Option A → Type ℓ
Succeeds {A = A} o = (a : A) × (o ≡ some a)

abbrev pub is_null : Json → Bool
is_null null = true
is_null _ = false

name_safe :
    (texts : Texts) (value : Json)
    → IsName (forbidden_in texts true) 80 value
    → is_null value ≡ false
    → Succeeds (safe_value value)
unfolding safe_value
name_safe texts (string s) n h =
    let clean : (not (str_eq s "") && is_clean (codes s)) ≡ true = ground arith in
    (codes s, rw clean refl)
name_safe texts null n h = ground arith
name_safe texts (bool b) n h = ground arith
name_safe texts (int i) n h = ground arith
name_safe texts (float f) n h = ground arith
name_safe texts (list xs) n h = ground arith
name_safe texts (object o) n h = ground arith

not_empty : (s : String) → is_absolute (codes s) ≡ true → str_eq s "" ≡ false
not_empty s h = elim (Bool-cases (str_eq s "")) [
  | inr n ↦ n
  | inl e ↦
      let empty : is_absolute (codes "") ≡ true =
        subst (λ (t : String). is_absolute (codes t) ≡ true) ((eq_iff s "").0 e) h in
      ground arith
]

path_safe : (value : Json) → IsPath value → is_null value ≡ false → Succeeds (safe_value value)
unfolding safe_value
path_safe (string s) n h =
    let clean : (not (str_eq s "") && is_clean (codes s)) ≡ true =
      ground (arith, not_empty s n.0) in
    (codes s, rw clean refl)
path_safe null n h = ground arith
path_safe (bool b) n h = ground arith
path_safe (int i) n h = ground arith
path_safe (float f) n h = ground arith
path_safe (list xs) n h = ground arith
path_safe (object o) n h = ground arith

id_clean : (text : List ℕ) → all is_id_char text ≡ true → is_clean text ≡ true
id_clean [] h = refl
id_clean (c ∷ text) h = ground (arith, id_clean text)

is_id_clean : (text : List ℕ) → is_id text ≡ true → is_clean text ≡ true
unfolding is_id
is_id_clean [] h = refl
is_id_clean (c ∷ text) h = ground (arith, id_clean text)

ref_safe :
    (w : String) (value : Json)
    → check_optional_ref w value ≡ []
    → is_true value ≡ true
    → Succeeds (safe_value value)
unfolding check_optional_ref safe_value is_true
ref_safe w (string s) h t =
    let legal : is_id (codes s) ≡ true = ground arith in
    let clean : (not (str_eq s "") && is_clean (codes s)) ≡ true =
      ground (arith, is_id_clean (codes s) legal) in
    (codes s, rw clean refl)
ref_safe w null h t = ground arith
ref_safe w (bool b) h t = ground arith
ref_safe w (int i) h t = ground arith
ref_safe w (float f) h t = ground arith
ref_safe w (list xs) h t = ground arith
ref_safe w (object o) h t = ground arith

users-Succeeds :
    (w : String) (share : Dict Json)
    → check_optional_ref w (get "credential_ref" share) ≡ []
    → Succeeds (user_lines share)
unfolding user_lines safe
users-Succeeds w share h = elim (Bool-cases (is_true (get "credential_ref" share))) [
  | inr e ↦ ([], rw (e, user_lines) refl)
  | inl e ↦
      let (user, found) = ref_safe w (get "credential_ref" share) h e in
      ((codes "   valid users = " ⊕ user) ∷ [], rw (e, found, user_lines) refl)
]

section-Succeeds :
    (texts : Texts) (w : String) (share : Dict Json)
    → validate_share texts w share ≡ some []
    → is_null (get "name" share) ≡ false
    → is_null (get "path" share) ≡ false
    → Succeeds (section_lines share)
unfolding section_lines safe
section-Succeeds texts w share h n p =
    let checks = validate_share-ShareChecks texts w share h in
    let (name, named) =
      name_safe texts (get "name" share)
        (check_share_name-IsName texts true (w ++ ".name") (get "name" share) checks.name) n in
    let (path, found) =
      path_safe (get "path" share)
        (check_absolute_path-IsPath texts (w ++ ".path") (get "path" share) checks.path) p in
    let (users, listed) = users-Succeeds (w ++ ".credential_ref") share checks.credential_ref in
    (
      section_header name ∷ (fixed_lines path (is_true (get "read_only" share)) ⊕ users),
      rw (named, found, listed, section_lines) refl,
    )

-- The records of a list, and whether each has a name and a path.
unfoldable pub records : List Json → List (Dict Json)
records [] = []
records (object o ∷ items) = to_dict o ∷ records items
records (_ ∷ items) = records items

abbrev pub IsNamed : Json → Type 0
IsNamed (object o) =
    (is_null (get "name" (to_dict o)) ≡ false) × (is_null (get "path" (to_dict o)) ≡ false)
IsNamed _ = Unit

sections-Succeeds :
    (texts : Texts) (items : List Json)
    → All (Accepted (validate_share texts)) items
    → All IsNamed items
    → Succeeds (sections (records items))
unfolding sections records
sections-Succeeds texts [] a n = ([], refl)
sections-Succeeds texts (object o ∷ items) ((w, h), a) n =
    let (rest, e) = sections-Succeeds texts items a n.1 in
    let (lines, l) = section-Succeeds texts w (to_dict o) h n.0.0 n.0.1 in
    elim (Bool-cases (is_enabled (to_dict o))) [
      | inl on ↦ (section_text lines ∷ rest, rw (on, e, l, sections) refl)
      | inr off ↦ (rest, rw (off, e, sections) refl)
    ]
sections-Succeeds texts (x ∷ items) a n = ground arith

-- For a document that `validate` finds no problem with, the file is generated: nothing is refused. It
-- is supposed that no share's name or path is null, which `validate` lets pass.
pub render_succeeds :
    (texts : Texts) (doc : Dict Json)
    → validate_object texts doc ≡ some []
    → All IsNamed (items_of "shares" doc)
    → (text : List ℕ) × (render (records (items_of "shares" doc)) ≡ some text)
unfolding render
render_succeeds texts doc h n =
    let valid = validate_object-Valid texts doc h in
    let (rest, e) = sections-Succeeds texts (items_of "shares" doc) valid.shares.accepted n in
    (join_lines (section_text header_lines ∷ rest), rw (e, render) refl)
