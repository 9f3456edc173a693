-- ===== src/Config/Schema/UniqueNames.antt =====
-- The names of the shares of a valid document.
use smbpal_desktop.Prelude.{
  ℕ, ◌+◌, ◌≡◌, refl, String, false, Option, none, some, List, [], ◌∷◌, arith, Dict, lookup, insert,
  lookup-insert, All, Option-cases, inl, inr,
}
use smbpal_desktop.Config.Json.{
  Json, object, string, null, bool, int, float, list, to_list, to_dict, get,
}
use smbpal_desktop.Config.Schema.{Texts, is_one_of}
use smbpal_desktop.Config.Schema.Document.{
  check_name_unique, unique_names, check_unique_share_names, validate_object,
}
use smbpal_desktop.Config.Schema.Accepted.{append_empty, Unique}
use smbpal_desktop.Config.Schema.Valid.{validate_object-Valid}
use smbpal_desktop.Config.Ids.{listed_items, items_of}

-- The names of a list of shares, as SMB compares them.
abbrev pub add_name : Texts → Json → List String → List String
add_name texts (string name) names = texts.lower name ∷ names
add_name texts _ names = names

unfoldable pub lowered_names : Texts → List Json → List String
lowered_names texts [] = []
lowered_names texts (object o ∷ shares) =
    add_name texts (get "name" (to_dict o)) (lowered_names texts shares)
lowered_names texts (_ ∷ shares) = lowered_names texts shares

abbrev Fresh : Dict ℕ → List String → Type 0
Fresh seen names = Unique names × All (λ n. lookup n seen ≡ none) names

behind_insert :
    (name : String) (index : ℕ) (seen : Dict ℕ) (names : List String)
    → All (λ n. lookup n (insert name index seen) ≡ none) names
    → (is_one_of name names ≡ false) × All (λ n. lookup n seen ≡ none) names
behind_insert name index seen [] a = (refl, tt)
behind_insert name index seen (n ∷ names) a =
    let (apart, rest) = behind_insert name index seen names a.1 in
    (
      ground (arith, lookup-insert name n index seen, a.0, apart),
      (ground (arith, lookup-insert name n index seen, a.0), rest),
    )

add_name-Fresh :
    (texts : Texts) (index : ℕ) (value : Json) (seen : Dict ℕ) (names : List String)
    → (check_name_unique texts index value seen).0 ≡ []
    → Fresh (check_name_unique texts index value seen).1 names
    → Fresh seen (add_name texts value names)
unfolding check_name_unique
add_name-Fresh texts index (string name) seen names h f =
    elim (Option-cases (lookup (texts.lower name) seen)) [
      | inr (other, e) ↦ ground arith
      | inl e ↦
          let fresh : Fresh (insert (texts.lower name) index seen) names =
            rw (e, check_name_unique) at f in
          let (apart, rest) = behind_insert (texts.lower name) index seen names fresh.1 in
          ((apart, fresh.0), (e, rest))
    ]
add_name-Fresh texts index null seen names h f = f
add_name-Fresh texts index (bool b) seen names h f = f
add_name-Fresh texts index (int i) seen names h f = f
add_name-Fresh texts index (float x) seen names h f = f
add_name-Fresh texts index (list xs) seen names h f = f
add_name-Fresh texts index (object o) seen names h f = f

unique_names-Fresh :
    (texts : Texts) (index : ℕ) (shares : List Json) (seen : Dict ℕ)
    → unique_names texts index shares seen ≡ []
    → Fresh seen (lowered_names texts shares)
unfolding unique_names lowered_names
unique_names-Fresh texts index [] seen h = (tt, tt)
unique_names-Fresh texts index (object o ∷ shares) seen h =
    let checked = check_name_unique texts index (get "name" (to_dict o)) seen in
    let (own, rest) = append_empty checked.0 (unique_names texts (index + 1) shares checked.1) h in
    add_name-Fresh texts index (get "name" (to_dict o)) seen (lowered_names texts shares) own
      (unique_names-Fresh texts (index + 1) shares checked.1 rest)
unique_names-Fresh texts index (x ∷ shares) seen h =
    unique_names-Fresh texts (index + 1) shares seen h

listed_Unique :
    (texts : Texts) (value : Option Json)
    → check_unique_share_names texts (elim value as (λ _. Json) [ none ↦ null | some v ↦ v ]) ≡ []
    → Unique (lowered_names texts (listed_items value))
unfolding check_unique_share_names listed_items lowered_names
listed_Unique texts none h = tt
listed_Unique texts (some (list items)) h = (unique_names-Fresh texts 0 (to_list items) [] h).0
listed_Unique texts (some x) h = tt

-- In a document that `validate` finds no problem with no two shares have names that SMB, which does
-- not tell capitals, takes for one.
pub valid_names :
    (texts : Texts) (doc : Dict Json)
    → validate_object texts doc ≡ some []
    → Unique (lowered_names texts (items_of "shares" doc))
unfolding get
valid_names texts doc h =
    listed_Unique texts (lookup "shares" doc) (validate_object-Valid texts doc h).names
