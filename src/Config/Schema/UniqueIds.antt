-- ===== src/Config/Schema/UniqueIds.antt =====
-- The ids of a valid document.
use mathlib.Core.List.{◌++◌ as ◌⊕◌}
use smbpal_desktop.Prelude.{
  All-append, ◌≡◌, refl, String, true, false, ◌||◌, none, some, List, [], ◌∷◌, arith, eq_iff, Dict,
  lookup, All, codes,
}
use smbpal_desktop.Config.Json.{Json, object, string, null, bool, int, float, list, to_dict, get}
use smbpal_desktop.Config.Schema.{Texts, is_id, is_one_of}
use smbpal_desktop.Config.Schema.Fields.{check_id}
use smbpal_desktop.Config.Schema.Records.{validate_share, validate_connection}
use smbpal_desktop.Config.Schema.Document.{validate_object}
use smbpal_desktop.Config.Schema.Accepted.{Unique, Accepted}
use smbpal_desktop.Config.Schema.Valid.{validate_object-Valid}
use smbpal_desktop.Config.Schema.Checks.{
  validate_share-ShareChecks, validate_connection-ConnectionChecks,
}
use smbpal_desktop.Config.Ids.{add_id, ids_of, items_of, all_ids}

is_one_of-append :
    (x : String) (xs ys : List String) → is_one_of x (xs ⊕ ys) ≡ (is_one_of x xs || is_one_of x ys)
is_one_of-append x [] ys = refl
is_one_of-append x (y ∷ xs) ys = ground (arith, is_one_of-append x xs ys)

apart :
    (x : String) (xs ys : List String)
    → All (λ id. is_one_of id (x ∷ xs) ≡ false) ys
    → (is_one_of x ys ≡ false) × All (λ id. is_one_of id xs ≡ false) ys
apart x xs [] a = (refl, tt)
apart x xs (y ∷ ys) a =
    let (here, there) = apart x xs ys a.1 in
    (ground (arith, here, a.0, eq_iff x y, eq_iff y x), (ground (arith, a.0), there))

Unique-append :
    (xs ys : List String)
    → Unique xs
    → Unique ys
    → All (λ id. is_one_of id xs ≡ false) ys
    → Unique (xs ⊕ ys)
Unique-append [] ys u v a = v
Unique-append (x ∷ xs) ys u v a =
    let (here, there) = apart x xs ys a in
    (ground (arith, is_one_of-append x xs ys, u.0, here), Unique-append xs ys u.1 v there)

abbrev pub IsLegal : String → Type 0
IsLegal id = is_id (codes id) ≡ true

add_id-IsLegal :
    (w : String) (value : Json) (ids : List String)
    → check_id w value ≡ []
    → All IsLegal ids
    → All IsLegal (add_id value ids)
unfolding check_id
add_id-IsLegal w null ids h a = a
add_id-IsLegal w (bool b) ids h a = a
add_id-IsLegal w (int i) ids h a = a
add_id-IsLegal w (float f) ids h a = a
add_id-IsLegal w (list xs) ids h a = a
add_id-IsLegal w (object o) ids h a = a
add_id-IsLegal w (string s) ids h a = (ground arith, a)

ids_of_shares :
    (texts : Texts) (items : List Json)
    → All (Accepted (validate_share texts)) items
    → All IsLegal (ids_of items)
unfolding ids_of
ids_of_shares texts [] a = tt
ids_of_shares texts (object o ∷ items) ((w, h), a) =
    add_id-IsLegal w (get "id" (to_dict o)) (ids_of items)
      (validate_share-ShareChecks texts w (to_dict o) h).id (ids_of_shares texts items a)
ids_of_shares texts (x ∷ items) a = ground arith

ids_of_connections :
    (texts : Texts) (items : List Json)
    → All (Accepted (validate_connection texts)) items
    → All IsLegal (ids_of items)
unfolding ids_of
ids_of_connections texts [] a = tt
ids_of_connections texts (object o ∷ items) ((w, h), a) =
    add_id-IsLegal w (get "id" (to_dict o)) (ids_of items)
      (validate_connection-ConnectionChecks texts w (to_dict o) h).id
      (ids_of_connections texts items a)
ids_of_connections texts (x ∷ items) a = ground arith

not_among :
    (between : Dict String) (shares ids : List String)
    → ((id : String) → lookup id between ≡ none → is_one_of id shares ≡ false)
    → All (λ id. lookup id between ≡ none) ids
    → All (λ id. is_one_of id shares ≡ false) ids
not_among between shares [] h a = tt
not_among between shares (id ∷ ids) h a = (h id a.0, not_among between shares ids h a.1)

-- In a document that `validate` finds no problem with no id is used twice, neither in one of the
-- two lists nor in both, and every id matches the pattern of what may be a unit's name or a file's.
pub valid_ids :
    (texts : Texts) (doc : Dict Json)
    → validate_object texts doc ≡ some []
    → Unique (all_ids doc) × All IsLegal (all_ids doc)
unfolding all_ids
valid_ids texts doc h =
    let valid = validate_object-Valid texts doc h in
    let shares = ids_of (items_of "shares" doc) in
    let connections = ids_of (items_of "connections" doc) in
    (
      Unique-append shares connections valid.shares.unique valid.connections.unique (
          not_among valid.between shares connections (λ id e. (valid.shares.remembers id e).1)
            valid.connections.fresh),
      All-append IsLegal shares connections
          (ids_of_shares texts (items_of "shares" doc) valid.shares.accepted)
          (ids_of_connections texts (items_of "connections" doc) valid.connections.accepted),
    )
