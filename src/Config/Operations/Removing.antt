-- ===== src/Config/Operations/Removing.antt =====
-- config/operations.py: what takes a record out of the configuration.
use smbpal_desktop.Prelude.{
  ℕ, zero, suc, String, Bool, false, Option, none, some, List, [], ◌∷◌, if◌then◌else◌, str_eq, Dict,
  ok, err, ◌>>=◌,
}
use smbpal_desktop.Config.Json.{Json, string, get}
use smbpal_desktop.Config.Schema.{Texts}
use smbpal_desktop.Config.Ids.{items_of}
use smbpal_desktop.Config.Operations.{Answer, validate_or_raise, with_items, fields, is_text}
use smbpal_desktop.Config.Operations.OperationError.{not_found}

-- The first of the records that passes a test.
unfoldable pub index_of : (Json → Bool) → List Json → Option ℕ
index_of test [] = none
index_of test (x ∷ items) =
    let later : Option ℕ = elim (index_of test items) [ none ↦ none | some n ↦ some (suc n) ] in
    if test x then some zero else later

abbrev is_named : Texts → String → String → Json → Bool
is_named texts secondary ref x = elim (get secondary (fields x)) [
  | string value ↦ str_eq (texts.lower value) (texts.lower ref)
  | _ ↦ false
]

-- _find
unfoldable pub find : Texts → String → String → List Json → Option ℕ
unfolding index_of
find texts ref secondary items =
    let second = index_of (is_named texts secondary ref) items in
    elim (index_of (λ x. is_text ref (get "id" (fields x))) items) [
      | some index ↦ some index
      | none ↦ second
    ]

-- items.pop(index): what is taken out, and the rest
unfoldable pub pop : ℕ → List Json → Option (Json × List Json)
pop n [] = none
pop zero (x ∷ items) = some (x, items)
pop (suc n) (x ∷ items) = elim (pop n items) [
  | none ↦ none
  | some (taken, rest) ↦ some (taken, x ∷ rest)
]

abbrev pub same_place : String → String
same_place where_ = where_

-- remove_share and remove_connection, of the list's key and the field that may be named instead of the id
unfoldable pub remove_record :
    Texts → String → String → String → Dict Json → Answer (Dict Json × Json)
remove_record texts key secondary ref doc = elim (find texts ref secondary (items_of key doc)) [
  | none ↦ err not_found
  | some index ↦ elim (pop index (items_of key doc)) [
    | none ↦ err not_found
    | some (removed, rest) ↦
        validate_or_raise texts same_place (with_items key rest doc) >>= λ result.
        ok (result, removed)
  ]
]

abbrev pub remove_share : Texts → String → Dict Json → Answer (Dict Json × Json)
remove_share texts = remove_record texts "shares" "name"

abbrev pub remove_connection : Texts → String → Dict Json → Answer (Dict Json × Json)
remove_connection texts = remove_record texts "connections" "mountpoint"
