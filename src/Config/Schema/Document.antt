-- ===== src/Config/Schema/Document.antt =====
-- config/schema.py, the two lists and the document. `none` stands for the TypeError of a value that
-- cannot be hashed, which leaves `validate`.
use Prim.Native.String.{◌++◌}
use mathlib.Core.List.{◌++◌ as ◌⊕◌}
use smbpal_desktop.Prelude.{
  ℕ, suc, zero, ◌+◌, String, List, [], ◌∷◌, some, none, Option, Dict, lookup, insert,
}
use smbpal_desktop.Prelude.Show.{decimal}
use smbpal_desktop.Config.Json.{
  pos, negsuc, Json, int, string, list, object, to_list, to_dict, get, kind,
}
use smbpal_desktop.Config.Schema.{Texts, Problem, problem}
use smbpal_desktop.Config.Schema.Fields.{check_keys}
use smbpal_desktop.Config.Schema.Records.{top_keys, validate_connection, validate_share}

-- _check_id_unique: the problems, and the ids seen by then with where they were seen.
unfoldable pub check_id_unique : String → Json → Dict String → List Problem × Dict String
check_id_unique where_ (string id) seen = elim (lookup id seen) [
  | some other ↦ (problem (where_ ++ ".id") ("duplicates the id already used by " ++ other), seen)
  | none ↦ ([], insert id where_ seen)
]
check_id_unique where_ _ seen = ([], seen)

abbrev pub place : String → ℕ → String
place key index = key ++ "[" ++ decimal index ++ "]"

abbrev pub Validator : Type 0
Validator = String → Dict Json → Option (List Problem)

abbrev pub prepend :
    List Problem → Option (List Problem × Dict String) → Option (List Problem × Dict String)
prepend xs none = none
prepend xs (some (ys, seen)) = some (xs ⊕ ys, seen)

-- The problems of one record, those of its id, and those of the records behind it.
abbrev pub with_rest :
    Option (List Problem)
    → List Problem
    → Option (List Problem × Dict String)
    → Option (List Problem × Dict String)
with_rest none duplicates rest = none
with_rest (some problems) duplicates rest = prepend (problems ⊕ duplicates) rest

-- The loop of _validate_list, from an index on.
unfoldable pub validate_items :
    Validator → String → ℕ → List Json → Dict String → Option (List Problem × Dict String)
validate_items validator key index [] seen = some ([], seen)
validate_items validator key index (object o ∷ items) seen =
    let (duplicates, after) = check_id_unique (place key index) (get "id" (to_dict o)) seen in
    let rest = validate_items validator key (index + 1) items after in
    with_rest (validator (place key index) (to_dict o)) duplicates rest
validate_items validator key index (value ∷ items) seen =
    prepend (problem (place key index) ("expected an object, got " ++ kind value))
      (validate_items validator key (index + 1) items seen)

-- _validate_list; a field that is missing is an empty list, one that is null is none.
unfoldable pub validate_value :
    Validator → String → Option Json → Dict String → Option (List Problem × Dict String)
validate_value validator key none seen = some ([], seen)
validate_value validator key (some (list items)) seen =
    validate_items validator key 0 (to_list items) seen
validate_value validator key (some value) seen =
    some (problem key ("expected a list, got " ++ kind value), seen)

abbrev pub validate_list :
    Validator → String → Dict Json → Dict String → Option (List Problem × Dict String)
validate_list validator key doc seen = validate_value validator key (lookup key doc) seen

-- The version.
unfoldable pub check_version : Json → List Problem
check_version (int (pos zero)) = problem "version" "is 0; the first schema version is 1"
check_version (int (pos (suc zero))) = []
check_version (int (pos (suc (suc n)))) = problem "version" (
    "is "
    ++ decimal (suc (suc n))
    ++ ", but this SMBPal understands up to 1. This file was written by a newer version — upgrade rather than editing it down.")
check_version (int (negsuc n)) =
    problem "version" ("is -" ++ decimal (suc n) ++ "; the first schema version is 1")
check_version value = problem "version" ("expected an integer, got " ++ kind value)

-- The problems before the two lists, those of the lists, and those behind.
abbrev pub both_lists :
    List Problem
    → Option (List Problem × Dict String)
    → (Dict String → Option (List Problem × Dict String))
    → List Problem
    → Option (List Problem)
both_lists first none second last = none
both_lists first (some (xs, seen)) second last = elim (second seen) [
  | none ↦ none
  | some (ys, after) ↦ some (first ⊕ xs ⊕ ys ⊕ last)
]

module _ (texts : Texts) where
  -- One name against `seen`, which has the index of each lowered name.
  unfoldable pub check_name_unique : ℕ → Json → Dict ℕ → List Problem × Dict ℕ
  check_name_unique index (string name) seen = elim (lookup (texts.lower name) seen) [
    | some other ↦ (
      problem (place "shares" index ++ ".name") (
          "is "
          ++ texts.repr (string name)
          ++ ", which collides with "
          ++ place "shares" other
          ++ " — SMB share names are case-insensitive"),
      seen,
    )
    | none ↦ ([], insert (texts.lower name) index seen)
  ]
  check_name_unique index _ seen = ([], seen)

  -- _check_unique_share_names, the loop.
  unfoldable pub unique_names : ℕ → List Json → Dict ℕ → List Problem
  unfolding check_name_unique
  unique_names index [] seen = []
  unique_names index (object o ∷ shares) seen =
      let (own, after) = check_name_unique index (get "name" (to_dict o)) seen in
      own ⊕ unique_names (index + 1) shares after
  unique_names index (_ ∷ shares) seen = unique_names (index + 1) shares seen

  unfoldable pub check_unique_share_names : Json → List Problem
  unfolding unique_names to_list
  check_unique_share_names (list items) = unique_names 0 (to_list items) []
  check_unique_share_names _ = []

  -- `validate` of an object: the connections are checked with the ids of the shares in mind.
  unfoldable pub validate_object : Dict Json → Option (List Problem)
  validate_object doc =
      both_lists
        (check_keys "<document>" doc top_keys ("version" ∷ []) ⊕ check_version (get "version" doc))
        (validate_list (validate_share texts) "shares" doc [])
        (validate_list (validate_connection texts) "connections" doc)
        (check_unique_share_names (get "shares" doc))

  -- validate
  unfoldable pub validate : Json → Option (List Problem)
  unfolding validate_object
  validate (object o) = validate_object (to_dict o)
  validate doc = some (problem "<document>" ("expected an object, got " ++ kind doc))
