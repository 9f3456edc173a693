-- ===== src/Config/Operations.antt =====
-- config/operations.py: what adds a record to the configuration. A document is one
-- that `load` returned, so its lists are lists of objects.
pub mod Removing
pub mod Lists
pub mod RoundTrip
pub mod Mountpoints
pub mod Edits
use Prim.Native.String.{◌++◌}
use mathlib.Core.List.{◌++◌ as ◌⊕◌}
use smbpal_desktop.Prelude.{
  ℕ, zero, suc, String, Bool, true, false, not, ◌&&◌, ◌||◌, Option, none, some, List, [], ◌∷◌, map,
  if◌then◌else◌, str_eq, opt_str_eq, codes, any, length, Dict, lookup, insert, is_prefix, Result,
  ok, err, ◌>>=◌,
}
use smbpal_desktop.Prelude.Show.{decimal}
use smbpal_desktop.Prelude.Codes.{text_of}
use smbpal_desktop.Config.Json.{
  Json, null, bool, int, float, string, list, object, Items, no_items, item, Members, member,
  no_members, to_list, of_list, to_dict, get,
}
use smbpal_desktop.Config.Schema.{Texts, Problem}
use smbpal_desktop.Config.Schema.Document.{validate_object}
use smbpal_desktop.Config.Ids.{items_of, all_ids}
use smbpal_desktop.Config.Naming.{make_id}
use smbpal_desktop.Config.Mountpoint.{MountpointStyle, default_mountpoint}
use smbpal_desktop.Samba.Include.{is_space}

-- What is raised. `unhashable` is the TypeError of a validation that ends in one, `no_directory` the
-- InvalidParams of default_mountpoint.
pub data OperationError : Type 0 where
  already_exists not_found no_free_id no_directory unhashable : OperationError
  config_invalid : List Problem → OperationError

abbrev pub Answer {ℓ} : Type ℓ → Type ℓ
Answer A = Result OperationError A

abbrev drop_codes : ℕ → List ℕ → List ℕ
drop_codes zero text = text
drop_codes (suc n) [] = []
drop_codes (suc n) (c ∷ text) = drop_codes n text

-- _strip_index, of the list's key and the record's place in it
unfoldable pub strip_index : String → ℕ → String → String
unfolding decimal text_of
strip_index key index where_ =
    let prefix = key ++ "[" ++ decimal index ++ "]" in
    if str_eq where_ prefix
    then "this record"
    else if is_prefix (codes (prefix ++ ".")) (codes where_)
    then text_of (drop_codes (suc (length (codes prefix))) (codes where_))
    else where_

abbrev relabelled : (String → String) → Problem → Problem
relabelled relabel p = record p { where_ = relabel p.where_ }

-- validate_or_raise, of smbpal/config/schema.py
unfoldable pub validate_or_raise : Texts → (String → String) → Dict Json → Answer (Dict Json)
validate_or_raise texts relabel doc = elim (validate_object texts doc) [
  | none ↦ err unhashable
  | some [] ↦ ok doc
  | some (p ∷ problems) ↦ err (config_invalid (map (relabelled relabel) (p ∷ problems)))
]

-- The document with these records in one of its lists.
abbrev pub with_items : String → List Json → Dict Json → Dict Json
with_items key items doc = insert key (list (of_list items)) doc

abbrev pub fields : Json → Dict Json
fields (object members) = to_dict members
fields _ = []

-- `value == text`, of a value and a text
abbrev pub is_text : String → Json → Bool
is_text text (string s) = str_eq s text
is_text text _ = false

-- str(existing.get(key, "")).lower()
abbrev shown : Texts → Option Json → String
shown texts none = ""
shown texts (some (string s)) = s
shown texts (some value) = texts.repr value

abbrev lower_field : Texts → String → Json → String
lower_field texts key existing = texts.lower (shown texts (lookup key (fields existing)))

abbrev optional_json : Option String → Json
optional_json none = null
optional_json (some s) = string s

-- `id or make_id(name, all_ids(result))`
unfoldable pub chosen_id : Texts → Option String → String → Dict Json → Answer String
unfolding make_id text_of all_ids
chosen_id texts given name doc =
    if opt_str_eq given "" then made else elim given [ none ↦ made | some id ↦ ok id ]
  where
    made : Answer String
    made = elim (make_id texts.lower name (all_ids doc)) [
      | none ↦ err no_free_id
      | some codes_of_id ↦ ok (text_of codes_of_id)
    ]

abbrev pub is_used : String → List String → Bool
is_used id ids = any (λ taken. str_eq taken id) ids

abbrev pub unless_taken : List String → String → Answer String
unless_taken ids id = if is_used id ids then err already_exists else ok id

abbrev pub free_id : Texts → Option String → String → Dict Json → Answer String
free_id texts given name doc = chosen_id texts given name doc >>= unless_taken (all_ids doc)

-- The record goes last in its list, and the document is validated.
unfoldable pub append_record : Texts → String → Members → Dict Json → Answer (Dict Json × Json)
unfolding validate_or_raise of_list strip_index
append_record texts key added doc =
    let items = items_of key doc in
    validate_or_raise texts (strip_index key (length items))
      (with_items key (items ⊕ object added ∷ []) doc)
    >>= λ result. ok (result, object added)

-- The arguments of add_share.
pub record ShareArgs : Type 0 where
  pub name : String
  pub path : String
  pub id : Option String
  pub read_only : Bool
  pub credential_ref : Option String
  pub enabled : Bool

unfoldable pub share_record : ShareArgs → String → Members
share_record args id = member "type" (string "os") (
    member "id" (string id) (
      member "name" (string args.name) (
        member "path" (string args.path) (
          member "read_only" (bool args.read_only) (
            member "credential_ref" (optional_json args.credential_ref)
              (member "enabled" (bool args.enabled) no_members))))))

-- add_share, once it has the id
abbrev pub store_share : Texts → ShareArgs → Dict Json → String → Answer (Dict Json × Json)
store_share texts args doc id = append_record texts "shares" (share_record args id) doc

-- add_share
unfoldable pub add_share : Texts → ShareArgs → Dict Json → Answer (Dict Json × Json)
add_share texts args doc =
    if any (λ existing. str_eq (lower_field texts "name" existing) (texts.lower args.name))
      (items_of "shares" doc)
    then err already_exists
    else (free_id texts args.id args.name doc >>= store_share texts args doc)

-- The arguments of add_connection.
pub record ConnectionArgs : Type 0 where
  pub host : String
  pub share : String
  pub mountpoint : Option String
  pub id : Option String
  pub credential_ref : Option String
  pub auto_connect : String
  pub owner : Option String
  pub fallback_host : Option String
  pub in_use : List String
  pub style : MountpointStyle

unfoldable pub connection_record : ConnectionArgs → String → String → Members
connection_record args mountpoint id = member "type" (string "os") (
    member "id" (string id) (
      member "host" (string args.host) (
        member "share" (string args.share) (
          member "mountpoint" (string mountpoint) (
            member "credential_ref" (optional_json args.credential_ref) (
              member "auto_connect" (string args.auto_connect) (
                member "owner" (optional_json args.owner)
                  (member "fallback_host" (optional_json args.fallback_host) no_members))))))))

abbrev taken_path : Json → List (List ℕ) → List (List ℕ)
taken_path (string path) taken = codes path ∷ taken
taken_path _ taken = taken

unfoldable pub taken_paths : List Json → List (List ℕ)
taken_paths [] = []
taken_paths (x ∷ items) = taken_path (get "mountpoint" (fields x)) (taken_paths items)

abbrev optional_codes : Option String → Option (List ℕ)
optional_codes none = none
optional_codes (some s) = some (codes s)

-- The mountpoint that was asked for, or a derived one.
unfoldable pub mountpoint_of : ConnectionArgs → Dict Json → Answer String
unfolding default_mountpoint taken_paths text_of
mountpoint_of args doc = elim args.mountpoint [
  | some mountpoint ↦ ok mountpoint
  | none ↦
      elim (default_mountpoint is_space args.style (codes args.share) (optional_codes args.owner)
        (some (codes args.host))
        (taken_paths (items_of "connections" doc) ⊕ map codes args.in_use)) [
          | none ↦ err no_directory
          | some path ↦ ok (text_of path)
        ]
]

abbrev pub is_same_share : Texts → ConnectionArgs → Json → Bool
is_same_share texts args existing =
    str_eq (lower_field texts "host" existing) (texts.lower args.host)
    && str_eq (lower_field texts "share" existing) (texts.lower args.share)

-- `existing.get("mountpoint") == mountpoint`
abbrev pub is_mounted_on : String → Json → Bool
is_mounted_on mountpoint existing = is_text mountpoint (get "mountpoint" (fields existing))

-- add_connection, once it has the mountpoint and the id
abbrev pub store_connection :
    Texts → ConnectionArgs → Dict Json → String → String → Answer (Dict Json × Json)
store_connection texts args doc mountpoint id =
    append_record texts "connections" (connection_record args mountpoint id) doc

-- add_connection, once it has the mountpoint
abbrev pub place_connection :
    Texts → ConnectionArgs → Dict Json → String → Answer (Dict Json × Json)
place_connection texts args doc mountpoint =
    if any (is_same_share texts args) (items_of "connections" doc)
      || any (is_mounted_on mountpoint) (items_of "connections" doc)
    then err already_exists
    else (free_id texts args.id (args.host ++ "-" ++ args.share) doc
        >>= store_connection texts args doc mountpoint)

-- add_connection
unfoldable pub add_connection : Texts → ConnectionArgs → Dict Json → Answer (Dict Json × Json)
add_connection texts args doc = mountpoint_of args doc >>= place_connection texts args doc
