-- ===== src/Config/Schema/Records.antt =====
-- config/schema.py, the records. `none` stands for the TypeError of a value that cannot be hashed.
use Prim.Native.String.{◌++◌}
use mathlib.Core.List.{◌++◌ as ◌⊕◌}
use smbpal_desktop.Prelude.{
  String, true, false, List, [], ◌∷◌, some, none, Option, if◌then◌else◌, Dict,
}
use smbpal_desktop.Config.Json.{Json, null, string, list, object, get}
use smbpal_desktop.Config.Schema.{Texts, Problem, problem, is_one_of}
use smbpal_desktop.Config.Schema.Fields.{
  check_keys, check_id, check_optional_bool, check_optional_ref, check_owner, check_remote_account,
  check_type, check_share_name, check_host, check_absolute_path,
}

-- _TOP_KEYS, _SHARE_KEYS and _CONNECTION_KEYS
abbrev pub top_keys : List String
top_keys = "version" ∷ "shares" ∷ "connections" ∷ []

abbrev pub share_keys : List String
share_keys = "type" ∷ "id" ∷ "name" ∷ "path" ∷ "read_only" ∷ "credential_ref" ∷ "enabled" ∷ []

abbrev pub connection_keys : List String
connection_keys =
    "type" ∷ "id" ∷ "host" ∷ "share" ∷ "mountpoint" ∷ "credential_ref" ∷ "auto_connect" ∷ "owner"
    ∷ "fallback_host" ∷ "credential_account" ∷ "keychain_credential" ∷ "disconnected" ∷ []

-- KEYCHAIN_CREDENTIAL_VALUES and AUTO_CONNECT_VALUES
abbrev pub keychain_credential_values : List String
keychain_credential_values = "created" ∷ "replaced" ∷ []

abbrev pub auto_connect_values : List String
auto_connect_values = "always" ∷ "on_this_network" ∷ "never" ∷ []

-- An outcome of several checks, of which each may raise.
abbrev pub together : Option (List Problem) → Option (List Problem) → Option (List Problem)
together none ys = none
together (some xs) none = none
together (some xs) (some ys) = some (xs ⊕ ys)

module _ (texts : Texts) where
  -- `keychain not in KEYCHAIN_CREDENTIAL_VALUES`, where a list or an object is not hashable.
  unfoldable pub check_keychain : String → Json → Option (List Problem)
  check_keychain where_ null = some []
  check_keychain where_ (string s) =
      if is_one_of s keychain_credential_values
      then some []
      else some (
          problem (where_ ++ ".keychain_credential")
            ("expected one of created, replaced, got " ++ texts.repr (string s)))
  check_keychain where_ (list xs) = none
  check_keychain where_ (object o) = none
  check_keychain where_ value = some (
      problem (where_ ++ ".keychain_credential")
        ("expected one of created, replaced, got " ++ texts.repr value))

  -- `auto not in AUTO_CONNECT_VALUES`, in a tuple: any value may be compared.
  unfoldable pub check_auto_connect : String → Json → List Problem
  check_auto_connect where_ null = []
  check_auto_connect where_ (string s) =
      if is_one_of s auto_connect_values
      then []
      else problem (where_ ++ ".auto_connect")
          ("is " ++ texts.repr (string s) ++ "; expected one of always, on_this_network, never")
  check_auto_connect where_ value =
      problem (where_ ++ ".auto_connect")
        ("is " ++ texts.repr value ++ "; expected one of always, on_this_network, never")

  -- _validate_share
  unfoldable pub validate_share : String → Dict Json → Option (List Problem)
  validate_share where_ share = some (
      check_keys where_ share share_keys ("id" ∷ "name" ∷ "path" ∷ "type" ∷ [])
      ⊕ check_type texts where_ (get "type" share)
      ⊕ check_id where_ (get "id" share)
      ⊕ check_share_name texts true (where_ ++ ".name") (get "name" share)
      ⊕ check_absolute_path texts (where_ ++ ".path") (get "path" share)
      ⊕ check_optional_bool (where_ ++ ".read_only") (get "read_only" share)
      ⊕ check_optional_bool (where_ ++ ".enabled") (get "enabled" share)
      ⊕ check_optional_ref (where_ ++ ".credential_ref") (get "credential_ref" share))

  -- _validate_connection, but for the last two checks.
  unfoldable pub connection_fields : String → Dict Json → List Problem
  connection_fields where_ connection =
      check_keys where_ connection connection_keys
        ("host" ∷ "id" ∷ "mountpoint" ∷ "share" ∷ "type" ∷ [])
      ⊕ check_type texts where_ (get "type" connection)
      ⊕ check_id where_ (get "id" connection)
      ⊕ check_host texts (where_ ++ ".host") (get "host" connection)
      ⊕ check_share_name texts false (where_ ++ ".share") (get "share" connection)
      ⊕ check_absolute_path texts (where_ ++ ".mountpoint") (get "mountpoint" connection)
      ⊕ check_optional_ref (where_ ++ ".credential_ref") (get "credential_ref" connection)
      ⊕ check_owner (where_ ++ ".owner") (get "owner" connection)
      ⊕ check_host texts (where_ ++ ".fallback_host") (get "fallback_host" connection)
      ⊕ check_remote_account (where_ ++ ".credential_account") (get "credential_account" connection)
      ⊕ check_optional_bool (where_ ++ ".disconnected") (get "disconnected" connection)

  -- _validate_connection
  unfoldable pub validate_connection : String → Dict Json → Option (List Problem)
  unfolding connection_fields
  validate_connection where_ connection = together (some (connection_fields where_ connection)) (
      together (check_keychain where_ (get "keychain_credential" connection))
        (some (check_auto_connect where_ (get "auto_connect" connection))))
