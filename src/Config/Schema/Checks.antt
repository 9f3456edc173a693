-- ===== src/Config/Schema/Checks.antt =====
-- The checks of one record, taken apart: a record without a problem has none in any check.
use Prim.Native.String.{◌++◌}
use smbpal_desktop.Prelude.{
  ◌≡◌, String, true, false, Option, none, some, List, [], ◌∷◌, arith, Dict,
}
use smbpal_desktop.Config.Json.{Json, get}
use smbpal_desktop.Config.Schema.{Texts, Problem}
use smbpal_desktop.Config.Schema.Fields.{
  check_keys, check_id, check_optional_bool, check_optional_ref, check_owner, check_remote_account,
  check_type, check_share_name, check_host, check_absolute_path,
}
use smbpal_desktop.Config.Schema.Records.{
  share_keys, connection_keys, together, check_keychain, check_auto_connect, validate_share,
  connection_fields, validate_connection,
}
use smbpal_desktop.Config.Schema.Accepted.{append_empty}

pub record ShareChecks (texts : Texts) (w : String) (d : Dict Json) : Type 0 where
  pub keys : check_keys w d share_keys ("id" ∷ "name" ∷ "path" ∷ "type" ∷ []) ≡ []
  pub id : check_id w (get "id" d) ≡ []
  pub name : check_share_name texts true (w ++ ".name") (get "name" d) ≡ []
  pub path : check_absolute_path texts (w ++ ".path") (get "path" d) ≡ []
  pub credential_ref : check_optional_ref (w ++ ".credential_ref") (get "credential_ref" d) ≡ []

pub validate_share-ShareChecks :
    (texts : Texts) (w : String) (d : Dict Json)
    → validate_share texts w d ≡ some []
    → ShareChecks texts w d
unfolding validate_share
validate_share-ShareChecks texts w d h =
    let (to_enabled, ref) =
      append_empty _ (check_optional_ref (w ++ ".credential_ref") (get "credential_ref" d))
        (ground arith) in
    let (to_read_only, _) =
      append_empty _ (check_optional_bool (w ++ ".enabled") (get "enabled" d)) to_enabled in
    let (to_path, _) =
      append_empty _ (check_optional_bool (w ++ ".read_only") (get "read_only" d)) to_read_only in
    let (to_name, path) =
      append_empty _ (check_absolute_path texts (w ++ ".path") (get "path" d)) to_path in
    let (to_id, name) =
      append_empty _ (check_share_name texts true (w ++ ".name") (get "name" d)) to_name in
    let (to_type, id) = append_empty _ (check_id w (get "id" d)) to_id in
    let (keys, _) = append_empty _ (check_type texts w (get "type" d)) to_type in
    record { keys = keys; id = id; name = name; path = path; credential_ref = ref }

pub record ConnectionChecks (texts : Texts) (w : String) (d : Dict Json) : Type 0 where
  pub keys :
      check_keys w d connection_keys ("host" ∷ "id" ∷ "mountpoint" ∷ "share" ∷ "type" ∷ []) ≡ []
  pub id : check_id w (get "id" d) ≡ []
  pub host : check_host texts (w ++ ".host") (get "host" d) ≡ []
  pub share : check_share_name texts false (w ++ ".share") (get "share" d) ≡ []
  pub mountpoint : check_absolute_path texts (w ++ ".mountpoint") (get "mountpoint" d) ≡ []

together_empty :
    (r s : Option (List Problem)) → together r s ≡ some [] → (r ≡ some []) × (s ≡ some [])
together_empty none s h = ground arith
together_empty (some xs) none h = ground arith
together_empty (some []) (some ys) h = ground arith
together_empty (some (x ∷ xs)) (some ys) h = ground arith

pub validate_connection-ConnectionChecks :
    (texts : Texts) (w : String) (d : Dict Json)
    → validate_connection texts w d ≡ some []
    → ConnectionChecks texts w d
unfolding validate_connection connection_fields
validate_connection-ConnectionChecks texts w d h =
    let (fields, _) =
      together_empty (some (connection_fields texts w d))
        (together (check_keychain texts w (get "keychain_credential" d))
          (some (check_auto_connect texts w (get "auto_connect" d))))
        h in
    let (to_account, _) =
      append_empty _ (check_optional_bool (w ++ ".disconnected") (get "disconnected" d))
        (ground arith) in
    let (to_fallback, _) =
      append_empty _
        (check_remote_account (w ++ ".credential_account") (get "credential_account" d))
        to_account in
    let (to_owner, _) =
      append_empty _ (check_host texts (w ++ ".fallback_host") (get "fallback_host" d))
        to_fallback in
    let (to_ref, _) = append_empty _ (check_owner (w ++ ".owner") (get "owner" d)) to_owner in
    let (to_mountpoint, _) =
      append_empty _ (check_optional_ref (w ++ ".credential_ref") (get "credential_ref" d))
        to_ref in
    let (to_share, mountpoint) =
      append_empty _ (check_absolute_path texts (w ++ ".mountpoint") (get "mountpoint" d))
        to_mountpoint in
    let (to_host, share) =
      append_empty _ (check_share_name texts false (w ++ ".share") (get "share" d)) to_share in
    let (to_id, host) = append_empty _ (check_host texts (w ++ ".host") (get "host" d)) to_host in
    let (to_type, id) = append_empty _ (check_id w (get "id" d)) to_id in
    let (keys, _) = append_empty _ (check_type texts w (get "type" d)) to_type in
    record { keys = keys; id = id; host = host; share = share; mountpoint = mountpoint }
