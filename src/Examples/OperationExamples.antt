-- ===== src/Examples/OperationExamples.antt =====
-- config/operations.py at concrete inputs.
use smbpal_desktop.Prelude.{Dict, List, ◌≡◌, refl, none, some, [], ◌∷◌, lookup, insert, ok}
use smbpal_desktop.Prelude.Sorting.{sort_in}
use smbpal_desktop.Config.Json.{of_list, Json, string, list, object, to_list, to_dict, get}
use smbpal_desktop.Config.Schema.{is_id, bad_chars, has_parent}
use smbpal_desktop.Config.Schema.Fields.{
  is_empty, unknown_keys, unknown_problems, missing_problems, check_keys, check_id,
  check_optional_bool, check_optional_ref, check_owner, check_remote_account, check_type,
  check_name, check_share_name, check_host_text, check_host, check_absolute_path,
}
use smbpal_desktop.Config.Schema.Records.{
  check_keychain, check_auto_connect, validate_share, connection_fields, validate_connection,
}
use smbpal_desktop.Config.Schema.Document.{
  check_id_unique, validate_items, validate_value, check_version, unique_names,
  check_unique_share_names, validate_object,
}
use smbpal_desktop.Config.Schema.Accepted.{Unique}
use smbpal_desktop.Config.Schema.UniqueNames.{lowered_names}
use smbpal_desktop.Config.Ids.{ids_of, listed_items, items_of, all_ids}
use smbpal_desktop.Config.Mountpoint.{linux}
use smbpal_desktop.Config.Operations.{
  validate_or_raise, chosen_id, fields, append_record, connection_record, ConnectionArgs,
  mountpoint_of, add_connection,
}
use smbpal_desktop.Config.Operations.Removing.{
  remove_connection, index_of, find, pop, remove_record,
}
use smbpal_desktop.Config.Operations.RoundTrip.{remove_connection-add_connection}
use smbpal_desktop.Config.Operations.Mountpoints.{mountpoint_texts}
use smbpal_desktop.Config.Operations.Edits.{
  connection_added, connection_removed, share_removed, Edit, edit, edited, edited-Unique,
}
use smbpal_desktop.Examples.ConfigExamples.{plain_texts, good, good_is_valid}

abbrev photos : ConnectionArgs
photos = record {
  host = "nas.local";
  share = "Photos";
  mountpoint = some "/mnt/photos";
  id = some "photos";
  credential_ref = none;
  auto_connect = "on_this_network";
  owner = none;
  fallback_host = none;
  in_use = [];
  style = linux;
}

abbrev photos_record : Json
photos_record = object (connection_record photos "/mnt/photos" "photos")

added_photos :
    (changed : Dict Json) × (add_connection plain_texts photos (to_dict good)
      ≡ ok (changed, photos_record))
unfolding add_connection mountpoint_of chosen_id append_record validate_or_raise of_list
    connection_record all_ids ids_of listed_items validate_object validate_value validate_items
    validate_share validate_connection connection_fields check_id_unique check_version
    check_unique_share_names unique_names check_keychain check_auto_connect check_keys unknown_keys
    unknown_problems missing_problems check_id check_optional_bool check_optional_ref check_owner
    check_remote_account check_type check_name check_share_name check_host_text check_host
    check_absolute_path is_empty bad_chars has_parent is_id to_list to_dict get lookup insert
    sort_in
added_photos = (_, refl)

photos_id : get "id" (fields photos_record) ≡ string "photos"
unfolding get lookup to_dict connection_record
photos_id = refl

good_connections : (items : _) × (lookup "connections" (to_dict good) ≡ some (list items))
unfolding lookup to_dict
good_connections = (_, refl)

remove_connection-add_connection_example :
    remove_connection plain_texts "photos" added_photos.0 ≡ ok (to_dict good, photos_record)
remove_connection-add_connection_example =
    remove_connection-add_connection plain_texts (to_dict good) photos good_connections.0
      added_photos.0 photos_record "photos" good_connections.1 good_is_valid added_photos.1
      photos_id

-- The second is refused: the share on that host has a connection by then.
abbrev some_edits : List Edit
some_edits =
    connection_added photos
    ∷ connection_added photos
    ∷ share_removed "MEDIA"
    ∷ connection_removed "/mnt/NAS"
    ∷ []

edits_leave :
    items_of "shares" (edited plain_texts some_edits (to_dict good)) ≡ []
    × (items_of "connections" (edited plain_texts some_edits (to_dict good)) ≡ photos_record ∷ [])
unfolding edited edit add_connection mountpoint_of chosen_id append_record validate_or_raise of_list
    connection_record all_ids ids_of listed_items remove_record find index_of pop validate_object
    validate_value validate_items validate_share validate_connection connection_fields
    check_id_unique check_version check_unique_share_names unique_names check_keychain
    check_auto_connect check_keys unknown_keys unknown_problems missing_problems check_id
    check_optional_bool check_optional_ref check_owner check_remote_account check_type check_name
    check_share_name check_host_text check_host check_absolute_path is_empty bad_chars has_parent
    is_id to_list to_dict get lookup insert sort_in
edits_leave = (refl, refl)

good_mountpoints : Unique (mountpoint_texts (items_of "connections" (to_dict good)))
unfolding mountpoint_texts get to_dict lookup listed_items to_list
good_mountpoints = (refl, tt)

edited-Unique_example :
    (validate_object plain_texts (edited plain_texts some_edits (to_dict good)) ≡ some [])
    × Unique (all_ids (edited plain_texts some_edits (to_dict good)))
    × Unique (
        lowered_names plain_texts
          (items_of "shares" (edited plain_texts some_edits (to_dict good))))
    × Unique
        (mountpoint_texts (items_of "connections" (edited plain_texts some_edits (to_dict good))))
edited-Unique_example =
    edited-Unique plain_texts some_edits (to_dict good) good_is_valid good_mountpoints
