-- ===== src/Examples/ConfigExamples.antt =====
-- config/schema.py, config/operations.py and samba/conf.py at concrete inputs.
use mathlib.Core.List.{◌++◌ as ◌⊕◌}
use smbpal_desktop.Prelude.{
  ℕ, ◌==◌, Dict, Bool, true, false, List, ◌≡◌, refl, none, some, [], ◌∷◌, codes, lookup, insert,
  All,
}
use smbpal_desktop.Prelude.Sorting.{sort_in}
use smbpal_desktop.Config.Json.{
  pos, Json, null, int, string, list, object, no_items, item, Members, no_members, member, to_list,
  to_dict, get, kind,
}
use smbpal_desktop.Config.Schema.{Texts, is_id, bad_chars, has_parent}
use smbpal_desktop.Config.Schema.Fields.{
  is_empty, unknown_keys, unknown_problems, missing_problems, check_keys, check_id,
  check_optional_bool, check_optional_ref, check_owner, check_remote_account, check_type,
  check_name, check_share_name, check_host_text, check_host, check_absolute_path,
}
use smbpal_desktop.Config.Schema.Records.{
  check_keychain, check_auto_connect, validate_share, connection_fields, validate_connection,
}
use smbpal_desktop.Config.Schema.Document.{
  check_id_unique, validate_items, validate_value, check_version, unique_names,
  check_unique_share_names, validate_object, validate,
}
use smbpal_desktop.Config.Schema.Accepted.{Unique}
use smbpal_desktop.Config.Schema.UniqueIds.{IsLegal, valid_ids}
use smbpal_desktop.Config.Schema.SafeText.{IsSafeShare, IsSafeConnection, valid_texts}
use smbpal_desktop.Config.Schema.UniqueNames.{lowered_names, valid_names}
use smbpal_desktop.Config.Schema.Unhashable.{unhashable_raises}
use smbpal_desktop.Config.Ids.{listed_items, items_of, all_ids}
use smbpal_desktop.Config.UnitSource.{IsSafeSource, valid_sources}
use smbpal_desktop.Config.Mountpoint.{
  linux, lstrip, rstrip, volume_name, base_of, on_host, is_in, first_candidate, last_candidate,
  search, default_mountpoint,
}
use smbpal_desktop.Config.Mountpoint.Search.{default_mountpoint_free}
use smbpal_desktop.Config.Naming.{
  squeeze, lstrip_dashes, rstrip_dashes, cut_slug, named_slug, numeral_from, numeral, candidate,
  range, first_free, make_id,
}
use smbpal_desktop.Config.Naming.Fresh.{IsMade, make_id-IsMade}
use smbpal_desktop.Samba.Conf.{
  is_true, safe_value, safe, join_lines, user_lines, section_lines, is_enabled, sections, render,
  header_lines,
}
use smbpal_desktop.Samba.Conf.Sections.{cut_lines, section_headers, expected_lines, enabled_headers}
use smbpal_desktop.Samba.Conf.Rendered.{render_sections}
use smbpal_desktop.Samba.Conf.Accepts.{records, render_succeeds}
use smbpal_desktop.Examples.Inputs.{ascii_lower}

-- Texts for messages: what is shown of a value does not matter here.
abbrev pub plain_texts : Texts
plain_texts = record { lower = ascii_lower; repr = λ value. kind value; repr_char = λ c. "?" }

abbrev media : Members
media = member "type" (string "os") (
    member "id" (string "media")
      (member "name" (string "Media") (member "path" (string "/srv/media") no_members)))

abbrev nas_members : Json → Members
nas_members keychain = member "type" (string "os") (
    member "id" (string "nas") (
      member "host" (string "nas.local") (
        member "share" (string "Luke H's Folder") (
          member "mountpoint" (string "/mnt/nas")
            (member "keychain_credential" keychain no_members)))))

abbrev document : Members → Members → Members
document share connection = member "version" (int (pos 1)) (
    member "shares" (list (item (object share) no_items))
      (member "connections" (list (item (object connection) no_items)) no_members))

abbrev pub good : Members
good = document media (nas_members (string "created"))

pub good_is_valid : validate_object plain_texts (to_dict good) ≡ some []
unfolding validate_object validate_value validate_items validate_share validate_connection
    connection_fields check_id_unique check_version check_unique_share_names unique_names
    check_keychain check_auto_connect check_keys unknown_keys unknown_problems missing_problems
    check_id check_optional_bool check_optional_ref check_owner check_remote_account check_type
    check_name check_share_name check_host_text check_host check_absolute_path is_empty bad_chars
    has_parent is_id to_list to_dict get lookup insert sort_in
good_is_valid = refl

-- Fields that are required may be null: nothing is said of them.
abbrev nameless : Members
nameless =
    member "type" null (member "id" null (member "name" null (member "path" null no_members)))

null_is_accepted : validate plain_texts (object (document nameless (nas_members null))) ≡ some []
unfolding validate validate_object validate_value validate_items validate_share validate_connection
    connection_fields check_id_unique check_version check_unique_share_names unique_names
    check_keychain check_auto_connect check_keys unknown_keys unknown_problems missing_problems
    check_id check_optional_bool check_optional_ref check_owner check_remote_account check_type
    check_name check_share_name check_host_text check_host check_absolute_path is_empty bad_chars
    has_parent is_id to_list to_dict get lookup insert sort_in
null_is_accepted = refl

valid_ids_example : Unique (all_ids (to_dict good)) × All IsLegal (all_ids (to_dict good))
valid_ids_example = valid_ids plain_texts (to_dict good) good_is_valid

valid_texts_example :
    All (IsSafeShare plain_texts) (items_of "shares" (to_dict good))
    × All (IsSafeConnection plain_texts) (items_of "connections" (to_dict good))
valid_texts_example = valid_texts plain_texts (to_dict good) good_is_valid

valid_sources_example : All IsSafeSource (items_of "connections" (to_dict good))
valid_sources_example = valid_sources plain_texts (to_dict good) good_is_valid

abbrev listed_keychain : Members
listed_keychain = nas_members (list no_items)

unhashable_raises_example :
    validate_object plain_texts (to_dict (document media listed_keychain)) ≡ none
unfolding to_dict lookup get to_list
unhashable_raises_example =
    unhashable_raises plain_texts (to_dict (document media listed_keychain))
      (item (object listed_keychain) no_items) [] [] listed_keychain refl refl refl

second_media : make_id ascii_lower "--My Média!" ("my-m-dia" ∷ []) ≡ some (codes "my-m-dia-2")
unfolding make_id squeeze lstrip_dashes rstrip_dashes cut_slug named_slug numeral_from numeral
    candidate range first_free
second_media = refl

make_id-IsMade_example :
    IsMade
      ("my-m-dia" ∷ [])
      (named_slug (cut_slug (codes (ascii_lower "--My Média!"))))
      (make_id ascii_lower "--My Média!" ("my-m-dia" ∷ []))
make_id-IsMade_example = make_id-IsMade ascii_lower "--My Média!" ("my-m-dia" ∷ [])

abbrev is_blank : ℕ → Bool
is_blank c = c == 32

-- A stick and another machine's share are in the way.
third_media :
    default_mountpoint is_blank linux
      (codes " .Media")
      (some (codes "ada"))
      (some (codes "nas"))
      (codes "/media/ada/Media" ∷ codes "/media/ada/Media on nas" ∷ [])
    ≡ some (codes "/media/ada/Media on nas 2")
unfolding default_mountpoint base_of on_host volume_name lstrip rstrip first_candidate
    last_candidate search numeral_from numeral
third_media = refl

-- Spaces and dots in turn are stripped once each, so a dot may stay in front.
hidden_name : volume_name is_blank (codes ". .private") ≡ codes ".private"
unfolding volume_name lstrip rstrip
hidden_name = refl

default_mountpoint_free_example :
    (found : List ℕ) × (default_mountpoint is_blank linux
        (codes "Media")
        (some (codes "ada"))
        none
        (codes "/media/ada/Media" ∷ [])
      ≡ some found)
    × (is_in found (codes "/media/ada/Media" ∷ []) ≡ false)
default_mountpoint_free_example =
    default_mountpoint_free is_blank linux (codes "Media") (some (codes "ada")) none
      (codes "/media/ada/Media" ∷ []) (codes "/media/ada") (unfold base_of in refl)

abbrev good_shares : List (Dict Json)
good_shares = to_dict media ∷ []

-- One section, with its header.
one_section :
    (text : List ℕ) × (render good_shares ≡ some text)
    × (section_headers (cut_lines [] text) ≡ codes "[Media]" ∷ [])
unfolding render sections section_lines safe safe_value user_lines is_enabled is_true join_lines
    cut_lines section_headers to_dict get lookup
one_section = (_, refl, refl)

render_sections_example :
    (cut_lines [] one_section.0 ≡ header_lines ⊕ expected_lines good_shares)
    × (section_headers (cut_lines [] one_section.0) ≡ enabled_headers good_shares)
render_sections_example = render_sections good_shares one_section.0 one_section.1

render_succeeds_example :
    (text : List ℕ) × (render (records (items_of "shares" (to_dict good))) ≡ some text)
unfolding get to_dict lookup listed_items to_list
render_succeeds_example =
    render_succeeds plain_texts (to_dict good) good_is_valid ((refl, refl), tt)

parents :
    (has_parent (some 0) (codes "/a/../b") ≡ true)
    × (has_parent (some 0) (codes "/a/..") ≡ true)
    × (has_parent (some 0) (codes "/..a/b..") ≡ false)
    × (has_parent (some 0) (codes "/a/.../b") ≡ false)
unfolding has_parent
parents = (refl, refl, refl, refl)

valid_names_example : Unique (lowered_names plain_texts (items_of "shares" (to_dict good)))
valid_names_example = valid_names plain_texts (to_dict good) good_is_valid
