-- ===== src/Config/Ids.antt =====
-- config/operations.py, all_ids: the ids of a document's records, as a list.
use mathlib.Core.List.{◌++◌ as ◌⊕◌}
use smbpal_desktop.Prelude.{String, Option, some, List, [], ◌∷◌, Dict, lookup}
use smbpal_desktop.Config.Json.{Json, object, string, list, to_list, to_dict, get}

-- `doc.get(key, [])`
unfoldable pub listed_items : Option Json → List Json
unfolding to_list
listed_items (some (list items)) = to_list items
listed_items _ = []

abbrev pub items_of : String → Dict Json → List Json
items_of key doc = listed_items (lookup key doc)

-- `if isinstance(value, str): ids.add(value)`
abbrev pub add_id : Json → List String → List String
add_id (string id) ids = id ∷ ids
add_id _ ids = ids

-- The ids of the records of one list.
unfoldable pub ids_of : List Json → List String
ids_of [] = []
ids_of (object o ∷ items) = add_id (get "id" (to_dict o)) (ids_of items)
ids_of (_ ∷ items) = ids_of items

unfoldable pub all_ids : Dict Json → List String
all_ids doc = ids_of (items_of "shares" doc) ⊕ ids_of (items_of "connections" doc)
