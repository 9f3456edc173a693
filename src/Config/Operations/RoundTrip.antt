-- ===== src/Config/Operations/RoundTrip.antt =====
-- config/operations.py: a record that was added is taken out again by its id.
use Prim.Native.String.{◌++◌}
use mathlib.Core.List.{◌++◌ as ◌⊕◌}
use smbpal_desktop.Prelude.{
  any-append, ◌≡◌, refl, subst, ◌∙◌, String, true, false, Option, some, List, [], ◌∷◌, str_eq,
  str_eq_refl, length, Dict, lookup, Bool-cases, Option-cases, inl, inr, arith, ok, ◌>>=◌, Ensures,
  Ensures-bind, Ensures-ok, Ensures-any, Ensures-unless,
}
use smbpal_desktop.Config.Json.{of_list, Json, string, list, object, Items, Members, to_dict, get}
use smbpal_desktop.Config.Schema.{Texts}
use smbpal_desktop.Config.Schema.Document.{validate_object}
use smbpal_desktop.Config.Ids.{items_of, ids_of, all_ids}
use smbpal_desktop.Config.Operations.{
  validate_or_raise, with_items, fields, chosen_id, is_used, unless_taken, store_connection,
  place_connection, free_id, append_record, ConnectionArgs, connection_record, mountpoint_of,
  add_connection, strip_index,
}
use smbpal_desktop.Config.Operations.Removing.{same_place, find, remove_record, remove_connection}
use smbpal_desktop.Config.Operations.Lists.{
  of_list-items_of, items_of-with_items, insert-insert, insert_same, index_of-last, pop-last,
  has_id, index_of-unused,
}

validate_or_raise-same :
    (texts : Texts) (relabel : String → String) (doc : Dict Json)
    → Ensures (λ result. result ≡ doc) (validate_or_raise texts relabel doc)
unfolding validate_or_raise
validate_or_raise-same texts relabel doc = elim (Option-cases (validate_object texts doc)) [
  | inl e ↦ rw (validate_or_raise, e) tt
  | inr ([], e) ↦ rw (validate_or_raise, e) refl
  | inr (p ∷ problems, e) ↦ rw (validate_or_raise, e) tt
]

validate_or_raise-valid :
    (texts : Texts) (relabel : String → String) (doc : Dict Json)
    → validate_object texts doc ≡ some []
    → validate_or_raise texts relabel doc ≡ ok doc
unfolding validate_or_raise
validate_or_raise-valid texts relabel doc valid = rw (validate_or_raise, valid) refl

unless_taken-unused :
    (ids : List String) (id : String)
    → Ensures (λ free. is_used free ids ≡ false) (unless_taken ids id)
unless_taken-unused ids id = elim (Bool-cases (is_used id ids)) [ inl e ↦ rw e tt | inr e ↦ rw e e ]

free_id-unused :
    (texts : Texts) (given : Option String) (name : String) (doc : Dict Json)
    → Ensures (λ id. is_used id (all_ids doc) ≡ false) (free_id texts given name doc)
free_id-unused texts given name doc =
    Ensures-bind (λ id. Unit {0}) (λ id. is_used id (all_ids doc) ≡ false)
      (chosen_id texts given name doc) (unless_taken (all_ids doc))
      (Ensures-any (chosen_id texts given name doc)) λ id u. unless_taken-unused (all_ids doc) id

module _ (texts : Texts) (key secondary : String) (doc : Dict Json) where
  -- The answer is the changed document and the record; by its id, the record is taken out again.
  abbrev pub IsUndone : (Dict Json × Json) → Type 0
  IsUndone (changed, added) =
      (id : String)
      → get "id" (fields added) ≡ string id
      → remove_record texts key secondary id changed ≡ ok (doc, added)

  find-last :
      (items : List Json) (id : String) (added : Members)
      → is_used id (ids_of items) ≡ false
      → get "id" (to_dict added) ≡ string id
      → find texts id secondary (items ⊕ object added ∷ []) ≡ some (length items)
  unfolding find
  find-last items id added unused named =
      let has : has_id id (object added) ≡ true = rw (named, str_eq_refl id) refl in
      rw
        (find, index_of-last (has_id id) items (object added) (index_of-unused id items unused) has)
        refl

  remove_record-appended :
      (items : Items) (id : String) (added : Members)
      → lookup key doc ≡ some (list items)
      → validate_object texts doc ≡ some []
      → is_used id (ids_of (items_of key doc)) ≡ false
      → get "id" (to_dict added) ≡ string id
      → remove_record texts key secondary id
          (with_items key (items_of key doc ⊕ object added ∷ []) doc)
        ≡ ok (doc, object added)
  unfolding remove_record
  remove_record-appended items id added listed valid unused named =
      let old = items_of key doc in
      let last = old ⊕ object added ∷ [] in
      let kept : lookup key doc ≡ some (list (of_list old)) =
        rw (of_list-items_of key doc items listed) listed in
      let restored : with_items key old (with_items key last doc) ≡ doc =
        insert-insert key (list (of_list old)) (list (of_list last)) doc
        ∙ insert_same key (list (of_list old)) doc kept in
      rw
        (
          remove_record,
          items_of-with_items key last doc,
          find-last old id added unused named,
          items_of-with_items key last doc,
          pop-last old (object added),
          restored,
          validate_or_raise-valid texts same_place doc valid,
        )
        refl

  append_record-IsUndone :
      (items : Items) (id : String) (added : Members)
      → lookup key doc ≡ some (list items)
      → validate_object texts doc ≡ some []
      → is_used id (ids_of (items_of key doc)) ≡ false
      → get "id" (to_dict added) ≡ string id
      → Ensures IsUndone (append_record texts key added doc)
  unfolding append_record
  append_record-IsUndone items id added listed valid unused named =
      let changed = with_items key (items_of key doc ⊕ object added ∷ []) doc in
      let relabel = strip_index key (length (items_of key doc)) in
      Ensures-bind (λ result. result ≡ changed) IsUndone (validate_or_raise texts relabel changed)
        (λ result. ok (result, object added)) (validate_or_raise-same texts relabel changed)
        λ result same other other_named.
          let id_same : id ≡ other = ground (arith, named, other_named) in
          rw same (
            subst (λ i. remove_record texts key secondary i changed ≡ ok (doc, object added))
              id_same (remove_record-appended items id added listed valid unused named))

module _ (texts : Texts) (doc : Dict Json) where
  unused_connection :
      (id : String)
      → is_used id (all_ids doc) ≡ false
      → is_used id (ids_of (items_of "connections" doc)) ≡ false
  unfolding all_ids
  unused_connection id h =
      let shares = ids_of (items_of "shares" doc) in
      let connections = ids_of (items_of "connections" doc) in
      ground (arith, h, any-append (λ taken. str_eq taken id) shares connections)

  connection_id :
      (args : ConnectionArgs) (mountpoint id : String)
      → get "id" (to_dict (connection_record args mountpoint id)) ≡ string id
  unfolding connection_record get lookup to_dict
  connection_id args mountpoint id = refl

  add_connection-IsUndone :
      (args : ConnectionArgs) (items : Items)
      → lookup "connections" doc ≡ some (list items)
      → validate_object texts doc ≡ some []
      → Ensures (IsUndone texts "connections" "mountpoint" doc) (add_connection texts args doc)
  unfolding add_connection
  add_connection-IsUndone args items listed valid =
      let IsBack = IsUndone texts "connections" "mountpoint" doc in
      let name = args.host ++ "-" ++ args.share in
      let free = free_id texts args.id name doc in
      Ensures-bind (λ m. Unit {0}) IsBack (mountpoint_of args doc) (place_connection texts args doc)
        (Ensures-any (mountpoint_of args doc))
        λ mountpoint u.
          Ensures-unless IsBack _ _ (free >>= store_connection texts args doc mountpoint) λ r.
            Ensures-bind (λ id. is_used id (all_ids doc) ≡ false) IsBack free
              (store_connection texts args doc mountpoint) (free_id-unused texts args.id name doc)
              λ id unused.
                append_record-IsUndone texts "connections" "mountpoint" doc items id
                  (connection_record args mountpoint id) listed valid (unused_connection id unused)
                  (connection_id args mountpoint id)

  -- If a document is valid and has its list of connections, and add_connection returns a changed
  -- document and the connection it added, remove_connection of that connection's id returns the first
  -- document, with the connection.
  pub remove_connection-add_connection :
      (args : ConnectionArgs) (items : Items) (changed : Dict Json) (added : Json) (id : String)
      → lookup "connections" doc ≡ some (list items)
      → validate_object texts doc ≡ some []
      → add_connection texts args doc ≡ ok (changed, added)
      → get "id" (fields added) ≡ string id
      → remove_connection texts id changed ≡ ok (doc, added)
  remove_connection-add_connection args items changed added id listed valid is_added named =
      Ensures-ok (IsUndone texts "connections" "mountpoint" doc) (add_connection texts args doc)
        (add_connection-IsUndone args items listed valid) is_added id named
