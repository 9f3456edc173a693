-- ===== src/Config/Operations/Edits.antt =====
-- config/operations.py: the edits that clients ask for, one after another.
use Prim.Native.String.{◌++◌}
use mathlib.Core.List.{◌++◌ as ◌⊕◌}
use smbpal_desktop.Prelude.{
  ℕ, ◌≡◌, refl, subst, sym, ap, ◌∙◌, String, some, List, [], ◌∷◌, length, Dict, lookup,
  lookup-insert, Option-cases, inl, inr, arith, ok, err, ◌>>=◌, Ensures, Ensures-bind, Ensures-any,
  Ensures-unless,
}
use smbpal_desktop.Config.Json.{of_list, Json, list, object, to_dict, get}
use smbpal_desktop.Config.Schema.{Texts}
use smbpal_desktop.Config.Schema.Document.{validate_object}
use smbpal_desktop.Config.Schema.Accepted.{Unique}
use smbpal_desktop.Config.Schema.UniqueIds.{valid_ids}
use smbpal_desktop.Config.Schema.UniqueNames.{lowered_names, valid_names}
use smbpal_desktop.Config.Ids.{listed_items, items_of, all_ids}
use smbpal_desktop.Config.Operations.{
  Answer, validate_or_raise, strip_index, with_items, free_id, append_record, store_share,
  ShareArgs, share_record, add_share, ConnectionArgs, connection_record, store_connection,
  place_connection, mountpoint_of, add_connection,
}
use smbpal_desktop.Config.Operations.Removing.{
  same_place, find, pop, remove_record, remove_share, remove_connection,
}
use smbpal_desktop.Config.Operations.Lists.{items_of-with_items}
use smbpal_desktop.Config.Operations.Mountpoints.{
  mountpoint_texts, mountpoint_texts-append, mountpoint_texts-fresh, Unique-last, pop-Unique,
}

-- What a client asks for.
pub data Edit : Type 0 where
  share_added : ShareArgs → Edit
  share_removed : String → Edit
  connection_added : ConnectionArgs → Edit
  connection_removed : String → Edit

unfoldable pub edit : Texts → Edit → Dict Json → Answer (Dict Json × Json)
edit texts (share_added args) doc = add_share texts args doc
edit texts (share_removed ref) doc = remove_share texts ref doc
edit texts (connection_added args) doc = add_connection texts args doc
edit texts (connection_removed ref) doc = remove_connection texts ref doc

abbrev kept : Dict Json → Answer (Dict Json × Json) → Dict Json
kept doc (ok (changed, x)) = changed
kept doc (err e) = doc

-- The document after some edits: one that raises leaves it.
unfoldable pub edited : Texts → List Edit → Dict Json → Dict Json
unfolding edit
edited texts [] doc = doc
edited texts (e ∷ edits) doc = edited texts edits (kept doc (edit texts e doc))

-- A document that is valid, with no mountpoint that two of its connections have.
abbrev pub IsSound : Texts → Dict Json → Type 0
IsSound texts doc =
    (validate_object texts doc ≡ some []) × Unique (mountpoint_texts (items_of "connections" doc))

abbrev Sound : Texts → (Dict Json × Json) → Type 0
Sound texts (changed, x) = IsSound texts changed

module _ (texts : Texts) where
  validate_or_raise-IsValid :
      (relabel : String → String) (doc : Dict Json)
      → Ensures
          (λ result. (result ≡ doc) × (validate_object texts result ≡ some []))
          (validate_or_raise texts relabel doc)
  unfolding validate_or_raise
  validate_or_raise-IsValid relabel doc = elim (Option-cases (validate_object texts doc)) [
    | inl e ↦ rw (validate_or_raise, e) tt
    | inr ([], e) ↦ rw (validate_or_raise, e) (refl, e)
    | inr (p ∷ problems, e) ↦ rw (validate_or_raise, e) tt
  ]

  stored-Sound :
      (relabel : String → String) (doc : Dict Json) (x : Json)
      → Unique (mountpoint_texts (items_of "connections" doc))
      → Ensures (Sound texts) (validate_or_raise texts relabel doc >>= λ result. ok (result, x))
  stored-Sound relabel doc x unique =
      Ensures-bind (λ result. (result ≡ doc) × (validate_object texts result ≡ some []))
        (Sound texts) (validate_or_raise texts relabel doc) (λ result. ok (result, x))
        (validate_or_raise-IsValid relabel doc)
        λ result (same, valid). (
          valid,
          subst (λ d. Unique (mountpoint_texts (items_of "connections" d))) (sym same) unique,
        )

  with_shares :
      (items : List Json) (doc : Dict Json)
      → items_of "connections" (with_items "shares" items doc) ≡ items_of "connections" doc
  with_shares items doc =
      ap listed_items (lookup-insert "shares" "connections" (list (of_list items)) doc)

  connection_mountpoint :
      (args : ConnectionArgs) (mountpoint id : String)
      → mountpoint_texts (object (connection_record args mountpoint id) ∷ []) ≡ mountpoint ∷ []
  unfolding mountpoint_texts connection_record get lookup to_dict
  connection_mountpoint args mountpoint id = refl

  add_share-Sound :
      (args : ShareArgs) (doc : Dict Json)
      → IsSound texts doc
      → Ensures (Sound texts) (add_share texts args doc)
  unfolding add_share append_record
  add_share-Sound args doc sound =
      let free = free_id texts args.id args.name doc in
      Ensures-unless (Sound texts) _ _ (free >>= store_share texts args doc) λ r.
        Ensures-bind (λ id. Unit {0}) (Sound texts) free (store_share texts args doc)
          (Ensures-any free)
          λ id u.
            let last = items_of "shares" doc ⊕ object (share_record args id) ∷ [] in
            stored-Sound (strip_index "shares" (length (items_of "shares" doc)))
              (with_items "shares" last doc) (object (share_record args id))
              (subst (λ items. Unique (mountpoint_texts items)) (sym (with_shares last doc))
                sound.1)

  add_connection-Sound :
      (args : ConnectionArgs) (doc : Dict Json)
      → IsSound texts doc
      → Ensures (Sound texts) (add_connection texts args doc)
  unfolding add_connection append_record
  add_connection-Sound args doc sound =
      let old = items_of "connections" doc in
      let free = free_id texts args.id (args.host ++ "-" ++ args.share) doc in
      Ensures-bind (λ m. Unit {0}) (Sound texts) (mountpoint_of args doc)
        (place_connection texts args doc) (Ensures-any (mountpoint_of args doc))
        λ mountpoint m.
          Ensures-unless (Sound texts) _ _ (free >>= store_connection texts args doc mountpoint)
            λ unused.
              Ensures-bind (λ id. Unit {0}) (Sound texts) free
                (store_connection texts args doc mountpoint) (Ensures-any free)
                λ id u.
                  let added = object (connection_record args mountpoint id) in
                  let fresh = mountpoint_texts-fresh mountpoint old (ground arith) in
                  let listed : mountpoint_texts old ⊕ mountpoint ∷ []
                      ≡ mountpoint_texts (
                          items_of "connections"
                            (with_items "connections" (old ⊕ added ∷ []) doc)) =
                    ap (λ (l : List String). mountpoint_texts old ⊕ l)
                      (sym (connection_mountpoint args mountpoint id))
                    ∙ sym (mountpoint_texts-append old (added ∷ []))
                    ∙ ap mountpoint_texts
                        (sym (items_of-with_items "connections" (old ⊕ added ∷ []) doc)) in
                  stored-Sound (strip_index "connections" (length old))
                    (with_items "connections" (old ⊕ added ∷ []) doc) added
                    (subst Unique listed
                      (Unique-last mountpoint (mountpoint_texts old) sound.1 fresh))

  remove_record-Sound :
      (key secondary ref : String) (doc : Dict Json)
      → ((n : ℕ) (x : Json) (rest : List Json)
          → pop n (items_of key doc) ≡ some (x, rest)
          → Unique (mountpoint_texts (items_of "connections" (with_items key rest doc))))
      → Ensures (Sound texts) (remove_record texts key secondary ref doc)
  unfolding remove_record
  remove_record-Sound key secondary ref doc h =
      elim (Option-cases (find texts ref secondary (items_of key doc))) [
        | inl e ↦ rw (remove_record, e) tt
        | inr (n, e) ↦ elim (Option-cases (pop n (items_of key doc))) [
          | inl p ↦ rw (remove_record, e, p) tt
          | inr ((x, rest), p) ↦
              rw (remove_record, e, p)
                (stored-Sound same_place (with_items key rest doc) x (h n x rest p))
        ]
      ]

  edit-Sound :
      (e : Edit) (doc : Dict Json) → IsSound texts doc → Ensures (Sound texts) (edit texts e doc)
  unfolding edit
  edit-Sound (share_added args) doc sound = add_share-Sound args doc sound
  edit-Sound (share_removed ref) doc sound =
      remove_record-Sound "shares" "name" ref doc λ n x rest p.
        subst (λ items. Unique (mountpoint_texts items)) (sym (with_shares rest doc)) sound.1
  edit-Sound (connection_added args) doc sound = add_connection-Sound args doc sound
  edit-Sound (connection_removed ref) doc sound =
      remove_record-Sound "connections" "mountpoint" ref doc λ n x rest p.
        subst (λ items. Unique (mountpoint_texts items))
          (sym (items_of-with_items "connections" rest doc))
          (pop-Unique n (items_of "connections" doc) x rest p sound.1)

  kept-IsSound :
      (doc : Dict Json) (answer : Answer (Dict Json × Json))
      → IsSound texts doc
      → Ensures (Sound texts) answer
      → IsSound texts (kept doc answer)
  kept-IsSound doc (ok (changed, x)) sound h = h
  kept-IsSound doc (err e) sound h = sound

  edited-IsSound :
      (edits : List Edit) (doc : Dict Json)
      → IsSound texts doc
      → IsSound texts (edited texts edits doc)
  unfolding edited
  edited-IsSound [] doc sound = sound
  edited-IsSound (e ∷ edits) doc sound =
      edited-IsSound edits (kept doc (edit texts e doc))
        (kept-IsSound doc (edit texts e doc) sound (edit-Sound e doc sound))

  -- If no problem is found with a document and no two of its connections have one mountpoint, then
  -- after any edits, those that raise among them, no problem is found with the document that is left,
  -- no id is used twice in it, no two of its shares have names that are the same without their
  -- capitals, and no two of its connections have one mountpoint.
  pub edited-Unique :
      (edits : List Edit) (doc : Dict Json)
      → validate_object texts doc ≡ some []
      → Unique (mountpoint_texts (items_of "connections" doc))
      → (validate_object texts (edited texts edits doc) ≡ some [])
        × Unique (all_ids (edited texts edits doc))
        × Unique (lowered_names texts (items_of "shares" (edited texts edits doc)))
        × Unique (mountpoint_texts (items_of "connections" (edited texts edits doc)))
  edited-Unique edits doc valid unique =
      let (still, mounts) = edited-IsSound edits doc (valid, unique) in
      let after = edited texts edits doc in
      (still, (valid_ids texts after still).0, valid_names texts after still, mounts)
