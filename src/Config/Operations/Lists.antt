-- ===== src/Config/Operations/Lists.antt =====
-- The lists of a document after a record was added at the end.
use mathlib.Core.List.{◌++◌ as ◌⊕◌}
use smbpal_desktop.Prelude.{
  ◌≡◌, refl, ap, String, Bool, true, false, none, some, List, [], ◌∷◌, str_eq, str_eq_refl, length,
  Dict, lookup, insert, lookup-insert, Bool-cases, Option-cases, inl, inr, arith,
}
use smbpal_desktop.Config.Json.{
  to_list-of_list, of_list, Json, null, bool, int, float, string, list, object, Items, no_items,
  item, to_list, to_dict, get,
}
use smbpal_desktop.Config.Ids.{listed_items, items_of, add_id, ids_of}
use smbpal_desktop.Config.Operations.{with_items, fields, is_text, is_used}
use smbpal_desktop.Config.Operations.Removing.{index_of, pop}

of_list-to_list : (items : Items) → of_list (to_list items) ≡ items
unfolding of_list to_list
of_list-to_list no_items = refl
of_list-to_list (item x xs) = ap (item x) (of_list-to_list xs)

pub of_list-items_of :
    (key : String) (doc : Dict Json) (items : Items)
    → lookup key doc ≡ some (list items)
    → of_list (items_of key doc) ≡ items
unfolding listed_items
of_list-items_of key doc items h = rw h (of_list-to_list items)

pub items_of-with_items :
    (key : String) (items : List Json) (doc : Dict Json)
    → items_of key (with_items key items doc) ≡ items
unfolding listed_items
items_of-with_items key items doc = rw (lookup-insert, str_eq_refl key) (to_list-of_list items)

pub insert-insert {ℓ} :
    {V : Type ℓ} (key : String) (v w : V) (doc : Dict V)
    → insert key v (insert key w doc) ≡ insert key v doc
unfolding insert
insert-insert key v w [] = rw (str_eq_refl key) refl
insert-insert key v w ((k, u) ∷ doc) = elim (Bool-cases (str_eq k key)) [
  | inl e ↦ rw (e, e) refl
  | inr e ↦ rw (e, e) (ap (λ (d : Dict _). (k, u) ∷ d) (insert-insert key v w doc))
]

pub insert_same {ℓ} :
    {V : Type ℓ} (key : String) (v : V) (doc : Dict V)
    → lookup key doc ≡ some v
    → insert key v doc ≡ doc
unfolding lookup insert
insert_same key v [] h = cc
insert_same key v ((k, u) ∷ doc) h = elim (Bool-cases (str_eq k key)) [
  | inl e ↦ let same : u ≡ v = ground (arith, rw e at h) in rw (e, same) refl
  | inr e ↦ rw e (ap (λ (d : Dict _). (k, u) ∷ d) (insert_same key v doc (rw e at h)))
]

pub index_of-last :
    (test : Json → Bool) (items : List Json) (x : Json)
    → index_of test items ≡ none
    → test x ≡ true
    → index_of test (items ⊕ x ∷ []) ≡ some (length items)
unfolding index_of
index_of-last test [] x n t = rw t refl
index_of-last test (y ∷ items) x n t = elim (Bool-cases (test y)) [
  | inl e ↦ cc
  | inr e ↦ elim (Option-cases (index_of test items)) [
    | inl m ↦ rw (e, index_of-last test items x m t) refl
    | inr (m, s) ↦ cc
  ]
]

pub pop-last :
    (items : List Json) (x : Json) → pop (length items) (items ⊕ x ∷ []) ≡ some (x, items)
unfolding pop
pop-last [] x = refl
pop-last (y ∷ items) x = rw (pop-last items x) refl

abbrev pub has_id : String → Json → Bool
has_id id x = is_text id (get "id" (fields x))

add_id-unused :
    (id : String) (value : Json) (ids : List String)
    → is_used id (add_id value ids) ≡ false
    → (is_text id value ≡ false) × (is_used id ids ≡ false)
add_id-unused id (string s) ids h = (ground arith, ground arith)
add_id-unused id null ids h = (refl, h)
add_id-unused id (bool b) ids h = (refl, h)
add_id-unused id (int i) ids h = (refl, h)
add_id-unused id (float f) ids h = (refl, h)
add_id-unused id (list xs) ids h = (refl, h)
add_id-unused id (object o) ids h = (refl, h)

pub index_of-unused :
    (id : String) (items : List Json)
    → is_used id (ids_of items) ≡ false
    → index_of (has_id id) items ≡ none
unfolding index_of ids_of get
index_of-unused id [] h = refl
index_of-unused id (object o ∷ items) h =
    let (other, rest) = add_id-unused id (get "id" (to_dict o)) (ids_of items) h in
    rw (other, index_of-unused id items rest) refl
index_of-unused id (null ∷ items) h = rw (index_of-unused id items h) refl
index_of-unused id (bool b ∷ items) h = rw (index_of-unused id items h) refl
index_of-unused id (int i ∷ items) h = rw (index_of-unused id items h) refl
index_of-unused id (float f ∷ items) h = rw (index_of-unused id items h) refl
index_of-unused id (string s ∷ items) h = rw (index_of-unused id items h) refl
index_of-unused id (list xs ∷ items) h = rw (index_of-unused id items h) refl
