-- ===== src/Config/Schema/Accepted.antt =====
-- What the loop over a list of records has found when it reports no problem.
use mathlib.Core.List.{◌++◌ as ◌⊕◌}
use smbpal_desktop.Prelude.{
  ℕ, ◌+◌, ◌≡◌, refl, sym, subst, ap, String, Bool, true, false, Option, none, some, List, [], ◌∷◌,
  arith, eq_iff, Dict, lookup, insert, lookup-insert, All, Option-cases, inl, inr,
}
use smbpal_desktop.Config.Json.{
  Json, object, string, null, bool, int, float, list, to_dict, get, Members,
}
use smbpal_desktop.Config.Schema.{Problem, is_one_of}
use smbpal_desktop.Config.Schema.Document.{
  Validator, check_id_unique, place, prepend, with_rest, validate_items,
}
use smbpal_desktop.Config.Ids.{add_id, ids_of}

pub append_empty {ℓ} : {A : Type ℓ} (xs ys : List A) → xs ⊕ ys ≡ [] → (xs ≡ []) × (ys ≡ [])
append_empty [] ys h = (refl, h)
append_empty (x ∷ xs) ys h = ground arith

pub prepend_empty :
    (xs : List Problem) (r : Option (List Problem × Dict String)) (seen : Dict String)
    → prepend xs r ≡ some ([], seen)
    → (xs ≡ []) × (r ≡ some ([], seen))
prepend_empty xs none seen h = ground arith
prepend_empty [] (some (ys, s)) seen h = (refl, h)
prepend_empty (x ∷ xs) (some (ys, s)) seen h = ground arith

-- No text occurs twice.
abbrev pub Unique : List String → Type 0
Unique [] = Unit
Unique (id ∷ ids) = (is_one_of id ids ≡ false) × Unique ids

-- A record that the validator has nothing against.
abbrev pub Accepted : Validator → Json → Type 0
Accepted validator (object o) = (w : String) × (validator w (to_dict o) ≡ some [])
Accepted validator _ = ◌≡◌ {A = Bool} true false

pub record Clean (validator : Validator) (items : List Json) (seen after : Dict String)
    : Type 0 where
  pub accepted : All (Accepted validator) items
  pub unique : Unique (ids_of items)
  pub fresh : All (λ id. lookup id seen ≡ none) (ids_of items)
  pub remembers :
      (id : String)
      → lookup id after ≡ none
      → (lookup id seen ≡ none) × (is_one_of id (ids_of items) ≡ false)

-- What one record adds to the ids and to the memory of them, when it adds no problem.
record Added (value : Json) (seen after : Dict String) : Type 0 where
  fresh :
      (ids : List String)
      → All (λ id. lookup id seen ≡ none) ids
      → All (λ id. lookup id seen ≡ none) (add_id value ids)
  kept : (id : String) → lookup id after ≡ none → lookup id seen ≡ none
  unique :
      (ids : List String)
      → All (λ id. lookup id after ≡ none) ids
      → Unique ids
      → Unique (add_id value ids)
  remembers :
      (id : String) (ids : List String)
      → lookup id after ≡ none
      → is_one_of id ids ≡ false
      → is_one_of id (add_id value ids) ≡ false

same-Added :
    (value : Json) (seen : Dict String)
    → ((ids : List String) → add_id value ids ≡ ids)
    → Added value seen seen
same-Added value seen h = record {
  fresh = λ ids a. subst (All (λ id. lookup id seen ≡ none)) (sym (h ids)) a;
  kept = λ id e. e;
  unique = λ ids a u. subst Unique (sym (h ids)) u;
  remembers = λ id ids e n. rw (h ids) n;
}

-- A text that is not among those of which all have a property that it has not.
absent :
    (id w : String) (seen : Dict String) (ids : List String)
    → All (λ j. lookup j (insert id w seen) ≡ none) ids
    → is_one_of id ids ≡ false
absent id w seen [] a = refl
absent id w seen (j ∷ ids) a =
    ground (arith, lookup-insert id j w seen, a.0, absent id w seen ids a.1)

text-Added :
    (id w : String) (seen : Dict String)
    → lookup id seen ≡ none
    → Added (string id) seen (insert id w seen)
text-Added id w seen e = record {
  fresh = λ ids a. (e, a);
  kept = λ j h. ground (arith, lookup-insert id j w seen);
  unique = λ ids a u. (absent id w seen ids a, u);
  remembers = λ j ids h n. ground (arith, lookup-insert id j w seen, eq_iff id j, eq_iff j id);
}

id_unique-Added :
    (w : String) (value : Json) (seen : Dict String)
    → (check_id_unique w value seen).0 ≡ []
    → Added value seen (check_id_unique w value seen).1
unfolding check_id_unique
id_unique-Added w (string id) seen h = elim (Option-cases (lookup id seen)) [
  | inl e ↦ rw (e, check_id_unique) (text-Added id w seen e)
  | inr (other, e) ↦ ground arith
]
id_unique-Added w null seen h = same-Added null seen (λ ids. refl)
id_unique-Added w (bool b) seen h = same-Added (bool b) seen (λ ids. refl)
id_unique-Added w (int i) seen h = same-Added (int i) seen (λ ids. refl)
id_unique-Added w (float f) seen h = same-Added (float f) seen (λ ids. refl)
id_unique-Added w (list xs) seen h = same-Added (list xs) seen (λ ids. refl)
id_unique-Added w (object m) seen h = same-Added (object m) seen (λ ids. refl)

with_rest_empty :
    (own : Option (List Problem)) (duplicates : List Problem)
    (rest : Option (List Problem × Dict String)) (after : Dict String)
    → with_rest own duplicates rest ≡ some ([], after)
    → (own ≡ some []) × (duplicates ≡ []) × (rest ≡ some ([], after))
with_rest_empty none duplicates rest after h = ground arith
with_rest_empty (some problems) duplicates rest after h =
    let (empty, rest_empty) = prepend_empty (problems ⊕ duplicates) rest after h in
    let (own_empty, duplicates_empty) = append_empty problems duplicates empty in
    (ap some own_empty, duplicates_empty, rest_empty)

object_Clean :
    (validator : Validator) (w : String) (o : Members) (items : List Json)
    (seen between after : Dict String)
    → validator w (to_dict o) ≡ some []
    → Added (get "id" (to_dict o)) seen between
    → Clean validator items between after
    → Clean validator (object o ∷ items) seen after
unfolding ids_of
object_Clean validator w o items seen between after v added rest = record {
  accepted = ((w, v), rest.accepted);
  unique = added.unique (ids_of items) rest.fresh rest.unique;
  fresh = added.fresh (ids_of items) (All-kept (ids_of items) rest.fresh);
  remembers = λ id e. (
    added.kept id (rest.remembers id e).0,
    added.remembers id (ids_of items) (rest.remembers id e).0 (rest.remembers id e).1,
  );
}
  where
    All-kept :
        (ids : List String)
        → All (λ id. lookup id between ≡ none) ids
        → All (λ id. lookup id seen ≡ none) ids
    All-kept [] a = tt
    All-kept (id ∷ ids) a = (added.kept id a.0, All-kept ids a.1)

not_object :
    {A : Type 0} (x : Problem) (r : Option (List Problem × Dict String)) (after : Dict String)
    → prepend (x ∷ []) r ≡ some ([], after)
    → A
not_object x r after h = absurd (ground (arith, (prepend_empty (x ∷ []) r after h).0))

-- A loop that reports no problem met only objects that the validator has nothing against, and no
-- id that was seen before.
pub validate_items-Clean :
    (validator : Validator) (key : String) (index : ℕ) (items : List Json)
    (seen after : Dict String)
    → validate_items validator key index items seen ≡ some ([], after)
    → Clean validator items seen after
unfolding validate_items ids_of
validate_items-Clean validator key index [] seen after h = record {
  accepted = tt;
  unique = tt;
  fresh = tt;
  remembers = λ id e. (ground arith, refl);
}
validate_items-Clean validator key index (object o ∷ items) seen after h =
    let unique = check_id_unique (place key index) (get "id" (to_dict o)) seen in
    let (own, duplicates, rest) =
      with_rest_empty (validator (place key index) (to_dict o)) unique.0 _ after h in
    object_Clean validator (place key index) o items seen unique.1 after own
      (id_unique-Added (place key index) (get "id" (to_dict o)) seen duplicates)
      (validate_items-Clean validator key (index + 1) items unique.1 after rest)
validate_items-Clean validator key index (x ∷ items) seen after h = not_object _ _ after h
