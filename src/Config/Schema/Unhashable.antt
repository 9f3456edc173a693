-- ===== src/Config/Schema/Unhashable.antt =====
-- A `keychain_credential` that cannot be hashed: `validate` raises where it promises a list.
use Prim.Native.String.{◌++◌}
use mathlib.Core.List.{◌++◌ as ◌⊕◌}
use smbpal_desktop.Prelude.{
  ℕ, ◌+◌, ◌≡◌, refl, ap, String, Bool, true, false, Option, none, some, List, [], ◌∷◌, arith, Dict,
  lookup,
}
use smbpal_desktop.Config.Json.{Json, Members, object, list, to_list, to_dict, get, kind, Items}
use smbpal_desktop.Config.Schema.{Texts, Problem, problem}
use smbpal_desktop.Config.Schema.Document.{
  Validator, check_id_unique, place, prepend, with_rest, both_lists, validate_items, validate_value,
  validate_list, validate_object,
}
use smbpal_desktop.Config.Schema.Records.{check_keychain, validate_connection}

abbrev pub is_unhashable : Json → Bool
is_unhashable (list xs) = true
is_unhashable (object o) = true
is_unhashable _ = false

check_keychain_raises :
    (texts : Texts) (w : String) (value : Json)
    → is_unhashable value ≡ true
    → check_keychain texts w value ≡ none
unfolding check_keychain
check_keychain_raises texts w value h = ground arith

validate_connection_raises :
    (texts : Texts) (o : Members)
    → is_unhashable (get "keychain_credential" (to_dict o)) ≡ true
    → (w : String) → validate_connection texts w (to_dict o) ≡ none
unfolding validate_connection
validate_connection_raises texts o h w =
    rw (check_keychain_raises texts w (get "keychain_credential" (to_dict o)) h) refl

with_rest-none :
    (own : Option (List Problem)) (duplicates : List Problem) → with_rest own duplicates none ≡ none
with_rest-none none duplicates = refl
with_rest-none (some problems) duplicates = refl

validate_items_raises :
    (validator : Validator) (key : String) (index : ℕ) (before behind : List Json) (o : Members)
    (seen : Dict String)
    → ((w : String) → validator w (to_dict o) ≡ none)
    → validate_items validator key index (before ⊕ object o ∷ behind) seen ≡ none
unfolding validate_items
validate_items_raises validator key index [] behind o seen h = rw (h (place key index)) refl
validate_items_raises validator key index (object p ∷ before) behind o seen h =
    let unique = check_id_unique (place key index) (get "id" (to_dict p)) seen in
    rw (validate_items_raises validator key (index + 1) before behind o unique.1 h)
      (with_rest-none (validator (place key index) (to_dict p)) unique.0)
validate_items_raises validator key index (x ∷ before) behind o seen h =
    ap (prepend (problem (place key index) ("expected an object, got " ++ kind x)))
      (validate_items_raises validator key (index + 1) before behind o seen h)

both_lists_raises :
    (first : List Problem) (r : Option (List Problem × Dict String))
    (second : Dict String → Option (List Problem × Dict String)) (last : List Problem)
    → ((seen : Dict String) → second seen ≡ none)
    → both_lists first r second last ≡ none
both_lists_raises first none second last h = refl
both_lists_raises first (some (xs, seen)) second last h = rw (h seen, both_lists) refl

-- If any connection of a document has a list or an object as its `keychain_credential`, `validate`
-- raises instead of reporting a problem, whatever else the document holds.
pub unhashable_raises :
    (texts : Texts) (doc : Dict Json) (items : Items) (before behind : List Json) (o : Members)
    → lookup "connections" doc ≡ some (list items)
    → to_list items ≡ before ⊕ object o ∷ behind
    → is_unhashable (get "keychain_credential" (to_dict o)) ≡ true
    → validate_object texts doc ≡ none
unfolding validate_object validate_value
unhashable_raises texts doc items before behind o c l h =
    let raises : (seen : Dict String)
        → validate_list (validate_connection texts) "connections" doc seen ≡ none =
      λ seen.
        rw (c, l)
          (validate_items_raises (validate_connection texts) "connections" 0 before behind o seen
            (validate_connection_raises texts o h)) in
    both_lists_raises _ _ (validate_list (validate_connection texts) "connections" doc) _ raises
