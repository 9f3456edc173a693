-- ===== src/Config/Schema/Valid.antt =====
-- What a document that `validate` has nothing against is known to be.
use mathlib.Core.List.{◌++◌ as ◌⊕◌}
use smbpal_desktop.Prelude.{
  ◌≡◌, refl, ap, ◌∙◌, String, Option, none, some, List, [], arith, Dict, lookup,
}
use smbpal_desktop.Config.Json.{Json, object, string, null, bool, int, float, list, to_list, get}
use smbpal_desktop.Config.Schema.{Texts, Problem}
use smbpal_desktop.Config.Schema.Document.{
  Validator, validate_value, validate_items, both_lists, validate_object, check_unique_share_names,
}
use smbpal_desktop.Config.Schema.Records.{validate_share, validate_connection}
use smbpal_desktop.Config.Schema.Accepted.{append_empty, Clean, validate_items-Clean}
use smbpal_desktop.Config.Ids.{listed_items, items_of}

validate_value-Clean :
    (validator : Validator) (key : String) (value : Option Json) (seen after : Dict String)
    → validate_value validator key value seen ≡ some ([], after)
    → Clean validator (listed_items value) seen after
unfolding validate_value listed_items
validate_value-Clean validator key none seen after h =
    validate_items-Clean validator key 0 [] seen after (unfold validate_items in h)
validate_value-Clean validator key (some (list items)) seen after h =
    validate_items-Clean validator key 0 (to_list items) seen after h
validate_value-Clean validator key (some null) seen after h = ground arith
validate_value-Clean validator key (some (bool b)) seen after h = ground arith
validate_value-Clean validator key (some (int i)) seen after h = ground arith
validate_value-Clean validator key (some (float f)) seen after h = ground arith
validate_value-Clean validator key (some (string s)) seen after h = ground arith
validate_value-Clean validator key (some (object o)) seen after h = ground arith

pub record Valid (texts : Texts) (doc : Dict Json) : Type 0 where
  pub between : Dict String
  pub after : Dict String
  pub shares : Clean (validate_share texts) (items_of "shares" doc) [] between
  pub connections : Clean (validate_connection texts) (items_of "connections" doc) between after
  pub names : check_unique_share_names texts (get "shares" doc) ≡ []

both_lists_empty :
    (first : List Problem) (r : Option (List Problem × Dict String))
    (second : Dict String → Option (List Problem × Dict String)) (last : List Problem)
    → both_lists first r second last ≡ some []
    → (between : Dict String) × (after : Dict String) × (r ≡ some ([], between))
      × (second between ≡ some ([], after))
      × (last ≡ [])
both_lists_empty first none second last h = ground arith
both_lists_empty first (some (xs, between)) second last h = run (second between) h refl
  where
    run :
        (o : Option (List Problem × Dict String))
        → (elim o as (λ _. Option (List Problem)) [
          | none ↦ none
          | some (ys, after) ↦ some (first ⊕ xs ⊕ ys ⊕ last)
        ])
          ≡ some []
        → second between ≡ o
        → (b : Dict String) × (after : Dict String) × (◌≡◌ {A = Option (List Problem × Dict String)}
            (some (xs, between))
            (some ([], b)))
          × (second b ≡ some ([], after))
          × (last ≡ [])
    run none h' e = ground arith
    run (some (ys, after)) h' e =
        let all_empty : first ⊕ xs ⊕ ys ⊕ last ≡ [] = ground arith in
        let (front, last_empty) = append_empty (first ⊕ xs ⊕ ys) last all_empty in
        let (front', ys_empty) = append_empty (first ⊕ xs) ys front in
        (
          between,
          after,
          ap (λ (zs : List Problem). some (zs, between)) (append_empty first xs front').1,
          e ∙ ap (λ (zs : List Problem). some (zs, after)) ys_empty,
          last_empty,
        )

pub validate_object-Valid :
    (texts : Texts) (doc : Dict Json) → validate_object texts doc ≡ some [] → Valid texts doc
unfolding validate_object
validate_object-Valid texts doc h =
    let (between, after, of_shares, of_connections, names) = both_lists_empty _ _ _ _ h in
    record {
      between = between;
      after = after;
      shares =
          validate_value-Clean (validate_share texts) "shares" (lookup "shares" doc) [] between
            of_shares;
      connections =
          validate_value-Clean (validate_connection texts) "connections" (lookup "connections" doc)
            between after of_connections;
      names = names;
    }
