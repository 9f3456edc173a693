-- ===== src/Config/Json.antt =====
-- A document as `json.loads` returns it, and what config/schema.py calls its kinds.
use smbpal_desktop.Prelude.{◌≡◌, refl, ap, ℕ, String, Bool, none, some, List, [], ◌∷◌, Dict, lookup}

pub data ℤ : Type 0 where
  pos : ℕ → ℤ
  negsuc : ℕ → ℤ

-- A float is kept as its text.
mutual
  pub data Json : Type 0 where
    null : Json
    bool : Bool → Json
    int : ℤ → Json
    float : String → Json
    string : String → Json
    list : Items → Json
    object : Members → Json

  pub data Items : Type 0 where
    no_items : Items
    item : Json → Items → Items

  pub data Members : Type 0 where
    no_members : Members
    member : String → Json → Members → Members

unfoldable pub to_list : Items → List Json
to_list no_items = []
to_list (item x xs) = x ∷ to_list xs

unfoldable pub of_list : List Json → Items
of_list [] = no_items
of_list (x ∷ xs) = item x (of_list xs)

pub to_list-of_list : (items : List Json) → to_list (of_list items) ≡ items
unfolding of_list to_list
to_list-of_list [] = refl
to_list-of_list (x ∷ items) = ap (λ (xs : List Json). x ∷ xs) (to_list-of_list items)

unfoldable pub to_dict : Members → Dict Json
to_dict no_members = []
to_dict (member key value members) = (key, value) ∷ to_dict members

-- `obj.get(key)`: a field that is missing reads like one that is null.
unfoldable pub get : String → Dict Json → Json
unfolding lookup
get key obj = elim (lookup key obj) [ none ↦ null | some value ↦ value ]

-- _kind
unfoldable pub kind : Json → String
kind null = "null"
kind (bool b) = "a boolean"
kind (int i) = "a number"
kind (float f) = "a number"
kind (string s) = "a string"
kind (list xs) = "a list"
kind (object o) = "an object"
