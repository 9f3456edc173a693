-- ===== src/Config/Operations/Mountpoints.antt =====
-- The mountpoints of a document's connections, as a record is added or taken out.
use mathlib.Core.List.{◌++◌ as ◌⊕◌}
use smbpal_desktop.Prelude.{
  any-append, ℕ, zero, suc, ◌≡◌, refl, subst, sym, ap, ◌∙◌, String, false, some, List, [], ◌∷◌,
  str_eq, any, Option-cases, inl, inr, arith,
}
use smbpal_desktop.Config.Json.{Json, null, bool, int, float, string, list, object, get}
use smbpal_desktop.Config.Schema.Accepted.{Unique}
use smbpal_desktop.Config.Ids.{add_id}
use smbpal_desktop.Config.Operations.{fields, is_text, is_used, is_mounted_on}
use smbpal_desktop.Config.Operations.Removing.{pop}

-- The mountpoints of some records, of those that have a text for one.
unfoldable pub mountpoint_texts : List Json → List String
mountpoint_texts [] = []
mountpoint_texts (x ∷ items) = add_id (get "mountpoint" (fields x)) (mountpoint_texts items)

add_id-fresh :
    (text : String) (value : Json) (texts : List String)
    → is_text text value ≡ false
    → is_used text texts ≡ false
    → is_used text (add_id value texts) ≡ false
add_id-fresh text (string s) texts other fresh = ground arith
add_id-fresh text null texts other fresh = fresh
add_id-fresh text (bool b) texts other fresh = fresh
add_id-fresh text (int i) texts other fresh = fresh
add_id-fresh text (float f) texts other fresh = fresh
add_id-fresh text (list xs) texts other fresh = fresh
add_id-fresh text (object o) texts other fresh = fresh

pub mountpoint_texts-fresh :
    (mountpoint : String) (items : List Json)
    → any (is_mounted_on mountpoint) items ≡ false
    → is_used mountpoint (mountpoint_texts items) ≡ false
unfolding mountpoint_texts
mountpoint_texts-fresh mountpoint [] h = refl
mountpoint_texts-fresh mountpoint (x ∷ items) h =
    add_id-fresh mountpoint (get "mountpoint" (fields x)) (mountpoint_texts items) (ground arith)
      (mountpoint_texts-fresh mountpoint items (ground arith))

pub Unique-last :
    (text : String) (texts : List String)
    → Unique texts
    → is_used text texts ≡ false
    → Unique (texts ⊕ text ∷ [])
Unique-last text [] u fresh = (refl, tt)
Unique-last text (t ∷ texts) u fresh = (
  ground (arith, u.0, fresh, any-append (str_eq t) texts (text ∷ [])),
  Unique-last text texts u.1 (ground arith),
)

add_id-append : (value : Json) (xs ys : List String) → add_id value (xs ⊕ ys) ≡ add_id value xs ⊕ ys
add_id-append (string s) xs ys = refl
add_id-append null xs ys = refl
add_id-append (bool b) xs ys = refl
add_id-append (int i) xs ys = refl
add_id-append (float f) xs ys = refl
add_id-append (list items) xs ys = refl
add_id-append (object o) xs ys = refl

pub mountpoint_texts-append :
    (items later : List Json)
    → mountpoint_texts (items ⊕ later) ≡ mountpoint_texts items ⊕ mountpoint_texts later
unfolding mountpoint_texts
mountpoint_texts-append [] later = refl
mountpoint_texts-append (x ∷ items) later =
    rw (mountpoint_texts-append items later) (
      add_id-append (get "mountpoint" (fields x)) (mountpoint_texts items) (mountpoint_texts later))

-- What pop takes out stands between the records that it leaves.
record Taken (items : List Json) (x : Json) (rest : List Json) : Type 0 where
  before : List Json
  after : List Json
  whole : items ≡ before ⊕ x ∷ after
  left : rest ≡ before ⊕ after

pop-Taken :
    (n : ℕ) (items : List Json) (x : Json) (rest : List Json)
    → pop n items ≡ some (x, rest)
    → Taken items x rest
unfolding pop
pop-Taken n [] x rest h = ground arith
pop-Taken zero (y ∷ items) x rest h = record {
  before = [];
  after = items;
  whole = ground (arith, h);
  left = ground (arith, h);
}
pop-Taken (suc n) (y ∷ items) x rest h = elim (Option-cases (pop n items)) [
  | inl e ↦ cc
  | inr ((taken, others), e) ↦
      let (same, left) : (taken ≡ x) × (y ∷ others ≡ rest) =
        (ground (arith, rw e at h), ground (arith, rw e at h)) in
      let deeper = pop-Taken n items x others (e ∙ ap (λ (t : Json). some (t, others)) same) in
      record {
        before = y ∷ deeper.before;
        after = deeper.after;
        whole = ap (λ (l : List Json). y ∷ l) deeper.whole;
        left = cc (left, deeper.left);
      }
]

Unique-without : (xs ys : List String) (s : String) → Unique (xs ⊕ s ∷ ys) → Unique (xs ⊕ ys)
Unique-without [] ys s u = u.1
Unique-without (x ∷ xs) ys s u = (
  ground (arith, u.0, any-append (str_eq x) xs ys, any-append (str_eq x) xs (s ∷ ys)),
  Unique-without xs ys s u.1,
)

Unique-unlisted :
    (value : Json) (xs ys : List String) → Unique (xs ⊕ add_id value ys) → Unique (xs ⊕ ys)
Unique-unlisted (string s) xs ys u = Unique-without xs ys s u
Unique-unlisted null xs ys u = u
Unique-unlisted (bool b) xs ys u = u
Unique-unlisted (int i) xs ys u = u
Unique-unlisted (float f) xs ys u = u
Unique-unlisted (list items) xs ys u = u
Unique-unlisted (object o) xs ys u = u

pub pop-Unique :
    (n : ℕ) (items : List Json) (x : Json) (rest : List Json)
    → pop n items ≡ some (x, rest)
    → Unique (mountpoint_texts items)
    → Unique (mountpoint_texts rest)
unfolding mountpoint_texts
pop-Unique n items x rest h u =
    let taken = pop-Taken n items x rest h in
    let all_of : mountpoint_texts items
        ≡ mountpoint_texts taken.before ⊕ mountpoint_texts (x ∷ taken.after) =
      ap mountpoint_texts taken.whole ∙ mountpoint_texts-append taken.before (x ∷ taken.after) in
    let others : mountpoint_texts taken.before ⊕ mountpoint_texts taken.after
        ≡ mountpoint_texts rest =
      sym (ap mountpoint_texts taken.left ∙ mountpoint_texts-append taken.before taken.after) in
    subst Unique others (
      Unique-unlisted (get "mountpoint" (fields x)) (mountpoint_texts taken.before)
        (mountpoint_texts taken.after) (subst Unique all_of u))
