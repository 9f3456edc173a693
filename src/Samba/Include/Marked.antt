-- ===== src/Samba/Include/Marked.antt =====
-- A file that the block was inserted into has the marker, so that inserting again changes nothing.
use mathlib.Core.List.{◌++◌ as ◌⊕◌}
use smbpal_desktop.Prelude.{
  is_prefix, contains, ℕ, ◌≡◌, refl, sym, ap, ◌∙◌, true, List, [], ◌∷◌, arith, Bool-cases, inl, inr,
  append_assoc, all, ok, Ensures, Ensures-ok, Ensures-bind,
}
use smbpal_desktop.Samba.Include.{
  split_keeping, concat, begin_marker, end_marker, include_line, has_include, line_ending, block,
  insert_block, insert_include,
}
use smbpal_desktop.Samba.Include.Block.{Inserted, insert_block-Inserted}

is_prefix_self : (part after : List ℕ) → is_prefix part (part ⊕ after) ≡ true
is_prefix_self [] after = refl
is_prefix_self (c ∷ part) after = ground (arith, is_prefix_self part after)

pub contains-front : (part after : List ℕ) → contains part (part ⊕ after) ≡ true
unfolding contains
contains-front [] [] = refl
contains-front [] (c ∷ after) = refl
contains-front (c ∷ part) after = ground (arith, is_prefix_self part after)

pub contains-behind :
    (part before text : List ℕ) → contains part text ≡ true → contains part (before ⊕ text) ≡ true
unfolding contains
contains-behind part [] text h = h
contains-behind part (c ∷ before) text h = ground (arith, contains-behind part before text h)

is_prefix-ahead :
    (part text after : List ℕ) → is_prefix part text ≡ true → is_prefix part (text ⊕ after) ≡ true
is_prefix-ahead [] text after h = refl
is_prefix-ahead (c ∷ part) [] after h = cc
is_prefix-ahead (c ∷ part) (d ∷ text) after h = ground (arith, h, is_prefix-ahead part text after)

pub contains-ahead :
    (part text after : List ℕ) → contains part text ≡ true → contains part (text ⊕ after) ≡ true
unfolding contains
contains-ahead [] [] [] h = refl
contains-ahead [] [] (c ∷ after) h = refl
contains-ahead (c ∷ part) [] after h = cc
contains-ahead part (c ∷ text) after h =
    ground (arith, h, is_prefix-ahead part (c ∷ text) after, contains-ahead part text after)

pub concat-append : (xs ys : List (List ℕ)) → concat (xs ⊕ ys) ≡ concat xs ⊕ concat ys
concat-append [] ys = refl
concat-append (x ∷ xs) ys =
    ap (λ (t : List ℕ). x ⊕ t) (concat-append xs ys) ∙ sym (append_assoc x (concat xs) (concat ys))

contains-Inserted :
    (path : List ℕ) (lines all : List (List ℕ))
    → Inserted path lines all
    → contains begin_marker (concat all) ≡ true
unfolding block
contains-Inserted path lines all i =
    let ending = line_ending i.header in
    let rest = ending ⊕ concat ((include_line path ⊕ ending) ∷ (end_marker ⊕ ending) ∷ i.after) in
    let text : concat all ≡ concat i.before ⊕ (i.header ⊕ (begin_marker ⊕ rest)) =
      ap concat i.joined
      ∙ concat-append i.before (i.header ∷ (block path ending ⊕ i.after))
      ∙ ap (λ (t : List ℕ). concat i.before ⊕ (i.header ⊕ t))
          (append_assoc begin_marker ending
            (concat ((include_line path ⊕ ending) ∷ (end_marker ⊕ ending) ∷ i.after))) in
    rw text (
      contains-behind begin_marker (concat i.before) _
        (contains-behind begin_marker i.header _ (contains-front begin_marker rest)))

inserted-has_include :
    (path text : List ℕ) → Ensures (λ t. has_include t ≡ true) (insert_include path text)
unfolding insert_include has_include
inserted-has_include path text = elim (Bool-cases (contains begin_marker text)) [
  | inl e ↦ rw e e
  | inr e ↦ rw e (
      Ensures-bind (Inserted path (split_keeping [] text)) (λ t. contains begin_marker t ≡ true)
        (insert_block path (split_keeping [] text)) _
        (insert_block-Inserted path (split_keeping [] text))
        (contains-Inserted path (split_keeping [] text)))
]

-- Inserting the block into a file that it was inserted into changes nothing, whatever the file.
pub insert_include-insert_include :
    (path text inserted : List ℕ)
    → insert_include path text ≡ ok inserted
    → insert_include path inserted ≡ ok inserted
insert_include-insert_include path text inserted h =
    let there : has_include inserted ≡ true =
      Ensures-ok (λ t. has_include t ≡ true) (insert_include path text)
        (inserted-has_include path text) h in
    unfold insert_include in rw there refl
