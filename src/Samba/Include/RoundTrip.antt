-- ===== src/Samba/Include/RoundTrip.antt =====
-- Removing the block that was inserted gives the file back.
use mathlib.Core.List.{◌++◌ as ◌⊕◌}
use smbpal_desktop.Prelude.{
  ℕ, ◌≡◌, refl, sym, ap, subst, ◌∙◌, false, some, List, [], ◌∷◌, append-nil, All, all, codes_eq, ok,
  Ensures-ok, Ensures-bind,
}
use smbpal_desktop.Samba.Include.{
  head, split_keeping, concat, begin_marker, include_line, has_include, strip_spaces, line_ending,
  block, insert_block, insert_include, remove_block, remove_include,
}
use smbpal_desktop.Samba.Include.Splitting.{
  IsCut, AreLines, split-concat, split-AreLines, concat-split,
}
use smbpal_desktop.Samba.Include.Block.{
  line_ending-IsEnding, Inserted, insert_block-Inserted, last_char, followed-IsCut, fed-IsCut,
  IsPath, block-AreLines, inserted-AreLines,
}
use smbpal_desktop.Samba.Include.Marked.{concat-append}
use smbpal_desktop.Samba.Include.Removal.{
  IsKept, Kept, remove-kept, remove-block, remove-all, unmarked,
}

last_char-append :
    (xs : List ℕ) (y : ℕ) (ys : List ℕ) → last_char (xs ⊕ y ∷ ys) ≡ last_char (y ∷ ys)
last_char-append [] y ys = refl
last_char-append (x ∷ []) y ys = refl
last_char-append (x ∷ z ∷ xs) y ys = last_char-append (z ∷ xs) y ys

lines_behind :
    (before : List (List ℕ)) (header : List ℕ) (after : List (List ℕ))
    → AreLines (before ⊕ header ∷ after)
    → AreLines (header ∷ after)
lines_behind [] header after a = a
lines_behind (line ∷ before) header after a = lines_behind before header after a.1

-- In a text that a line feed ends, the header has an end of its own.
header-IsCut :
    (before : List (List ℕ)) (header : List ℕ) (after : List (List ℕ))
    → IsCut header (head (concat after))
    → last_char (concat (before ⊕ header ∷ after)) ≡ some 10
    → IsCut header (some b'#')
header-IsCut before header after c l =
    run header (concat after) c (rw (concat-append before (header ∷ after)) at l)
  where
    run :
        (line rest : List ℕ)
        → IsCut line (head rest)
        → last_char (concat before ⊕ (line ⊕ rest)) ≡ some 10
        → IsCut line (some b'#')
    run line (d ∷ rest) c l = followed-IsCut line d c
    run [] [] c l = c
    run (b ∷ line) [] c l =
        fed-IsCut (b ∷ line) c (rw (append-nil line, last_char-append (concat before) b line) at l)

parts-IsKept :
    (path : List ℕ) (before : List (List ℕ)) (header : List ℕ) (after : List (List ℕ))
    → All (IsKept path) (before ⊕ header ∷ after)
    → All (IsKept path) before × IsKept path header × All (IsKept path) after
parts-IsKept path [] header after a = (tt, a.0, a.1)
parts-IsKept path (line ∷ before) header after a =
    let (b, h, r) = parts-IsKept path before header after a.1 in ((a.0, b), h, r)

-- The lines with the block among them are lines.
all-AreLines :
    (path : List ℕ) (lines all : List (List ℕ))
    → IsPath path
    → AreLines lines
    → last_char (concat lines) ≡ some 10
    → Inserted path lines all
    → AreLines all
unfolding block
all-AreLines path lines all p a l i =
    let ending = line_ending i.header in
    let apart : AreLines (i.before ⊕ i.header ∷ i.after) = subst AreLines i.apart a in
    let (c, r) = lines_behind i.before i.header i.after apart in
    let cut = header-IsCut i.before i.header i.after c (rw i.apart at l) in
    let blocked = block-AreLines path ending i.after p (line_ending-IsEnding i.header) r in
    subst AreLines (sym i.joined)
      (inserted-AreLines i.before i.header i.after (block path ending ⊕ i.after) apart cut blocked)

-- Of these lines the block goes and the others stay.
remove-Inserted :
    (path : List ℕ) (lines all : List (List ℕ))
    → All (IsKept path) lines
    → Inserted path lines all
    → remove_block path false all ≡ ok lines
unfolding Kept
remove-Inserted path lines all k i =
    let ending = line_ending i.header in
    let behind = block path ending ⊕ i.after in
    let (kb, kh, ka) = parts-IsKept path i.before i.header i.after (rw i.apart at k) in
    let rest : remove_block path false behind ≡ ok i.after =
      remove-block path ending i.after (line_ending-IsEnding i.header)
      ∙ remove-all path i.after ka in
    let headed : remove_block path false (i.header ∷ behind) ≡ ok (i.header ∷ i.after) =
      remove-kept path (i.header ∷ []) behind (kh, tt) ∙ ap (Kept (i.header ∷ [])) rest in
    ap (remove_block path false) i.joined
    ∙ remove-kept path i.before (i.header ∷ behind) kb
    ∙ ap (Kept i.before) headed
    ∙ ap ok (sym i.apart)

-- No line of the text is the begin marker or the include line.
lines-IsKept :
    (path : List ℕ) (lines : List (List ℕ))
    → All (λ line. codes_eq (strip_spaces line) begin_marker ≡ false) lines
    → All (λ line. codes_eq (strip_spaces line) (include_line path) ≡ false) lines
    → All (IsKept path) lines
lines-IsKept path [] a b = tt
lines-IsKept path (line ∷ lines) (x, a) (y, b) = ((x, y), lines-IsKept path lines a b)

-- When the block is inserted into a file, removing it gives the file back, character by character;
-- the file is supposed to end in a line feed, and to have neither the begin marker nor a line with the
-- include in it, and the path of the include to have no line break.
pub remove_include-insert_include :
    (path text inserted : List ℕ)
    → IsPath path
    → last_char text ≡ some 10
    → has_include text ≡ false
    → All (λ line. codes_eq (strip_spaces line) (include_line path) ≡ false) (split_keeping [] text)
    → insert_include path text ≡ ok inserted
    → remove_include path inserted ≡ ok text
remove_include-insert_include path text inserted p l m s h =
    Ensures-ok (λ t. remove_include path t ≡ ok text) (insert_include path text)
      (unfold insert_include in
        rw m (
          Ensures-bind (Inserted path lines) (λ t. remove_include path t ≡ ok text)
            (insert_block path lines) _ (insert_block-Inserted path lines) back))
      h
  where
    lines : List (List ℕ)
    lines = split_keeping [] text

    kept : All (IsKept path) lines
    kept =
        lines-IsKept path lines (unmarked lines (rw (concat-split text) (unfold has_include in m)))
          s

    back :
        (all : List (List ℕ)) → Inserted path lines all → remove_include path (concat all) ≡ ok text
    back all i =
        let are =
          all-AreLines path lines all p (split-AreLines text) (rw (concat-split text) l) i in
        unfold remove_include in
        rw (split-concat all are, remove-Inserted path lines all kept i, concat-split text) refl
