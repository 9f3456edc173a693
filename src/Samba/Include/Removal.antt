-- ===== src/Samba/Include/Removal.antt =====
-- What remove_include takes out of lines, and which files have none of it.
use mathlib.Core.List.{◌++◌ as ◌⊕◌}
use smbpal_desktop.Prelude.{
  contains, ℕ, ◌≡◌, refl, ap, ◌∙◌, Bool, true, false, List, [], ◌∷◌, arith, Bool-cases, inl, inr,
  All, codes, codes_eq, codes_eq_path, Result, ok, err, ◌>>=◌,
}
use smbpal_desktop.Config.Mountpoint.{lstrip, rstrip, cons_unless}
use smbpal_desktop.Samba.Include.{
  is_space, concat, begin_marker, end_marker, include_line, strip_spaces, SmbConfError, block,
  remove_block,
}
use smbpal_desktop.Samba.Include.Block.{IsEnding}
use smbpal_desktop.Samba.Include.Marked.{contains-front, contains-behind, contains-ahead}

-- A line that remove_include leaves alone.
abbrev pub IsKept : List ℕ → List ℕ → Type 0
IsKept path line =
    (codes_eq (strip_spaces line) begin_marker ≡ false)
    × (codes_eq (strip_spaces line) (include_line path) ≡ false)

unfoldable pub Kept :
    List (List ℕ) → Result SmbConfError (List (List ℕ)) → Result SmbConfError (List (List ℕ))
Kept lines result = result >>= λ after. ok (lines ⊕ after)

kept-nothing : (result : Result SmbConfError (List (List ℕ))) → result ≡ Kept [] result
unfolding Kept
kept-nothing (ok after) = refl
kept-nothing (err e) = refl

kept-more :
    (line : List ℕ) (lines : List (List ℕ)) (result : Result SmbConfError (List (List ℕ)))
    → (Kept lines result >>= λ rest. ok (line ∷ rest)) ≡ Kept (line ∷ lines) result
unfolding Kept
kept-more line lines (ok after) = refl
kept-more line lines (err e) = refl

pub remove-kept :
    (path : List ℕ) (lines rest : List (List ℕ))
    → All (IsKept path) lines
    → remove_block path false (lines ⊕ rest) ≡ Kept lines (remove_block path false rest)
unfolding remove_block
remove-kept path [] rest a = kept-nothing (remove_block path false rest)
remove-kept path (line ∷ lines) rest ((b, i), a) =
    rw (b, i)
      (ap (λ (r : Result SmbConfError (List (List ℕ))). r >>= λ rest. ok (line ∷ rest))
          (remove-kept path lines rest a)
        ∙ kept-more line lines (remove_block path false rest))

module _ (path line : List ℕ) (lines : List (List ℕ)) where
  remove-begin :
      codes_eq (strip_spaces line) begin_marker ≡ true
      → remove_block path false (line ∷ lines) ≡ remove_block path true lines
  unfolding remove_block
  remove-begin e = rw e refl

  remove-inside :
      codes_eq (strip_spaces line) end_marker ≡ false
      → remove_block path true (line ∷ lines) ≡ remove_block path true lines
  unfolding remove_block
  remove-inside e = rw e refl

  remove-end :
      codes_eq (strip_spaces line) end_marker ≡ true
      → remove_block path true (line ∷ lines) ≡ remove_block path false lines
  unfolding remove_block
  remove-end e = rw e refl

module _ (ending : List ℕ) (e : IsEnding ending) where
  strip-begin : codes_eq (strip_spaces (begin_marker ⊕ ending)) begin_marker ≡ true
  unfolding lstrip rstrip
  strip-begin = elim e [ inl f ↦ rw f refl | inr f ↦ rw f refl ]

  strip-end : codes_eq (strip_spaces (end_marker ⊕ ending)) end_marker ≡ true
  unfolding lstrip rstrip
  strip-end = elim e [ inl f ↦ rw f refl | inr f ↦ rw f refl ]

-- The include line begins with a letter, which stripping leaves there.
strip-include :
    (path ending : List ℕ) → codes_eq (strip_spaces (include_line path ⊕ ending)) end_marker ≡ false
unfolding lstrip rstrip
strip-include path ending = first (rstrip is_space (codes "nclude = " ⊕ path ⊕ ending))
  where
    first : (rest : List ℕ) → codes_eq (cons_unless is_space b'i' rest) end_marker ≡ false
    first [] = refl
    first (c ∷ rest) = refl

-- The block goes.
pub remove-block :
    (path ending : List ℕ) (after : List (List ℕ))
    → IsEnding ending
    → remove_block path false (block path ending ⊕ after) ≡ remove_block path false after
unfolding block
remove-block path ending after e =
    remove-begin path (begin_marker ⊕ ending) _ (strip-begin ending e)
    ∙ remove-inside path (include_line path ⊕ ending) _ (strip-include path ending)
    ∙ remove-end path (end_marker ⊕ ending) after (strip-end ending e)

pub remove-all :
    (path : List ℕ) (lines : List (List ℕ))
    → All (IsKept path) lines
    → remove_block path false lines ≡ ok lines
unfolding remove_block
remove-all path [] a = refl
remove-all path (line ∷ lines) ((b, i), a) = rw (b, i, remove-all path lines a) refl

lstrip-contains :
    (part : List ℕ) (drops : ℕ → Bool) (text : List ℕ)
    → contains part (lstrip drops text) ≡ true
    → contains part text ≡ true
unfolding contains lstrip
lstrip-contains part drops [] h = h
lstrip-contains part drops (c ∷ text) h = ground (arith, h, lstrip-contains part drops text)

rstrip-front :
    (drops : ℕ → Bool) (text : List ℕ) → (rest : List ℕ) × (text ≡ rstrip drops text ⊕ rest)
unfolding rstrip
rstrip-front drops [] = ([], refl)
rstrip-front drops (c ∷ text) =
    let (rest, e) = rstrip-front drops text in grow (rstrip drops text) rest e
  where
    grow :
        (stripped rest : List ℕ)
        → text ≡ stripped ⊕ rest
        → (left : List ℕ) × (c ∷ text ≡ cons_unless drops c stripped ⊕ left)
    grow [] rest e = elim (Bool-cases (drops c)) [
      | inl d ↦ rw d (c ∷ text, refl)
      | inr d ↦ rw d (text, refl)
    ]
    grow (d ∷ stripped) rest e = (rest, ap (λ (t : List ℕ). c ∷ t) e)

strip-contains :
    (part line : List ℕ) → codes_eq (strip_spaces line) part ≡ true → contains part line ≡ true
strip-contains part line h =
    let (rest, e) = rstrip-front is_space (lstrip is_space line) in
    let same = codes_eq_path (strip_spaces line) part h in
    lstrip-contains part is_space line (rw (e, same) (contains-front part rest))

pub unmarked :
    (lines : List (List ℕ))
    → contains begin_marker (concat lines) ≡ false
    → All (λ line. codes_eq (strip_spaces line) begin_marker ≡ false) lines
unmarked [] h = tt
unmarked (line ∷ lines) h = (here, unmarked lines later)
  where
    here : codes_eq (strip_spaces line) begin_marker ≡ false
    here = elim (Bool-cases (codes_eq (strip_spaces line) begin_marker)) [
      | inl e ↦
          cc (
            h,
            contains-ahead begin_marker line (concat lines) (strip-contains begin_marker line e),
          )
      | inr e ↦ e
    ]

    later : contains begin_marker (concat lines) ≡ false
    later = elim (Bool-cases (contains begin_marker (concat lines))) [
      | inl e ↦ cc (h, contains-behind begin_marker line (concat lines) e)
      | inr e ↦ e
    ]
