-- ===== src/Samba/Include/Block.antt =====
-- Where the block stands in a file, and what is known of its lines.
use mathlib.Core.List.{◌++◌ as ◌⊕◌}
use smbpal_desktop.Prelude.{
  ends_with, ℕ, ◌≡◌, refl, ap, subst, true, false, not, Option, none, some, List, [], ◌∷◌, arith,
  Bool-cases, inl, inr, ◌⊎◌, All, All-append, all, codes, Ensures, Ensures-bind,
}
use smbpal_desktop.Samba.Include.{
  is_line_break, head, concat, begin_marker, end_marker, include_line, is_global_header,
  line_ending, block, insert_block,
}
use smbpal_desktop.Samba.Include.Splitting.{IsCut, AreLines}

abbrev pub IsEnding : List ℕ → Type 0
IsEnding ending = (ending ≡ 13 ∷ 10 ∷ []) ⊎ (ending ≡ 10 ∷ [])

pub line_ending-IsEnding : (line : List ℕ) → IsEnding (line_ending line)
unfolding line_ending
line_ending-IsEnding line = elim (Bool-cases (ends_with (13 ∷ 10 ∷ []) line)) [
  | inl e ↦ rw e (inl refl)
  | inr e ↦ elim (Bool-cases (ends_with (10 ∷ []) line)) [
    | inl f ↦ rw (e, f) (inr refl)
    | inr f ↦ rw (e, f) (inr refl)
  ]
]

-- The block goes behind a header.
pub record Inserted (path : List ℕ) (lines after_all : List (List ℕ)) : Type 0 where
  pub before : List (List ℕ)
  pub header : List ℕ
  pub after : List (List ℕ)
  pub apart : lines ≡ before ⊕ header ∷ after
  pub joined : after_all ≡ before ⊕ header ∷ (block path (line_ending header) ⊕ after)

pub insert_block-Inserted :
    (path : List ℕ) (lines : List (List ℕ))
    → Ensures (Inserted path lines) (insert_block path lines)
unfolding insert_block
insert_block-Inserted path [] = tt
insert_block-Inserted path (line ∷ lines) = elim (Bool-cases (is_global_header line)) [
  | inl e ↦ rw e (record { before = []; header = line; after = lines; apart = refl; joined = refl })
  | inr e ↦ rw e (
      Ensures-bind (Inserted path lines) (Inserted path (line ∷ lines)) (insert_block path lines) _
        (insert_block-Inserted path lines)
        (λ rest i. record {
          before = line ∷ i.before;
          header = i.header;
          after = i.after;
          apart = ap (λ (ls : List (List ℕ)). line ∷ ls) i.apart;
          joined = ap (λ (ls : List (List ℕ)). line ∷ ls) i.joined;
        }))
]

ending-IsCut : (ending : List ℕ) (next : Option ℕ) → IsEnding ending → IsCut ending next
ending-IsCut ending none (inl e) = rw e refl
ending-IsCut ending (some d) (inl e) = rw e refl
ending-IsCut ending none (inr e) = rw e refl
ending-IsCut ending (some d) (inr e) = rw e refl

-- A line without a line break, with a line end behind it, is a line wherever it stands.
pub plain-IsCut :
    (line ending : List ℕ) (next : Option ℕ)
    → All (λ c. is_line_break c ≡ false) line
    → IsEnding ending
    → IsCut (line ⊕ ending) next
plain-IsCut [] ending next a e = ending-IsCut ending next e
plain-IsCut (c ∷ []) ending next (h, a) (inl e) = rw (e, h) (ending-IsCut (10 ∷ []) next (inr refl))
plain-IsCut (c ∷ []) ending next (h, a) (inr e) =
    rw (e, h) (rw e at (ending-IsCut ending next (inr e)))
plain-IsCut (c ∷ d ∷ line) ending next (h, a) e = rw h (plain-IsCut (d ∷ line) ending next a e)

abbrev pub last_char : List ℕ → Option ℕ
last_char [] = none
last_char (c ∷ []) = some c
last_char (c ∷ d ∷ text) = last_char (d ∷ text)

-- A header that something follows, or that a line feed ends, may have the block behind it.
pub followed-IsCut : (line : List ℕ) (d : ℕ) → IsCut line (some d) → IsCut line (some b'#')
followed-IsCut [] d c = c
followed-IsCut (b ∷ []) d c = ground (arith, c)
followed-IsCut (b ∷ f ∷ line) d c = ground (arith, c, followed-IsCut (f ∷ line) d)

pub fed-IsCut :
    (line : List ℕ) → IsCut line none → last_char line ≡ some 10 → IsCut line (some b'#')
fed-IsCut [] c l = c
fed-IsCut (b ∷ []) c l = ground (arith, l)
fed-IsCut (b ∷ f ∷ line) c l = ground (arith, c, fed-IsCut (f ∷ line))

-- The block's lines are lines, and so is what was one behind the header.
unfoldable pub IsPath : List ℕ → Type 0
IsPath path = All (λ c. is_line_break c ≡ false) path

unbroken :
    (line : List ℕ)
    → all (λ c. not (is_line_break c)) line ≡ true
    → All (λ c. is_line_break c ≡ false) line
unbroken [] h = tt
unbroken (c ∷ line) h = ground (arith, h, unbroken line)

pub block-AreLines :
    (path ending : List ℕ) (after : List (List ℕ))
    → IsPath path
    → IsEnding ending
    → AreLines after
    → AreLines (block path ending ⊕ after)
unfolding block IsPath
block-AreLines path ending after p e a =
    let plain = λ (line : List ℕ) (next : Option ℕ) (h : All (λ c. is_line_break c ≡ false) line).
      plain-IsCut line ending next h e in
    (
      plain begin_marker _ (unbroken begin_marker refl),
      (
        plain (include_line path) _ (
            All-append (λ c. is_line_break c ≡ false) (codes "include = ") path
              (unbroken (codes "include = ") refl) p),
        (plain end_marker _ (unbroken end_marker refl), a),
      ),
    )

-- What a text of lines begins with does not depend on what follows its first line.
head-lines :
    (before : List (List ℕ)) (header : List ℕ) (after other : List (List ℕ))
    → AreLines (before ⊕ header ∷ after)
    → head (concat (before ⊕ header ∷ after)) ≡ head (concat (before ⊕ header ∷ other))
head-lines [] [] after other a = cc
head-lines [] (c ∷ header) after other a = refl
head-lines ([] ∷ before) header after other a = cc
head-lines ((c ∷ line) ∷ before) header after other a = refl

-- The header with what now follows it.
pub inserted-AreLines :
    (before : List (List ℕ)) (header : List ℕ) (after other : List (List ℕ))
    → AreLines (before ⊕ header ∷ after)
    → IsCut header (head (concat other))
    → AreLines other
    → AreLines (before ⊕ header ∷ other)
inserted-AreLines [] header after other a c o = (c, o)
inserted-AreLines (line ∷ before) header after other a c o = (
  subst (IsCut line) (head-lines before header after other a.1) a.0,
  inserted-AreLines before header after other a.1 c o,
)
