-- ===== src/Samba/Include/Splitting.antt =====
-- A text cut into its lines, and lines that are the lines of a text.
use mathlib.Core.List.{◌++◌ as ◌⊕◌}
use smbpal_desktop.Prelude.{
  ℕ, ◌≡◌, refl, ap, ◌∙◌, Bool, true, false, not, ◌&&◌, Option, none, some, List, [], ◌∷◌, arith,
  Bool-cases, inl, inr, append_assoc,
}
use smbpal_desktop.Samba.Include.{head, ends_line, last_line, split_keeping, concat}

-- A line, with what follows it: its last character ends it, or nothing follows; no other ends it.
abbrev pub is_cut : List ℕ → Option ℕ → Bool
is_cut [] next = false
is_cut (c ∷ []) none = true
is_cut (c ∷ []) (some d) = ends_line c (some d)
is_cut (c ∷ d ∷ line) next = not (ends_line c (some d)) && is_cut (d ∷ line) next

abbrev pub IsCut : List ℕ → Option ℕ → Type 0
IsCut line next = is_cut line next ≡ true

-- Lines that stay as they are when their text is cut.
abbrev pub AreLines : List (List ℕ) → Type 0
AreLines [] = Unit
AreLines (line ∷ lines) = IsCut line (head (concat lines)) × AreLines lines

last_line-append : (line : List ℕ) (c : ℕ) → last_line (line ⊕ c ∷ []) ≡ (line ⊕ c ∷ []) ∷ []
last_line-append [] c = refl
last_line-append (d ∷ line) c = refl

split-cut :
    (begun line rest : List ℕ)
    → IsCut line (head rest)
    → split_keeping begun (line ⊕ rest) ≡ (begun ⊕ line) ∷ split_keeping [] rest
unfolding split_keeping
split-cut begun [] rest h = cc
split-cut begun (c ∷ []) [] h = elim (Bool-cases (ends_line c none)) [
  | inl e ↦ rw e refl
  | inr e ↦ rw e (last_line-append begun c)
]
split-cut begun (c ∷ []) (d ∷ rest) h = rw h refl
split-cut begun (c ∷ d ∷ line) rest h =
    let goes_on : ends_line c (some d) ≡ false = ground (arith, h) in
    let tail : IsCut (d ∷ line) (head rest) = ground (arith, h) in
    rw goes_on (
      split-cut (begun ⊕ c ∷ []) (d ∷ line) rest tail
      ∙ ap (λ (l : List ℕ). l ∷ split_keeping [] rest) (append_assoc begun (c ∷ []) (d ∷ line)))

pub split-concat :
    (lines : List (List ℕ)) → AreLines lines → split_keeping [] (concat lines) ≡ lines
split-concat [] a = unfold split_keeping in refl
split-concat (line ∷ lines) (c, a) =
    split-cut [] line (concat lines) c
    ∙ ap (λ (ls : List (List ℕ)). line ∷ ls) (split-concat lines a)

-- A line that was begun: no character ends it, with what follows.
abbrev is_begun : List ℕ → Option ℕ → Bool
is_begun [] next = true
is_begun (c ∷ []) next = not (ends_line c next)
is_begun (c ∷ d ∷ line) next = not (ends_line c (some d)) && is_begun (d ∷ line) next

longer-begun :
    (line : List ℕ) (c : ℕ) (next : Option ℕ)
    → is_begun line (some c) ≡ true
    → ends_line c next ≡ false
    → is_begun (line ⊕ c ∷ []) next ≡ true
longer-begun [] c next b e = rw e refl
longer-begun (d ∷ []) c next b e = rw (b, e) refl
longer-begun (d ∷ f ∷ line) c next b e = ground (arith, e, b, longer-begun (f ∷ line) c next)

ended-IsCut :
    (line : List ℕ) (c : ℕ) (next : Option ℕ)
    → is_begun line (some c) ≡ true
    → ends_line c next ≡ true
    → IsCut (line ⊕ c ∷ []) next
ended-IsCut [] c none b e = refl
ended-IsCut [] c (some d) b e = e
ended-IsCut (d ∷ []) c none b e = rw b refl
ended-IsCut (d ∷ []) c (some f) b e = rw (b, e) refl
ended-IsCut (d ∷ f ∷ line) c next b e = ground (arith, e, b, ended-IsCut (f ∷ line) c next)

last-IsCut : (c : ℕ) (line : List ℕ) → is_begun (c ∷ line) none ≡ true → IsCut (c ∷ line) none
last-IsCut c [] b = refl
last-IsCut c (d ∷ line) b = ground (arith, b, last-IsCut d line)

-- The lines of a text are lines, and together the text.
abbrev Splits : List ℕ → List ℕ → Type 0
Splits line text =
    AreLines (split_keeping line text) × (concat (split_keeping line text) ≡ line ⊕ text)

splits : (line text : List ℕ) → is_begun line (head text) ≡ true → Splits line text
unfolding split_keeping
splits [] [] b = (tt, refl)
splits (c ∷ line) [] b = ((last-IsCut c line b, tt), refl)
splits line (c ∷ text) b = elim (Bool-cases (ends_line c (head text))) [
  | inl e ↦
      let (a, j) = splits [] text refl in
      rw (e, j) ((ended-IsCut line c (head text) b e, a), append_assoc line (c ∷ []) text)
  | inr e ↦
      let (a, j) = splits (line ⊕ c ∷ []) text (longer-begun line c (head text) b e) in
      rw e (a, j ∙ append_assoc line (c ∷ []) text)
]

pub split-AreLines : (text : List ℕ) → AreLines (split_keeping [] text)
split-AreLines text = (splits [] text refl).0

pub concat-split : (text : List ℕ) → concat (split_keeping [] text) ≡ text
concat-split text = (splits [] text refl).1
