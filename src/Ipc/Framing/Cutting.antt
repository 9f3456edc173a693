-- ===== src/Ipc/Framing/Cutting.antt =====
-- The loop that cuts a buffer into frames against lines read off byte by byte.
use mathlib.Core.List.{◌++◌ as ◌⊕◌}
use smbpal_desktop.Prelude.{
  ℕ, zero, suc, ◌<◌, ◌≡◌, refl, sym, ap, ◌∙◌, false, none, some, List, [], ◌∷◌, if◌then◌else◌, ◌==◌,
  take, length, Bool-cases, Option-cases, inl, inr, append_assoc, append-nil, arith,
}
use smbpal_desktop.Ipc.Framing.{Bytes, find_line_end, drop, is_blank_line, cut_frames}

-- The lines of a stream that have come to their end, where `line` is what was read of the first.
unfoldable pub complete : Bytes → Bytes → List Bytes
complete line [] = []
complete line (b ∷ stream) =
    let ended = line ∷ complete [] stream in
    let goes_on = complete (line ⊕ b ∷ []) stream in if b == b'\n' then ended else goes_on

-- The line that has not.
unfoldable pub pending : Bytes → Bytes → Bytes
pending line [] = line
pending line (b ∷ stream) =
    let next = pending [] stream in
    let goes_on = pending (line ⊕ b ∷ []) stream in if b == b'\n' then next else goes_on

-- The lines that are frames.
unfoldable pub not_blank : List Bytes → List Bytes
not_blank [] = []
not_blank (line ∷ lines) =
    let rest = not_blank lines in if is_blank_line line then rest else line ∷ rest

abbrev NoLine : Bytes → Bytes → Type 0
NoLine line buffer = (complete line buffer ≡ []) × (pending line buffer ≡ line ⊕ buffer)

no_line : (line buffer : Bytes) → find_line_end buffer ≡ none → NoLine line buffer
unfolding find_line_end complete pending
no_line line [] h = (refl, sym (append-nil line))
no_line line (b ∷ buffer) h =
    let tail : find_line_end buffer ≡ none = ground (arith, Option-cases (find_line_end buffer)) in
    let other : (b == b'\n') ≡ false = ground arith in
    let (c, p) = no_line (line ⊕ b ∷ []) buffer tail in
    rw other (c, p ∙ append_assoc line (b ∷ []) buffer)

abbrev FirstLine : Bytes → Bytes → ℕ → Type 0
FirstLine line buffer index =
    (complete line buffer ≡ (line ⊕ take index buffer) ∷ complete [] (drop (suc index) buffer))
    × (pending line buffer ≡ pending [] (drop (suc index) buffer))
    × (length (drop (suc index) buffer) < length buffer)

first_line :
    (line buffer : Bytes) (index : ℕ)
    → find_line_end buffer ≡ some index
    → FirstLine line buffer index
unfolding find_line_end complete pending
first_line line [] index h = ground arith
first_line line (b ∷ buffer) zero h = elim (Bool-cases (b == b'\n')) [
  | inl e ↦
      rw e (ap (λ (l : Bytes). l ∷ complete [] buffer) (sym (append-nil line)), refl, omega arith)
  | inr e ↦ absurd (ground (arith, e, Option-cases (find_line_end buffer)))
]
first_line line (b ∷ buffer) (suc index) h =
    let tail : find_line_end buffer ≡ some index =
      ground (arith, Option-cases (find_line_end buffer)) in
    let other : (b == b'\n') ≡ false = ground arith in
    let (c, p, l) = first_line (line ⊕ b ∷ []) buffer index tail in
    rw other (
      c
          ∙ ap (λ (l : Bytes). l ∷ complete [] (drop (suc index) buffer))
              (append_assoc line (b ∷ []) (take index buffer)),
      p,
      omega (arith, l),
    )

-- With enough fuel the loop finds the complete lines that are not blank, and leaves the pending one.
pub cut_frames-complete :
    (fuel : ℕ) (buffer : Bytes)
    → length buffer < fuel
    → cut_frames fuel buffer ≡ (not_blank (complete [] buffer), pending [] buffer)
unfolding cut_frames not_blank
cut_frames-complete zero buffer h = absurd (omega arith)
cut_frames-complete (suc fuel) buffer h = elim (Option-cases (find_line_end buffer)) [
  | inl e ↦ ground (arith, e, no_line [] buffer e)
  | inr (index, e) ↦
      let (c, p, l) = first_line [] buffer index e in
      ground (arith, e, c, p, cut_frames-complete fuel (drop (suc index) buffer) (omega arith))
]
