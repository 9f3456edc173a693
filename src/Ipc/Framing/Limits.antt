-- ===== src/Ipc/Framing/Limits.antt =====
-- What the reader yields and keeps, whatever a client sends.
use mathlib.Core.List.{◌++◌ as ◌⊕◌}
use smbpal_desktop.Prelude.{
  ℕ, zero, suc, ◌+◌, ◌<◌, ◌≤◌, ◌≡◌, refl, false, Option, none, some, List, [], ◌∷◌, ltb, length,
  All, All-append, elem, Bool-cases, Option-cases, inl, inr, arith, take,
}
use smbpal_desktop.Ipc.Framing.{
  Bytes, Received, chunk, recv_error, max_frame_bytes, is_blank_line, receive, read_frames,
  cut_frames, find_line_end, drop,
}

-- A frame: not too long, on one line and not blank.
pub record IsFrame (line : Bytes) : Type 0 where
  pub fits : length line < max_frame_bytes
  pub one_line : elem b'\n' line ≡ false
  pub filled : is_blank_line line ≡ false

-- What is taken off the front is one line, and with what follows and the line end it is the buffer.
cut_facts :
    (buffer : Bytes) (index : ℕ)
    → find_line_end buffer ≡ some index
    → (elem b'\n' (take index buffer) ≡ false)
      × (suc (length (take index buffer) + length (drop (suc index) buffer)) ≡ length buffer)
unfolding find_line_end
cut_facts [] index h = ground arith
cut_facts (b ∷ buffer) zero h = (refl, omega arith)
cut_facts (b ∷ buffer) (suc index) h =
    let tail : find_line_end buffer ≡ some index =
      ground (arith, Option-cases (find_line_end buffer)) in
    ground (arith, cut_facts buffer index tail)

cut_frames-IsFrame :
    (fuel : ℕ) (buffer : Bytes)
    → length buffer ≤ max_frame_bytes
    → All IsFrame (cut_frames fuel buffer).0 × (length (cut_frames fuel buffer).1 ≤ length buffer)
unfolding cut_frames
cut_frames-IsFrame zero buffer h = (tt, omega arith)
cut_frames-IsFrame (suc fuel) buffer h = elim (Option-cases (find_line_end buffer)) [
  | inl e ↦ ground (arith, e)
  | inr (index, e) ↦
      let (o, l) = cut_facts buffer index e in
      let (a, k) = cut_frames-IsFrame fuel (drop (suc index) buffer) (omega arith) in
      elim (Bool-cases (is_blank_line (take index buffer))) [
        | inl blank ↦ ground (arith, e, blank, a, k)
        | inr filled ↦ ground (arith, e, filled, a, k, o)
      ]
]

-- What `receive` keeps is below the limit.
pub Kept : Option Bytes → Type 0
Kept none = Unit
Kept (some left) = length left ≤ max_frame_bytes

receive-IsFrame :
    (buffer : Bytes) (next : Received)
    → All IsFrame (receive buffer next).0 × Kept (receive buffer next).1
unfolding receive Kept
receive-IsFrame buffer recv_error = (tt, tt)
receive-IsFrame buffer (chunk []) = (tt, tt)
receive-IsFrame buffer (chunk (b ∷ bytes)) =
    let filled = buffer ⊕ b ∷ bytes in
    elim (Bool-cases (ltb max_frame_bytes (length filled))) [
      | inl e ↦ ground (arith, e)
      | inr e ↦ ground (arith, e, cut_frames-IsFrame (suc (length filled)) filled (ground arith))
    ]

-- Whatever a client sends, each frame that is yielded is below the limit, is one line, and is not blank.
pub read_frames-IsFrame :
    (buffer : Bytes) (received : List Received) → All IsFrame (read_frames buffer received)
unfolding read_frames
read_frames-IsFrame buffer [] = tt
read_frames-IsFrame buffer (next ∷ later) = elim (Option-cases (receive buffer next).1) [
  | inl e ↦ ground (arith, e, receive-IsFrame buffer next)
  | inr (left, e) ↦
      let both =
        All-append IsFrame (receive buffer next).0 (read_frames left later)
          (receive-IsFrame buffer next).0 (read_frames-IsFrame left later) in
      ground (arith, e, both)
]
