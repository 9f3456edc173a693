-- ===== src/Ipc/Framing/Chunks.antt =====
-- The frames of a stream do not depend on how `recv` cuts it.
use mathlib.Core.List.{◌++◌ as ◌⊕◌}
use smbpal_desktop.Prelude.{
  ℕ, suc, ◌+◌, ◌<◌, ◌≤◌, ◌≡◌, refl, sym, ap, ◌∙◌, false, some, List, [], ◌∷◌, map, ◌==◌, ltb,
  length, length-append, All, elem, Bool-cases, inl, inr, append_assoc, append-nil, arith,
}
use smbpal_desktop.Ipc.Framing.{
  Bytes, Received, chunk, max_frame_bytes, read_chunk, receive, read_frames,
}
use smbpal_desktop.Ipc.Framing.Cutting.{complete, pending, not_blank, cut_frames-complete}

-- What the chunks are together.
abbrev pub joined : List Bytes → Bytes
joined [] = []
joined (bytes ∷ chunks) = bytes ⊕ joined chunks

-- What one `recv` may return: bytes, and not more than were asked for.
abbrev pub IsChunk : Bytes → Type 0
IsChunk bytes = (0 < length bytes) × (length bytes ≤ read_chunk)

-- A line that stays below the limit with a chunk behind it.
abbrev pub IsShort : Bytes → Type 0
IsShort line = length line + read_chunk ≤ max_frame_bytes

abbrev pub IsOpen : Bytes → Type 0
IsOpen line = elem b'\n' line ≡ false

pub complete-append :
    (line s t : Bytes) → complete line (s ⊕ t) ≡ complete line s ⊕ complete (pending line s) t
unfolding complete pending
complete-append line [] t = refl
complete-append line (b ∷ s) t = elim (Bool-cases (b == b'\n')) [
  | inl e ↦ rw e (ap (λ (ls : List Bytes). line ∷ ls) (complete-append [] s t))
  | inr e ↦ rw e (complete-append (line ⊕ b ∷ []) s t)
]

pub pending-append : (line s t : Bytes) → pending line (s ⊕ t) ≡ pending (pending line s) t
unfolding pending
pending-append line [] t = refl
pending-append line (b ∷ s) t = elim (Bool-cases (b == b'\n')) [
  | inl e ↦ rw e (pending-append [] s t)
  | inr e ↦ rw e (pending-append (line ⊕ b ∷ []) s t)
]

-- Bytes without a line end belong to the line that was begun.
abbrev pub Carried : Bytes → Bytes → Bytes → Type 0
Carried line part stream =
    (complete line (part ⊕ stream) ≡ complete (line ⊕ part) stream)
    × (pending line (part ⊕ stream) ≡ pending (line ⊕ part) stream)

pub carry : (line part stream : Bytes) → IsOpen part → Carried line part stream
unfolding complete pending
carry line [] stream h = rw (append-nil line) (refl, refl)
carry line (b ∷ part) stream h =
    let other : (b == b'\n') ≡ false = ground arith in
    let more : elem b'\n' part ≡ false = ground arith in
    rw (other, sym (append_assoc line (b ∷ []) part)) (carry (line ⊕ b ∷ []) part stream more)

ended-IsOpen : (line : Bytes) (b : ℕ) → IsOpen line → (b == b'\n') ≡ false → IsOpen (line ⊕ b ∷ [])
ended-IsOpen [] b h e = ground (arith, e)
ended-IsOpen (c ∷ line) b h e = ground (arith, e, ended-IsOpen line b)

pub pending-IsOpen : (line s : Bytes) → IsOpen line → IsOpen (pending line s)
unfolding pending
pending-IsOpen line [] h = h
pending-IsOpen line (b ∷ s) h = elim (Bool-cases (b == b'\n')) [
  | inl e ↦ rw e (pending-IsOpen [] s refl)
  | inr e ↦ rw e (pending-IsOpen (line ⊕ b ∷ []) s (ended-IsOpen line b h e))
]

not_blank-append : (xs ys : List Bytes) → not_blank (xs ⊕ ys) ≡ not_blank xs ⊕ not_blank ys
unfolding not_blank
not_blank-append [] ys = refl
not_blank-append (x ∷ xs) ys = ground (arith, not_blank-append xs ys)

-- The line that was begun is no longer than the line that it becomes.
begun-IsShort :
    (line stream : Bytes)
    → All IsShort (complete line stream)
    → IsShort (pending line stream)
    → IsShort line
unfolding complete pending
begun-IsShort line [] c p = p
begun-IsShort line (b ∷ stream) c p = elim (Bool-cases (b == b'\n')) [
  | inl e ↦ ground (arith, e)
  | inr e ↦
      let longer : IsShort (line ⊕ b ∷ []) =
        begun-IsShort (line ⊕ b ∷ []) stream (rw e at c) (rw e at p) in
      omega (arith, longer, length-append line (b ∷ []))
]

shorts_apart : (xs ys : List Bytes) → All IsShort (xs ⊕ ys) → All IsShort xs × All IsShort ys
shorts_apart [] ys h = (tt, h)
shorts_apart (x ∷ xs) ys (p, h) = let (l, r) = shorts_apart xs ys h in ((p, l), r)

receive_chunk :
    (buffer bytes : Bytes)
    → IsOpen buffer
    → IsShort buffer
    → IsChunk bytes
    → receive buffer (chunk bytes)
      ≡ (not_blank (complete buffer bytes), some (pending buffer bytes))
unfolding receive
receive_chunk buffer [] o s (p, l) = absurd (omega arith)
receive_chunk buffer (b ∷ bytes) o s (p, l) =
    let (c, q) = carry [] buffer (b ∷ bytes) o in
    let fits : ltb max_frame_bytes (length (buffer ⊕ b ∷ bytes)) ≡ false =
      ground (arith, length-append buffer (b ∷ bytes)) in
    let cut =
      cut_frames-complete (suc (length (buffer ⊕ b ∷ bytes))) (buffer ⊕ b ∷ bytes) (omega arith) in
    rw (fits, cut, c, q) refl

read_frames_step :
    (buffer left : Bytes) (frames : List Bytes) (next : Received) (later : List Received)
    → receive buffer next ≡ (frames, some left)
    → read_frames buffer (next ∷ later) ≡ frames ⊕ read_frames left later
unfolding read_frames
read_frames_step buffer left frames next later h = ground (arith, h)

read_chunks :
    (buffer : Bytes) (chunks : List Bytes)
    → IsOpen buffer
    → All IsChunk chunks
    → All IsShort (complete buffer (joined chunks))
    → IsShort (pending buffer (joined chunks))
    → read_frames buffer (map chunk chunks) ≡ not_blank (complete buffer (joined chunks))
read_chunks buffer [] o a c p = unfold read_frames complete not_blank in refl
read_chunks buffer (bytes ∷ chunks) o (f, a) c p =
    let (here, later) =
      shorts_apart (complete buffer bytes) (complete (pending buffer bytes) (joined chunks))
        (rw (complete-append buffer bytes (joined chunks)) at c) in
    let begun = begun-IsShort buffer (bytes ⊕ joined chunks) c p in
    let rest =
      read_chunks (pending buffer bytes) chunks (pending-IsOpen buffer bytes o) a later
        (rw (pending-append buffer bytes (joined chunks)) at p) in
    read_frames_step buffer (pending buffer bytes) (not_blank (complete buffer bytes)) (chunk bytes)
      (map chunk chunks) (receive_chunk buffer bytes o begun f)
    ∙ ap (λ (ls : List Bytes). not_blank (complete buffer bytes) ⊕ ls) rest
    ∙ sym
        (not_blank-append (complete buffer bytes) (complete (pending buffer bytes) (joined chunks)))
    ∙ ap not_blank (sym (complete-append buffer bytes (joined chunks)))

-- However a stream is cut into chunks of at most 65,536 bytes, the frames that are yielded are its
-- complete lines that are not blank, in order; each of its lines, also the last one that has not come
-- to its end, is supposed to have room for one more chunk below the limit.
pub read_frames-complete :
    (chunks : List Bytes)
    → All IsChunk chunks
    → All IsShort (complete [] (joined chunks))
    → IsShort (pending [] (joined chunks))
    → read_frames [] (map chunk chunks) ≡ not_blank (complete [] (joined chunks))
read_frames-complete chunks = read_chunks [] chunks refl
