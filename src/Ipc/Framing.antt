-- ===== src/Ipc/Framing.antt =====
-- ipc/server.py, UnixSocketConnection.read_frames: the bytes of a client are cut into frames at
-- their line ends. Bytes are numbers.
pub mod Cutting
pub mod Limits
pub mod Chunks
use mathlib.Core.List.{◌++◌ as ◌⊕◌}
use smbpal_desktop.Prelude.{
  ℕ, zero, suc, ◌+◌, ◌*◌, Bool, true, false, not, ◌||◌, Option, none, some, List, [], ◌∷◌,
  if◌then◌else◌, ◌==◌, ltb, take, length, all, ◌≡◌, refl, elem,
}

abbrev pub Bytes : Type 0
Bytes = List ℕ

-- MAX_FRAME_BYTES
abbrev pub max_frame_bytes : ℕ
max_frame_bytes = 1024 * 1024

-- _READ_CHUNK
abbrev pub read_chunk : ℕ
read_chunk = 65536

-- What one `recv` does: it returns bytes, none at the end of the stream, or raises.
pub data Received : Type 0 where
  chunk : Bytes → Received
  recv_error : Received

-- buffer.find(b"\n")
unfoldable pub find_line_end : Bytes → Option ℕ
find_line_end [] = none
find_line_end (b ∷ buffer) =
    let later : Option ℕ = elim (find_line_end buffer) [
      | none ↦ none
      | some index ↦ some (suc index)
    ] in
    if b == b'\n' then some 0 else later

-- buffer[n:]
abbrev pub drop : ℕ → Bytes → Bytes
drop zero buffer = buffer
drop (suc n) [] = []
drop (suc n) (b ∷ buffer) = drop n buffer

-- A byte that `bytes.strip` takes off.
abbrev pub is_space_byte : ℕ → Bool
is_space_byte b = b == b' ' || b == 9 || b == 10 || b == 11 || b == 12 || b == 13

-- `not line.strip()`
unfoldable pub is_blank_line : Bytes → Bool
is_blank_line line = all is_space_byte line

-- The inner loop, on fuel: the frames that the buffer holds, and what is left of it.
unfoldable pub cut_frames : ℕ → Bytes → List Bytes × Bytes
cut_frames zero buffer = ([], buffer)
cut_frames (suc fuel) buffer = elim (find_line_end buffer) [
  | none ↦ ([], buffer)
  | some index ↦
      let (frames, left) = cut_frames fuel (drop (suc index) buffer) in
      (if is_blank_line (take index buffer) then frames else take index buffer ∷ frames, left)
]

-- What is done with what one `recv` did: the frames that are yielded, and the buffer, or none if the
-- loop returns. A frame takes one byte at least, so that there is fuel enough.
unfoldable pub receive : Bytes → Received → List Bytes × Option Bytes
unfolding cut_frames
receive buffer recv_error = ([], none)
receive buffer (chunk []) = ([], none)
receive buffer (chunk (b ∷ bytes)) =
    let filled = buffer ⊕ b ∷ bytes in
    let (frames, left) = cut_frames (suc (length filled)) filled in
    if ltb max_frame_bytes (length filled) then ([], none) else (frames, some left)

-- read_frames: what is yielded while the socket does this.
unfoldable pub read_frames : Bytes → List Received → List Bytes
unfolding receive
read_frames buffer [] = []
read_frames buffer (next ∷ later) =
    let (frames, kept) = receive buffer next in
    elim kept [ none ↦ frames | some left ↦ frames ⊕ read_frames left later ]
