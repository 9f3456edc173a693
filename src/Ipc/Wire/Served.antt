-- ===== src/Ipc/Wire/Served.antt =====
-- What a client sends for its calls is read by the daemon as these calls.
use smbpal_desktop.Prelude.{
  ℕ, ◌≡◌, refl, ap, ◌∙◌, Option, String, List, [], ◌∷◌, map, arith, All, append_assoc, Result, ok,
}
use smbpal_desktop.Prelude.Show.{decimal}
use smbpal_desktop.Config.Json.{object, Members, to_dict}
use smbpal_desktop.Ipc.Framing.{Bytes, chunk, read_frames, is_blank_line}
use smbpal_desktop.Ipc.Framing.Cutting.{complete, pending, not_blank}
use smbpal_desktop.Ipc.Framing.Chunks.{
  joined, IsChunk, IsShort, IsOpen, carry, read_frames-complete,
}
use smbpal_desktop.Ipc.Protocol.{
  Request, Refusal, Loaded, loaded, parse_loaded, parse_request, request_document,
}
use smbpal_desktop.Ipc.Protocol.Requests.{
  IsFilled, IsForm, parse_document-request_document, parse_request-read_frames,
}
use smbpal_desktop.Ipc.Wire.{dumps, encode}
use smbpal_desktop.Ipc.Wire.Lines.{IsPrintable, IsPlain, HasPlain, dumps-IsPrintable}

printable-IsOpen : (line : Bytes) → All IsPrintable line → IsOpen line
printable-IsOpen [] a = refl
printable-IsOpen (b ∷ line) (p, a) = ground (arith, p, printable-IsOpen line a)

-- A message that is written on one line, with room for a chunk below the limit.
abbrev pub IsMessage : Members → Type 0
IsMessage message = HasPlain message × IsShort (dumps (object message))

message-IsOpen : (message : Members) → IsMessage message → IsOpen (dumps (object message))
unfolding IsPlain
message-IsOpen message m =
    printable-IsOpen (dumps (object message)) (dumps-IsPrintable (object message) m.0)

stream : List Members → Bytes
stream messages = joined (map encode messages)

abbrev lines : List Members → List Bytes
lines messages = map (λ message. dumps (object message)) messages

complete-stream :
    (messages : List Members)
    → All IsMessage messages
    → (complete [] (stream messages) ≡ lines messages) × (pending [] (stream messages) ≡ [])
unfolding complete pending stream encode
complete-stream [] a = (refl, refl)
complete-stream (message ∷ messages) (m, a) =
    let line = dumps (object message) in
    let (c, p) = complete-stream messages a in
    let (ended, left) = carry [] line (b'\n' ∷ stream messages) (message-IsOpen message m) in
    let apart = append_assoc line (b'\n' ∷ []) (stream messages) in
    (
      ap (complete []) apart ∙ ended ∙ ap (λ (ls : List Bytes). line ∷ ls) c,
      ap (pending []) apart ∙ left ∙ p,
    )

not_blank-lines : (messages : List Members) → not_blank (lines messages) ≡ lines messages
unfolding not_blank is_blank_line dumps
not_blank-lines [] = refl
not_blank-lines (message ∷ messages) =
    ap (λ (ls : List Bytes). dumps (object message) ∷ ls) (not_blank-lines messages)

lines-IsShort : (messages : List Members) → All IsMessage messages → All IsShort (lines messages)
lines-IsShort [] a = tt
lines-IsShort (message ∷ messages) (m, a) = (m.1, lines-IsShort messages a)

-- However the bytes of messages are cut into chunks, the frames are the messages in order.
pub read_frames-encode :
    (messages : List Members) (chunks : List Bytes)
    → joined chunks ≡ joined (map encode messages)
    → All IsChunk chunks
    → All IsMessage messages
    → read_frames [] (map chunk chunks) ≡ lines messages
unfolding stream
read_frames-encode messages chunks same f m =
    let (c, p) = complete-stream messages m in
    let whole : complete [] (joined chunks) ≡ lines messages = ap (complete []) same ∙ c in
    let rest : pending [] (joined chunks) ≡ [] = ap (pending []) same ∙ p in
    read_frames-complete chunks f (rw whole (lines-IsShort messages m)) (rw rest (omega arith))
    ∙ ap not_blank whole
    ∙ not_blank-lines messages

-- A call of a client: its number, method, parameters, and the form that goes with it.
pub record ClientCall : Type 0 where
  pub counter : ℕ
  pub method : String
  pub params : Members
  pub auth : Option Bytes

abbrev pub document : ClientCall → Members
document call = request_document call.counter call.method call.params call.auth

abbrev pub request : ClientCall → Request
request call = record {
  id = decimal call.counter;
  method = call.method;
  params = to_dict call.params;
  auth = call.auth;
}

-- What is asked of a call: a method, a form of 32 bytes if any, a message that is not too long, and
-- that `json.loads` gives its document back.
pub record IsCall (loads : Bytes → Loaded) (call : ClientCall) : Type 0 where
  pub method : IsFilled call.method
  pub form : IsForm call.auth
  pub message : IsMessage (document call)
  pub reads : loads (dumps (object (document call))) ≡ loaded (object (document call))

messages-IsCall :
    (loads : Bytes → Loaded) (calls : List ClientCall)
    → All (IsCall loads) calls
    → All IsMessage (map document calls)
messages-IsCall loads [] a = tt
messages-IsCall loads (call ∷ calls) (c, a) = (c.message, messages-IsCall loads calls a)

parsed : (Bytes → Loaded) → Bytes → Result Refusal Request
parsed loads line = parse_loaded (loads line)

parsed-lines :
    (loads : Bytes → Loaded) (calls : List ClientCall)
    → All (IsCall loads) calls
    → map (parsed loads) (lines (map document calls)) ≡ map (λ call. ok (request call)) calls
unfolding parsed parse_loaded
parsed-lines loads [] a = refl
parsed-lines loads (call ∷ calls) (c, a) =
    rw
      (
        c.reads,
        parse_document-request_document call.counter call.method call.params call.auth c.method
            c.form,
      )
      (ap (λ (rs : List (Result Refusal Request)). ok (request call) ∷ rs)
        (parsed-lines loads calls a))

-- Every frame below the limit is parsed by its document.
parse_frames :
    (loads : Bytes → Loaded) (frames : List Bytes)
    → All (λ frame. parse_request loads frame ≡ parse_loaded (loads frame)) frames
    → map (parse_request loads) frames ≡ map (parsed loads) frames
unfolding parsed
parse_frames loads [] a = refl
parse_frames loads (frame ∷ frames) (e, a) = cc (e, parse_frames loads frames a)

-- The calls of a client arrive: however their bytes are cut into chunks on the way, the requests that
-- the daemon parses are the calls, in order; each is supposed to have a method, a form of 32 bytes if
-- any and a message with room for a chunk below the limit, and `json.loads` to give back what
-- `json.dumps` was given for it.
pub served_calls :
    (loads : Bytes → Loaded) (calls : List ClientCall) (chunks : List Bytes)
    → joined chunks ≡ joined (map (λ call. encode (document call)) calls)
    → All IsChunk chunks
    → All (IsCall loads) calls
    → map (parse_request loads) (read_frames [] (map chunk chunks))
      ≡ map (λ call. ok (request call)) calls
served_calls loads calls chunks same f a =
    parse_frames loads (read_frames [] (map chunk chunks))
      (parse_request-read_frames loads [] (map chunk chunks))
    ∙ ap (map (parsed loads)) (
        read_frames-encode (map document calls) chunks (same ∙ ap joined (map_map calls)) f
          (messages-IsCall loads calls a))
    ∙ parsed-lines loads calls a
  where
    map_map :
        (cs : List ClientCall)
        → map (λ call. encode (document call)) cs ≡ map encode (map document cs)
    map_map [] = refl
    map_map (c ∷ cs) = ap (λ (es : List Bytes). encode (document c) ∷ es) (map_map cs)
