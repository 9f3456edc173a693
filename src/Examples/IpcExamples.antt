-- ===== src/Examples/IpcExamples.antt =====
-- ipc/ at concrete inputs.
use mathlib.Core.List.{◌++◌ as ◌⊕◌}
use smbpal_desktop.Prelude.{
  ◌≡◌, ◌⊎◌, refl, true, false, none, some, List, [], ◌∷◌, map, arith, All, codes, codes_eq,
  if◌then◌else◌, lookup, ok, err,
}
use smbpal_desktop.Prelude.Show.{decimal}
use smbpal_desktop.Config.Json.{
  object, string, int, pos, negsuc, null, bool, list, item, no_items, Members, member, no_members,
  to_dict, get,
}
use smbpal_desktop.Config.Naming.{numeral, numeral_from}
use smbpal_desktop.Mounts.Units.{hex_digit}
use smbpal_desktop.Ipc.Framing.{
  Bytes, chunk, recv_error, read_frames, receive, cut_frames, find_line_end, is_blank_line,
}
use smbpal_desktop.Ipc.Framing.Limits.{IsFrame, read_frames-IsFrame}
use smbpal_desktop.Ipc.Framing.Cutting.{complete, pending, not_blank}
use smbpal_desktop.Ipc.Framing.Chunks.{joined, read_frames-complete}
use smbpal_desktop.Ipc.Protocol.{
  wrong_version, auth_length, Loaded, unparsable, loaded, is_protocol_version, required_text,
  params_of, form_of, auth_of, parse_document, parse_loaded, parse_request, from_hex, hex_value,
  hex, request_document,
}
use smbpal_desktop.Ipc.Protocol.Requests.{IsRequest, IsForm, parse_request-IsRequest}
use smbpal_desktop.Ipc.Wire.{
  dumps, dump_string, dump_chars, dump_char, dump_int, escape_code, unicode_escape, hex_code,
  encode, failure, to_wire,
}
use smbpal_desktop.Ipc.Wire.Lines.{IsPlain}
use smbpal_desktop.Ipc.Wire.Served.{ClientCall, document, request, served_calls}
use smbpal_desktop.Ipc.Sessions.{
  send, close, Transport, idle, ThreadStep, connected, sending, discarded, left_behind,
  shutting_down, update, without, register, shutdown_step, step, run,
}
use smbpal_desktop.Ipc.Sessions.Table.{closed_at, is_stuck_at}
use smbpal_desktop.Ipc.Sessions.Shutdown.{shutdown_closes}
use smbpal_desktop.Ipc.Sessions.Sockets.{shut_at, has_failed_send}
use smbpal_desktop.Ipc.Sessions.FailedSends.{is_open_at, failed_send_never_shut}

-- Two lines, a blank one between them, in three chunks, and an error.
abbrev pieces : List Bytes
pieces = codes "ab" ∷ (codes "c" ⊕ 10 ∷ 13 ∷ 10 ∷ codes "d") ∷ (10 ∷ codes "e") ∷ []

read_pieces : read_frames [] (map chunk pieces) ≡ codes "abc" ∷ codes "d" ∷ []
unfolding read_frames receive cut_frames find_line_end is_blank_line
read_pieces = refl

read_until_error :
    read_frames [] (chunk (codes "a" ⊕ 10 ∷ []) ∷ recv_error ∷ chunk (codes "b" ⊕ 10 ∷ []) ∷ [])
    ≡ codes "a" ∷ []
unfolding read_frames receive cut_frames find_line_end is_blank_line
read_until_error = refl

read_frames-complete_example :
    read_frames [] (map chunk pieces) ≡ not_blank (complete [] (joined pieces))
unfolding complete pending
read_frames-complete_example = read_frames-complete pieces (omega arith) (omega arith) (omega arith)

read_frames-IsFrame_example : All IsFrame (read_frames [] (map chunk pieces))
read_frames-IsFrame_example = read_frames-IsFrame [] (map chunk pieces)

-- A message with an escape, a surrogate pair and a negative number.
abbrev odd_message : Members
odd_message =
    member "a\"b" (string "é😀\n") (
      member "n" (list (item (int (negsuc 11)) (item null (item (bool true) no_items)))) no_members)

dumps_odd :
    dumps (object odd_message)
    ≡ codes "{\"a\\\"b\":\"\\u00e9\\ud83d\\ude00\\n\",\"n\":[-12,null,true]}"
unfolding dumps dump_string dump_chars dump_char dump_int escape_code unicode_escape hex_code
    numeral numeral_from
dumps_odd = refl

encode_reply :
    encode (failure (some "7") (to_wire "not_found" "no share" none))
    ≡ codes
        "{\"v\":1,\"id\":\"7\",\"ok\":false,\"error\":{\"code\":\"not_found\",\"message\":\"no share\"}}\n"
unfolding encode failure to_wire dumps dump_string dump_chars dump_char dump_int numeral
    numeral_from
encode_reply = refl

-- The form of an authorisation: 32 bytes.
abbrev form : Bytes
form =
    0 ∷ 1 ∷ 2 ∷ 3 ∷ 4 ∷ 5 ∷ 6 ∷ 7 ∷ 8 ∷ 9 ∷ 10 ∷ 11 ∷ 12 ∷ 13 ∷ 14 ∷ 15 ∷ 240 ∷ 241 ∷ 242 ∷ 243
    ∷ 244 ∷ 245 ∷ 246 ∷ 247 ∷ 248 ∷ 249 ∷ 250 ∷ 251 ∷ 252 ∷ 253 ∷ 254 ∷ 255 ∷ []

abbrev call_one : ClientCall
call_one = record {
  counter = 12;
  method = "share.add";
  params = member "path" (string "/srv/media") no_members;
  auth = some form;
}

abbrev call_two : ClientCall
call_two = record { counter = 13; method = "status"; params = no_members; auth = none }

-- What `json.loads` makes of the two lines.
abbrev read_json : Bytes → Loaded
read_json line =
    if codes_eq line (dumps (object (document call_one)))
    then loaded (object (document call_one))
    else if codes_eq line (dumps (object (document call_two)))
    then loaded (object (document call_two))
    else unparsable

abbrev call_chunks : List Bytes
call_chunks = encode (document call_one) ∷ encode (document call_two) ∷ []

served_calls_example :
    map (parse_request read_json) (read_frames [] (map chunk call_chunks))
    ≡ ok (request call_one) ∷ ok (request call_two) ∷ []
unfolding request_document hex hex_digit decimal dumps dump_string dump_chars dump_char dump_int
    escape_code unicode_escape hex_code encode numeral numeral_from IsPlain IsForm
served_calls_example =
    served_calls read_json (call_one ∷ call_two ∷ []) call_chunks refl (omega arith) (
      record { method = refl; form = omega arith; message = omega arith; reads = refl },
      (record { method = refl; form = tt; message = omega arith; reads = refl }, tt),
    )

parse_request-IsRequest_example : IsRequest (request call_two)
unfolding request_document decimal dumps dump_string dump_chars dump_char dump_int numeral
    numeral_from parse_request parse_loaded parse_document is_protocol_version required_text
    params_of auth_of to_dict get lookup hex hex_digit
parse_request-IsRequest_example =
    parse_request-IsRequest read_json (dumps (object (document call_two))) (request call_two) refl

refuse_version : parse_document (object (member "v" (int (pos 2)) no_members)) ≡ err wrong_version
unfolding parse_document is_protocol_version to_dict get lookup
refuse_version = refl

refuse_short_form : auth_of (string "00 ff") ≡ err (auth_length 2)
unfolding auth_of from_hex hex_value form_of
refuse_short_form = refl

-- Two clients; the second comes while the daemon stops.
abbrev shutdown_run : List ThreadStep
shutdown_run =
    connected
    ∷ sending 0 true (codes "x")
    ∷ shutting_down
    ∷ connected
    ∷ shutting_down
    ∷ discarded 0
    ∷ shutting_down
    ∷ left_behind 0
    ∷ []

shutdown_closes_example :
    (closed_at 0 (run shutdown_run idle).made ≡ true)
    × ((shut_at 0 (run shutdown_run idle).made ≡ true) ⊎ (has_failed_send 0 shutdown_run ≡ true))
unfolding run step register send close update without shutdown_step
shutdown_closes_example = shutdown_closes shutdown_run 0 refl refl

abbrev one_open : Transport
one_open = run (connected ∷ []) idle

failed_send_never_shut_example :
    is_stuck_at 0
      (run
        (discarded 0 ∷ left_behind 0 ∷ shutting_down ∷ [])
        (step (sending 0 false []) one_open)).made
    ≡ true
unfolding run step register is_open_at
failed_send_never_shut_example =
    failed_send_never_shut one_open 0 [] (discarded 0 ∷ left_behind 0 ∷ shutting_down ∷ []) refl
