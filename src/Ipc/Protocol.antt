-- ===== src/Ipc/Protocol.antt =====
-- ipc/protocol.py, parse_request, and the request that ipc/client.py sends. `json.loads` behind the
-- decoding is a parameter.
pub mod Hex
pub mod Requests
use Prim.Native.String.{◌++◌}
use smbpal_desktop.Prelude.{
  ℕ, ◌+◌, ◌*◌, ◌-◌, ◌/◌, ◌%◌, String, Bool, true, false, not, ◌||◌, ◌&&◌, Option, none, some, List,
  [], ◌∷◌, if◌then◌else◌, ◌==◌, leb, ltb, length, codes, str_eq, Dict, Result, ok, err, ◌>>=◌,
}
use smbpal_desktop.Prelude.Show.{decimal}
use smbpal_desktop.Config.Json.{
  ℤ, pos, negsuc, Json, null, bool, int, float, string, list, object, Members, member, no_members,
  to_dict, get,
}
use smbpal_desktop.Mounts.Units.{hex_digit}
use smbpal_desktop.Ipc.Framing.{Bytes, max_frame_bytes, is_space_byte}

pub record Request : Type 0 where
  pub id : String
  pub method : String
  pub params : Dict Json
  pub auth : Option Bytes

-- What parse_request raises: BadRequest, with one of its messages, or UnsupportedVersion.
pub data Refusal : Type 0 where
  too_large not_utf8 not_json not_object wrong_version no_id no_method bad_params : Refusal
  auth_not_text auth_not_hex : Refusal
  auth_length : ℕ → Refusal

-- What becomes of a line by `decode` and `json.loads`.
pub data Loaded : Type 0 where
  undecodable unparsable : Loaded
  loaded : Json → Loaded

-- AUTH_FORM_BYTES
abbrev pub auth_form_bytes : ℕ
auth_form_bytes = 32

-- `version == PROTOCOL_VERSION`: Python has True and 1.0 equal to 1. A float's text is its repr.
unfoldable pub is_protocol_version : Json → Bool
is_protocol_version (int (pos n)) = n == 1
is_protocol_version (bool b) = b
is_protocol_version (float f) = str_eq f "1.0"
is_protocol_version _ = false

-- The value of a hexadecimal digit.
unfoldable pub hex_value : ℕ → Option ℕ
hex_value c =
    if leb b'0' c && leb c b'9'
    then some (c - b'0')
    else if leb b'a' c && leb c b'f'
    then some (c - b'a' + 10)
    else if leb b'A' c && leb c b'F'
    then some (c - b'A' + 10)
    else none

-- bytes.fromhex: `high` is the first digit of a byte. White space may stand between bytes.
unfoldable pub from_hex : Option ℕ → List ℕ → Option Bytes
from_hex none [] = some []
from_hex (some high) [] = none
from_hex none (c ∷ text) =
    let skipped = from_hex none text in
    let byte : Option Bytes = elim (hex_value c) [
      | none ↦ none
      | some high ↦ from_hex (some high) text
    ] in
    if is_space_byte c then skipped else byte
from_hex (some high) (c ∷ text) = elim (hex_value c) [
  | none ↦ none
  | some low ↦ elim (from_hex none text) [
    | none ↦ none
    | some bytes ↦ some ((high * 16 + low) ∷ bytes)
  ]
]

-- A field that has to be a text that is not empty.
unfoldable pub required_text : Refusal → Json → Result Refusal String
required_text refusal (string text) = if str_eq text "" then err refusal else ok text
required_text refusal _ = err refusal

unfoldable pub params_of : Json → Result Refusal (Dict Json)
params_of null = ok []
params_of (object members) = ok (to_dict members)
params_of _ = err bad_params

unfoldable pub form_of : Option Bytes → Result Refusal (Option Bytes)
form_of none = err auth_not_hex
form_of (some form) =
    if length form == auth_form_bytes then ok (some form) else err (auth_length (length form))

unfoldable pub auth_of : Json → Result Refusal (Option Bytes)
unfolding from_hex form_of
auth_of null = ok none
auth_of (string text) = form_of (from_hex none (codes text))
auth_of _ = err auth_not_text

-- What parse_request does with the document.
unfoldable pub parse_document : Json → Result Refusal Request
unfolding is_protocol_version required_text params_of auth_of get
parse_document (object members) =
    let doc = to_dict members in
    if not (is_protocol_version (get "v" doc)) then err wrong_version else do
      id ← required_text no_id (get "id" doc)
      method ← required_text no_method (get "method" doc)
      params ← params_of (get "params" doc)
      auth ← auth_of (get "auth" doc)
      ok (record { id = id; method = method; params = params; auth = auth })
parse_document _ = err not_object

unfoldable pub parse_loaded : Loaded → Result Refusal Request
parse_loaded undecodable = err not_utf8
parse_loaded unparsable = err not_json
parse_loaded (loaded doc) = parse_document doc

-- parse_request
unfoldable pub parse_request : (Bytes → Loaded) → Bytes → Result Refusal Request
unfolding parse_loaded
parse_request loads line =
    if ltb max_frame_bytes (length line) then err too_large else parse_loaded (loads line)

-- `auth.hex()`
unfoldable pub hex : Bytes → String
hex [] = ""
hex (b ∷ bytes) = hex_digit (b / 16) ++ hex_digit (b % 16) ++ hex bytes

abbrev pub auth_member : Option Bytes → Members
auth_member none = no_members
auth_member (some form) = member "auth" (string (hex form)) no_members

-- Client._call_once: what is sent for the call with this number.
unfoldable pub request_document : ℕ → String → Members → Option Bytes → Members
unfolding hex decimal
request_document counter method params auth = member "v" (int (pos 1)) (
    member "id" (string (decimal counter))
      (member "method" (string method) (member "params" (object params) (auth_member auth))))
