-- ===== src/Ipc/Wire.antt =====
-- ipc/protocol.py, `_encode` and the messages that it is given. `json.dumps` writes with its defaults
-- but for the separators, so a message is ASCII, and UTF-8 makes one byte of each character.
pub mod Lines
pub mod Served
use mathlib.Core.List.{◌++◌ as ◌⊕◌}
use Prim.Native.Char.{code}
use smbpal_desktop.Prelude.{
  ℕ, suc, ◌+◌, ◌-◌, ◌/◌, ◌%◌, String, Bool, true, false, ◌&&◌, Option, none, some, List, [], ◌∷◌,
  if◌then◌else◌, ◌==◌, leb, ltb, codes,
}
use smbpal_desktop.Config.Json.{
  ℤ, pos, negsuc, Json, null, bool, int, float, string, list, object, Items, no_items, item,
  Members, member, no_members,
}
use smbpal_desktop.Config.Naming.{numeral}
use smbpal_desktop.Ipc.Framing.{Bytes}

-- A hexadecimal digit, as `%x` writes it.
unfoldable pub hex_code : ℕ → ℕ
hex_code d = if ltb d 10 then b'0' + d else b'a' + (d - 10)

-- `\uXXXX`, for a code below 65,536.
unfoldable pub unicode_escape : ℕ → Bytes
unfolding hex_code
unicode_escape n =
    b'\\'
    ∷ b'u'
    ∷ hex_code (n / 4096 % 16)
    ∷ hex_code (n / 256 % 16)
    ∷ hex_code (n / 16 % 16)
    ∷ hex_code (n % 16)
    ∷ []

-- Two of them for a code above: the surrogates.
unfoldable pub escape_code : ℕ → Bytes
unfolding unicode_escape
escape_code n =
    if ltb n 65536
    then unicode_escape n
    else unicode_escape (0xd800 + (n - 65536) / 1024 % 1024)
      ⊕ unicode_escape (0xdc00 + (n - 65536) % 1024)

abbrev backslashed : ℕ → Bytes
backslashed c = b'\\' ∷ c ∷ []

-- What stands for a character of a text.
unfoldable pub dump_char : ℕ → Bytes
unfolding escape_code
dump_char c =
    if c == b'"'
    then backslashed b'"'
    else if c == b'\\'
    then backslashed b'\\'
    else if c == 10
    then backslashed b'n'
    else if c == 13
    then backslashed b'r'
    else if c == 9
    then backslashed b't'
    else if c == 12
    then backslashed b'f'
    else if c == 8
    then backslashed b'b'
    else if leb b' ' c && leb c b'~'
    then c ∷ []
    else escape_code c

unfoldable pub dump_chars : List ℕ → Bytes
unfolding dump_char
dump_chars [] = []
dump_chars (c ∷ text) = dump_char c ⊕ dump_chars text

unfoldable pub dump_string : String → Bytes
unfolding dump_chars
dump_string text = b'"' ∷ dump_chars (codes text) ⊕ b'"' ∷ []

unfoldable pub dump_int : ℤ → Bytes
dump_int (pos n) = numeral n
dump_int (negsuc n) = b'-' ∷ numeral (suc n)

-- json.dumps(value, separators=(",", ":")). What follows the first of a list's or an object's entries
-- has a comma in front.
unfoldable mutual
  unfolding dump_string dump_int

  pub dumps : Json → Bytes
  dumps null = codes "null"
  dumps (bool b) = if b then codes "true" else codes "false"
  dumps (int i) = dump_int i
  dumps (float f) = codes f
  dumps (string text) = dump_string text
  dumps (list no_items) = codes "[]"
  dumps (list (item x xs)) = b'[' ∷ dumps x ⊕ (dump_items xs ⊕ b']' ∷ [])
  dumps (object members) = b'{' ∷ dump_object members ⊕ b'}' ∷ []

  pub dump_items : Items → Bytes
  dump_items no_items = []
  dump_items (item x xs) = b',' ∷ dumps x ⊕ dump_items xs

  pub dump_object : Members → Bytes
  dump_object no_members = []
  dump_object (member key value members) =
      dump_string key ⊕ (b':' ∷ (dumps value ⊕ dump_members members))

  pub dump_members : Members → Bytes
  dump_members no_members = []
  dump_members (member key value members) =
      b',' ∷ dump_string key ⊕ (b':' ∷ (dumps value ⊕ dump_members members))

-- SmbpalError.to_wire, of the error's code, message and detail.
unfoldable pub to_wire : String → String → Option String → Members
to_wire code message none =
    member "code" (string code) (member "message" (string message) no_members)
to_wire code message (some detail) =
    member "code" (string code)
      (member "message" (string message) (member "detail" (string detail) no_members))

-- The document that encode_success writes.
unfoldable pub success : String → Json → Members
success id result =
    member "v" (int (pos 1))
      (member "id" (string id) (member "ok" (bool true) (member "result" result no_members)))

abbrev pub optional_text : Option String → Json
optional_text none = null
optional_text (some text) = string text

-- The document that encode_failure writes; the id is None where the frame carried none.
unfoldable pub failure : Option String → Members → Members
failure id error = member "v" (int (pos 1)) (
    member "id" (optional_text id)
      (member "ok" (bool false) (member "error" (object error) no_members)))

-- The document that encode_event writes.
unfoldable pub event : String → Json → Members
event name null =
    member "v" (int (pos 1))
      (member "event" (string name) (member "data" (object no_members) no_members))
event name data_ =
    member "v" (int (pos 1)) (member "event" (string name) (member "data" data_ no_members))

-- _encode
unfoldable pub encode : Members → Bytes
unfolding dumps
encode message = dumps (object message) ⊕ b'\n' ∷ []
