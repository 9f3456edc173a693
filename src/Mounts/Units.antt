-- ===== src/Mounts/Units.antt =====
-- mounts/units.py: the names and the text of the units that are generated for a connection.
use Prim.Native.Char.{Char, code}
use Prim.Native.String.{◌++◌}
use smbpal_desktop.Prelude.{
  ℕ, ◌+◌, ◌/◌, ◌%◌, ◌≡◌, refl, String, Bool, true, false, ◌&&◌, ◌||◌, List, [], ◌∷◌, if◌then◌else◌,
  ◌==◌, leb, ltb, str_eq,
}

-- A text of one character.
abbrev only : Char → String
only c = String.◌∷◌ c String.[]

abbrev is_slash : Char → Bool
is_slash c = code c == b'/'

-- `_SLASHES.sub("/", path)`: `inside` says that the character before was a slash.
sub_slashes : Bool → String → String
sub_slashes inside String.[] = ""
sub_slashes inside (String.◌∷◌ c s) =
    if is_slash c
    then (if inside then "" else "/") ++ sub_slashes true s
    else only c ++ sub_slashes false s

lstrip_slashes : String → String
lstrip_slashes String.[] = ""
lstrip_slashes (String.◌∷◌ c s) = if is_slash c then lstrip_slashes s else String.◌∷◌ c s

rstrip_slashes : String → String
rstrip_slashes String.[] = ""
rstrip_slashes (String.◌∷◌ c s) =
    let rest = rstrip_slashes s in if is_slash c && str_eq rest "" then "" else only c ++ rest

-- `char.encode("utf-8")`
utf8 : ℕ → List ℕ
utf8 n =
    if ltb n 0x80
    then n ∷ []
    else if ltb n 0x800
    then (192 + n / 64) ∷ (128 + n % 64) ∷ []
    else if ltb n 0x10000
    then (224 + n / 4096) ∷ (128 + (n / 64) % 64) ∷ (128 + n % 64) ∷ []
    else (240 + n / 262144) ∷ (128 + (n / 4096) % 64) ∷ (128 + (n / 64) % 64) ∷ (128 + n % 64) ∷ []

unfoldable pub hex_digit : ℕ → String
hex_digit d =
    if d == 0
    then "0"
    else if d == 1
    then "1"
    else if d == 2
    then "2"
    else if d == 3
    then "3"
    else if d == 4
    then "4"
    else if d == 5
    then "5"
    else if d == 6
    then "6"
    else if d == 7
    then "7"
    else if d == 8
    then "8"
    else if d == 9
    then "9"
    else if d == 10
    then "a"
    else if d == 11
    then "b"
    else if d == 12
    then "c"
    else if d == 13
    then "d"
    else if d == 14
    then "e"
    else "f"

-- `\xNN`
hex_escape : ℕ → String
unfolding hex_digit
hex_escape byte = "\\x" ++ hex_digit (byte / 16) ++ hex_digit (byte % 16)

hex_escapes : List ℕ → String
unfolding hex_escape
hex_escapes [] = ""
hex_escapes (b ∷ bytes) = hex_escape b ++ hex_escapes bytes

-- _ALLOWED
is_allowed : ℕ → Bool
is_allowed n =
    (leb b'a' n && leb n b'z')
    || (leb b'A' n && leb n b'Z')
    || (leb b'0' n && leb n b'9')
    || (n == b':')
    || (n == b'_')
    || (n == b'.')

-- The loop over the bytes, character by character: of a character beyond ASCII every byte is
-- escaped. `first` says that the index is 0.
escape_char : Bool → Char → String
unfolding is_allowed utf8 hex_escapes
escape_char first c =
    if is_slash c
    then "-"
    else if first && (code c == b'.')
    then "\\x2e"
    else if is_allowed (code c)
    then only c
    else hex_escapes (utf8 (code c))

escape_chars : Bool → String → String
unfolding escape_char
escape_chars first String.[] = ""
escape_chars first (String.◌∷◌ c s) = escape_char first c ++ escape_chars false s

-- escape_path
unfoldable pub escape_path : String → String
unfolding sub_slashes lstrip_slashes rstrip_slashes escape_chars
escape_path path =
    let collapsed = rstrip_slashes (lstrip_slashes (sub_slashes false path)) in
    if str_eq collapsed "" then "-" else escape_chars true collapsed

-- The mount unit's name, and the automount unit's.
unfoldable pub unit_names : String → String × String
unfolding escape_path
unit_names mountpoint = (escape_path mountpoint ++ ".mount", escape_path mountpoint ++ ".automount")

-- mount_source
unfoldable pub mount_source : String → String → String
mount_source host share = "//" ++ host ++ "/" ++ share

escape_my_share :
    unit_names "//mnt/my-share/" ≡ ("mnt-my\\x2dshare.mount", "mnt-my\\x2dshare.automount")
unfolding unit_names
escape_my_share = refl

escape_accent : escape_path "/srv/é b" ≡ "srv-\\xc3\\xa9\\x20b"
unfolding escape_path
escape_accent = refl

escape_dot : escape_path "/.dotdir" ≡ "\\x2edotdir"
unfolding escape_path
escape_dot = refl
