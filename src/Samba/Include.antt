-- ===== src/Samba/Include.antt =====
-- samba/include.py: the marked block in somebody else's smb.conf. Texts are lists of code points.
pub mod Splitting
pub mod Block
pub mod Marked
pub mod Removal
pub mod RoundTrip
use mathlib.Core.List.{◌++◌ as ◌⊕◌}
use smbpal_desktop.Config.Mountpoint.{lstrip, rstrip, strip}
use smbpal_desktop.Prelude.{
  is_prefix, contains, ends_with, ℕ, ◌+◌, Bool, true, false, not, ◌&&◌, ◌||◌, Option, none, some,
  List, [], ◌∷◌, if◌then◌else◌, ◌==◌, leb, codes, codes_eq, elem, Result, ok, err, ◌>>=◌,
}

-- Where `splitlines` cuts.
abbrev pub is_line_break : ℕ → Bool
is_line_break c =
    (leb 10 c && leb c 13) || (leb 28 c && leb c 30) || c == 133 || c == 8232 || c == 8233

-- str.isspace
abbrev pub is_space : ℕ → Bool
is_space c =
    (leb 9 c && leb c 13)
    || (leb 28 c && leb c 32)
    || elem c (133 ∷ 160 ∷ 5760 ∷ 8232 ∷ 8233 ∷ 8239 ∷ 8287 ∷ 12288 ∷ [])
    || (leb 8192 c && leb c 8202)

abbrev pub head : List ℕ → Option ℕ
head [] = none
head (c ∷ text) = some c

abbrev is_line_feed : Option ℕ → Bool
is_line_feed none = false
is_line_feed (some c) = c == 10

-- This character ends a line where that one follows: of `\r\n` the second does.
abbrev pub ends_line : ℕ → Option ℕ → Bool
ends_line c next = is_line_break c && not (c == 13 && is_line_feed next)

abbrev pub last_line : List ℕ → List (List ℕ)
last_line [] = []
last_line (c ∷ line) = (c ∷ line) ∷ []

-- text.splitlines(keepends=True), where `line` is what was read of the first.
unfoldable pub split_keeping : List ℕ → List ℕ → List (List ℕ)
split_keeping line [] = last_line line
split_keeping line (c ∷ text) =
    let next = split_keeping [] text in
    let longer = split_keeping (line ⊕ c ∷ []) text in
    if ends_line c (head text) then (line ⊕ c ∷ []) ∷ next else longer

-- "".join(lines)
abbrev pub concat : List (List ℕ) → List ℕ
concat [] = []
concat (line ∷ lines) = line ⊕ concat lines

abbrev pub begin_marker : List ℕ
begin_marker = codes "# >>> smbpal >>>"

abbrev pub end_marker : List ℕ
end_marker = codes "# <<< smbpal <<<"

-- INCLUDE_LINE, for the path of the included file.
abbrev pub include_line : List ℕ → List ℕ
include_line path = codes "include = " ⊕ path

-- has_include
unfoldable pub has_include : List ℕ → Bool
unfolding contains
has_include text = contains begin_marker text

-- line.strip()
abbrev pub strip_spaces : List ℕ → List ℕ
strip_spaces line = strip is_space line

abbrev is_blank_char : ℕ → Bool
is_blank_char c = c == b' ' || c == 9

abbrev lower_letter : ℕ → ℕ
lower_letter c = if leb b'A' c && leb c b'Z' then 32 + c else c

abbrev lowered : List ℕ → List ℕ
lowered [] = []
lowered (c ∷ text) = lower_letter c ∷ lowered text

-- _GLOBAL_HEADER.match(line.rstrip("\r\n"))
unfoldable pub is_global_header : List ℕ → Bool
is_global_header line =
    codes_eq
      (lowered
        (lstrip is_blank_char (rstrip is_blank_char (rstrip (λ c. c == 13 || c == 10) line))))
      (codes "[global]")

-- _line_ending
unfoldable pub line_ending : List ℕ → List ℕ
unfolding ends_with
line_ending line =
    if ends_with (13 ∷ 10 ∷ []) line
    then 13 ∷ 10 ∷ []
    else if ends_with (10 ∷ []) line
    then 10 ∷ []
    else 10 ∷ []

-- SmbConfError, with one of its messages.
pub data SmbConfError : Type 0 where
  no_global unterminated : SmbConfError

-- The lines of the block.
unfoldable pub block : List ℕ → List ℕ → List (List ℕ)
block path ending =
    (begin_marker ⊕ ending) ∷ (include_line path ⊕ ending) ∷ (end_marker ⊕ ending) ∷ []

-- The loop of insert_include, which joins the lines at the first header.
unfoldable pub insert_block : List ℕ → List (List ℕ) → Result SmbConfError (List (List ℕ))
unfolding block line_ending is_global_header
insert_block path [] = err no_global
insert_block path (line ∷ lines) =
    let rest = insert_block path lines >>= λ after. ok (line ∷ after) in
    if is_global_header line then ok (line ∷ block path (line_ending line) ⊕ lines) else rest

-- insert_include
unfoldable pub insert_include : List ℕ → List ℕ → Result SmbConfError (List ℕ)
unfolding has_include split_keeping insert_block
insert_include path text =
    if has_include text
    then ok text
    else (insert_block path (split_keeping [] text) >>= λ lines. ok (concat lines))

-- The loop of remove_include; the flag is `inside`.
unfoldable pub remove_block : List ℕ → Bool → List (List ℕ) → Result SmbConfError (List (List ℕ))
remove_block path inside [] = if inside then err unterminated else ok []
remove_block path false (line ∷ lines) =
    let dropped = remove_block path false lines in
    let opened = remove_block path true lines in
    let kept = dropped >>= λ rest. ok (line ∷ rest) in
    if codes_eq (strip_spaces line) begin_marker
    then opened
    else if codes_eq (strip_spaces line) (include_line path)
    then dropped
    else kept
remove_block path true (line ∷ lines) =
    let closed = remove_block path false lines in
    let inside = remove_block path true lines in
    if codes_eq (strip_spaces line) end_marker then closed else inside

-- remove_include
unfoldable pub remove_include : List ℕ → List ℕ → Result SmbConfError (List ℕ)
unfolding split_keeping remove_block
remove_include path text =
    remove_block path false (split_keeping [] text) >>= λ lines. ok (concat lines)
