-- ===== src/Config/Naming.antt =====
-- config/operations.py, make_id: a readable id that the schema accepts and that is not taken. Texts
-- are lists of code points here.
pub mod Legal
pub mod Fresh
use mathlib.Core.List.{◌++◌ as ◌⊕◌}
use smbpal_desktop.Prelude.{
  ℕ, zero, suc, ◌+◌, ◌-◌, ◌/◌, ◌%◌, String, Bool, true, false, not, ◌||◌, ◌&&◌, Option, none, some,
  List, [], ◌∷◌, if◌then◌else◌, leb, ltb, ◌==◌, codes, codes_eq, any, take, length,
}
use smbpal_desktop.Config.Schema.{is_digit}

-- `[a-z0-9]`
abbrev pub is_slug_char : ℕ → Bool
is_slug_char c = (leb b'a' c && leb c b'z') || is_digit c

-- `_SLUG_STRIP.sub("-", …)`: `inside` says that the character before was replaced.
unfoldable pub squeeze : Bool → List ℕ → List ℕ
squeeze inside [] = []
squeeze inside (c ∷ text) =
    let kept = c ∷ squeeze false text in
    let replaced = squeeze true text in
    if is_slug_char c then kept else (if inside then replaced else b'-' ∷ replaced)

-- `.strip("-")`
unfoldable pub lstrip_dashes : List ℕ → List ℕ
lstrip_dashes [] = []
lstrip_dashes (c ∷ text) = let rest = lstrip_dashes text in if c == b'-' then rest else c ∷ text

abbrev pub cons_unless_dash : ℕ → List ℕ → List ℕ
cons_unless_dash c [] = if c == b'-' then [] else c ∷ []
cons_unless_dash c (d ∷ text) = c ∷ d ∷ text

unfoldable pub rstrip_dashes : List ℕ → List ℕ
rstrip_dashes [] = []
rstrip_dashes (c ∷ text) = cons_unless_dash c (rstrip_dashes text)

abbrev pub max_id_len : ℕ
max_id_len = 64

-- The slug as it is cut, and with a letter in front where it has none.
unfoldable pub cut_slug : List ℕ → List ℕ
unfolding squeeze lstrip_dashes rstrip_dashes
cut_slug lowered = take max_id_len (rstrip_dashes (lstrip_dashes (squeeze false lowered)))

unfoldable pub named_slug : List ℕ → List ℕ
named_slug [] = codes "share"
named_slug (c ∷ slug) = if is_slug_char c then c ∷ slug else b's' ∷ c ∷ slug

-- str(suffix), on fuel: a round for each digit.
unfoldable pub numeral_from : ℕ → ℕ → List ℕ
numeral_from zero n = []
numeral_from (suc f) n =
    let longer = numeral_from f (n / 10) ⊕ (b'0' + n % 10) ∷ [] in
    if ltb n 10 then (b'0' + n) ∷ [] else longer

unfoldable pub numeral : ℕ → List ℕ
unfolding numeral_from
numeral n = numeral_from (suc n) n

-- `f"{slug[: _MAX_ID_LEN - len(str(suffix)) - 1]}-{suffix}"`
unfoldable pub candidate : List ℕ → ℕ → List ℕ
candidate slug suffix = take (max_id_len - length (numeral suffix) - 1) slug ⊕ b'-' ∷ numeral suffix

abbrev pub is_taken : List String → List ℕ → Bool
is_taken taken id = any (λ t. codes_eq (codes t) id) taken

-- `range(start, start + count)`
unfoldable pub range : ℕ → ℕ → List ℕ
range start zero = []
range start (suc count) = start ∷ range (suc start) count

-- The loop over the suffixes; none is AlreadyExists.
unfoldable pub first_free : List String → List ℕ → List ℕ → Option (List ℕ)
first_free taken slug [] = none
first_free taken slug (suffix ∷ suffixes) =
    let rest = first_free taken slug suffixes in
    if is_taken taken (candidate slug suffix) then rest else some (candidate slug suffix)

-- make_id, over `str.lower`.
unfoldable pub make_id : (String → String) → String → List String → Option (List ℕ)
unfolding cut_slug named_slug
make_id lower name taken =
    let slug = named_slug (cut_slug (codes (lower name))) in
    if is_taken taken slug then first_free taken slug (range 2 998) else some slug
