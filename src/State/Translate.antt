-- ===== src/State/Translate.antt =====
-- state/translate.py: the cause of a mount failure, read from a unit's journal. A text is the list
-- of its code points. Whether a character is a decimal digit, and its value, is Unicode's table,
-- the parameter `digit_value`.
pub mod Scanning
pub mod Journal
use Prim.Native.String.{◌++◌}
use smbpal_desktop.Prelude.{
  ℕ, zero, suc, ◌+◌, ◌-◌, ◌*◌, String, Bool, true, false, ◌&&◌, ◌||◌, Option, none, some, List, [],
  ◌∷◌, if◌then◌else◌, ◌==◌, ltb, leb, str_eq, codes, length,
}
use smbpal_desktop.Prelude.Show.{decimal}
use smbpal_desktop.State.States.{StateName}

pub record Cause : Type 0 where
  pub state : StateName
  pub message : String
  pub errno : Option ℕ
  pub retryable : Bool

abbrev pub Row : Type 0
Row = ℕ × StateName × String × Bool

abbrev no_such_share : String
no_such_share =
    "the server has no share by that name. `smbpal browse HOST --user NAME` lists what it offers"

abbrev refused_connection : String
refused_connection =
    "the server refused the connection: either SMBPal's sharing is stopped there, or a firewall is blocking it. `smbpal status` on that machine says which"

-- _LINUX_MOUNT_ERRNO
abbrev pub linux_mount_errno : List Row
linux_mount_errno =
    (1, StateName.auth_failed, "the server refused the credentials", false)
    ∷ (13, StateName.auth_failed, "the username or password was refused by the server", false)
    ∷ (2, StateName.failed, no_such_share, false)
    ∷ (5, StateName.failed, "the server reported an I/O error", true)
    ∷ (6, StateName.failed, no_such_share, false)
    ∷ (101, StateName.unreachable, "the network is unreachable", true)
    ∷ (110, StateName.unreachable, "the server did not answer in time", true)
    ∷ (111, StateName.unreachable, refused_connection, true)
    ∷ (112, StateName.unreachable, "the server is switched off or unreachable", true)
    ∷ (113, StateName.unreachable, "there is no route to the server", true)
    ∷ (115, StateName.connecting, "still connecting", true)
    ∷ []

-- The table's `get`, with the answer for a number that it lacks.
unfoldable pub errno_cause : List Row → ℕ → Cause
errno_cause [] n = record {
  state = StateName.failed;
  message = "the mount failed with error " ++ decimal n;
  errno = some n;
  retryable = true;
}
errno_cause ((m, state, message, retryable) ∷ rows) n =
    if m == n
    then record { state = state; message = message; errno = some n; retryable = retryable }
    else errno_cause rows n

-- A character as `re.IGNORECASE` compares it with a lower-case ASCII letter: the capitals, and the
-- four letters beyond ASCII that fold to `i`, `s` and `k`.
unfoldable pub folded : ℕ → ℕ
folded c =
    if leb b'A' c && leb c b'Z'
    then c + 32
    else if (c == 0x130) || (c == 0x131)
    then b'i'
    else if c == 0x17f
    then b's'
    else if c == 0x212a
    then b'k'
    else c

-- The text behind a literal that it begins with, without case.
unfoldable pub strip_prefix : List ℕ → List ℕ → Option (List ℕ)
strip_prefix [] text = some text
strip_prefix (p ∷ ps) [] = none
strip_prefix (p ∷ ps) (c ∷ text) = if folded c == p then strip_prefix ps text else none

-- `re.search` for a literal.
unfoldable pub has_literal : List ℕ → List ℕ → Bool
has_literal literal [] = false
has_literal literal (c ∷ text) = elim (strip_prefix literal (c ∷ text)) [
  | some _ ↦ true
  | none ↦ has_literal literal text
]

-- _UNRESOLVED.search
unfoldable pub says_unresolved : List ℕ → Bool
unfolding has_literal strip_prefix folded
says_unresolved text =
    has_literal (codes "could not resolve address") text
    || has_literal (codes "unable to find suitable address") text
    || has_literal (codes "name or service not known") text

-- `\)` behind at least one digit: the number, and the length of the whole match.
unfoldable pub close : ℕ → ℕ → List ℕ → Option (ℕ × ℕ)
close value count [] = none
close value zero (c ∷ text) = none
close value (suc n) (c ∷ text) = if c == b')' then some (value, 13 + suc n) else none

abbrev pub literal : List ℕ
literal = codes "mount error("

close_of : ℕ × ℕ × List ℕ → Option (ℕ × ℕ)
unfolding close
close_of (value, count, rest) = close value count rest

-- What is returned once the errno is known, or known to be missing.
abbrev pub resolved : Bool → Option Cause
resolved true = some (record {
  state = StateName.unresolved;
  message = "the server's name could not be resolved";
  errno = none;
  retryable = true;
})
resolved false = none

abbrev pub translated : Option ℕ → List ℕ → Option Cause
translated (some n) text = some (errno_cause linux_mount_errno n)
translated none text = resolved (says_unresolved text)

module _ (digit_value : ℕ → Option ℕ) where
  -- `\d+` from an accumulated number and count: the number, how many digits, and the rest.
  unfoldable pub digits : ℕ → ℕ → List ℕ → ℕ × ℕ × List ℕ
  digits value count [] = (value, count, [])
  digits value count (c ∷ text) = elim (digit_value c) [
    | none ↦ (value, count, c ∷ text)
    | some d ↦ digits (value * 10 + d) (suc count) text
  ]

  match_rest : Option (List ℕ) → Option (ℕ × ℕ)
  unfolding close_of digits
  match_rest none = none
  match_rest (some rest) = close_of (digits 0 0 rest)

  -- _MOUNT_ERROR at the beginning of a text.
  unfoldable pub match_error : List ℕ → Option (ℕ × ℕ)
  unfolding match_rest strip_prefix folded
  match_error text = match_rest (strip_prefix literal text)

  -- The loop over `finditer`, which goes on behind each match: `skip` characters of it are left.
  unfoldable pub last_errno : Option ℕ → ℕ → List ℕ → Option ℕ
  last_errno errno skip [] = errno
  last_errno errno (suc skip) (c ∷ text) = last_errno errno skip text
  last_errno errno zero (c ∷ text) = elim (match_error (c ∷ text)) [
    | none ↦ last_errno errno 0 text
    | some (value, size) ↦ last_errno (some value) (size - 1) text
  ]

  unfoldable pub translate_journal : List ℕ → Option Cause
  translate_journal [] = none
  translate_journal (c ∷ text) = translated (last_errno none 0 (c ∷ text)) (c ∷ text)

-- A last resort when the journal says nothing that is recognised.
unfoldable pub describe_exit : Option String → String
describe_exit none = "the mount failed for a reason not recorded in its journal"
describe_exit (some status) =
    if str_eq status "" || str_eq status "0"
    then "the mount failed for a reason not recorded in its journal"
    else "the mount command exited with status "
      ++ status
      ++ (if str_eq status "32" then " (mount(8) reports a generic failure)" else "")
