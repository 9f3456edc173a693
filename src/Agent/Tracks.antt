-- ===== src/Agent/Tracks.antt =====
-- agent/reconnect.py, one connection: what the loop remembers (`_Track`), and what a pass decides
-- about it. Times are natural numbers of milliseconds; `-inf` is `none`.
use Prim.Native.Char.{code}
use Prim.Native.String.{◌++◌}
use smbpal_desktop.Prelude.{
  ℕ, String, Bool, true, false, ◌&&◌, ◌||◌, Option, none, some, if◌then◌else◌, ◌==◌, ltb, str_eq,
  opt_str_eq,
}
use smbpal_desktop.State.States.{StateName}

abbrev pub fast_backoff : ℕ
fast_backoff = 30000

abbrev pub max_backoff : ℕ
max_backoff = 300000

abbrev pub slow_attempt : ℕ
slow_attempt = 5000

abbrev pub retry_log_every : ℕ
retry_log_every = 60000

-- `(state, message, retryable)`
abbrev pub Status : Type 0
Status = StateName × String × Bool

abbrev pub Key : Type 0
Key = String × String

abbrev pub key_eq : Key → Key → Bool
key_eq a b = str_eq a.0 b.0 && str_eq a.1 b.1

-- _DISCONNECTED and _EJECTED
abbrev pub disconnected_status : Status
disconnected_status =
    (StateName.idle, "disconnected; it stays disconnected until you connect it", false)

abbrev pub ejected_status : Status
ejected_status = (StateName.idle, "ejected; it stays disconnected until you connect it", false)

pub record Track : Type 0 where
  pub key : Key
  pub mounted_at : Option String
  pub last_at : Option String
  pub held : Option String
  pub failures : ℕ
  pub next_try : ℕ
  pub said : Option String
  pub status : Status
  pub held_status : Option Status
  pub retry_logged : Option ℕ

-- `_Track(key=key)`
unfoldable pub new_track : Key → Track
new_track key = record {
  key = key;
  mounted_at = none;
  last_at = none;
  held = none;
  failures = 0;
  next_try = 0;
  said = none;
  status = (StateName.unknown, "not checked yet", false);
  held_status = none;
  retry_logged = none;
}

-- What the daemon's list says of a connection.
pub record Listed : Type 0 where
  pub id : String
  pub host : String
  pub share : String
  pub owner : Option String
  pub auto_connect : Option String
  pub disconnected : Bool

-- `text.strip("[]")`
lstrip_brackets : String → String
lstrip_brackets String.[] = ""
lstrip_brackets (String.◌∷◌ c s) =
    if (code c == b'[') || (code c == b']') then lstrip_brackets s else String.◌∷◌ c s

rstrip_brackets : String → String
rstrip_brackets String.[] = ""
rstrip_brackets (String.◌∷◌ c s) =
    let rest = rstrip_brackets s in
    if ((code c == b'[') || (code c == b']')) && str_eq rest "" then "" else String.◌∷◌ c rest

-- volumes.mount_key, over `str.lower`.
unfoldable pub mount_key : (String → String) → String → String → Key
unfolding lstrip_brackets rstrip_brackets
mount_key lower host share = (lower (rstrip_brackets (lstrip_brackets host)), lower share)

-- _say
abbrev pub say : String → Track → Track
say line track = record track { said = some line }

-- The track is in the mount table.
unfoldable pub seen_mounted : String → Track → Track
seen_mounted where_ track =
    let line = "mounted at " ++ where_ in
    record (if opt_str_eq track.mounted_at where_ then track else say line track) {
      mounted_at = some where_;
      last_at = some where_;
      held = none;
      held_status = none;
      failures = 0;
      next_try = 0;
      status = (StateName.connected, line, false);
    }

-- `if track.mounted_at is not None`, for a track that is not in the mount table.
unfoldable pub vanished : Bool → Track → Option String → Track
vanished trouble track none = track
vanished true track (some gone_from) =
    record (say
      ("lost from " ++ gone_from
        ++ " after the Mac slept or a server stopped responding; reconnecting")
      track) {
        mounted_at = none;
        status = (StateName.reconnecting, "the connection was lost; SMBPal is reconnecting", true);
      }
vanished false track (some gone_from) = record track {
  mounted_at = none;
  held = some (
      "it was unmounted from " ++ gone_from
      ++ " while nothing said its server had gone, which is how an eject looks; `smbpal connection connect` brings it back");
  held_status = some ejected_status;
}

abbrev pub disconnected_reason : String
disconnected_reason =
    "it was disconnected through SMBPal; `smbpal connection connect` brings it back"

-- `if connection.get("disconnected")`
unfoldable pub hold_disconnected : Bool → Track → Track
hold_disconnected false track = track
hold_disconnected true track = record track {
  held = some disconnected_reason;
  held_status = some disconnected_status;
}

abbrev pub or_disconnected : Option Status → Status
or_disconnected (some s) = s
or_disconnected none = disconnected_status

-- The rest of `_consider` under the lock: the track, and whether a mount is to be attempted.
unfoldable pub settle : Listed → ℕ → Track → Option String → Track × Bool
settle c now track (some reason) = (
  record (say ("not reconnecting: " ++ reason) track) {
    status = or_disconnected track.held_status;
  },
  false,
)
settle c now track none =
    if opt_str_eq c.auto_connect "never"
    then (
      record (say "not connecting: auto_connect is never" track) {
        status = (StateName.disabled, "not connected automatically", false);
      },
      false,
    )
    else if ltb now track.next_try
    then (track, false)
    else (track, true)

-- `_consider` up to the mount, for the mountpoint that the table has, if it has the share.
unfoldable pub examine : Listed → Option String → ℕ → Bool → Track → Track × Bool
examine c (some where_) now trouble track = (seen_mounted where_ track, false)
examine c none now trouble track =
    let left = hold_disconnected c.disconnected (vanished trouble track track.mounted_at) in
    settle c now left left.held

-- The end of `_consider` after a mount.
unfoldable pub mounted_now : String → Track → Track
mounted_now where_ track = record (say ("connected at " ++ where_) track) {
  mounted_at = some where_;
  last_at = some where_;
  failures = 0;
  next_try = 0;
  status = (StateName.connected, "mounted at " ++ where_, false);
}
