-- ===== src/Agent/LoopState.antt =====
-- agent/reconnect.py, the state of the loop, what a pass meets outside, and the first steps of a pass.
use Prim.Native.Nat.{bit_and}
use smbpal_desktop.Prelude.{
  ℕ, ◌+◌, max, String, Bool, true, false, not, ◌||◌, Option, none, some, List, [], ◌∷◌,
  if◌then◌else◌, ◌==◌, ltb, Dict,
}
use smbpal_desktop.State.States.{StateName}
use smbpal_desktop.Agent.Tracks.{Key, Track, Listed}
use smbpal_desktop.Agent.Failures.{Failure, release_track, connect_track, retry_track}

abbrev pub trouble_window : ℕ
trouble_window = 600000

abbrev pub sleep_gap : ℕ
sleep_gap = 30000

abbrev pub retry_after_wake : ℕ
retry_after_wake = 30000

-- VQ_NOTRESP | VQ_DEAD | VQ_NOTRESPLOCK, and the flag for a network change.
abbrev pub vq_trouble : ℕ
vq_trouble = 0xa1

abbrev pub network_changed : ℕ
network_changed = 0x1000000

-- The answer of `connections()`: the list, or the message of an `SmbpalError`.
pub data Answer : Type 0 where
  listed : List Listed → Answer
  unavailable : String → Answer

-- A mount's result: the mountpoint, or an error.
pub data Mounted : Type 0 where
  at : String → Mounted
  refused : Failure → Mounted

-- The agent's methods, which another thread may call while a mount is under way.
pub data AgentCall : Type 0 where
  released : String → AgentCall
  connected : Key → String → AgentCall

pub record SmbMount : Type 0 where
  pub host : String
  pub share : String
  pub mountpoint : String
  pub owner_uid : ℕ

-- What one pass meets: the clocks, the flags of the kernel's events, the daemon's list, the mount
-- table, and for each connection the result of a mount and the calls that come in during it.
pub record Pass : Type 0 where
  pub flags : ℕ
  pub wall : ℕ
  pub monotonic : ℕ
  pub connections : Answer
  pub mounts : List SmbMount
  pub mount : Listed → Mounted
  pub meanwhile : Listed → List AgentCall

-- A row of `connection.watch`.
pub record Row : Type 0 where
  pub id : String
  pub state : StateName
  pub message : String
  pub retryable : Bool
  pub mountpoint : Option String

pub record Reconnector : Type 0 where
  pub tracks : Dict Track
  pub last_list : List Listed
  pub list_problem : Option String
  pub trouble_until : Option ℕ
  pub retry_now_until : Option ℕ
  pub last_clocks : Option (ℕ × ℕ)
  pub has_listener : Bool
  pub reported : Option (List Row)
  -- what the listener was told, and the connections that a mount was attempted for
  pub told : List (List Row)
  pub attempts : List String

-- `Reconnector.__init__`
abbrev pub init : Reconnector
init = record {
  tracks = [];
  last_list = [];
  list_problem = none;
  trouble_until = none;
  retry_now_until = none;
  last_clocks = none;
  has_listener = true;
  reported = none;
  told = [];
  attempts = [];
}

-- A change of every track.
unfoldable pub map_tracks : (Track → Track) → Dict Track → Dict Track
map_tracks f [] = []
map_tracks f ((id, track) ∷ tracks) = (id, f track) ∷ map_tracks f tracks

-- released and connected
unfoldable pub handle_call : AgentCall → Dict Track → Dict Track
unfolding map_tracks
handle_call (released mountpoint) tracks = map_tracks (release_track mountpoint) tracks
handle_call (connected key mountpoint) tracks = map_tracks (connect_track key mountpoint) tracks

unfoldable pub handle_calls : List AgentCall → Dict Track → Dict Track
handle_calls [] tracks = tracks
handle_calls (k ∷ calls) tracks = handle_calls calls (handle_call k tracks)

-- _slept, on the clocks of the last pass; subtractions are moved across the comparison.
unfoldable pub slept : Option (ℕ × ℕ) → ℕ → ℕ → Bool
slept none wall now = false
slept (some (previous_wall, previous_now)) wall now =
    ltb (sleep_gap + previous_wall + now) (wall + previous_now)

-- `max(deadline, t)`, and `now < deadline`, with -inf as none.
abbrev pub later : Option ℕ → ℕ → Option ℕ
later none t = some t
later (some d) t = some (max d t)

abbrev pub before : ℕ → Option ℕ → Bool
before now none = false
before now (some d) = ltb now d

abbrev pub flagged : ℕ → ℕ → Bool
flagged flags mask = not (bit_and flags mask == 0)

-- The first part of tick: the clocks, the windows, and the backoffs that are cleared.
unfoldable pub open_windows : Pass → Reconnector → Reconnector
unfolding slept map_tracks
open_windows p r =
    let now = p.monotonic in
    let woke = slept r.last_clocks p.wall now in
    let trouble_woken =
      if woke then later r.trouble_until (now + trouble_window) else r.trouble_until in
    let retry_until = if woke then some (now + retry_after_wake) else r.retry_now_until in
    let trouble_until =
      if flagged p.flags vq_trouble
      then later trouble_woken (now + trouble_window)
      else trouble_woken in
    record r {
      last_clocks = some (p.wall, now);
      trouble_until = trouble_until;
      retry_now_until = retry_until;
      tracks =
          if flagged p.flags network_changed || before now retry_until
          then map_tracks retry_track r.tracks
          else r.tracks;
    }

-- _read_connections
unfoldable pub read_connections : Answer → Reconnector → Reconnector
read_connections (listed connections) r = record r { list_problem = none; last_list = connections }
read_connections (unavailable message) r = record r { list_problem = some message }
