-- ===== src/Agent/Reconnect.antt =====
-- agent/reconnect.py, the loop: one pass (`tick`) over every connection of this person, and what the
-- agent's own methods tell it. What a pass meets outside is the record `Pass`.
pub mod Tables
pub mod Holding
pub mod Passes
pub mod Patience
pub mod Backoff
pub mod Starvation
use mathlib.Core.List.{◌++◌ as ◌⊕◌}
use Prim.Native.String.{compare}
use Prim.Native.Nat.{Ordering, bit_and}
use smbpal_desktop.Prelude.{
  ℕ, ◌+◌, max, String, Bool, true, false, not, ◌&&◌, ◌||◌, Option, none, some, List, [], ◌∷◌,
  if◌then◌else◌, ◌==◌, ltb, str_eq, opt_str_eq, Dict, lookup, insert, map,
}
use smbpal_desktop.Prelude.Sorting.{is_before}
use smbpal_desktop.State.States.{StateName, is_state}
use smbpal_desktop.Agent.Tracks.{
  Status, Key, key_eq, Track, new_track, Listed, mount_key, examine, mounted_now,
}
use smbpal_desktop.Agent.Failures.{Failure, failed, release_track, connect_track, retry_track}
use smbpal_desktop.Agent.LoopState.{
  AgentCall, Answer, Mounted, Pass, Reconnector, Row, SmbMount, at, before, connected, flagged,
  handle_call, handle_calls, init, later, listed, map_tracks, network_changed, open_windows,
  read_connections, refused, released, retry_after_wake, sleep_gap, slept, trouble_window,
  unavailable, vq_trouble,
}
use smbpal_desktop.Agent.Reporting.{
  bool_eq, has_id, insert_row, is_reported, option_eq, prune, report, row_eq, rows, rows_eq,
}

-- `[c for c in … if c.get("owner") == self.username]`
unfoldable pub mine : String → List Listed → List Listed
mine username [] = []
mine username (c ∷ connections) =
    let rest = mine username connections in if opt_str_eq c.owner username then c ∷ rest else rest

module _ (lower : String → String) where
  abbrev pub key_of : Listed → Key
  key_of c = mount_key lower c.host c.share

  -- `table.get(key)`: of two entries with one key the later one counts.
  unfoldable pub table_get : ℕ → Key → List SmbMount → Option String
  table_get uid key [] = none
  table_get uid key (m ∷ mounts) =
      let rest = table_get uid key mounts in
      elim rest [
        | some where_ ↦ some where_
        | none ↦
            if (m.owner_uid == uid) && key_eq (mount_key lower m.host m.share) key
            then some m.mountpoint
            else none
      ]

  -- The track that a pass looks at: a new one for a new connection, and for an edited one.
  unfoldable pub track_for : Key → Option Track → Track
  unfolding new_track
  track_for key none = new_track key
  track_for key (some track) = if key_eq track.key key then track else new_track key

  -- The end of an attempt, on the track that is there by then, if one is.
  unfoldable pub conclude : ℕ → ℕ → String → Mounted → Option Track → Dict Track → Dict Track × Bool
  conclude interval now id result none tracks = (tracks, false)
  conclude interval now id (at where_) (some track) tracks =
      (insert id (mounted_now where_ track) tracks, false)
  conclude interval now id (refused f) (some track) tracks =
      let (after, raised) = failed interval now f track in (insert id after tracks, raised)

  -- The mount, outside the lock: other calls may come in before its result is written.
  unfoldable pub attempt : ℕ → Pass → Listed → Reconnector → Reconnector × Bool
  attempt interval p c r =
      let tracks = handle_calls (p.meanwhile c) r.tracks in
      let (after, raised) =
        conclude interval p.monotonic c.id (p.mount c) (lookup c.id tracks) tracks in
      (record r { tracks = after; attempts = r.attempts ⊕ c.id ∷ [] }, raised)

  -- _consider: the new state, and whether it raised.
  unfoldable pub consider : ℕ → ℕ → Bool → Pass → Listed → Reconnector → Reconnector × Bool
  consider uid interval trouble p c r =
      let key = key_of c in
      let track = track_for key (lookup c.id r.tracks) in
      let (examined, try) = examine c (table_get uid key p.mounts) p.monotonic trouble track in
      let written = record r { tracks = insert c.id examined r.tracks } in
      if try then attempt interval p c written else (written, false)

  -- The loop over the connections; an exception ends it.
  unfoldable pub consider_all : ℕ → ℕ → Bool → Pass → List Listed → Reconnector → Reconnector × Bool
  consider_all uid interval trouble p [] r = (r, false)
  consider_all uid interval trouble p (c ∷ rest) r =
      let (r', raised) = consider uid interval trouble p c r in
      elim raised [ true ↦ (r', true) | false ↦ consider_all uid interval trouble p rest r' ]

-- tick: the new state, and whether it raised.
unfoldable pub tick : (String → String) → ℕ → ℕ → String → Pass → Reconnector → Reconnector × Bool
tick lower uid interval username p r =
    let opened = read_connections p.connections (open_windows p r) in
    let connections = mine username opened.last_list in
    let trouble = before p.monotonic opened.trouble_until in
    let (considered, raised) = consider_all lower uid interval trouble p connections opened in
    if raised
    then (considered, true)
    else (report (record considered { tracks = prune connections considered.tracks }), false)

-- The loop catches what a pass raised and goes on from the state that it left.
unfoldable pub loop : (String → String) → ℕ → ℕ → String → List Pass → Reconnector → Reconnector
loop lower uid interval username [] r = r
loop lower uid interval username (p ∷ passes) r =
    loop lower uid interval username passes (tick lower uid interval username p r).0
