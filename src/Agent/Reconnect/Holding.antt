-- ===== src/Agent/Reconnect/Holding.antt =====
-- A held connection is left alone: no pass mounts it until a `connected` call or the mount table
-- says that somebody did.
use smbpal_desktop.Prelude.{
  ℕ, ◌≡◌, refl, sym, subst, inl, inr, String, Bool, true, false, not, ◌||◌, Option, none, some,
  List, [], ◌∷◌, arith, opt_str_eq, Dict, lookup, All, Bool-cases,
}
use smbpal_desktop.Agent.Tracks.{
  Track, Listed, Key, key_eq, vanished, hold_disconnected, settle, examine,
}
use smbpal_desktop.Agent.Failures.{is_none, release_track, connect_track, retry_track}
use smbpal_desktop.Agent.LoopState.{
  AgentCall, released, connected, map_tracks, handle_call, handle_calls,
}
use smbpal_desktop.Agent.Reconnect.Tables.{mapped, lookup-map_tracks}

-- There is a track for the share, and it is held.
abbrev pub IsHeld : Key → Option Track → Type 0
IsHeld key none = ⊥
IsHeld key (some track) = (track.key ≡ key) × (is_none track.held ≡ false)

-- A call that lets no held connection with this key go.
abbrev pub keeps_held : Key → AgentCall → Bool
keeps_held key (released mountpoint) = true
keeps_held key (connected k mountpoint) = not (key_eq key k)

pub retry_track-IsHeld :
    (key : Key) (o : Option Track) → IsHeld key o → IsHeld key (mapped retry_track o)
unfolding retry_track
retry_track-IsHeld key none h = h
retry_track-IsHeld key (some track) h = ground arith

pub release_track-IsHeld :
    (key : Key) (mountpoint : String) (o : Option Track)
    → IsHeld key o
    → IsHeld key (mapped (release_track mountpoint) o)
unfolding release_track
release_track-IsHeld key mountpoint none h = h
release_track-IsHeld key mountpoint (some track) h =
    elim (Bool-cases
      (opt_str_eq track.mounted_at mountpoint || opt_str_eq track.last_at mountpoint)) [
        | inl e ↦ rw (e, release_track) (h.0, refl)
        | inr e ↦ rw (e, release_track) h
      ]

connect_track-IsHeld :
    (key k : Key) (mountpoint : String) (o : Option Track)
    → key_eq key k ≡ false
    → IsHeld key o
    → IsHeld key (mapped (connect_track k mountpoint) o)
unfolding connect_track
connect_track-IsHeld key k mountpoint none e h = h
connect_track-IsHeld key k mountpoint (some track) e h =
    let other : key_eq track.key k ≡ false = subst (λ (j : Key). key_eq j k ≡ false) (sym h.0) e in
    rw (other, connect_track) h

pub handle_calls-IsHeld :
    (id : String) (key : Key) (calls : List AgentCall) (tracks : Dict Track)
    → All (λ k. keeps_held key k ≡ true) calls
    → IsHeld key (lookup id tracks)
    → IsHeld key (lookup id (handle_calls calls tracks))
unfolding handle_calls handle_call
handle_calls-IsHeld id key [] tracks a h = h
handle_calls-IsHeld id key (released mountpoint ∷ calls) tracks a h =
    handle_calls-IsHeld id key calls (map_tracks (release_track mountpoint) tracks) a.1 (
      subst (IsHeld key) (sym (lookup-map_tracks id (release_track mountpoint) tracks))
        (release_track-IsHeld key mountpoint (lookup id tracks) h))
handle_calls-IsHeld id key (connected k mountpoint ∷ calls) tracks a h =
    handle_calls-IsHeld id key calls (map_tracks (connect_track k mountpoint) tracks) a.1 (
      subst (IsHeld key) (sym (lookup-map_tracks id (connect_track k mountpoint) tracks))
        (connect_track-IsHeld key k mountpoint (lookup id tracks) (ground arith) h))

-- A held track that is not in the mount table stays held, and no mount is attempted.
pub examine-IsHeld :
    (c : Listed) (now : ℕ) (trouble : Bool) (track : Track) (key : Key)
    → track.key ≡ key
    → is_none track.held ≡ false
    → IsHeld key (some (examine c none now trouble track).0)
      × ((examine c none now trouble track).1 ≡ false)
unfolding examine settle vanished hold_disconnected
examine-IsHeld c now trouble track key e h = ground arith
