-- ===== src/State/Monitor/Polling.antt =====
-- state/monitor.py, one poll: the state of every connection, what changed, and what is pushed.
pub mod Pushing
pub mod Client
pub mod Changes
pub mod Quiet
use Prim.Native.Nat.{Ordering}
use Prim.Native.String.{◌++◌, compare}
use mathlib.Core.List.{◌++◌ as ◌⊕◌}
use smbpal_desktop.Prelude.{
  String, Bool, true, false, not, ◌&&◌, ◌||◌, Option, none, some, List, [], ◌∷◌, if◌then◌else◌,
  str_eq, opt_str_eq, Dict, lookup, lookup_or, insert,
}
use smbpal_desktop.Prelude.Sorting.{sort_in}
use smbpal_desktop.State.States.{StateName, ConnectionState, is_state}
use smbpal_desktop.State.Translate.{Cause}
use smbpal_desktop.State.Machine.{Connection, Evidence, truthy, derive}
use smbpal_desktop.State.Monitor.{
  World, Event, state_changed, connection_removed, StateMonitor, mount_name, forget, journal_cause,
  maybe_prime,
}

-- `(unit.get("Result") or "success") != "success"`, or an `ActiveState` of `failed`.
unfoldable pub has_failed : Option (Dict String) → Bool
unfolding lookup lookup_or
has_failed none = false
has_failed (some unit) =
    opt_str_eq (lookup "ActiveState" unit) "failed"
    || (not (str_eq (lookup_or "Result" "" unit) "")
        && not (str_eq (lookup_or "Result" "" unit) "success"))

abbrev occupant_text : Option (String × String) → Option String
occupant_text none = none
occupant_text (some (source, fstype)) = some (source ++ " (" ++ fstype ++ ")")

-- _state_of, the arguments of `derive`: the journal is read only for a unit that failed.
unfoldable pub evidence_of : World → Connection → Evidence
unfolding has_failed journal_cause
evidence_of w c =
    let mounted = w.is_mounted c.mountpoint in
    let unit = w.show (mount_name c) in
    record {
      mounted = mounted;
      unit = unit;
      cause =
          if has_failed unit && not (truthy mounted) then journal_cause w (mount_name c) else none;
      armed = w.is_armed c.mountpoint;
      read_only = if truthy mounted then w.is_read_only c.mountpoint else none;
      occupied_by = occupant_text (w.foreign_occupant c);
      server_answering = if truthy mounted then w.server_is_answering c.host else none;
    }

unfoldable pub state_of : World → Connection → ConnectionState
unfolding evidence_of
state_of w c = derive c (evidence_of w c)

-- _differs, against a state that may be missing.
unfoldable pub differs : Option ConnectionState → ConnectionState → Bool
unfolding is_state
differs none current = true
differs (some previous) current =
    not (is_state previous.state current.state && str_eq previous.message current.message)

-- connection_lookup
unfoldable pub connection_lookup : String → List Connection → Option Connection
connection_lookup id [] = none
connection_lookup id (c ∷ connections) =
    if str_eq c.id id then some c else connection_lookup id connections

-- fallback_hint
unfoldable pub fallback_hint : Connection → ConnectionState → Option String
unfolding is_state
fallback_hint c s = elim c.fallback_host [
  | none ↦ none
  | some fallback ↦
      if str_eq fallback "" || not (is_state s.state StateName.unresolved)
      then none
      else some (
          fallback
          ++ " was recorded as a fallback when this connection was added. It may since have been reassigned to another machine, so SMBPal will not switch on its own — run `smbpal connection use-fallback "
          ++ c.id ++ "` if you are sure it is still the right host.")
]

-- _push
unfoldable pub push : Event → StateMonitor → StateMonitor
push event m = if m.has_broadcast then record m { pushed = m.pushed ⊕ event ∷ [] } else m

abbrev state_word : Option ConnectionState → Option StateName
state_word none = none
state_word (some s) = some s.state

-- _emit's payload.
unfoldable pub change_event : Option ConnectionState → ConnectionState → Option Connection → Event
unfolding fallback_hint
change_event previous s none = state_changed s (state_word previous) none none
change_event previous s (some c) =
    state_changed s (state_word previous) (some c.mountpoint) (fallback_hint c s)

abbrev pub Change : Type 0
Change = Option ConnectionState × ConnectionState

-- The loop over the connections: the monitor, the states so far, and the changes.
unfoldable pub poll_loop :
    World
    → List Connection
    → StateMonitor
    → Dict ConnectionState
    → List Change
    → StateMonitor × Dict ConnectionState × List Change
poll_loop w [] m current changes = (m, current, changes)
poll_loop w (c ∷ connections) m current changes =
    let s = state_of w c in
    let primed = if m.prime then maybe_prime w c s.state m else m in
    let previous = lookup s.id m.states in
    poll_loop w connections primed (insert s.id s current)
      (if differs previous s then changes ⊕ (previous, s) ∷ [] else changes)

-- `set(self._states) - set(current)`, sorted.
abbrev is_none {ℓ} : {A : Type ℓ} → Option A → Bool
is_none none = true
is_none (some _) = false

unfoldable pub gone_ids : Dict ConnectionState → Dict ConnectionState → List String
unfolding sort_in
gone_ids [] current = []
gone_ids ((id, s) ∷ states) current =
    let rest = gone_ids states current in
    if is_none (lookup id current) then sort_in id rest else rest

unfoldable pub emit_all : List Connection → List Change → StateMonitor → StateMonitor
emit_all connections [] m = m
emit_all connections ((previous, s) ∷ changes) m =
    emit_all connections changes
      (push (change_event previous s (connection_lookup s.id connections)) m)

unfoldable pub remove_all : List String → StateMonitor → StateMonitor
remove_all [] m = m
remove_all (id ∷ ids) m = remove_all ids (push (connection_removed id) (forget id m))

-- poll
unfoldable pub poll : World → List Connection → StateMonitor → StateMonitor
poll w connections m =
    let (primed, current, changes) = poll_loop w connections m [] [] in
    remove_all (gone_ids m.states current)
      (emit_all connections changes (record primed { states = current }))
