-- ===== src/Examples/PollingExamples.antt =====
-- state/monitor.py: a poll and its client at concrete inputs.
use smbpal_desktop.Prelude.{
  ◌≡◌, refl, String, true, false, none, some, List, [], ◌∷◌, lookup, insert, if◌then◌else◌, str_eq,
  remove, Bool-cases, inl, inr,
}
use mathlib.Core.List.{◌++◌}
use smbpal_desktop.Prelude.Sorting.{sort_in}
use smbpal_desktop.State.States.{StateName, is_state}
use smbpal_desktop.State.Machine.{
  Connection, derive, derive_enabled, derive_mounted, derive_unit, unit_failed,
}
use smbpal_desktop.Mounts.Units.{unit_names}
use smbpal_desktop.State.Monitor.{World, StateMonitor, journal_cause}
use smbpal_desktop.State.Monitor.Polling.{
  state_of, evidence_of, has_failed, differs, connection_lookup, fallback_hint, change_event,
  gone_ids, poll,
}
use smbpal_desktop.State.Monitor.Polling.Pushing.{
  new_states, changes_from, change_events, poll_events, poll_pushes,
}
use smbpal_desktop.State.Monitor.Polling.Client.{follow, shown}
use smbpal_desktop.State.Monitor.Polling.Quiet.{client_follows, poll_quiet}
use smbpal_desktop.Examples.Inputs.{ascii_digit, nas, backup}

-- A share that is mounted and answers, and one that is armed.
abbrev up : World
up = record {
  foreign_occupant = λ c. none;
  is_mounted = λ m. some (if str_eq m "/mnt/nas" then true else false);
  is_armed = λ m. some true;
  is_read_only = λ m. none;
  server_is_answering = λ h. some true;
  reachable = λ h. true;
  show = λ u. none;
  journal = λ u. none;
  start_error = λ u. none;
  digit_value = ascii_digit;
}

-- Nothing is primed by it, and an entry that is no longer configured is still stored.
abbrev stale : StateMonitor
stale = record {
  states =
      (
        "old",
        record {
          id = "old";
          state = StateName.connected;
          message = "";
          errno = none;
          retryable = false;
          read_only = false;
        },
      )
      ∷ [];
  prime = false;
  has_broadcast = true;
  primed = [];
  declined = [];
  attempted = [];
  latched_because = [];
  wake = false;
  starts = [];
  logged = [];
  pushed = [];
}

abbrev pair : List Connection
pair = nas ∷ backup ∷ []

-- Two changes, then the removal.
three_events :
    follow (poll_events up pair stale) (("old", (StateName.connected, "")) ∷ [])
    ≡ ("nas", (StateName.connected, "mounted"))
      ∷ ("backup", (StateName.unknown, "no information about the unit"))
      ∷ []
unfolding follow poll_events new_states changes_from change_events change_event fallback_hint
    state_of evidence_of has_failed derive derive_enabled derive_mounted derive_unit unit_failed
    lookup insert differs is_state connection_lookup gone_ids sort_in unit_names journal_cause
    remove
three_events = refl

poll_pushes_example :
    ((poll up pair stale).pushed ≡ [] ++ poll_events up pair stale)
    × ((poll up pair stale).states ≡ new_states up pair [])
    × ((poll up pair stale).has_broadcast ≡ true)
poll_pushes_example = poll_pushes up pair stale refl

client_follows_example :
    lookup "old" (follow (poll_events up pair stale) (("old", (StateName.connected, "")) ∷ []))
    ≡ shown (lookup "old" (poll up pair stale).states)
unfolding lookup
client_follows_example =
    client_follows up pair stale (("old", (StateName.connected, "")) ∷ []) refl
      ((refl, tt), (tt, tt)) agree "old"
  where
    agree :
        (id : String)
        → lookup id (("old", (StateName.connected, "")) ∷ []) ≡ shown (lookup id stale.states)
    agree id = elim (Bool-cases (str_eq "old" id)) [ inl e ↦ rw e | inr e ↦ rw e ]

poll_quiet_example : poll_events up pair (poll up pair stale) ≡ []
poll_quiet_example = poll_quiet up pair stale refl ((refl, tt), (tt, tt))
