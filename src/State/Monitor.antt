-- ===== src/State/Monitor.antt =====
-- state/monitor.py: the monitor polls each connection's state, primes armed connections once, and
-- pushes what changes. What the kernel, systemd and the network answer during one poll is the
-- record `World`; queued starts, log lines about priming and pushed events are lists.
pub mod Views
pub mod Priming
pub mod Frame
pub mod Attempts
pub mod Polling
use Prim.Native.String.{◌++◌, compare}
use mathlib.Core.List.{◌++◌ as ◌⊕◌}
use smbpal_desktop.Prelude.{
  ℕ, zero, suc, ◌+◌, String, Bool, true, false, not, ◌&&◌, ◌||◌, Option, none, some, List, [], ◌∷◌,
  if◌then◌else◌, ◌==◌, leb, str_eq, opt_str_eq, Dict, lookup, lookup_or, insert, remove, any,
}
use smbpal_desktop.Prelude.Show.{decimal}
use smbpal_desktop.State.States.{StateName, ConnectionState, is_state, word}
use smbpal_desktop.State.Translate.{Cause, translate_journal}
use smbpal_desktop.State.Machine.{Connection, Evidence, truthy, derive}
use smbpal_desktop.Mounts.Units.{unit_names}

-- What a connection points at: host, share and mountpoint.
abbrev pub Target : Type 0
Target = String × String × String

abbrev pub target_eq : Target → Target → Bool
target_eq s t = str_eq s.0 t.0 && str_eq s.1 t.1 && str_eq s.2 t.2

pub data Event : Type 0 where
  -- the wire form of the state, the previous state, the mountpoint and the hint
  state_changed : ConnectionState → Option StateName → Option String → Option String → Event
  connection_removed : String → Event

-- What is asked during a poll. `None` from `show`, `journal` and `start`'s message stand for an
-- `SmbpalError`, of which only a failed start's message is kept.
pub record World : Type 0 where
  pub foreign_occupant : Connection → Option (String × String)
  pub is_mounted : String → Option Bool
  pub is_armed : String → Option Bool
  pub is_read_only : String → Option Bool
  pub server_is_answering : String → Option Bool
  pub reachable : String → Bool
  pub show : String → Option (Dict String)
  pub journal : String → Option (List ℕ)
  pub start_error : String → Option String
  pub digit_value : ℕ → Option ℕ

pub record StateMonitor : Type 0 where
  pub states : Dict ConnectionState
  pub prime : Bool
  pub has_broadcast : Bool
  pub primed : Dict Target
  pub declined : Dict String
  pub attempted : Dict (Target × ℕ)
  pub latched_because : Dict String
  pub wake : Bool
  -- the starts queued, by connection id and unit, the log lines about priming, the events pushed
  pub starts : List (String × String)
  pub logged : List (String × String)
  pub pushed : List Event

abbrev pub was_mounted : String
was_mounted = "it was mounted, so an idle connection now is one somebody disconnected"

abbrev pub prime_attempts : ℕ
prime_attempts = 3

-- The target of a connection, and the name of its mount unit.
abbrev pub target_of : Connection → Target
target_of c = (c.host, c.share, c.mountpoint)

abbrev pub mount_name : Connection → String
mount_name c = (unit_names c.mountpoint).0

unfoldable pub nudge : StateMonitor → StateMonitor
nudge m = record m { wake = true }

unfoldable pub forget : String → StateMonitor → StateMonitor
unfolding nudge remove
forget id m = nudge (record m {
  primed = remove id m.primed;
  declined = remove id m.declined;
  attempted = remove id m.attempted;
  latched_because = remove id m.latched_because;
})

-- _latch
unfoldable pub latch : String → Target → String → StateMonitor → StateMonitor
latch id target because m = record m {
  primed = insert id target m.primed;
  attempted = remove id m.attempted;
  latched_because = insert id because m.latched_because;
  declined = remove id m.declined;
}

-- _declining
unfoldable pub declining : String → String → StateMonitor → StateMonitor
declining id reason m =
    if opt_str_eq (lookup id m.declined) reason
    then m
    else record m { declined = insert id reason m.declined; logged = m.logged ⊕ (id, reason) ∷ [] }

-- The entry of `_attempted` counts only for the target that it was made for.
unfoldable pub queued_for : Option (Target × ℕ) → Target → ℕ
queued_for none target = 0
queued_for (some (t, n)) target = if target_eq t target then n else 0

abbrev pub is_attempt_for : Option (Target × ℕ) → Target → Bool
is_attempt_for none target = false
is_attempt_for (some (t, n)) target = target_eq t target

abbrev pub is_target : Option Target → Target → Bool
is_target none target = false
is_target (some t) target = target_eq t target

-- `connection.get("auto_connect") or "on_this_network"`
unfoldable pub auto_of : Connection → String
auto_of c = elim c.auto_connect [
  | none ↦ "on_this_network"
  | some a ↦ if str_eq a "" then "on_this_network" else a
]

-- _journal_cause
unfoldable pub journal_cause : World → String → Option Cause
journal_cause w unit = elim (w.journal unit) [
  | none ↦ none
  | some text ↦ translate_journal w.digit_value text
]

-- `systemd.start(…, block=False)` and what follows it.
unfoldable pub queue_start : World → Connection → ℕ → StateMonitor → StateMonitor
queue_start w c queued m = elim (w.start_error (mount_name c)) [
  | some message ↦ declining c.id ("starting " ++ mount_name c ++ " failed: " ++ message) m
  | none ↦ record m {
    attempted = insert c.id (target_of c, queued + 1) m.attempted;
    declined = remove c.id m.declined;
    starts = m.starts ⊕ (c.id, mount_name c) ∷ [];
  }
]

abbrev pub is_refusal : Option Cause → Bool
is_refusal none = false
is_refusal (some cause) = not cause.retryable

abbrev pub message_of : Option Cause → String
message_of none = ""
message_of (some cause) = cause.message

-- `if queued:` and the start: why a queued start has not mounted anything.
unfoldable pub after_queued : World → Connection → ℕ → StateMonitor → StateMonitor
after_queued w c zero m = queue_start w c 0 m
after_queued w c (suc n) m =
    let cause = journal_cause w (mount_name c) in
    let refusal = "the mount was refused: " ++ message_of cause in
    let unexplained =
      decimal (suc n)
      ++ " starts were queued for "
      ++ mount_name c
      ++ " and it never mounted, and the journal does not say why" in
    if is_refusal cause
    then declining c.id refusal (latch c.id (target_of c) refusal m)
    else if leb prime_attempts (suc n)
    then declining c.id unexplained (latch c.id (target_of c) unexplained m)
    else queue_start w c (suc n) m

-- The connection is idle and not latched.
unfoldable pub prime_idle : World → Connection → StateMonitor → StateMonitor
unfolding auto_of
prime_idle w c m =
    if str_eq (auto_of c) "never"
    then declining c.id "auto_connect is never" m
    else if str_eq (auto_of c) "on_this_network" && not (w.reachable c.host)
    then declining c.id
        ("nothing answers on port 445 at "
          ++ (if str_eq c.host "" then "(no host)" else c.host)
          ++ ", so it is not on this network")
        m
    else after_queued w c (queued_for (lookup c.id m.attempted) (target_of c)) m

-- The branch for a connection that is mounted.
unfoldable pub prime_connected : Connection → StateMonitor → StateMonitor
prime_connected c m =
    let latched : StateMonitor = latch c.id (target_of c) was_mounted m in
    if is_attempt_for (lookup c.id m.attempted) (target_of c)
    then latched
    else declining c.id "it is already mounted" latched

-- _maybe_prime
unfoldable pub maybe_prime : World → Connection → StateName → StateMonitor → StateMonitor
maybe_prime w c state m =
    if is_state state StateName.connected
    then prime_connected c m
    else if is_target (lookup c.id m.primed) (target_of c)
    then (if is_state state StateName.idle
        then declining c.id (lookup_or c.id was_mounted m.latched_because) m
        else m)
    else if not (is_state state StateName.idle)
    then declining c.id ("its state is " ++ word state) m
    else prime_idle w c m
