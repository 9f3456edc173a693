-- ===== src/State/Machine.antt =====
-- state/machine.py: `derive` works out a connection's state from what the kernel, systemd and the
-- journal say. A `systemctl show` answer is a dictionary of texts.
pub mod Meaning
use Prim.Native.String.{◌++◌}
use smbpal_desktop.Prelude.{
  String, Bool, true, false, not, ◌&&◌, ◌||◌, Option, none, some, if◌then◌else◌, str_eq, opt_str_eq,
  Dict, lookup, lookup_or,
}
use smbpal_desktop.State.States.{StateName, ConnectionState, plain, is_state}
use smbpal_desktop.State.Translate.{Cause, describe_exit}

-- A connection of the validated configuration, with the fields that this package reads.
pub record Connection : Type 0 where
  pub id : String
  pub host : String
  pub share : String
  pub mountpoint : String
  pub auto_connect : Option String
  pub fallback_host : Option String

-- The keyword arguments of `derive`.
pub record Evidence : Type 0 where
  pub mounted : Option Bool
  pub unit : Option (Dict String)
  pub cause : Option Cause
  pub armed : Option Bool
  pub read_only : Option Bool
  pub occupied_by : Option String
  pub server_answering : Option Bool

-- The truth of a value that may be None.
abbrev pub truthy : Option Bool → Bool
truthy (some true) = true
truthy _ = false

abbrev pub is_false : Option Bool → Bool
is_false (some false) = true
is_false _ = false

abbrev pub start_limit_hit : String
start_limit_hit = "start-limit-hit"

unfoldable pub latched_text : String → String → String
latched_text message identifier =
    message
    ++ ". systemd has stopped retrying after repeated failures, so nothing will happen on access until it is cleared — run `smbpal connection connect "
    ++ identifier ++ "`"

-- `if mounted:`
unfoldable pub derive_mounted : Connection → Evidence → ConnectionState
derive_mounted c e =
    if is_false e.server_answering
    then record {
      id = c.id;
      state = StateName.unreachable;
      message =
          "still mounted, but the server has stopped answering — files will fail until it comes back";
      errno = none;
      retryable = true;
      read_only = truthy e.read_only;
    }
    else if truthy e.read_only
    then record {
      id = c.id;
      state = StateName.connected;
      message = "mounted read-only — writes will be refused";
      errno = none;
      retryable = false;
      read_only = true;
    }
    else plain c.id StateName.connected "mounted"

-- The state word for a known cause, before the latch.
unfoldable pub cause_state : Cause → StateName
unfolding is_state
cause_state cause =
    if is_state cause.state StateName.connecting
    then StateName.connecting
    else if cause.retryable && is_state cause.state StateName.failed
    then StateName.reconnecting
    else cause.state

unfoldable pub latched_state : StateName → StateName
unfolding is_state
latched_state state =
    if is_state state StateName.auth_failed then StateName.auth_failed else StateName.failed

-- The branch for a unit that failed, with a cause from the journal or without one.
unfoldable pub derive_failed : Connection → Option Cause → Dict String → Bool → ConnectionState
derive_failed c (some cause) unit latched = record {
  id = c.id;
  state = if latched then latched_state (cause_state cause) else cause_state cause;
  message = if latched then latched_text cause.message c.id else cause.message;
  errno = cause.errno;
  retryable = if latched then false else cause.retryable;
  read_only = false;
}
derive_failed c none unit latched =
    let message = describe_exit (lookup "ExecMainStatus" unit) in
    record {
      id = c.id;
      state = StateName.failed;
      message = if latched then latched_text message c.id else message;
      errno = none;
      retryable = not latched;
      read_only = false;
    }

-- `active == "failed" or (result and result != "success")`
unfoldable pub unit_failed : Dict String → Bool
unfolding lookup_or
unit_failed unit =
    str_eq (lookup_or "ActiveState" "" unit) "failed"
    || (not (str_eq (lookup_or "Result" "" unit) "")
        && not (str_eq (lookup_or "Result" "" unit) "success"))

abbrev pub is_activating : Dict String → Bool
is_activating unit = str_eq (lookup_or "ActiveState" "" unit) "activating"

abbrev pub is_latched : Dict String → Bool
is_latched unit = str_eq (lookup_or "Result" "" unit) start_limit_hit

-- What follows when nothing is mounted.
unfoldable pub derive_unit : Connection → Evidence → Option (Dict String) → ConnectionState
derive_unit c e none = plain c.id StateName.unknown "no information about the unit"
derive_unit c e (some unit) =
    if is_activating unit
    then record {
      id = c.id;
      state = StateName.connecting;
      message = "mounting";
      errno = none;
      retryable = true;
      read_only = false;
    }
    else if unit_failed unit
    then derive_failed c e.cause unit (is_latched unit)
    else if is_false e.armed
    then plain c.id StateName.failed
        "the automount is not running, so nothing will mount on access — try `smbpal apply`"
    else plain c.id StateName.idle "ready; it will mount on first access"

-- The test for a foreign file system, and what follows it.
unfoldable pub derive_enabled : Connection → Evidence → Option String → ConnectionState
derive_enabled c e (some occupant) = plain c.id StateName.failed (
    occupant ++ " is mounted at " ++ c.mountpoint
    ++ " and it is not this share. SMBPal will not mount on top of it, because that would hide it until the unmount")
derive_enabled c e none = if truthy e.mounted then derive_mounted c e else derive_unit c e e.unit

unfoldable pub derive : Connection → Evidence → ConnectionState
derive c e =
    if opt_str_eq c.auto_connect "never"
    then plain c.id StateName.disabled "not connected automatically"
    else derive_enabled c e e.occupied_by
