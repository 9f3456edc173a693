-- ===== src/State/States.antt =====
-- state/machine.py, the state constants and the dataclass.
use smbpal_desktop.Prelude.{ℕ, String, Bool, true, false, Option, none}

-- The strings IDLE … UNKNOWN of the source.
pub data StateName : Type 0 where
  idle connecting connected reconnecting unreachable unresolved : StateName
  auth_failed failed disabled unknown : StateName

-- PROBLEM_STATES
unfoldable pub in_problem_states : StateName → Bool
in_problem_states StateName.unreachable = true
in_problem_states StateName.unresolved = true
in_problem_states StateName.auth_failed = true
in_problem_states StateName.failed = true
in_problem_states _ = false

-- The string that a constant holds.
unfoldable pub word : StateName → String
word StateName.idle = "idle"
word StateName.connecting = "connecting"
word StateName.connected = "connected"
word StateName.reconnecting = "reconnecting"
word StateName.unreachable = "unreachable"
word StateName.unresolved = "unresolved"
word StateName.auth_failed = "auth_failed"
word StateName.failed = "failed"
word StateName.disabled = "disabled"
word StateName.unknown = "unknown"

unfoldable pub is_state : StateName → StateName → Bool
is_state StateName.idle StateName.idle = true
is_state StateName.connecting StateName.connecting = true
is_state StateName.connected StateName.connected = true
is_state StateName.reconnecting StateName.reconnecting = true
is_state StateName.unreachable StateName.unreachable = true
is_state StateName.unresolved StateName.unresolved = true
is_state StateName.auth_failed StateName.auth_failed = true
is_state StateName.failed StateName.failed = true
is_state StateName.disabled StateName.disabled = true
is_state StateName.unknown StateName.unknown = true
is_state _ _ = false

pub record ConnectionState : Type 0 where
  pub id : String
  pub state : StateName
  pub message : String
  pub errno : Option ℕ
  pub retryable : Bool
  pub read_only : Bool

unfoldable pub is_problem : ConnectionState → Bool
unfolding in_problem_states
is_problem s = in_problem_states s.state

-- `ConnectionState(identifier, state, message)`, with the defaults of the other fields.
abbrev pub plain : String → StateName → String → ConnectionState
plain identifier state message = record {
  id = identifier;
  state = state;
  message = message;
  errno = none;
  retryable = false;
  read_only = false;
}
