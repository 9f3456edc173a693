-- ===== src/Agent/Failures.antt =====
-- agent/reconnect.py, one connection: what `_failed` and the agent's own methods do to its track.
use Prim.Native.String.{◌++◌}
use smbpal_desktop.Prelude.{
  ℕ, ◌+◌, ◌*◌, ◌^◌, min, String, Bool, true, false, ◌&&◌, ◌||◌, Option, none, some, if◌then◌else◌,
  leb, opt_str_eq,
}
use smbpal_desktop.State.States.{StateName, is_state}
use smbpal_desktop.Agent.Tracks.{
  Key, Status, Track, disconnected_reason, disconnected_status, fast_backoff, key_eq, max_backoff,
  retry_log_every, say, slow_attempt,
}

-- A failed mount, as an exception tells of it. Only `NetFSError` has a state of its own and may be
-- not retryable.
pub record Failure : Type 0 where
  pub message : String
  pub retryable : Bool
  pub kind : StateName
  pub took : ℕ

unfoldable pub cap_for : ℕ → ℕ
cap_for took = if leb slow_attempt took then max_backoff else fast_backoff

unfoldable pub delay_for : ℕ → ℕ → ℕ → ℕ
delay_for interval failures took = min (interval * 2 ^ failures) (cap_for took)

-- `now - track.retry_logged >= RETRY_LOG_EVERY`
unfoldable pub logs_retry : ℕ → Option ℕ → Bool
logs_retry now none = true
logs_retry now (some t) = leb (t + retry_log_every) now

-- `2 ** failures` is converted to a float for the product: from 2 ** 1024 on that is an
-- OverflowError.
abbrev pub overflows : ℕ → Bool
overflows failures = leb 1024 failures

-- The retryable half of _failed, behind the product.
unfoldable pub back_off : ℕ → ℕ → Failure → Track → Track
back_off interval now f track =
    record (say ("could not connect (" ++ f.message ++ "); trying again with backoff") track) {
      failures = track.failures + 1;
      next_try = now + delay_for interval (track.failures + 1) f.took;
      status = (
        if is_state f.kind StateName.unreachable
            then StateName.unreachable
            else StateName.reconnecting,
        f.message ++ "; SMBPal is trying again",
        true,
      );
      retry_logged = if logs_retry now track.retry_logged then some now else track.retry_logged;
    }

-- The other half: the track is held.
unfoldable pub refuse : Failure → Track → Track
refuse f track =
    let refused : Status = (
      if is_state f.kind StateName.auth_failed then StateName.auth_failed else StateName.failed,
      f.message ++ "; SMBPal will not retry it until you connect it",
      false,
    ) in
    record (say ("not reconnecting: the mount was refused: " ++ f.message) track) {
      held = some ("the mount was refused: " ++ f.message);
      held_status = some refused;
      status = refused;
    }

-- _failed: the track, and whether it raised. The count is raised before the product is taken.
unfoldable pub failed : ℕ → ℕ → Failure → Track → Track × Bool
failed interval now f track =
    if f.retryable
    then (if overflows (track.failures + 1)
        then (record track { failures = track.failures + 1 }, true)
        else (back_off interval now f track, false))
    else (refuse f track, false)

-- released, for one track.
unfoldable pub release_track : String → Track → Track
release_track mountpoint track =
    if opt_str_eq track.mounted_at mountpoint || opt_str_eq track.last_at mountpoint
    then record track {
      mounted_at = none;
      held = some disconnected_reason;
      held_status = some disconnected_status;
    }
    else track

-- connected, for one track.
unfoldable pub connect_track : Key → String → Track → Track
connect_track key mountpoint track =
    if key_eq track.key key
    then record track {
      mounted_at = some mountpoint;
      last_at = some mountpoint;
      held = none;
      held_status = none;
      failures = 0;
      next_try = 0;
    }
    else track

abbrev pub is_none {ℓ} : {A : Type ℓ} → Option A → Bool
is_none none = true
is_none (some _) = false

-- _retry_waiting, for one track.
unfoldable pub retry_track : Track → Track
retry_track track =
    if is_none track.held && is_none track.mounted_at then record track { next_try = 0 } else track
