-- ===== src/Examples/AgentExamples.antt =====
-- agent/reconnect.py: the loop at concrete inputs.
use smbpal_desktop.Prelude.{
  suc, ◌+◌, ◌≤◌, ◌<◌, ◌≡◌, refl, true, false, none, some, [], ◌∷◌, arith, lookup, insert, All,
}
use smbpal_desktop.State.States.{StateName}
use smbpal_desktop.Agent.Tracks.{
  Track, Key, examine, settle, vanished, hold_disconnected, mount_key, fast_backoff, max_backoff,
  slow_attempt,
}
use smbpal_desktop.Agent.Failures.{
  Failure, failed, back_off, delay_for, cap_for, logs_retry, retry_track,
}
use smbpal_desktop.Agent.LoopState.{
  Pass, AgentCall, Answer, Mounted, Reconnector, init, handle_call, handle_calls, open_windows,
  read_connections,
}
use smbpal_desktop.Agent.Reconnect.{
  attempt, conclude, consider, consider_all, mine, table_get, track_for, tick, loop,
}
use smbpal_desktop.Agent.Reporting.{prune, rows, rows_eq, report}
use smbpal_desktop.Agent.Reconnect.Tables.{attempts_of}
use smbpal_desktop.Agent.Reconnect.Holding.{IsHeld}
use smbpal_desktop.Agent.Reconnect.Passes.{PointsAt}
use smbpal_desktop.Agent.Reconnect.Patience.{
  Quiet, loop-IsHeld, disconnect_respected, refusal_respected, eject_held,
}
use smbpal_desktop.Agent.Reconnect.Backoff.{attempts_after, failed_bounds}
use smbpal_desktop.Agent.Reconnect.Starvation.{IsDown, overflow_starves}
use smbpal_desktop.Examples.Inputs.{ascii_lower, listed_nas, listed_backup}

abbrev unreachable : Failure
unreachable = record {
  message = "no route to host";
  retryable = true;
  kind = StateName.unreachable;
  took = 100;
}

abbrev refused : Failure
refused = record {
  message = "the password was refused";
  retryable = false;
  kind = StateName.auth_failed;
  took = 100;
}

-- Ten seconds after the start, one connection, not mounted, and a server that does not answer.
abbrev lone : Pass
lone = record {
  flags = 0;
  wall = 10000;
  monotonic = 10000;
  connections = Answer.listed (listed_nas ∷ []);
  mounts = [];
  mount = λ c. Mounted.refused unreachable;
  meanwhile = λ c. [];
}

abbrev nas_key : Key
nas_key = ("nas.local", "media")

abbrev mounted_track : Track
mounted_track = record {
  key = nas_key;
  mounted_at = some "/Volumes/Media";
  last_at = some "/Volumes/Media";
  held = none;
  failures = 0;
  next_try = 0;
  said = none;
  status = (StateName.connected, "mounted at /Volumes/Media", false);
  held_status = none;
  retry_logged = none;
}

abbrev running : Track → Reconnector
running track = record init { tracks = ("nas", track) ∷ []; last_list = listed_nas ∷ [] }

-- An eject is held, with the words for it.
ejected_row :
    rows (tick ascii_lower 501 5000 "ada" lone (running mounted_track)).0.tracks
    ≡ record {
      id = "nas";
      state = StateName.idle;
      message = "ejected; it stays disconnected until you connect it";
      retryable = false;
      mountpoint = none;
    }
      ∷ []
unfolding tick read_connections open_windows mine consider_all consider table_get track_for
    mount_key lookup insert examine settle vanished hold_disconnected prune rows report rows_eq
ejected_row = refl

-- After a sleep the same loss is retried in the same pass.
abbrev woken : Reconnector
woken = record (running mounted_track) { last_clocks = some (0, 9000) }

abbrev after_sleep : Pass
after_sleep = record lone { wall = 100000 }

retried_after_sleep : (tick ascii_lower 501 5000 "ada" after_sleep woken).0.attempts ≡ "nas" ∷ []
unfolding tick read_connections open_windows mine consider_all consider table_get track_for
    mount_key lookup insert examine settle vanished hold_disconnected prune rows report rows_eq
    attempt handle_calls conclude failed back_off delay_for cap_for logs_retry retry_track
retried_after_sleep = refl

lone-Quiet : Quiet ascii_lower 501 5000 "ada" "nas" nas_key lone
unfolding mine mount_key table_get
lone-Quiet = (record { absent = refl; calls = λ c. tt }, (refl, (λ e. refl, tt)))

lone_list : All (PointsAt ascii_lower "nas" nas_key) (listed_nas ∷ [])
unfolding mount_key
lone_list = (λ e. refl, tt)

abbrev held_track : Track
held_track = record mounted_track { mounted_at = none; held = some "it was disconnected" }

loop-IsHeld_example :
    (attempts_of "nas"
        (loop ascii_lower 501 5000 "ada" (lone ∷ lone ∷ []) (running held_track)).attempts
      ≡ attempts_of "nas" (running held_track).attempts)
    × IsHeld nas_key (
        lookup "nas"
          (loop ascii_lower 501 5000 "ada" (lone ∷ lone ∷ []) (running held_track)).tracks)
unfolding mine lookup
loop-IsHeld_example =
    loop-IsHeld ascii_lower 501 5000 "ada" "nas" nas_key (lone ∷ lone ∷ []) (running held_track)
      (lone-Quiet, (lone-Quiet, tt)) refl lone_list (refl, refl)

disconnect_respected_example :
    attempts_of "nas"
      (loop ascii_lower 501 5000 "ada" (lone ∷ []) (record (running mounted_track) {
        tracks = handle_call (AgentCall.released "/Volumes/Media") (running mounted_track).tracks;
      })).attempts
    ≡ attempts_of "nas" (running mounted_track).attempts
unfolding mine lookup
disconnect_respected_example =
    disconnect_respected ascii_lower 501 5000 "ada" "nas" nas_key "/Volumes/Media" mounted_track
      (lone ∷ []) (running mounted_track) (lone-Quiet, tt) refl lone_list refl refl refl

abbrev refusing : Pass
refusing = record lone { mount = λ c. Mounted.refused refused }

abbrev waiting_track : Track
waiting_track = record mounted_track { mounted_at = none; failures = 1 }

refusal_respected_example :
    attempts_of "nas"
      (loop ascii_lower 501 5000 "ada"
        (lone ∷ [])
        (attempt ascii_lower 5000 refusing listed_nas (running waiting_track)).0).attempts
    ≡ suc (attempts_of "nas" (running waiting_track).attempts)
unfolding mine lookup handle_calls
refusal_respected_example =
    refusal_respected ascii_lower 501 5000 "ada" "nas" nas_key refusing listed_nas refused
      waiting_track (lone ∷ []) (running waiting_track) (lone-Quiet, tt) refl lone_list refl refl
      refl refl refl

eject_held_example :
    attempts_of "nas"
      (loop ascii_lower 501 5000 "ada"
        (lone ∷ [])
        (consider ascii_lower 501 5000 false lone listed_nas (running mounted_track)).0).attempts
    ≡ attempts_of "nas" (running mounted_track).attempts
unfolding mine lookup mount_key
eject_held_example =
    eject_held ascii_lower 501 5000 "ada" "nas" nas_key lone listed_nas "/Volumes/Media"
      mounted_track (lone ∷ []) (running mounted_track) (lone-Quiet, (lone-Quiet, tt)) refl
      lone_list (λ e. refl) refl refl refl refl

failed_bounds_example :
    let after = (failed 5000 10000 unreachable waiting_track).0 in
    let attempts = attempts_after ascii_lower 501 5000 false lone listed_nas init in
    (10000 < 10000 + 5000 → attempts after ≡ [])
    × (10000 + max_backoff ≤ 10000 → attempts after ≡ "nas" ∷ [])
    × (unreachable.took < slow_attempt → 10000 + fast_backoff ≤ 10000 → attempts after ≡ "nas" ∷ [])
    × (attempts (retry_track after) ≡ "nas" ∷ [])
    × (after.status.2 ≡ true)
    × (after.held ≡ none)
    × ((failed 5000 10000 unreachable waiting_track).1 ≡ false)
unfolding mount_key table_get
failed_bounds_example =
    failed_bounds ascii_lower 501 5000 false lone listed_nas init refl refl refl 10000 unreachable
      waiting_track refl (omega arith) (omega arith) refl refl refl

-- A list with a second connection behind the one that keeps failing.
abbrev both : Pass
both = record lone { connections = Answer.listed (listed_nas ∷ listed_backup ∷ []) }

abbrev exhausted : Reconnector
exhausted = running (record waiting_track { failures = 1023 })

both-IsDown : IsDown ascii_lower 501 5000 "ada" listed_nas refl refl refl 0 both
unfolding table_get mount_key
both-IsDown = record {
  rest = listed_backup ∷ [];
  listed = refl;
  absent = refl;
  failure = unreachable;
  down = refl;
  temporary = refl;
  alone = refl;
  late = omega arith;
}

overflow_starves_example :
    ((loop ascii_lower 501 5000 "ada" (both ∷ both ∷ []) exhausted).told ≡ [])
    × (attempts_of "backup" (loop ascii_lower 501 5000 "ada" (both ∷ both ∷ []) exhausted).attempts
        ≡ 0)
unfolding lookup mount_key
overflow_starves_example =
    overflow_starves ascii_lower 501 5000 "ada" listed_nas refl refl refl 0 "backup" refl [] 0
      (both ∷ both ∷ []) exhausted (both-IsDown, (both-IsDown, tt))
      (refl, refl, refl, omega arith, omega arith) refl refl
