-- ===== src/Examples/PrimingExamples.antt =====
-- state/monitor.py: priming at concrete inputs.
use smbpal_desktop.Prelude.{
  ◌+◌, ◌≤◌, ◌≡◌, refl, true, false, none, some, List, [], ◌∷◌, codes, lookup, lookup_or, insert,
  remove, All,
}
use smbpal_desktop.Prelude.Show.{decimal}
use smbpal_desktop.State.States.{StateName, is_state}
use smbpal_desktop.State.Translate.{
  Cause, translate_journal, last_errno, match_error, errno_cause, digits, close,
}
use smbpal_desktop.Mounts.Units.{unit_names}
use smbpal_desktop.State.Monitor.{
  World, StateMonitor, target_of, maybe_prime, prime_idle, after_queued, queue_start, queued_for,
  auto_of, declining, latch, journal_cause, forget,
}
use smbpal_desktop.State.Monitor.Views.{starts_of}
use smbpal_desktop.State.Monitor.Attempts.{
  PointsTo, Call, run, starts_bounded, latched_never_started, eject_respected,
  refused_never_retried,
}
use smbpal_desktop.Examples.Inputs.{ascii_digit, nas}

-- A server that answers and refuses the password.
abbrev refusing : World
refusing = record {
  foreign_occupant = λ c. none;
  is_mounted = λ m. some false;
  is_armed = λ m. some true;
  is_read_only = λ m. none;
  server_is_answering = λ h. none;
  reachable = λ h. true;
  show = λ u. none;
  journal = λ u. some (codes "mount error(13): Permission denied");
  start_error = λ u. none;
  digit_value = ascii_digit;
}

-- The same with an empty journal.
abbrev silent : World
silent = record refusing { journal = λ u. some [] }

abbrev fresh : StateMonitor
fresh = record {
  states = [];
  prime = true;
  has_broadcast = true;
  primed = [];
  declined = [];
  attempted = [];
  latched_because = [];
  wake = false;
  starts = [];
  logged = [];
  pushed = [];
}

abbrev idle_call : World → Call
idle_call w = record { world = w; connection = nas; state = StateName.idle }

abbrev five_calls : List Call
five_calls =
    idle_call silent
    ∷ idle_call silent
    ∷ idle_call silent
    ∷ idle_call silent
    ∷ idle_call silent
    ∷ []

five_calls_one_target : All (PointsTo "nas" (target_of nas)) five_calls
five_calls_one_target = (λ h. refl, (λ h. refl, (λ h. refl, (λ h. refl, (λ h. refl, tt)))))

-- Of five polls without an answer three start the mount, and the connection is then latched.
three_starts : starts_of "nas" (run five_calls fresh).starts ≡ 3
unfolding run maybe_prime prime_idle after_queued queue_start queued_for auto_of declining latch
    journal_cause translate_journal lookup lookup_or insert remove is_state unit_names decimal
three_starts = refl

-- With a refused password one start is queued.
one_start :
    starts_of "nas"
      (run (idle_call refusing ∷ idle_call refusing ∷ idle_call refusing ∷ []) fresh).starts
    ≡ 1
unfolding run maybe_prime prime_idle after_queued queue_start queued_for auto_of declining latch
    journal_cause translate_journal last_errno match_error digits close errno_cause lookup lookup_or
    insert remove is_state unit_names decimal
one_start = refl

-- Forgetting makes a latched connection new.
forgotten : lookup "nas" (forget "nas" (run five_calls fresh)).primed ≡ none
unfolding run maybe_prime prime_idle after_queued queue_start queued_for auto_of declining latch
    journal_cause translate_journal lookup lookup_or insert remove is_state unit_names decimal
    forget
forgotten = refl

starts_bounded_example :
    starts_of "nas" (run five_calls fresh).starts ≤ starts_of "nas" fresh.starts + 3
unfolding lookup
starts_bounded_example =
    starts_bounded "nas" (target_of nas) five_calls fresh five_calls_one_target refl refl

abbrev latched : StateMonitor
latched = record fresh { primed = ("nas", target_of nas) ∷ [] }

latched_never_started_example :
    starts_of "nas" (run five_calls latched).starts ≡ starts_of "nas" latched.starts
unfolding lookup
latched_never_started_example =
    latched_never_started "nas" (target_of nas) five_calls latched five_calls_one_target refl

eject_respected_example :
    starts_of "nas" (run five_calls (maybe_prime silent nas StateName.connected fresh)).starts
    ≡ starts_of "nas" fresh.starts
eject_respected_example = eject_respected silent nas five_calls fresh five_calls_one_target

abbrev once : StateMonitor
once = record fresh { attempted = ("nas", (target_of nas, 1)) ∷ [] }

abbrev refused : Cause
refused = record {
  state = StateName.auth_failed;
  message = "the username or password was refused by the server";
  errno = some 13;
  retryable = false;
}

refused_never_retried_example :
    starts_of "nas" (run five_calls (maybe_prime refusing nas StateName.idle once)).starts
    ≡ starts_of "nas" once.starts
unfolding lookup queued_for auto_of journal_cause translate_journal last_errno match_error digits
    close errno_cause
refused_never_retried_example =
    refused_never_retried refusing nas refused 0 five_calls once five_calls_one_target refl refl
      refl refl refl refl
