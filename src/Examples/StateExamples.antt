-- ===== src/Examples/StateExamples.antt =====
-- state/: the journal and the states at concrete inputs.
use smbpal_desktop.Prelude.{
  not, ◌&&◌, ◌||◌, ◌≡◌, refl, ◌↔◌, String, true, false, none, some, [], ◌∷◌, ◌++◌ as ◌⊕◌, codes,
  Dict, lookup_or, opt_str_eq,
}
use smbpal_desktop.State.States.{StateName, is_problem, is_state}
use smbpal_desktop.State.Translate.{
  Cause, translate_journal, last_errno, match_error, errno_cause, digits, close, describe_exit,
}
use smbpal_desktop.State.Translate.Journal.{
  translate_journal-append, translate_journal-IsSound, AnswerIsSound,
}
use smbpal_desktop.State.Machine.{Evidence, derive, truthy, is_false}
use smbpal_desktop.State.Machine.Meaning.{
  derive_connected, derive_retryable, derive_latched, is_some,
}
use smbpal_desktop.Examples.Inputs.{ascii_digit, nas, nothing_known}

abbrev refused : Cause
refused = record {
  state = StateName.auth_failed;
  message = "the username or password was refused by the server";
  errno = some 13;
  retryable = false;
}

refused_password :
    translate_journal ascii_digit (codes "mount[2824]: Mount ERROR(13): Permission denied")
    ≡ some refused
unfolding translate_journal last_errno match_error digits close errno_cause
refused_password = refl

exit_32 :
    describe_exit (some "32")
    ≡ "the mount command exited with status 32 (mount(8) reports a generic failure)"
unfolding describe_exit
exit_32 = refl

abbrev Joined : Type 0
Joined =
    translate_journal ascii_digit
      (codes "mount error(113): No route to host" ⊕ 10 ∷ codes "mount error(13): Permission denied")
    ≡ translate_journal ascii_digit (10 ∷ codes "mount error(13): Permission denied")

translate_journal-append_example : Joined
unfolding last_errno match_error digits close
translate_journal-append_example =
    (translate_journal-append ascii_digit refl (codes "mount error(113): No route to host")
        (codes "mount error(13): Permission denied") 13).0
      refl

translate_journal-IsSound_example :
    AnswerIsSound (translate_journal ascii_digit (codes "mount error(110)"))
translate_journal-IsSound_example = translate_journal-IsSound ascii_digit (codes "mount error(110)")

abbrev mounted : Evidence
mounted = record nothing_known {
  mounted = some true;
  server_answering = some true;
  read_only = some true;
}

derive_connected_example : ((derive nas mounted).state ≡ StateName.connected) ↔ (
    (opt_str_eq nas.auto_connect "never" ≡ false)
    × (mounted.occupied_by ≡ none)
    × (truthy mounted.mounted ≡ true)
    × (is_false mounted.server_answering ≡ false))
unfolding translate_journal
derive_connected_example = derive_connected ascii_digit [] nas mounted refl

abbrev shown : Dict String
shown = ("ActiveState", "failed") ∷ ("Result", "start-limit-hit") ∷ []

abbrev given_up : Evidence
given_up = record nothing_known { unit = some shown; cause = some refused }

derive_retryable_example :
    let s = derive nas given_up in
    (s.state ≡ StateName.auth_failed → s.retryable ≡ false)
    × (s.state ≡ StateName.reconnecting → s.retryable ≡ true)
    × (s.retryable ≡ true
        → (is_state s.state StateName.idle ≡ false)
          × (is_state s.state StateName.disabled ≡ false)
          × (is_state s.state StateName.connected ≡ false)
          × (is_state s.state StateName.unknown ≡ false))
unfolding translate_journal last_errno match_error digits close errno_cause
derive_retryable_example =
    derive_retryable ascii_digit (codes "mount error(13): Permission denied") nas given_up refl

derive_latched_example :
    let s = derive nas given_up in
    (is_problem s ≡ (
      not (opt_str_eq nas.auto_connect "never")
      && (is_some given_up.occupied_by
          || not (truthy given_up.mounted)
          || is_false given_up.server_answering)))
    × (s.retryable ≡ (
        not (opt_str_eq nas.auto_connect "never")
        && not (is_some given_up.occupied_by)
        && truthy given_up.mounted
        && is_false given_up.server_answering))
    × (is_state s.state StateName.connecting ≡ false)
    × (is_state s.state StateName.reconnecting ≡ false)
    × (is_state s.state StateName.idle ≡ false)
    × (is_state s.state StateName.unknown ≡ false)
unfolding translate_journal last_errno match_error digits close errno_cause lookup_or
derive_latched_example =
    derive_latched ascii_digit (codes "mount error(13): Permission denied") nas given_up refl shown
      refl refl refl
