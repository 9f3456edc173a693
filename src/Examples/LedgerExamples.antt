-- ===== src/Examples/LedgerExamples.antt =====
-- agent/ledger.py at concrete inputs.
use smbpal_desktop.Prelude.{ℕ, true, false, List, ◌≡◌, refl, [], ◌∷◌, any, lookup}
use smbpal_desktop.Config.Json.{pos, null, to_list, of_list, to_dict, get}
use smbpal_desktop.Agent.Ledger.{
  LedgerMount, fsid_of, is_entry_of, keep, prune_gone, record_mount, owns, forget_mount, load,
  ledger_of, LedgerEvent, recorded, forgotten, restarted, happen_all,
}
use smbpal_desktop.Agent.Ledger.Owned.{is_owned_after, owns-happen_all}

abbrev made : ℕ → LedgerMount
made n = record {
  host = "nas";
  share = "Media";
  mountpoint = "/Volumes/Media";
  fsid = (pos n, pos 1);
}

-- The second mount of the share is the user's: the first has gone by the time a third is made.
abbrev events : List LedgerEvent
events =
    recorded (made 5 ∷ []) true (made 5)
    ∷ restarted true
    ∷ recorded (made 6 ∷ made 7 ∷ []) true (made 7)
    ∷ forgotten true (made 8)
    ∷ restarted true
    ∷ []

only_seven :
    (owns (happen_all events (ledger_of true null)) (made 5) ≡ false)
    × (owns (happen_all events (ledger_of true null)) (made 6) ≡ false)
    × (owns (happen_all events (ledger_of true null)) (made 7) ≡ true)
unfolding happen_all record_mount prune_gone forget_mount load keep fsid_of get lookup to_dict
    to_list of_list
only_seven = (refl, refl, refl)

owns-happen_all_example :
    owns (happen_all events (ledger_of true null)) (made 7)
    ≡ is_owned_after (made 7) events (any (is_entry_of (made 7)) (load null))
owns-happen_all_example =
    owns-happen_all (made 7) events null (refl, (refl, (refl, (refl, (refl, tt)))))
