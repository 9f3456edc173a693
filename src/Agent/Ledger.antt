-- ===== src/Agent/Ledger.antt =====
-- agent/ledger.py: which of a person's mounts SMBPal made.
pub mod Keeping
pub mod Owned
use mathlib.Core.List.{◌++◌ as ◌⊕◌}
use smbpal_desktop.Prelude.{
  ℕ, String, Bool, true, false, not, ◌&&◌, ◌||◌, ◌==◌, Option, none, some, List, [], ◌∷◌,
  if◌then◌else◌, any, length, Dict,
}
use smbpal_desktop.Config.Json.{
  ℤ, pos, negsuc, Json, int, string, list, object, no_items, item, no_members, member, to_list,
  of_list, to_dict, get,
}

-- What the ledger reads of a mount; the pair is its `f_fsid`.
pub record LedgerMount : Type 0 where
  pub host : String
  pub share : String
  pub mountpoint : String
  pub fsid : ℤ × ℤ

abbrev int_eq : ℤ → ℤ → Bool
int_eq (pos m) (pos n) = m == n
int_eq (negsuc m) (negsuc n) = m == n
int_eq (pos m) (negsuc n) = false
int_eq (negsuc m) (pos n) = false

abbrev pub fsid_eq : (ℤ × ℤ) → (ℤ × ℤ) → Bool
fsid_eq (a, b) (c, d) = int_eq a c && int_eq b d

abbrev pub opt_fsid_eq : Option (ℤ × ℤ) → (ℤ × ℤ) → Bool
opt_fsid_eq none fsid = false
opt_fsid_eq (some given) fsid = fsid_eq given fsid

abbrev pair_of : List Json → Option (ℤ × ℤ)
pair_of (int a ∷ int b ∷ []) = some (a, b)
pair_of _ = none

abbrev fsid_value : Json → Option (ℤ × ℤ)
fsid_value (list items) = pair_of (to_list items)
fsid_value _ = none

-- _fsid, and none for what is no object
unfoldable pub fsid_of : Json → Option (ℤ × ℤ)
unfolding get to_dict to_list
fsid_of (object members) = fsid_value (get "fsid" (to_dict members))
fsid_of _ = none

-- `_fsid(e) == mount.fsid`
abbrev pub is_entry_of : LedgerMount → Json → Bool
is_entry_of mount entry = opt_fsid_eq (fsid_of entry) mount.fsid

-- `{m.fsid for m in self._mounts()}`
abbrev pub is_live : List LedgerMount → Option (ℤ × ℤ) → Bool
is_live table fsid = any (λ (m : LedgerMount). opt_fsid_eq fsid m.fsid) table

unfoldable pub keep {ℓ} : {A : Type ℓ} → (A → Bool) → List A → List A
keep test [] = []
keep test (x ∷ xs) = let rest = keep test xs in if test x then x ∷ rest else rest

-- The entries, and the document in the file; null stands for a file that is missing or does not parse.
pub record MountLedger : Type 0 where
  pub entries : List Json
  pub file : Json

-- _save: whether it is written is the machine's. A ledger without a file writes nothing.
abbrev pub save : Bool → MountLedger → MountLedger
save written ledger =
    if written then record ledger { file = list (of_list ledger.entries) } else ledger

abbrev pub with_kept : Bool → List Json → MountLedger → MountLedger
with_kept written kept ledger =
    if length kept == length ledger.entries
    then ledger
    else save written (record ledger { entries = kept })

-- _prune
unfoldable pub prune_gone : List LedgerMount → Bool → MountLedger → MountLedger
prune_gone table written ledger =
    with_kept written (keep (λ e. is_live table (fsid_of e)) ledger.entries) ledger

abbrev pub entry_of : LedgerMount → Json
entry_of mount = object (
    member "host" (string mount.host) (
      member "share" (string mount.share) (
        member "mountpoint" (string mount.mountpoint) (
          member "fsid" (list (item (int (mount.fsid.0)) (item (int (mount.fsid.1)) no_items)))
            no_members))))

-- record, with the mount table of then
unfoldable pub record_mount : List LedgerMount → Bool → LedgerMount → MountLedger → MountLedger
unfolding prune_gone
record_mount table written mount ledger =
    let pruned = prune_gone table written ledger in
    if any (is_entry_of mount) pruned.entries
    then pruned
    else save written (record pruned { entries = pruned.entries ⊕ entry_of mount ∷ [] })

-- owns
abbrev pub owns : MountLedger → LedgerMount → Bool
owns ledger mount = any (is_entry_of mount) ledger.entries

-- forget
unfoldable pub forget_mount : Bool → LedgerMount → MountLedger → MountLedger
unfolding keep
forget_mount written mount ledger =
    with_kept written (keep (λ e. not (is_entry_of mount e)) ledger.entries) ledger

abbrev has_fsid : Json → Bool
has_fsid entry = elim (fsid_of entry) [ none ↦ false | some fsid ↦ true ]

-- _load
unfoldable pub load : Json → List Json
unfolding keep
load (list items) = keep has_fsid (to_list items)
load _ = []

abbrev pub ledger_of : Bool → Json → MountLedger
ledger_of readable file = record { entries = if readable then load file else []; file = file }

-- What happens to a ledger. Each write may fail, and so may the reading of the
-- file at a restart: the Boolean says whether it succeeds.
pub data LedgerEvent : Type 0 where
  recorded : List LedgerMount → Bool → LedgerMount → LedgerEvent
  forgotten : Bool → LedgerMount → LedgerEvent
  restarted : Bool → LedgerEvent

abbrev pub happen : LedgerEvent → MountLedger → MountLedger
happen (recorded table written mount) ledger = record_mount table written mount ledger
happen (forgotten written mount) ledger = forget_mount written mount ledger
happen (restarted readable) ledger = ledger_of readable ledger.file

unfoldable pub happen_all : List LedgerEvent → MountLedger → MountLedger
unfolding record_mount forget_mount load
happen_all [] ledger = ledger
happen_all (event ∷ events) ledger = happen_all events (happen event ledger)
