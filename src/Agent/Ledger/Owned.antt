-- ===== src/Agent/Ledger/Owned.antt =====
-- agent/ledger.py: what the ledger answers of one mount, whatever happened.
use mathlib.Core.List.{◌++◌ as ◌⊕◌}
use smbpal_desktop.Prelude.{
  ◌≡◌, refl, sym, ap, ◌∙◌, Bool, true, false, not, ◌&&◌, ◌||◌, ◌==◌, Option, none, some, List, [],
  ◌∷◌, All, if◌then◌else◌, any, any-append, lookup, length, Bool-cases, inl, inr, arith,
}
use smbpal_desktop.Config.Json.{ℤ, Json, list, to_list-of_list, to_list, of_list, to_dict, get}
use smbpal_desktop.Agent.Ledger.Keeping.{fsid_eq_path, owned-keep, keep_all}
use smbpal_desktop.Agent.Ledger.{
  LedgerMount, fsid_eq, opt_fsid_eq, fsid_of, is_entry_of, is_live, keep, MountLedger, save,
  with_kept, prune_gone, entry_of, record_mount, owns, forget_mount, load, ledger_of, LedgerEvent,
  recorded, forgotten, restarted, happen, happen_all,
}

-- Whether a mount is the ledger's after something happened, from whether it was before.
abbrev is_owned : LedgerMount → LedgerEvent → Bool → Bool
is_owned mount (recorded table written made) before =
    fsid_eq made.fsid mount.fsid || (before && is_live table (some mount.fsid))
is_owned mount (forgotten written gone) before = before && not (fsid_eq mount.fsid gone.fsid)
is_owned mount (restarted readable) before = before

unfoldable pub is_owned_after : LedgerMount → List LedgerEvent → Bool → Bool
is_owned_after mount [] before = before
is_owned_after mount (event ∷ events) before =
    is_owned_after mount events (is_owned mount event before)

abbrev pub Succeeds : LedgerEvent → Type 0
Succeeds (recorded table written made) = written ≡ true
Succeeds (forgotten written gone) = written ≡ true
Succeeds (restarted readable) = readable ≡ true

module _ (mount : LedgerMount) where
  -- A restart that can read the file would leave the answer as it is.
  abbrev IsSaved : MountLedger → Type 0
  IsSaved ledger = any (is_entry_of mount) (load ledger.file) ≡ owns ledger mount

  loaded_owned :
      (entries : List Json)
      → any (is_entry_of mount) (load (list (of_list entries))) ≡ any (is_entry_of mount) entries
  unfolding load
  loaded_owned entries = rw (to_list-of_list entries) (
      ground (arith, owned-keep mount (λ fsid. elim fsid [ none ↦ false | some f ↦ true ]) entries))

  with_kept_cases :
      (same : Bool) (test : Option (ℤ × ℤ) → Bool) (ledger : MountLedger)
      → (same ≡ true → keep (λ e. test (fsid_of e)) ledger.entries ≡ ledger.entries)
      → IsSaved ledger
      → let kept = keep (λ e. test (fsid_of e)) ledger.entries in
        let after : MountLedger =
          if same then ledger else save true (record ledger { entries = kept }) in
        IsSaved after × (owns after mount ≡ (owns ledger mount && test (some mount.fsid)))
  with_kept_cases true test ledger all_kept saved = (
    saved,
    ap (any (is_entry_of mount)) (sym (all_kept refl)) ∙ owned-keep mount test ledger.entries,
  )
  with_kept_cases false test ledger all_kept saved =
      let kept = keep (λ e. test (fsid_of e)) ledger.entries in
      (loaded_owned kept, owned-keep mount test ledger.entries)

  with_kept-IsSaved :
      (test : Option (ℤ × ℤ) → Bool) (ledger : MountLedger)
      → IsSaved ledger
      → let after = with_kept true (keep (λ e. test (fsid_of e)) ledger.entries) ledger in
        IsSaved after × (owns after mount ≡ (owns ledger mount && test (some mount.fsid)))
  with_kept-IsSaved test ledger saved =
      let kept = keep (λ e. test (fsid_of e)) ledger.entries in
      with_kept_cases (length kept == length ledger.entries) test ledger
        (keep_all (λ e. test (fsid_of e)) ledger.entries) saved

  made_entry :
      (made : LedgerMount) → is_entry_of mount (entry_of made) ≡ fsid_eq made.fsid mount.fsid
  unfolding fsid_of get lookup to_dict to_list
  made_entry made = refl

  owned_alike :
      (made : LedgerMount) (ledger : MountLedger)
      → owns ledger made ≡ true
      → owns ledger mount ≡ (fsid_eq made.fsid mount.fsid || owns ledger mount)
  owned_alike made ledger known = elim (Bool-cases (fsid_eq made.fsid mount.fsid)) [
    | inl e ↦ rw e (
        ap (λ (f : ℤ × ℤ). any (λ entry. opt_fsid_eq (fsid_of entry) f) ledger.entries)
          (sym (fsid_eq_path made.fsid mount.fsid e))
        ∙ known)
    | inr e ↦ rw e refl
  ]

  added_or_known :
      (known : Bool) (made : LedgerMount) (ledger : MountLedger)
      → owns ledger made ≡ known
      → IsSaved ledger
      → let longer : MountLedger = record ledger {
        entries = ledger.entries ⊕ entry_of made ∷ [];
      } in
        let after : MountLedger = if known then ledger else save true longer in
        IsSaved after × (owns after mount ≡ (fsid_eq made.fsid mount.fsid || owns ledger mount))
  added_or_known true made ledger known saved = (saved, owned_alike made ledger known)
  added_or_known false made ledger known saved = (
    loaded_owned (ledger.entries ⊕ entry_of made ∷ []),
    ground (
      arith,
      made_entry made,
      any-append (is_entry_of mount) ledger.entries (entry_of made ∷ []),
    ),
  )

  record_mount-IsSaved :
      (table : List LedgerMount) (made : LedgerMount) (ledger : MountLedger)
      → IsSaved ledger
      → let after = record_mount table true made ledger in
        IsSaved after
        × (owns after mount ≡ is_owned mount (recorded table true made) (owns ledger mount))
  unfolding record_mount prune_gone
  record_mount-IsSaved table made ledger saved =
      let pruned = prune_gone table true ledger in
      let (pruned_saved, pruned_owns) = with_kept-IsSaved (is_live table) ledger saved in
      let (after_saved, after_owns) =
        added_or_known (owns pruned made) made pruned refl pruned_saved in
      (after_saved, after_owns ∙ ap (λ (b : Bool). fsid_eq made.fsid mount.fsid || b) pruned_owns)

  forget_mount-IsSaved :
      (gone : LedgerMount) (ledger : MountLedger)
      → IsSaved ledger
      → let after = forget_mount true gone ledger in
        IsSaved after
        × (owns after mount ≡ is_owned mount (forgotten true gone) (owns ledger mount))
  unfolding forget_mount
  forget_mount-IsSaved gone ledger saved =
      with_kept-IsSaved (λ fsid. not (opt_fsid_eq fsid gone.fsid)) ledger saved

  happen-IsSaved :
      (event : LedgerEvent) (ledger : MountLedger)
      → Succeeds event
      → IsSaved ledger
      → IsSaved (happen event ledger)
        × (owns (happen event ledger) mount ≡ is_owned mount event (owns ledger mount))
  happen-IsSaved (recorded table written made) ledger w saved =
      rw w (record_mount-IsSaved table made ledger saved)
  happen-IsSaved (forgotten written gone) ledger w saved =
      rw w (forget_mount-IsSaved gone ledger saved)
  happen-IsSaved (restarted readable) ledger w saved = rw w (refl, saved)

  happen_all-IsSaved :
      (events : List LedgerEvent) (ledger : MountLedger)
      → All Succeeds events
      → IsSaved ledger
      → owns (happen_all events ledger) mount ≡ is_owned_after mount events (owns ledger mount)
  unfolding happen_all is_owned_after
  happen_all-IsSaved [] ledger succeed saved = refl
  happen_all-IsSaved (event ∷ events) ledger succeed saved =
      let (next_saved, next_owns) = happen-IsSaved event ledger succeed.0 saved in
      happen_all-IsSaved events (happen event ledger) succeed.1 next_saved
      ∙ ap (is_owned_after mount events) next_owns

  -- From a ledger that was read from any file, if every write and every read at a restart succeeds: a
  -- mount is the ledger's after any events exactly if it was at the start or was recorded, since then
  -- it was not forgotten, and it was in the mount table whenever another mount was recorded. A
  -- restart, which reads the file, changes nothing: a mount that has gone stays the ledger's until
  -- another is recorded. Mounts with the same fsid count as the same.
  pub owns-happen_all :
      (events : List LedgerEvent) (file : Json)
      → All Succeeds events
      → owns (happen_all events (ledger_of true file)) mount
        ≡ is_owned_after mount events (any (is_entry_of mount) (load file))
  owns-happen_all events file succeed = happen_all-IsSaved events (ledger_of true file) succeed refl
