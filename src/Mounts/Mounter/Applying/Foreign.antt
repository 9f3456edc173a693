-- ===== src/Mounts/Mounter/Applying/Foreign.antt =====
-- What apply leaves alone.
use smbpal_desktop.Prelude.{
  ◌≡◌, refl, sym, ◌∙◌, String, false, Option, none, some, List, [], ◌∷◌, str_eq, eq_iff, lookup,
  lookup-insert, Bool-cases, inl, inr, arith,
}
use smbpal_desktop.Mounts.Units.{unit_names}
use smbpal_desktop.Mounts.UnitText.{MountConnection}
use smbpal_desktop.Mounts.Mounter.{
  Machine, Mounter, Outcome, continue, Inspection, directory, missing, busy, unreadable, is_blocked,
  ensure_found, ensure_mountpoint, write_unit, write_connection, write_all,
}
use smbpal_desktop.Mounts.Mounter.Stale.{is_text_in, sorted_names, remove_stale_units}
use smbpal_desktop.Mounts.Mounter.Stale.Untouched.{is_ours, Same, retire_all-Same}
use smbpal_desktop.Mounts.Mounter.Applying.{
  wanted_names, blocked_ids, untouched, is_never, arm_connection, arm_all, reload, settle_units,
  apply,
}

module _ (w : Machine) (kept : String) where
  unequal : (name : String) → str_eq kept name ≡ false → str_eq name kept ≡ false
  unequal name h = elim (Bool-cases (str_eq name kept)) [
    | inl e ↦ cc (h, (eq_iff kept name).1 (sym ((eq_iff name kept).0 e)))
    | inr e ↦ e
  ]

  write_unit-Same :
      (name body : String) (m : Mounter)
      → str_eq name kept ≡ false
      → Same kept m (write_unit w name body m).0
  unfolding Same write_unit
  write_unit-Same name body m other = elim (Bool-cases (w.can_write name)) [
    | inl e ↦ rw (e, lookup-insert, other) refl
    | inr e ↦ rw e refl
  ]

  ensure_found-Same :
      (mountpoint : String) (found : Inspection) (m : Mounter)
      → Same kept m (ensure_found w mountpoint found m).0
  unfolding Same ensure_found
  ensure_found-Same mountpoint directory m = refl
  ensure_found-Same mountpoint busy m = refl
  ensure_found-Same mountpoint unreadable m = refl
  ensure_found-Same mountpoint missing m = elim (Bool-cases (w.can_make mountpoint)) [
    | inl e ↦ rw e refl
    | inr e ↦ rw e refl
  ]

  -- A chain changes nothing for the name if no part of it does.
  continue_from-Same :
      (m : Mounter) (first : Outcome) (next : Mounter → Outcome)
      → Same kept m first.0
      → Same kept first.0 (next first.0).0
      → Same kept m (continue first next).0
  unfolding Same
  continue_from-Same m (after, none) next s n = n ∙ s
  continue_from-Same m (after, some error) next s n = s

  continue-Same :
      (m : Mounter) (first : Outcome) (next : Mounter → Outcome)
      → Same kept m first.0
      → ((after : Mounter) → Same kept after (next after).0)
      → Same kept m (continue first next).0
  continue-Same m first next s n = continue_from-Same m first next s (n first.0)

  write_connection-Same :
      (connection : MountConnection) (m : Mounter)
      → str_eq (unit_names connection.mountpoint).0 kept ≡ false
      → str_eq (unit_names connection.mountpoint).1 kept ≡ false
      → Same kept m (write_connection w connection m).0
  unfolding write_connection ensure_mountpoint
  write_connection-Same connection m first second = elim (Bool-cases (is_blocked w connection)) [
    | inl e ↦ rw e (unfold Same in refl)
    | inr e ↦ rw e (
        continue-Same m (ensure_found w connection.mountpoint (w.inspect connection.mountpoint) m) _
          (ensure_found-Same connection.mountpoint (w.inspect connection.mountpoint) m)
          (λ m1.
            continue-Same m1 (write_unit w (unit_names connection.mountpoint).0 _ m1) _
              (write_unit-Same (unit_names connection.mountpoint).0 _ m1 first)
              (λ m2. write_unit-Same (unit_names connection.mountpoint).1 _ m2 second)))
  ]

  write_all-Same :
      (connections : List MountConnection) (m : Mounter)
      → is_text_in kept (wanted_names connections) ≡ false
      → Same kept m (write_all w connections m).0
  unfolding write_all wanted_names
  write_all-Same [] m f = unfold Same in refl
  write_all-Same (connection ∷ connections) m f =
      let first = unequal (unit_names connection.mountpoint).0 (ground (arith, f)) in
      let second = unequal (unit_names connection.mountpoint).1 (ground (arith, f)) in
      continue-Same m (write_connection w connection m) (write_all w connections)
        (write_connection-Same connection m first second)
        (λ after. write_all-Same connections after (ground (arith, f)))

  arm_connection-Same :
      (blocked : List String) (connection : MountConnection) (m : Mounter)
      → Same kept m (arm_connection w blocked connection m).0
  unfolding Same arm_connection
  arm_connection-Same blocked connection m = elim (Bool-cases (is_text_in connection.id blocked)) [
    | inl e ↦ rw e refl
    | inr e ↦ elim (Bool-cases (is_never connection.auto_connect)) [
      | inl f ↦ rw (e, f) refl
      | inr f ↦ rw (e, f) refl
    ]
  ]

  arm_all-Same :
      (blocked : List String) (connections : List MountConnection) (m : Mounter)
      → Same kept m (arm_all w blocked connections m).0
  unfolding arm_all
  arm_all-Same blocked [] m = unfold Same in refl
  arm_all-Same blocked (connection ∷ connections) m =
      continue-Same m (arm_connection w blocked connection m) (arm_all w blocked connections)
        (arm_connection-Same blocked connection m) (arm_all-Same blocked connections)

  reload-Same :
      (wanted removed : List String) (m : Mounter) → Same kept m (reload w wanted removed m).0
  unfolding Same reload
  reload-Same [] [] m = refl
  reload-Same (a ∷ wanted) [] m = refl
  reload-Same [] (b ∷ removed) m = refl
  reload-Same (a ∷ wanted) (b ∷ removed) m = refl

  settle_units-Same :
      (connections : List MountConnection) (previous : Option (List MountConnection)) (m : Mounter)
      → is_ours (untouched connections previous) (lookup kept m.files) ≡ false
      → Same kept m (settle_units w connections previous m).0
  unfolding settle_units remove_stale_units Same
  settle_units-Same connections previous m f =
      let (left, removed) =
        remove_stale_units w (wanted_names connections) (untouched connections previous) m in
      continue-Same left (reload w (wanted_names connections) removed left)
        (arm_all w (blocked_ids w connections) connections)
        (reload-Same (wanted_names connections) removed left)
        (arm_all-Same (blocked_ids w connections) connections)
      ∙ retire_all-Same w kept (wanted_names connections) (untouched connections previous)
          (sorted_names m.files) m f

-- Whatever the machine answers, and whether the change succeeds or an error ends it, a file of the unit
-- directory stays as it is, if no connection wants its name, and it has not the marker of SMBPal or
-- its mountpoint is in neither configuration.
pub apply-Same :
    (w : Machine) (connections : List MountConnection) (previous : Option (List MountConnection))
    (m : Mounter) (kept : String)
    → is_text_in kept (wanted_names connections) ≡ false
    → is_ours (untouched connections previous) (lookup kept m.files) ≡ false
    → lookup kept (apply w connections previous m).0.files ≡ lookup kept m.files
unfolding apply Same
apply-Same w connections previous m kept f o =
    let written = write_all-Same w kept connections m f in
    continue_from-Same w kept m (write_all w connections m) (settle_units w connections previous)
      written
      (settle_units-Same w kept connections previous (write_all w connections m).0 (rw written o))
