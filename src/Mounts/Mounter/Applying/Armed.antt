-- ===== src/Mounts/Mounter/Applying/Armed.antt =====
-- What apply runs, from the first unit to the last.
use smbpal_desktop.Prelude.{
  ℕ, ◌≡◌, refl, String, false, not, ◌&&◌, Option, none, some, List, [], ◌∷◌, str_eq_refl, codes,
  contains, Dict, lookup, remove, All, Bool-cases, inl, inr, arith,
}
use smbpal_desktop.Mounts.Units.{unit_names}
use smbpal_desktop.Mounts.UnitText.{MountConnection, marker}
use smbpal_desktop.Mounts.Paths.{in_managed_root, managed_roots}
use smbpal_desktop.Mounts.Mounter.{
  Machine, Mounter, daemon_reload, enable, disable, stop, reset_failed, rmdir, ran, write_all,
}
use smbpal_desktop.Mounts.Mounter.Stale.{
  where_of, may_touch, is_unit_name, is_text_in, is_automount_name, is_still_mounted, tidy, unlink,
  retire, retire_file, retire_named, retire_all, sorted_names, remove_stale_units,
}
use smbpal_desktop.Mounts.Mounter.Applying.{
  wanted_names, blocked_ids, untouched, is_never, arm_connection, arm_all, reload, settle_units,
  apply,
}
use smbpal_desktop.Mounts.Mounter.Applying.Allowed.{
  IsAllowed, IsListed, all-IsListed, is_armed_as, is_never_as, Fine, ran-Fine, continue-Fine,
  write_all-Fine,
}

module _ (w : Machine) (connections : List MountConnection) where
  tidy-Fine :
      (where_ : Option (List ℕ)) (m : Mounter)
      → Fine w connections m
      → Fine w connections (tidy where_ m)
  unfolding IsAllowed
  tidy-Fine none m a = a
  tidy-Fine (some []) m a = a
  tidy-Fine (some (c ∷ path)) m a = elim (Bool-cases (in_managed_root (c ∷ path) managed_roots)) [
    | inl e ↦ rw e (ran-Fine w connections (rmdir (c ∷ path)) m a e)
    | inr e ↦ rw e a
  ]

  unlink-Fine :
      (name : String) (where_ : Option (List ℕ)) (m : Mounter)
      → Fine w connections m
      → Fine w connections (unlink w name where_ m).0
  unfolding unlink
  unlink-Fine name where_ m a = elim (Bool-cases (w.can_unlink name)) [
    | inl e ↦ rw e (tidy-Fine where_ (record m { files = remove name m.files }) a)
    | inr e ↦ rw e a
  ]

  retire-Fine :
      (name : String) (where_ : Option (List ℕ)) (m : Mounter)
      → is_text_in name (wanted_names connections) ≡ false
      → Fine w connections m
      → Fine w connections (retire w name where_ m).0
  unfolding retire IsAllowed
  retire-Fine name where_ m f a =
      let disabled = ran-Fine w connections (disable name) m a (rw f refl) in
      let stopped = ran-Fine w connections (stop name) m a f in
      elim (Bool-cases (is_automount_name name)) [
        | inl e ↦ rw e (unlink-Fine name where_ (ran (disable name) m) disabled)
        | inr e ↦ elim (Bool-cases (is_still_mounted w name where_)) [
          | inl s ↦ rw (e, s) stopped
          | inr s ↦ rw (e, s) (unlink-Fine name where_ (ran (stop name) m) stopped)
        ]
      ]

  retire_file-Fine :
      (keep : Option (List (List ℕ))) (name : String) (file : Option (Option (List ℕ)))
      (m : Mounter)
      → is_text_in name (wanted_names connections) ≡ false
      → Fine w connections m
      → Fine w connections (retire_file w keep name file m).0
  unfolding retire_file
  retire_file-Fine keep name none m f a = a
  retire_file-Fine keep name (some none) m f a = a
  retire_file-Fine keep name (some (some text)) m f a =
      elim (Bool-cases (contains (codes marker) text && may_touch keep (where_of text))) [
        | inl e ↦ rw e (retire-Fine name (where_of text) m f a)
        | inr e ↦ rw e a
      ]

  retire_all-Fine :
      (keep : Option (List (List ℕ))) (names : List String) (m : Mounter)
      → Fine w connections m
      → Fine w connections (retire_all w (wanted_names connections) keep names m).0
  unfolding retire_all retire_named
  retire_all-Fine keep [] m a = a
  retire_all-Fine keep (name ∷ names) m a =
      elim (Bool-cases (is_unit_name name && not (is_text_in name (wanted_names connections)))) [
        | inl e ↦
            let here = retire_file w keep name (lookup name m.files) m in
            rw e (
              retire_all-Fine keep names here.0
                (retire_file-Fine keep name (lookup name m.files) m (ground (arith, e)) a))
        | inr e ↦ rw e (retire_all-Fine keep names m a)
      ]

  arm_connection-Fine :
      (c : MountConnection) (m : Mounter)
      → IsListed connections c
      → Fine w connections m
      → Fine w connections (arm_connection w (blocked_ids w connections) c m).0
  unfolding arm_connection IsAllowed IsListed
  arm_connection-Fine c m l a = elim (Bool-cases (is_text_in c.id (blocked_ids w connections))) [
    | inl e ↦ rw e a
    | inr e ↦ elim (Bool-cases (is_never c.auto_connect)) [
      | inl n ↦
          let never =
            l (is_never_as (unit_names c.mountpoint).1)
              (rw (str_eq_refl (unit_names c.mountpoint).1, n) refl) in
          rw (e, n)
            (ran-Fine w connections (disable (unit_names c.mountpoint).1) m a
              (ground (arith, never)))
      | inr n ↦
          let armed =
            l (is_armed_as (blocked_ids w connections) (unit_names c.mountpoint).1)
              (rw (str_eq_refl (unit_names c.mountpoint).1, e, n) refl) in
          rw (e, n)
            (ran-Fine w connections (enable (unit_names c.mountpoint).1)
              (ran (reset_failed (unit_names c.mountpoint).0) m)
              (ran-Fine w connections (reset_failed (unit_names c.mountpoint).0) m a tt) armed)
    ]
  ]

  arm_all-Fine :
      (cs : List MountConnection) (m : Mounter)
      → All (IsListed connections) cs
      → Fine w connections m
      → Fine w connections (arm_all w (blocked_ids w connections) cs m).0
  unfolding arm_all
  arm_all-Fine [] m l a = a
  arm_all-Fine (c ∷ cs) m (l, ls) a =
      continue-Fine w connections (arm_connection w (blocked_ids w connections) c m)
        (arm_all w (blocked_ids w connections) cs) (arm_connection-Fine c m l a)
        (λ m1. arm_all-Fine cs m1 ls)

  reload-Fine :
      (wanted removed : List String) (m : Mounter)
      → Fine w connections m
      → Fine w connections (reload w wanted removed m).0
  unfolding reload IsAllowed
  reload-Fine [] [] m a = a
  reload-Fine (x ∷ wanted) [] m a = ran-Fine w connections daemon_reload m a tt
  reload-Fine [] (y ∷ removed) m a = ran-Fine w connections daemon_reload m a tt
  reload-Fine (x ∷ wanted) (y ∷ removed) m a = ran-Fine w connections daemon_reload m a tt

  settle_units-Fine :
      (previous : Option (List MountConnection)) (m : Mounter)
      → Fine w connections m
      → Fine w connections (settle_units w connections previous m).0
  unfolding settle_units remove_stale_units
  settle_units-Fine previous m a =
      let (left, removed) =
        remove_stale_units w (wanted_names connections) (untouched connections previous) m in
      continue-Fine w connections (reload w (wanted_names connections) removed left)
        (arm_all w (blocked_ids w connections) connections)
        (reload-Fine (wanted_names connections) removed left
          (retire_all-Fine (untouched connections previous) (sorted_names m.files) m a))
        (λ m1. arm_all-Fine connections m1 (all-IsListed connections))

-- Whatever the machine answers, and whether the change succeeds or an error ends it: what is enabled is
-- the automount of a connection that is not to be left off and whose mountpoint nothing else holds;
-- a mountpoint is made for a connection of which the latter is so; what is stopped is the unit of no
-- connection, and so is what is disabled, unless it is the automount of one that is to be left off;
-- and a directory is removed only below a root that SMBPal derives mountpoints into.
pub apply-IsAllowed :
    (w : Machine) (connections : List MountConnection) (previous : Option (List MountConnection))
    (files : Dict (Option (List ℕ)))
    → All
        (IsAllowed w connections)
        (apply w connections previous (record { files = files; commands = [] })).0.commands
unfolding apply
apply-IsAllowed w connections previous files =
    let start : Mounter = record { files = files; commands = [] } in
    continue-Fine w connections (write_all w connections start)
      (settle_units w connections previous)
      (write_all-Fine w connections connections start (all-IsListed connections) tt)
      (settle_units-Fine w connections previous)
