-- ===== src/Mounts/Mounter/Applying/Allowed.antt =====
-- The commands that applying a configuration may run, and those of writing its units.
use smbpal_desktop.Prelude.{
  ◌≡◌, refl, String, Bool, true, false, not, ◌&&◌, ◌||◌, none, some, List, [], ◌∷◌, str_eq,
  str_eq_refl, any, All, All-append, Bool-cases, inl, inr, arith,
}
use smbpal_desktop.Mounts.Units.{unit_names}
use smbpal_desktop.Mounts.UnitText.{MountConnection}
use smbpal_desktop.Mounts.Paths.{in_managed_root, managed_roots}
use smbpal_desktop.Mounts.Mounter.{
  Machine, Mounter, Command, daemon_reload, enable, disable, stop, reset_failed, mkdir, rmdir, ran,
  Outcome, continue, Inspection, directory, missing, busy, unreadable, is_blocked, ensure_found,
  ensure_mountpoint, write_unit, write_connection, write_all,
}
use smbpal_desktop.Mounts.Mounter.Stale.{is_text_in}
use smbpal_desktop.Mounts.Mounter.Applying.{wanted_names, blocked_ids, is_never}

abbrev pub is_armed_as : List String → String → MountConnection → Bool
is_armed_as blocked name c =
    str_eq (unit_names c.mountpoint).1 name
    && not (is_text_in c.id blocked)
    && not (is_never c.auto_connect)

abbrev pub is_never_as : String → MountConnection → Bool
is_never_as name c = str_eq (unit_names c.mountpoint).1 name && is_never c.auto_connect

abbrev pub is_made_for : Machine → String → MountConnection → Bool
is_made_for w path c = str_eq c.mountpoint path && not (is_blocked w c)

-- A command that applying a configuration may run.
unfoldable pub IsAllowed : Machine → List MountConnection → Command → Type 0
IsAllowed w connections (enable name) =
    any (is_armed_as (blocked_ids w connections) name) connections ≡ true
IsAllowed w connections (mkdir path) = any (is_made_for w path) connections ≡ true
IsAllowed w connections (rmdir path) = in_managed_root path managed_roots ≡ true
IsAllowed w connections (stop name) = is_text_in name (wanted_names connections) ≡ false
IsAllowed w connections (disable name) =
    (not (is_text_in name (wanted_names connections)) || any (is_never_as name) connections) ≡ true
IsAllowed w connections (reset_failed name) = Unit
IsAllowed w connections daemon_reload = Unit

-- A connection of the configuration: what holds of it holds of one of them.
unfoldable pub IsListed : List MountConnection → MountConnection → Type 0
IsListed connections c =
    (test : MountConnection → Bool) → test c ≡ true → any test connections ≡ true

later-IsListed :
    (first : MountConnection) (connections : List MountConnection) (c : MountConnection)
    → IsListed connections c
    → IsListed (first ∷ connections) c
unfolding IsListed
later-IsListed first connections c l test h = ground (arith, l test h)

pub all-IsListed : (connections : List MountConnection) → All (IsListed connections) connections
all-IsListed [] = tt
all-IsListed (first ∷ connections) = (here, later connections (all-IsListed connections))
  where
    here : IsListed (first ∷ connections) first
    here = unfold IsListed in λ test h. ground (arith, h)

    later :
        (cs : List MountConnection)
        → All (IsListed connections) cs
        → All (IsListed (first ∷ connections)) cs
    later [] a = tt
    later (c ∷ cs) (l, a) = (later-IsListed first connections c l, later cs a)

module _ (w : Machine) (connections : List MountConnection) where
  abbrev pub Fine : Mounter → Type 0
  Fine m = All (IsAllowed w connections) m.commands

  pub ran-Fine :
      (command : Command) (m : Mounter)
      → Fine m
      → IsAllowed w connections command
      → Fine (ran command m)
  ran-Fine command m a p = All-append (IsAllowed w connections) m.commands (command ∷ []) a (p, tt)

  pub continue-Fine :
      (first : Outcome) (next : Mounter → Outcome)
      → Fine first.0
      → ((m : Mounter) → Fine m → Fine (next m).0)
      → Fine (continue first next).0
  continue-Fine (m, none) next a n = n m a
  continue-Fine (m, some error) next a n = a

  ensure_found-Fine :
      (c : MountConnection) (found : Inspection) (m : Mounter)
      → IsListed connections c
      → is_blocked w c ≡ false
      → Fine m
      → Fine (ensure_found w c.mountpoint found m).0
  unfolding ensure_found IsAllowed IsListed
  ensure_found-Fine c directory m l b a = a
  ensure_found-Fine c busy m l b a = a
  ensure_found-Fine c unreadable m l b a = a
  ensure_found-Fine c missing m l b a = elim (Bool-cases (w.can_make c.mountpoint)) [
    | inl e ↦ rw e (
        ran-Fine (mkdir c.mountpoint) m a
          (l (is_made_for w c.mountpoint) (rw (str_eq_refl c.mountpoint, b) refl)))
    | inr e ↦ rw e a
  ]

  write_unit-Fine : (name body : String) (m : Mounter) → Fine m → Fine (write_unit w name body m).0
  unfolding write_unit
  write_unit-Fine name body m a = elim (Bool-cases (w.can_write name)) [
    | inl e ↦ rw e a
    | inr e ↦ rw e a
  ]

  write_connection-Fine :
      (c : MountConnection) (m : Mounter)
      → IsListed connections c
      → Fine m
      → Fine (write_connection w c m).0
  unfolding write_connection ensure_mountpoint
  write_connection-Fine c m l a = elim (Bool-cases (is_blocked w c)) [
    | inl e ↦ rw e a
    | inr e ↦ rw e (
        continue-Fine (ensure_found w c.mountpoint (w.inspect c.mountpoint) m) _
          (ensure_found-Fine c (w.inspect c.mountpoint) m l e a)
          (λ m1 a1.
            continue-Fine (write_unit w (unit_names c.mountpoint).0 _ m1) _
              (write_unit-Fine (unit_names c.mountpoint).0 _ m1 a1)
              (λ m2. write_unit-Fine (unit_names c.mountpoint).1 _ m2)))
  ]

  pub write_all-Fine :
      (cs : List MountConnection) (m : Mounter)
      → All (IsListed connections) cs
      → Fine m
      → Fine (write_all w cs m).0
  unfolding write_all
  write_all-Fine [] m l a = a
  write_all-Fine (c ∷ cs) m (l, ls) a =
      continue-Fine (write_connection w c m) (write_all w cs) (write_connection-Fine c m l a)
        (λ m1. write_all-Fine cs m1 ls)
