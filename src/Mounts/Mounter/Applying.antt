-- ===== src/Mounts/Mounter/Applying.antt =====
-- mounts/apply.py: apply and teardown.
pub mod Foreign
pub mod Allowed
pub mod Armed
use mathlib.Core.List.{◌++◌ as ◌⊕◌}
use smbpal_desktop.Prelude.{
  ℕ, String, Bool, true, false, not, ◌&&◌, ◌||◌, Option, none, some, List, [], ◌∷◌, if◌then◌else◌,
  str_eq, codes,
}
use smbpal_desktop.Mounts.Units.{unit_names}
use smbpal_desktop.Mounts.UnitText.{MountConnection}
use smbpal_desktop.Mounts.Paths.{normpath}
use smbpal_desktop.Mounts.Mounter.{
  Machine, Mounter, Command, daemon_reload, enable, disable, reset_failed, ran, ApplyError,
  cannot_reload, cannot_enable, Outcome, continue, is_blocked, write_all,
}
use smbpal_desktop.Mounts.Mounter.Stale.{is_text_in, remove_stale_units}

-- The names that the configuration wants.
unfoldable pub wanted_names : List MountConnection → List String
unfolding unit_names
wanted_names [] = []
wanted_names (connection ∷ connections) =
    (unit_names connection.mountpoint).0
    ∷ (unit_names connection.mountpoint).1
    ∷ wanted_names connections

-- The ids of the connections whose mountpoint something else holds.
unfoldable pub blocked_ids : Machine → List MountConnection → List String
blocked_ids w [] = []
blocked_ids w (connection ∷ connections) =
    let rest = blocked_ids w connections in
    if is_blocked w connection then connection.id ∷ rest else rest

unfoldable pub mountpoints : List MountConnection → List (List ℕ)
unfolding normpath
mountpoints [] = []
mountpoints (connection ∷ connections) =
    let rest = mountpoints connections in
    if str_eq connection.mountpoint "" then rest else normpath (codes connection.mountpoint) ∷ rest

abbrev both : List MountConnection → List MountConnection → List (List ℕ)
both connections previous = mountpoints connections ⊕ mountpoints previous

-- _untouched: the mountpoints that a change from one configuration to another may touch.
unfoldable pub untouched :
    List MountConnection → Option (List MountConnection) → Option (List (List ℕ))
unfolding mountpoints
untouched connections none = none
untouched connections (some previous) = some (both connections previous)

abbrev pub is_never : Option String → Bool
is_never none = false
is_never (some auto) = str_eq auto "never"

-- The last loop of apply, for one connection.
unfoldable pub arm_connection : Machine → List String → MountConnection → Mounter → Outcome
unfolding unit_names
arm_connection w blocked connection m =
    let (mount_name, automount_name) = unit_names connection.mountpoint in
    if is_text_in connection.id blocked
    then (m, none)
    else if is_never connection.auto_connect
    then (ran (disable automount_name) m, none)
    else (
      ran (enable automount_name) (ran (reset_failed mount_name) m),
      if w.can_enable automount_name then none else some (cannot_enable automount_name),
    )

unfoldable pub arm_all : Machine → List String → List MountConnection → Mounter → Outcome
unfolding arm_connection
arm_all w blocked [] m = (m, none)
arm_all w blocked (connection ∷ connections) m =
    continue (arm_connection w blocked connection m) (arm_all w blocked connections)

-- systemd.daemon_reload, where there is something to reload
unfoldable pub reload : Machine → List String → List String → Mounter → Outcome
reload w [] [] m = (m, none)
reload w _ _ m = (ran daemon_reload m, if w.can_reload then none else some cannot_reload)

-- What apply does once the units are written.
unfoldable pub settle_units :
    Machine → List MountConnection → Option (List MountConnection) → Mounter → Outcome
unfolding wanted_names untouched remove_stale_units reload arm_all blocked_ids
settle_units w connections previous m =
    let (left, removed) =
      remove_stale_units w (wanted_names connections) (untouched connections previous) m in
    continue (reload w (wanted_names connections) removed left)
      (arm_all w (blocked_ids w connections) connections)

-- Mounter.apply, without the report
unfoldable pub apply :
    Machine → List MountConnection → Option (List MountConnection) → Mounter → Outcome
unfolding write_all settle_units
apply w connections previous m =
    continue (write_all w connections m) (settle_units w connections previous)

-- Mounter.teardown
unfoldable pub teardown : Machine → Mounter → Outcome
unfolding remove_stale_units reload
teardown w m = let (left, removed) = remove_stale_units w [] none m in reload w [] removed left
