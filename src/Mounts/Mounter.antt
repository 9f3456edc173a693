-- ===== src/Mounts/Mounter.antt =====
-- mounts/apply.py: units are written, removed and armed. The files of the unit directory and the
-- commands that were run are the state; what the machine answers is a parameter.
pub mod Stale
pub mod Applying
use Prim.Native.String.{◌++◌}
use mathlib.Core.List.{◌++◌ as ◌⊕◌}
use smbpal_desktop.Prelude.{
  ℕ, String, Bool, true, false, not, ◌&&◌, ◌||◌, Option, none, some, List, [], ◌∷◌, if◌then◌else◌,
  str_eq, codes, codes_eq, Dict, insert,
}
use smbpal_desktop.Mounts.Units.{unit_names, mount_source}
use smbpal_desktop.Mounts.UnitText.{MountConnection, OwnerIds, mount_unit, automount_unit}
use smbpal_desktop.Mounts.Paths.{normpath}

-- MountEntry, of mounts/probe.py
pub record MountEntry : Type 0 where
  pub mountpoint : List ℕ
  pub fstype : String
  pub source : String

-- What `path.is_dir()` and the errors of it say of a mountpoint.
pub data Inspection : Type 0 where
  directory missing busy unreadable : Inspection

-- What the machine answers while the units are changed. `entries` is the mount table, or none without
-- procfs, and `entries_after` what it is when a mount unit was stopped; `owner_ids` is the passwd
-- database, `lower` is str.lower.
pub record Machine : Type 0 where
  pub entries : Option (List MountEntry)
  pub entries_after : String → Option (List MountEntry)
  pub credentials_file : String → Option String
  pub owner_ids : String → OwnerIds
  pub inspect : String → Inspection
  pub can_make : String → Bool
  pub can_write : String → Bool
  pub can_unlink : String → Bool
  pub can_reload : Bool
  pub can_enable : String → Bool
  pub lower : String → String

-- A command of systemd, and the directories that are made and removed.
pub data Command : Type 0 where
  daemon_reload : Command
  enable disable stop reset_failed : String → Command
  mkdir : String → Command
  rmdir : List ℕ → Command

-- The unit directory by names, where an unreadable file has no text, and what was run, in order.
pub record Mounter : Type 0 where
  pub files : Dict (Option (List ℕ))
  pub commands : List Command

abbrev pub ran : Command → Mounter → Mounter
ran command m = record m { commands = m.commands ⊕ command ∷ [] }

-- MountError, and SystemdError of the commands that raise.
pub data ApplyError : Type 0 where
  cannot_inspect cannot_create : String → ApplyError
  cannot_write : String → ApplyError
  cannot_reload : ApplyError
  cannot_enable : String → ApplyError

abbrev is_at : List ℕ → MountEntry → Bool
is_at wanted entry = codes_eq (normpath entry.mountpoint) wanted

-- The first entry at this path that is no automount.
unfoldable pub find_occupant : List ℕ → List MountEntry → Option MountEntry
unfolding normpath
find_occupant wanted [] = none
find_occupant wanted (entry ∷ entries) =
    let later = find_occupant wanted entries in
    if is_at wanted entry && not (str_eq entry.fstype "autofs") then some entry else later

-- MountProbe.occupant
unfoldable pub occupant : Option (List MountEntry) → List ℕ → Option MountEntry
unfolding find_occupant normpath
occupant none mountpoint = none
occupant (some entries) mountpoint = find_occupant (normpath mountpoint) entries

-- MountProbe.is_mounted, where none is no answer and counts as false
unfoldable pub is_mounted : Option (List MountEntry) → List ℕ → Bool
unfolding occupant
is_mounted entries mountpoint = elim (occupant entries mountpoint) [
  | none ↦ false
  | some entry ↦ true
]

abbrev is_fallback_source : Machine → MountConnection → Option String → String → Bool
is_fallback_source w connection none source = false
is_fallback_source w connection (some fallback) source =
    not (str_eq fallback "")
    && str_eq (w.lower ("//" ++ fallback ++ "/" ++ connection.share)) (w.lower source)

-- foreign_mount
unfoldable pub foreign_mount : Machine → Option MountEntry → MountConnection → Option MountEntry
unfolding mount_source
foreign_mount w none connection = none
foreign_mount w (some entry) connection =
    if not (str_eq entry.fstype "cifs")
    then some entry
    else if str_eq (w.lower (mount_source connection.host connection.share)) (w.lower entry.source)
        || is_fallback_source w connection connection.fallback_host entry.source
    then none
    else some entry

-- Mounter.foreign_occupant
unfoldable pub foreign_occupant : Machine → MountConnection → Option MountEntry
unfolding occupant foreign_mount
foreign_occupant w connection =
    foreign_mount w (occupant w.entries (codes connection.mountpoint)) connection

abbrev pub is_blocked : Machine → MountConnection → Bool
is_blocked w connection = elim (foreign_occupant w connection) [ none ↦ false | some entry ↦ true ]

-- Mounter._credentials_path
unfoldable pub credentials_path : Machine → MountConnection → Option String
credentials_path w connection = elim connection.credential_ref [
  | none ↦ none
  | some ref ↦ if str_eq ref "" then none else w.credentials_file ref
]

-- Mounter._with_owner_ids
unfoldable pub with_owner_ids : Machine → MountConnection → OwnerIds
with_owner_ids w connection = elim connection.owner [
  | none ↦ none
  | some owner ↦ if str_eq owner "" then none else w.owner_ids owner
]

-- A state, and the error that ended the work on it.
abbrev pub Outcome : Type 0
Outcome = Mounter × Option ApplyError

-- What is done next, unless an error was raised.
abbrev pub continue : Outcome → (Mounter → Outcome) → Outcome
continue (m, none) next = next m
continue (m, some error) next = (m, some error)

-- What `_ensure_mountpoint` does, by what is found at the mountpoint.
unfoldable pub ensure_found : Machine → String → Inspection → Mounter → Outcome
ensure_found w mountpoint directory m = (m, none)
ensure_found w mountpoint busy m = (m, none)
ensure_found w mountpoint unreadable m = (m, some (cannot_inspect mountpoint))
ensure_found w mountpoint missing m =
    if w.can_make mountpoint
    then (ran (mkdir mountpoint) m, none)
    else (m, some (cannot_create mountpoint))

-- Mounter._ensure_mountpoint
unfoldable pub ensure_mountpoint : Machine → String → Mounter → Outcome
unfolding ensure_found
ensure_mountpoint w mountpoint m = ensure_found w mountpoint (w.inspect mountpoint) m

-- Mounter._write_unit
unfoldable pub write_unit : Machine → String → String → Mounter → Outcome
write_unit w name body m =
    if w.can_write name
    then (record m { files = insert name (some (codes body)) m.files }, none)
    else (m, some (cannot_write name))

-- The loop of apply that writes, for one connection.
unfoldable pub write_connection : Machine → MountConnection → Mounter → Outcome
unfolding ensure_mountpoint write_unit credentials_path with_owner_ids mount_unit automount_unit
    unit_names foreign_occupant
write_connection w connection m =
    let (mount_name, automount_name) = unit_names connection.mountpoint in
    let body =
      mount_unit connection (with_owner_ids w connection) (credentials_path w connection) in
    if is_blocked w connection
    then (m, none)
    else continue (ensure_mountpoint w connection.mountpoint m) (λ m1.
      continue (write_unit w mount_name body m1)
        (λ m2. write_unit w automount_name (automount_unit connection) m2))

unfoldable pub write_all : Machine → List MountConnection → Mounter → Outcome
unfolding write_connection
write_all w [] m = (m, none)
write_all w (connection ∷ connections) m =
    continue (write_connection w connection m) (write_all w connections)
