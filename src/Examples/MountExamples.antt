-- ===== src/Examples/MountExamples.antt =====
-- mounts/apply.py at concrete inputs.
use smbpal_desktop.Prelude.{
  split_lines, ℕ, ◌≡◌, refl, String, true, Option, none, some, List, [], ◌∷◌, codes, Dict, lookup,
  insert, remove, All, contains, ends_with,
}
use smbpal_desktop.Prelude.Sorting.{sort_in}
use smbpal_desktop.Config.Mountpoint.{lstrip, rstrip}
use smbpal_desktop.Mounts.Units.{unit_names, escape_path, mount_source}
use smbpal_desktop.Mounts.UnitText.{MountConnection, mount_unit, automount_unit, mount_options}
use smbpal_desktop.Mounts.Paths.{split_path, keep_parts, normpath, in_managed_root}
use smbpal_desktop.Mounts.Mounter.{
  Machine, Mounter, daemon_reload, enable, stop, reset_failed, mkdir, rmdir, missing, find_occupant,
  occupant, is_mounted, foreign_mount, foreign_occupant, credentials_path, with_owner_ids,
  ensure_found, ensure_mountpoint, write_unit, write_connection, write_all,
}
use smbpal_desktop.Mounts.Mounter.Stale.{
  where_line, where_of, has_suffix, unlink, retire, retire_file, retire_named, retire_all,
  sorted_names, remove_stale_units,
}
use smbpal_desktop.Mounts.Mounter.Applying.{
  wanted_names, blocked_ids, mountpoints, untouched, arm_connection, arm_all, reload, settle_units,
  apply,
}
use smbpal_desktop.Mounts.Mounter.Applying.Foreign.{apply-Same}
use smbpal_desktop.Mounts.Mounter.Applying.Allowed.{IsAllowed}
use smbpal_desktop.Mounts.Mounter.Applying.Armed.{apply-IsAllowed}
use smbpal_desktop.Examples.Inputs.{ascii_lower}

-- A machine with a stick at /mnt/stick, on which everything succeeds.
abbrev machine : Machine
machine = record {
  entries =
      some (record { mountpoint = codes "/mnt/stick"; fstype = "vfat"; source = "/dev/sda1" } ∷ []);
  entries_after = λ name. some [];
  credentials_file = λ ref. some "/etc/c";
  owner_ids = λ owner. some (1000, 1000);
  inspect = λ path. missing;
  can_make = λ path. true;
  can_write = λ name. true;
  can_unlink = λ name. true;
  can_reload = true;
  can_enable = λ name. true;
  lower = ascii_lower;
}

abbrev connection_at : String → String → MountConnection
connection_at id path = record {
  id = id;
  host = "nas";
  share = "Media";
  mountpoint = path;
  fallback_host = none;
  credential_ref = none;
  owner = none;
  auto_connect = none;
}

abbrev nas : MountConnection
nas = connection_at "nas" "/mnt/nas"

abbrev stick : MountConnection
stick = connection_at "stick" "/mnt/stick"

-- A unit of ours for a path, and one that somebody else wrote.
abbrev ours : String → List ℕ
ours path = codes (mount_unit (connection_at "old" path) none none)

abbrev directory_before : Dict (Option (List ℕ))
directory_before =
    ("hand.mount", some (codes "[Mount]\nWhere=/media/x\n"))
    ∷ ("other.mount", some (ours "/mnt/other"))
    ∷ ("media-x.mount", some (ours "/media/x"))
    ∷ []

abbrev previous : Option (List MountConnection)
previous = some (connection_at "old" "/media/x" ∷ nas ∷ [])

abbrev before : Mounter
before = record { files = directory_before; commands = [] }

-- The dropped unit goes, and its mountpoint below /media; the stick is left alone.
apply_commands :
    (apply machine (nas ∷ stick ∷ []) previous before).0.commands
    ≡ mkdir "/mnt/nas"
      ∷ stop "media-x.mount"
      ∷ rmdir (codes "/media/x")
      ∷ daemon_reload
      ∷ reset_failed "mnt-nas.mount"
      ∷ enable "mnt-nas.automount"
      ∷ []
unfolding apply write_all write_connection write_unit ensure_mountpoint ensure_found
    credentials_path with_owner_ids foreign_occupant foreign_mount occupant find_occupant is_mounted
    mount_source settle_units remove_stale_units retire_all retire_named retire_file retire unlink
    sorted_names where_line where_of has_suffix split_lines lstrip rstrip wanted_names blocked_ids
    mountpoints untouched arm_connection arm_all reload unit_names escape_path mount_unit
    automount_unit mount_options normpath split_path keep_parts in_managed_root lookup insert remove
    sort_in contains ends_with
apply_commands = refl

apply-Same_example :
    lookup "other.mount" (apply machine (nas ∷ stick ∷ []) previous before).0.files
    ≡ some (some (ours "/mnt/other"))
unfolding wanted_names mountpoints untouched unit_names escape_path mount_unit mount_source
    mount_options normpath split_path keep_parts lookup contains where_line where_of split_lines
    lstrip rstrip
apply-Same_example = apply-Same machine (nas ∷ stick ∷ []) previous before "other.mount" refl refl

apply-IsAllowed_example :
    All
      (IsAllowed machine (nas ∷ stick ∷ []))
      (apply machine (nas ∷ stick ∷ []) previous before).0.commands
apply-IsAllowed_example = apply-IsAllowed machine (nas ∷ stick ∷ []) previous directory_before
