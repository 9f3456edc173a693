-- ===== src/Mounts/UnitText.antt =====
-- mounts/units.py: the text of the units of a connection.
use Prim.Native.String.{◌++◌}
use smbpal_desktop.Prelude.{ℕ, String, Option, none, some, ◌≡◌, refl}
use smbpal_desktop.Prelude.Show.{decimal}
use smbpal_desktop.Mounts.Units.{mount_source}

-- What is read of a connection of the configuration. Texts that may be missing or empty are options.
pub record MountConnection : Type 0 where
  pub id : String
  pub host : String
  pub share : String
  pub mountpoint : String
  pub fallback_host : Option String
  pub credential_ref : Option String
  pub owner : Option String
  pub auto_connect : Option String

-- The uid and gid of the owner, where it has any.
abbrev pub OwnerIds : Type 0
OwnerIds = Option (ℕ × ℕ)

abbrev credential_option : Option String → String
credential_option none = "guest"
credential_option (some path) = "credentials=" ++ path

abbrev owner_options : OwnerIds → String
owner_options none = ""
owner_options (some (uid, gid)) =
    ",uid=" ++ decimal uid ++ ",forceuid,gid=" ++ decimal gid ++ ",forcegid"

-- mount_options, of the ids and the path of the credentials
unfoldable pub mount_options : OwnerIds → Option String → String
unfolding decimal
mount_options ids credentials_path =
    "soft,_netdev,iocharset=utf8,file_mode=0755,dir_mode=0755,"
    ++ credential_option credentials_path
    ++ owner_options ids

abbrev pub marker : String
marker = "# Generated by SMBPal for connection "

-- mount_unit
unfoldable pub mount_unit : MountConnection → OwnerIds → Option String → String
unfolding mount_source mount_options
mount_unit connection ids credentials_path =
    let what = mount_source connection.host connection.share in
    marker
    ++ connection.id
    ++ ". Do not edit.\n[Unit]\nDescription=SMBPal mount of "
    ++ what
    ++ "\n# The remote is on the network but the automount means nothing waits for it:\n"
    ++ "# the mount happens on first access, not during boot (M0 §4).\n"
    ++ "After=network-online.target\nWants=network-online.target\n\n[Mount]\nWhat="
    ++ what
    ++ "\nWhere="
    ++ connection.mountpoint
    ++ "\nType=cifs\nOptions="
    ++ mount_options ids credentials_path
    ++ "\n"

-- automount_unit
unfoldable pub automount_unit : MountConnection → String
automount_unit connection =
    marker ++ connection.id ++ ". Do not edit.\n[Unit]\nDescription=SMBPal automount for "
    ++ connection.mountpoint ++ "\n\n[Automount]\nWhere=" ++ connection.mountpoint
    ++ "\n# TimeoutIdleSec is deliberately unset. M0 §4 watched a background desktop\n"
    ++ "# process re-trigger the automount 80 s after boot without the user touching\n"
    ++ "# anything, so idle unmounting cannot be relied on to happen at all.\n\n"
    ++ "[Install]\nWantedBy=multi-user.target\n"

options_with_owner :
    mount_options (some (1000, 100)) (some "/etc/c")
    ≡ "soft,_netdev,iocharset=utf8,file_mode=0755,dir_mode=0755,credentials=/etc/c,uid=1000,forceuid,gid=100,forcegid"
unfolding mount_options decimal
options_with_owner = refl
