-- ===== src/Examples/Inputs.antt =====
-- Inputs that the tests share: ASCII's part of the two Unicode tables, a connection and its listing.
use Prim.Native.Char.{code}
use Prim.Native.String.{◌++◌, slice}
use smbpal_desktop.Prelude.{
  ℕ, ◌+◌, ◌-◌, String, true, false, ◌&&◌, Option, none, some, if◌then◌else◌, leb,
}
use smbpal_desktop.State.Machine.{Connection, Evidence}
use smbpal_desktop.Agent.Tracks.{Listed}

abbrev pub ascii_digit : ℕ → Option ℕ
ascii_digit c = if leb b'0' c && leb c b'9' then some (c - b'0') else none

abbrev pub ascii_lower : String → String
ascii_lower String.[] = ""
ascii_lower (String.◌∷◌ c s) =
    (if leb b'A' (code c) && leb (code c) b'Z'
      then slice "abcdefghijklmnopqrstuvwxyz" (code c - b'A') (code c - b'A' + 1)
      else String.◌∷◌ c String.[])
    ++ ascii_lower s

abbrev pub nas : Connection
nas = record {
  id = "nas";
  host = "nas.local";
  share = "Media";
  mountpoint = "/mnt/nas";
  auto_connect = none;
  fallback_host = none;
}

abbrev pub backup : Connection
backup = record {
  id = "backup";
  host = "backup.local";
  share = "Disk";
  mountpoint = "/mnt/backup";
  auto_connect = some "always";
  fallback_host = none;
}

abbrev pub nothing_known : Evidence
nothing_known = record {
  mounted = some false;
  unit = none;
  cause = none;
  armed = some true;
  read_only = none;
  occupied_by = none;
  server_answering = none;
}

abbrev pub listed_nas : Listed
listed_nas = record {
  id = "nas";
  host = "NAS.local";
  share = "Media";
  owner = some "ada";
  auto_connect = none;
  disconnected = false;
}

abbrev pub listed_backup : Listed
listed_backup = record {
  id = "backup";
  host = "backup.local";
  share = "Disk";
  owner = some "ada";
  auto_connect = some "always";
  disconnected = false;
}
