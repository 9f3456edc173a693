-- ===== src/Mounts/Mounter/Stale.antt =====
-- mounts/apply.py, _remove_stale_units: the units that SMBPal wrote and that are no longer configured.
pub mod Untouched
use mathlib.Core.List.{◌++◌ as ◌⊕◌}
use smbpal_desktop.Prelude.{
  split_lines, ℕ, String, Bool, true, false, not, ◌&&◌, ◌||◌, Option, none, some, List, [], ◌∷◌,
  if◌then◌else◌, str_eq, codes, codes_eq, any, is_prefix, ends_with, contains, Dict, lookup, remove,
  map,
}
use smbpal_desktop.Prelude.Sorting.{sort_in}
use smbpal_desktop.Config.Mountpoint.{strip}
use smbpal_desktop.Samba.Include.{is_space}
use smbpal_desktop.Mounts.UnitText.{marker}
use smbpal_desktop.Mounts.Paths.{normpath, managed_roots, in_managed_root}
use smbpal_desktop.Mounts.Mounter.{Machine, Mounter, Command, disable, stop, rmdir, ran, is_mounted}

abbrev pub where_prefix : List ℕ
where_prefix = codes "Where="

-- What follows a prefix that a line has.
abbrev pub after_prefix : List ℕ → List ℕ → List ℕ
after_prefix [] line = line
after_prefix (c ∷ part) [] = []
after_prefix (c ∷ part) (d ∷ line) = after_prefix part line

unfoldable pub where_line : List (List ℕ) → Option (List ℕ)
where_line [] = none
where_line (line ∷ lines) =
    let later = where_line lines in
    if is_prefix where_prefix line
    then some (strip is_space (after_prefix where_prefix line))
    else later

-- _where, of a text that could be read: `^Where=(.*)$` on one of its lines
unfoldable pub where_of : List ℕ → Option (List ℕ)
unfolding where_line split_lines
where_of text = where_line (split_lines [] text)

-- path.suffix: a name has it when something stands in front.
unfoldable pub has_suffix : List ℕ → List ℕ → Bool
has_suffix suffix [] = false
has_suffix suffix (c ∷ name) = ends_with suffix name

abbrev pub is_automount_name : String → Bool
is_automount_name name = has_suffix (codes ".automount") (codes name)

abbrev pub is_unit_name : String → Bool
is_unit_name name = has_suffix (codes ".mount") (codes name) || is_automount_name name

abbrev pub is_text_in : String → List String → Bool
is_text_in name names = any (λ other. str_eq name other) names

abbrev pub is_path_in : List ℕ → List (List ℕ) → Bool
is_path_in path paths = any (λ other. codes_eq path other) paths

abbrev pub or_empty : Option (List ℕ) → List ℕ
or_empty none = []
or_empty (some path) = path

-- Whether this change may touch the mountpoint: without a `keep` it may touch all.
abbrev pub may_touch : Option (List (List ℕ)) → Option (List ℕ) → Bool
may_touch none where_ = true
may_touch (some keep) where_ = is_path_in (normpath (or_empty where_)) keep

-- `where and self.probe.is_mounted(where)`, after the unit was stopped
abbrev pub is_still_mounted : Machine → String → Option (List ℕ) → Bool
is_still_mounted w name none = false
is_still_mounted w name (some []) = false
is_still_mounted w name (some (c ∷ path)) = is_mounted (w.entries_after name) (c ∷ path)

-- `_remove_empty_mountpoint`, where the mountpoint is one that SMBPal chose
abbrev pub tidy : Option (List ℕ) → Mounter → Mounter
tidy none m = m
tidy (some []) m = m
tidy (some (c ∷ path)) m =
    if in_managed_root (c ∷ path) managed_roots then ran (rmdir (c ∷ path)) m else m

-- path.unlink, and what follows it.
unfoldable pub unlink : Machine → String → Option (List ℕ) → Mounter → Mounter × List String
unlink w name where_ m =
    if w.can_unlink name
    then (tidy where_ (record m { files = remove name m.files }), name ∷ [])
    else (m, [])

-- A unit of ours that this change may touch.
unfoldable pub retire : Machine → String → Option (List ℕ) → Mounter → Mounter × List String
unfolding unlink
retire w name where_ m =
    if is_automount_name name
    then unlink w name where_ (ran (disable name) m)
    else if is_still_mounted w name where_
    then (ran (stop name) m, [])
    else unlink w name where_ (ran (stop name) m)

-- What is found in a file: only one with our marker is looked at.
unfoldable pub retire_file :
    Machine
    → Option (List (List ℕ))
    → String
    → Option (Option (List ℕ))
    → Mounter
    → Mounter × List String
unfolding retire where_of contains
retire_file w keep name none m = (m, [])
retire_file w keep name (some none) m = (m, [])
retire_file w keep name (some (some text)) m =
    if contains (codes marker) text && may_touch keep (where_of text)
    then retire w name (where_of text) m
    else (m, [])

-- What is done with one name: only that of a unit which is not wanted is looked at.
unfoldable pub retire_named :
    Machine → List String → Option (List (List ℕ)) → String → Mounter → Mounter × List String
unfolding retire_file
retire_named w wanted keep name m =
    if is_unit_name name && not (is_text_in name wanted)
    then retire_file w keep name (lookup name m.files) m
    else (m, [])

-- The loop, over names: what was removed is returned.
unfoldable pub retire_all :
    Machine → List String → Option (List (List ℕ)) → List String → Mounter → Mounter × List String
unfolding retire_named
retire_all w wanted keep [] m = (m, [])
retire_all w wanted keep (name ∷ names) m =
    let (here, gone) = retire_named w wanted keep name m in
    let (last, more) = retire_all w wanted keep names here in (last, gone ⊕ more)

unfoldable pub sorted_names : Dict (Option (List ℕ)) → List String
sorted_names [] = []
sorted_names ((name, text) ∷ files) = sort_in name (sorted_names files)

-- _remove_stale_units
unfoldable pub remove_stale_units :
    Machine → List String → Option (List (List ℕ)) → Mounter → Mounter × List String
unfolding retire_all sorted_names
remove_stale_units w wanted keep m = retire_all w wanted keep (sorted_names m.files) m
