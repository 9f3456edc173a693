-- ===== src/Config/Mountpoint.antt =====
-- config/operations.py, default_mountpoint: where a connection goes when nobody says. Texts are lists
-- of code points here.
pub mod Numerals
pub mod Search
use mathlib.Core.List.{◌++◌ as ◌⊕◌}
use smbpal_desktop.Prelude.{
  ℕ, zero, suc, ◌+◌, String, Bool, true, false, not, ◌||◌, ◌&&◌, Option, none, some, List, [], ◌∷◌,
  if◌then◌else◌, ◌==◌, str_eq, codes, codes_eq, any, length,
}
use smbpal_desktop.Config.Naming.{numeral}

-- MountpointStyle
pub record MountpointStyle : Type 0 where
  pub root : List ℕ
  pub per_user : Bool

-- STYLES
abbrev pub linux : MountpointStyle
linux = record { root = codes "/media"; per_user = true }

abbrev pub darwin : MountpointStyle
darwin = record { root = codes "/Volumes"; per_user = false }

-- platform_style
unfoldable pub platform_style : Option String → MountpointStyle
platform_style none = linux
platform_style (some platform) = if str_eq platform "darwin" then darwin else linux

-- `text.strip(…)` for a set of characters.
unfoldable pub lstrip : (ℕ → Bool) → List ℕ → List ℕ
lstrip p [] = []
lstrip p (c ∷ text) = let rest = lstrip p text in if p c then rest else c ∷ text

abbrev pub cons_unless : (ℕ → Bool) → ℕ → List ℕ → List ℕ
cons_unless p c [] = if p c then [] else c ∷ []
cons_unless p c (d ∷ text) = c ∷ d ∷ text

unfoldable pub rstrip : (ℕ → Bool) → List ℕ → List ℕ
rstrip p [] = []
rstrip p (c ∷ text) = cons_unless p c (rstrip p text)

abbrev pub strip : (ℕ → Bool) → List ℕ → List ℕ
strip p text = rstrip p (lstrip p text)

abbrev pub or_share : List ℕ → List ℕ
or_share [] = codes "share"
or_share (c ∷ text) = c ∷ text

-- _volume_name
unfoldable pub volume_name : (ℕ → Bool) → List ℕ → List ℕ
unfolding lstrip rstrip
volume_name is_space share =
    or_share (strip is_space (strip (λ c. c == b'.') (strip is_space share)))

-- `base`, and none for InvalidParams.
unfoldable pub base_of : MountpointStyle → Option (List ℕ) → Option (List ℕ)
base_of style none = if style.per_user then none else some style.root
base_of style (some []) = if style.per_user then none else some style.root
base_of style (some (c ∷ owner)) =
    some (if style.per_user then style.root ⊕ b'/' ∷ c ∷ owner else style.root)

-- `candidates`, behind the name.
unfoldable pub on_host : List ℕ → Option (List ℕ) → List (List ℕ)
on_host name none = []
on_host name (some []) = []
on_host name (some (c ∷ host)) = (name ⊕ codes " on " ⊕ c ∷ host) ∷ []

abbrev pub is_in : List ℕ → List (List ℕ) → Bool
is_in path taken = any (λ t. codes_eq t path) taken

abbrev pub below : List ℕ → List ℕ → List ℕ
below base name = base ⊕ b'/' ∷ name

-- The first candidate that is not taken, or the last one, which the numbers are put behind.
unfoldable pub first_candidate : List ℕ → List (List ℕ) → List ℕ → List (List ℕ) → Option (List ℕ)
first_candidate base taken name [] =
    if is_in (below base name) taken then none else some (below base name)
first_candidate base taken name (next ∷ candidates) =
    let rest = first_candidate base taken next candidates in
    if is_in (below base name) taken then rest else some (below base name)

unfoldable pub last_candidate : List ℕ → List (List ℕ) → List ℕ
last_candidate name [] = name
last_candidate name (next ∷ candidates) = last_candidate next candidates

abbrev pub numbered : List ℕ → ℕ → List ℕ
numbered stem suffix = stem ⊕ b' ' ∷ numeral suffix

-- The loop over the suffixes, on fuel.
unfoldable pub search : ℕ → (ℕ → List ℕ) → List (List ℕ) → ℕ → Option (List ℕ)
search zero path taken suffix = none
search (suc f) path taken suffix =
    let later = search f path taken (suffix + 1) in
    if is_in (path suffix) taken then later else some (path suffix)

abbrev pub or_else : Option (List ℕ) → Option (List ℕ) → Option (List ℕ)
or_else none o = o
or_else (some path) o = some path

-- default_mountpoint, over `str.isspace`; the loop is given one round more than there are taken paths.
unfoldable pub default_mountpoint :
    (ℕ → Bool)
    → MountpointStyle
    → List ℕ
    → Option (List ℕ)
    → Option (List ℕ)
    → List (List ℕ)
    → Option (List ℕ)
unfolding on_host
default_mountpoint is_space style share owner host taken = elim (base_of style owner) [
  | none ↦ none
  | some base ↦
      let name = volume_name is_space share in
      let candidates = on_host name host in
      or_else (first_candidate base taken name candidates) (
        search (suc (length taken)) (λ k. below base (numbered (last_candidate name candidates) k))
          taken 2)
]
