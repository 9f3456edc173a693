-- ===== src/Mounts/Paths.antt =====
-- os.path.normpath and what config/operations.py asks of it. Paths are lists of code points.
use mathlib.Core.List.{◌++◌ as ◌⊕◌}
use smbpal_desktop.Prelude.{
  ℕ, Bool, not, ◌&&◌, ◌||◌, List, [], ◌∷◌, if◌then◌else◌, ◌==◌, codes, codes_eq, any, is_prefix,
  ◌≡◌, refl,
}

-- path.split("/"), where `part` is what was read of the first part.
unfoldable pub split_path : List ℕ → List ℕ → List (List ℕ)
split_path part [] = part ∷ []
split_path part (c ∷ path) =
    let next = split_path [] path in
    let longer = split_path (part ⊕ c ∷ []) path in if c == b'/' then part ∷ next else longer

abbrev tail_of : List (List ℕ) → List (List ℕ)
tail_of [] = []
tail_of (part ∷ parts) = parts

-- Whether `..` is kept: nothing is there to go up from.
abbrev keeps_parent : Bool → List (List ℕ) → Bool
keeps_parent absolute [] = not absolute
keeps_parent absolute (part ∷ parts) = codes_eq part (codes "..")

-- The loop over the parts; `stack` is what was kept so far, last first.
unfoldable pub keep_parts : Bool → List (List ℕ) → List (List ℕ) → List (List ℕ)
keep_parts absolute stack [] = stack
keep_parts absolute stack (part ∷ parts) =
    let same = keep_parts absolute stack parts in
    let more = keep_parts absolute (part ∷ stack) parts in
    let up = keep_parts absolute (tail_of stack) parts in
    if codes_eq part [] || codes_eq part (codes ".")
    then same
    else if not (codes_eq part (codes "..")) || keeps_parent absolute stack
    then more
    else up

-- "/".join of the parts, which come last first.
abbrev join_back : List (List ℕ) → List ℕ → List ℕ
join_back [] joined = joined
join_back (part ∷ []) joined = part ⊕ joined
join_back (part ∷ next ∷ stack) joined = join_back (next ∷ stack) (b'/' ∷ part ⊕ joined)

-- The slashes that a path keeps in front: one, or two where there are exactly two.
abbrev leading : List ℕ → List ℕ
leading path =
    if is_prefix (codes "//") path && not (is_prefix (codes "///") path)
    then codes "//"
    else if is_prefix (codes "/") path
    then codes "/"
    else []

abbrev or_dot : List ℕ → List ℕ
or_dot [] = codes "."
or_dot (c ∷ path) = c ∷ path

-- os.path.normpath
unfoldable pub normpath : List ℕ → List ℕ
unfolding split_path keep_parts
normpath path =
    or_dot (
      leading path ⊕ join_back (keep_parts (is_prefix (codes "/") path) [] (split_path [] path)) [])

-- MANAGED_ROOTS
abbrev pub managed_roots : List (List ℕ)
managed_roots = codes "/media" ∷ codes "/run/media" ∷ codes "/Volumes" ∷ []

-- in_managed_root
unfoldable pub in_managed_root : List ℕ → List (List ℕ) → Bool
unfolding normpath
in_managed_root mountpoint roots =
    any (λ root. is_prefix (normpath root ⊕ b'/' ∷ []) (normpath mountpoint)) roots

normpath_dots : normpath (codes "//a/./b//../c/") ≡ codes "//a/c"
unfolding normpath split_path keep_parts
normpath_dots = refl

normpath_up : normpath (codes "../a/../..") ≡ codes "../.."
unfolding normpath split_path keep_parts
normpath_up = refl

normpath_empty : normpath [] ≡ codes "."
unfolding normpath split_path keep_parts
normpath_empty = refl
