-- ===== src/Prelude/Sorting.antt =====
-- `sorted` on texts.
use Prim.Native.Nat.{Ordering}
use Prim.Native.String.{String, compare}
use mathlib.Core.Bool.{Bool, true, false}
use mathlib.Core.List.{List, [], ◌∷◌}
use smbpal_desktop.Prelude.Tests.{if◌then◌else◌}

abbrev pub is_before : String → String → Bool
is_before a b = elim (compare a b) [ Ordering.gt ↦ false | _ ↦ true ]

unfoldable pub sort_in : String → List String → List String
sort_in id [] = id ∷ []
sort_in id (j ∷ ids) = if is_before id j then id ∷ j ∷ ids else j ∷ sort_in id ids
