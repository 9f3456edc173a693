-- ===== src/Prelude/Dicts.antt =====
-- Python dictionaries with text keys, as association lists.
use Prim.Native.String.{String}
use mathlib.Core.Path.{◌≡◌, refl}
use mathlib.Core.Option.{Option, none, some}
use mathlib.Core.List.{List, [], ◌∷◌}
use native.Mathlib.Omega.{arith}
use text.Mathlib.TextEquality.{eq_iff}
use smbpal_desktop.Prelude.Tests.{if◌then◌else◌, str_eq}

abbrev pub Dict {ℓ} : Type ℓ → Type ℓ
Dict V = List (String × V)

-- The key `changed` is written or taken out, `asked` is read.
module _ {ℓ} {V : Type ℓ} where
  -- d.get(k)
  unfoldable pub lookup : String → Dict V → Option V
  lookup asked [] = none
  lookup asked ((key, value) ∷ dict) = if str_eq key asked then some value else lookup asked dict

  -- d.get(k, default)
  unfoldable pub lookup_or : String → V → Dict V → V
  lookup_or asked default [] = default
  lookup_or asked default ((key, value) ∷ dict) =
      if str_eq key asked then value else lookup_or asked default dict

  -- d.pop(k, None)
  unfoldable pub remove : String → Dict V → Dict V
  remove changed [] = []
  remove changed ((key, value) ∷ dict) =
      let rest = remove changed dict in if str_eq key changed then rest else (key, value) ∷ rest

  pub lookup-remove :
      (changed asked : String) (dict : Dict V)
      → lookup asked (remove changed dict)
        ≡ (if str_eq changed asked then none else lookup asked dict)
  unfolding lookup remove
  lookup-remove changed asked [] = ground arith
  lookup-remove changed asked ((key, value) ∷ dict) = ground (
    arith,
    lookup-remove changed asked dict,
    eq_iff key changed,
    eq_iff changed asked,
    eq_iff key asked,
  )

  -- d[k] = v: an entry keeps its place, a new one goes last.
  unfoldable pub insert : String → V → Dict V → Dict V
  insert changed new [] = (changed, new) ∷ []
  insert changed new ((key, value) ∷ dict) =
      if str_eq key changed then (key, new) ∷ dict else (key, value) ∷ insert changed new dict

  pub lookup-insert :
      (changed asked : String) (new : V) (dict : Dict V)
      → lookup asked (insert changed new dict)
        ≡ (if str_eq changed asked then some new else lookup asked dict)
  unfolding lookup insert
  lookup-insert changed asked new [] = refl
  lookup-insert changed asked new ((key, value) ∷ dict) = ground (
    arith,
    lookup-insert changed asked new dict,
    eq_iff key changed,
    eq_iff changed asked,
    eq_iff key asked,
  )

pub ruleset dict_laws = (lookup-insert, lookup-remove)
