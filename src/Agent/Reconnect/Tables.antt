-- ===== src/Agent/Reconnect/Tables.antt =====
-- The tables of the loop: tracks by connection id, looked up after each change, and attempts counted.
use mathlib.Core.List.{◌++◌ as ◌⊕◌}
use smbpal_desktop.Prelude.{
  ℕ, suc, ◌≡◌, refl, String, true, Option, none, some, List, [], ◌∷◌, arith, if◌then◌else◌, str_eq,
  str_eq_refl, eq_iff, Dict, lookup, inl, inr, Bool-cases,
}
use smbpal_desktop.Agent.Tracks.{Track, Listed, Key, key_eq}
use smbpal_desktop.Agent.LoopState.{map_tracks}
use smbpal_desktop.Agent.Reporting.{prune, has_id}

abbrev pub mapped : (Track → Track) → Option Track → Option Track
mapped f none = none
mapped f (some track) = some (f track)

pub lookup-map_tracks :
    (id : String) (f : Track → Track) (tracks : Dict Track)
    → lookup id (map_tracks f tracks) ≡ mapped f (lookup id tracks)
unfolding lookup map_tracks
lookup-map_tracks id f [] = refl
lookup-map_tracks id f ((j, track) ∷ tracks) = ground (arith, lookup-map_tracks id f tracks)

pub lookup-prune :
    (id : String) (seen : List Listed) (tracks : Dict Track)
    → lookup id (prune seen tracks) ≡ (if has_id id seen then lookup id tracks else none)
unfolding lookup prune
lookup-prune id seen [] = ground arith
lookup-prune id seen ((j, track) ∷ tracks) = elim (Bool-cases (str_eq j id)) [
  | inl e ↦
      let same : j ≡ id = (eq_iff j id).0 e in
      rw same (ground (arith, lookup-prune id seen tracks, str_eq_refl id))
  | inr e ↦ ground (arith, lookup-prune id seen tracks)
]

-- How often a mount was attempted for a connection.
abbrev pub attempts_of : String → List String → ℕ
attempts_of id [] = 0
attempts_of id (i ∷ attempts) =
    let rest = attempts_of id attempts in if str_eq i id then suc rest else rest

pub attempts_of-append :
    (id i : String) (attempts : List String)
    → attempts_of id (attempts ⊕ i ∷ [])
      ≡ (if str_eq i id then suc (attempts_of id attempts) else attempts_of id attempts)
attempts_of-append id i [] = refl
attempts_of-append id i (j ∷ attempts) = ground (arith, attempts_of-append id i attempts)

pub key_eq_refl : (key : Key) → key_eq key key ≡ true
key_eq_refl key = rw (str_eq_refl key.0, str_eq_refl key.1)
