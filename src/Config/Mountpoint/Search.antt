-- ===== src/Config/Mountpoint/Search.antt =====
-- The search for a free mountpoint ends, and with one that is free.
use mathlib.Core.List.{◌++◌ as ◌⊕◌}
use smbpal_desktop.Prelude.{
  codes_eq_path, ℕ, zero, suc, ◌+◌, ◌≤◌, ◌<◌, ◌≡◌, refl, sym, subst, ap, Bool, true, false, Option,
  none, some, List, [], ◌∷◌, arith, if◌then◌else◌, codes_eq, length, Bool-cases, inl, inr,
}
use smbpal_desktop.Config.Naming.{numeral}
use smbpal_desktop.Config.Mountpoint.Numerals.{numeral_injective}
use smbpal_desktop.Config.Mountpoint.{
  MountpointStyle, volume_name, base_of, on_host, is_in, below, first_candidate, last_candidate,
  numbered, search, or_else, default_mountpoint,
}

drop_path : List ℕ → List (List ℕ) → List (List ℕ)
drop_path path [] = []
drop_path path (t ∷ left) =
    let rest = drop_path path left in if codes_eq t path then rest else t ∷ rest

length-drop_path_le :
    (path : List ℕ) (left : List (List ℕ)) → length (drop_path path left) ≤ length left
unfolding drop_path
length-drop_path_le path [] = omega arith
length-drop_path_le path (t ∷ left) = ground (arith, length-drop_path_le path left)

length-drop_path :
    (path : List ℕ) (left : List (List ℕ))
    → is_in path left ≡ true
    → length (drop_path path left) < length left
unfolding drop_path
length-drop_path path [] h = ground arith
length-drop_path path (t ∷ left) h =
    ground (arith, length-drop_path_le path left, length-drop_path path left)

is_in-drop_path :
    (path other : List ℕ) (left : List (List ℕ))
    → codes_eq path other ≡ false
    → is_in other left ≡ true
    → is_in other (drop_path path left) ≡ true
unfolding drop_path
is_in-drop_path path other [] n h = h
is_in-drop_path path other (t ∷ left) n h = elim (Bool-cases (codes_eq t path)) [
  | inr kept ↦ rw kept (ground (arith, is_in-drop_path path other left n))
  | inl gone ↦
      let apart : codes_eq t other ≡ false =
        subst (λ (u : List ℕ). codes_eq u other ≡ false) (sym (codes_eq_path t path gone)) n in
      rw gone (is_in-drop_path path other left n (ground arith))
]

module _ (path : ℕ → List ℕ) (injective : (i j : ℕ) → path i ≡ path j → i ≡ j)
    (taken : List (List ℕ)) where
  apart_later : (k j : ℕ) → k < j → codes_eq (path k) (path j) ≡ false
  apart_later k j h = elim (Bool-cases (codes_eq (path k) (path j))) [
    | inr n ↦ n
    | inl e ↦ absurd (omega (arith, injective k j (codes_eq_path (path k) (path j) e)))
  ]

  -- The taken paths that are still to come are in `left`, of which there are fewer than rounds.
  search_finds :
      (f k : ℕ) (left : List (List ℕ))
      → length left < f
      → ((j : ℕ) → k ≤ j → is_in (path j) taken ≡ true → is_in (path j) left ≡ true)
      → (found : List ℕ) × (search f path taken k ≡ some found) × (is_in found taken ≡ false)
  unfolding search
  search_finds zero k left h c = absurd (omega arith)
  search_finds (suc f) k left h c = elim (Bool-cases (is_in (path k) taken)) [
    | inr free ↦ (path k, rw free refl, free)
    | inl used ↦
        let shorter = length-drop_path (path k) left (c k (omega arith) used) in
        let (found, e, free) =
          search_finds f (k + 1) (drop_path (path k) left) (omega arith) (λ j l t.
            is_in-drop_path (path k) (path j) left (apart_later k j (omega arith))
              (c j (omega arith) t)) in
        (found, rw used e, free)
  ]

append_cancel : (xs ys zs : List ℕ) → xs ⊕ ys ≡ xs ⊕ zs → ys ≡ zs
append_cancel [] ys zs h = h
append_cancel (x ∷ xs) ys zs h = append_cancel xs ys zs (ground arith)

some_path : (p found : List ℕ) → ◌≡◌ {A = Option (List ℕ)} (some p) (some found) → p ≡ found
some_path p found h = ap (λ (o : Option (List ℕ)). elim o [ none ↦ p | some q ↦ q ]) h

pick_free :
    (taken : List (List ℕ)) (p found : List ℕ) (rest : Option (List ℕ))
    → (if is_in p taken then rest else some p) ≡ some found
    → (rest ≡ some found → is_in found taken ≡ false)
    → is_in found taken ≡ false
pick_free taken p found rest h later = run (is_in p taken) refl h
  where
    run :
        (b : Bool)
        → is_in p taken ≡ b
        → (if b then rest else some p) ≡ some found
        → is_in found taken ≡ false
    run true used h' = later h'
    run false free h' = subst (λ (q : List ℕ). is_in q taken ≡ false) (some_path p found h') free

first_candidate_free :
    (base : List ℕ) (taken : List (List ℕ)) (name : List ℕ) (candidates : List (List ℕ))
    (found : List ℕ)
    → first_candidate base taken name candidates ≡ some found
    → is_in found taken ≡ false
unfolding first_candidate
first_candidate_free base taken name [] found h =
    pick_free taken (below base name) found none h (λ e. ground arith)
first_candidate_free base taken name (next ∷ candidates) found h =
    pick_free taken (below base name) found (first_candidate base taken next candidates) h
      (first_candidate_free base taken next candidates found)

numbered_injective :
    (base stem : List ℕ) (i j : ℕ)
    → below base (numbered stem i) ≡ below base (numbered stem j)
    → i ≡ j
numbered_injective base stem i j h = numeral_injective i j (
    append_cancel (b' ' ∷ []) (numeral i) (numeral j) (
      append_cancel stem (b' ' ∷ numeral i) (b' ' ∷ numeral j) (
        append_cancel (b'/' ∷ []) (numbered stem i) (numbered stem j)
          (append_cancel base (b'/' ∷ numbered stem i) (b'/' ∷ numbered stem j) h))))

-- Whatever is taken, a connection that has a place to go below is given a path that is not taken:
-- the search for a number ends. It is supposed that the owner is known where the platform has a
-- directory for each.
pub default_mountpoint_free :
    (is_space : ℕ → Bool) (style : MountpointStyle) (share : List ℕ) (owner host : Option (List ℕ))
    (taken : List (List ℕ)) (base : List ℕ)
    → base_of style owner ≡ some base
    → (found : List ℕ) × (default_mountpoint is_space style share owner host taken ≡ some found)
      × (is_in found taken ≡ false)
unfolding default_mountpoint
default_mountpoint_free is_space style share owner host taken base h =
    rw (h, default_mountpoint) (chosen (first_candidate base taken name candidates) refl)
  where
    name : List ℕ
    name = volume_name is_space share

    candidates : List (List ℕ)
    candidates = on_host name host

    path : ℕ → List ℕ
    path k = below base (numbered (last_candidate name candidates) k)

    chosen :
        (o : Option (List ℕ))
        → first_candidate base taken name candidates ≡ o
        → (found : List ℕ) × (or_else o (search (suc (length taken)) path taken 2) ≡ some found)
          × (is_in found taken ≡ false)
    chosen (some found) e = (found, refl, first_candidate_free base taken name candidates found e)
    chosen none e =
        search_finds path (numbered_injective base (last_candidate name candidates)) taken
          (suc (length taken)) 2 taken (omega arith) (λ j l t. t)
