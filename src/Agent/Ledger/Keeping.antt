-- ===== src/Agent/Ledger/Keeping.antt =====
-- agent/ledger.py: the entries that are kept of some.
use smbpal_desktop.Prelude.{
  ◌≡◌, refl, ap, ◌∙◌, Bool, true, ◌&&◌, ◌==◌, leb, Option, some, List, [], ◌∷◌, any, length,
  Bool-cases, Option-cases, inl, inr, arith,
}
use smbpal_desktop.Config.Json.{ℤ, pos, negsuc, Json}
use smbpal_desktop.Agent.Ledger.{LedgerMount, fsid_eq, fsid_of, is_entry_of, keep}

pub fsid_eq_path : (f g : ℤ × ℤ) → fsid_eq f g ≡ true → f ≡ g
fsid_eq_path (pos a, pos b) (pos c, pos d) h =
    let (x, y) : (a ≡ c) × (b ≡ d) = (ground arith, ground arith) in cc (x, y)
fsid_eq_path (pos a, negsuc b) (pos c, negsuc d) h =
    let (x, y) : (a ≡ c) × (b ≡ d) = (ground arith, ground arith) in cc (x, y)
fsid_eq_path (negsuc a, pos b) (negsuc c, pos d) h =
    let (x, y) : (a ≡ c) × (b ≡ d) = (ground arith, ground arith) in cc (x, y)
fsid_eq_path (negsuc a, negsuc b) (negsuc c, negsuc d) h =
    let (x, y) : (a ≡ c) × (b ≡ d) = (ground arith, ground arith) in cc (x, y)
fsid_eq_path (pos a, b) (negsuc c, d) h = ground arith
fsid_eq_path (negsuc a, b) (pos c, d) h = ground arith
fsid_eq_path (pos a, pos b) (pos c, negsuc d) h = ground arith
fsid_eq_path (pos a, negsuc b) (pos c, pos d) h = ground arith
fsid_eq_path (negsuc a, pos b) (negsuc c, negsuc d) h = ground arith
fsid_eq_path (negsuc a, negsuc b) (negsuc c, pos d) h = ground arith

entry_fsid :
    (mount : LedgerMount) (e : Json) → is_entry_of mount e ≡ true → fsid_of e ≡ some mount.fsid
entry_fsid mount e h = elim (Option-cases (fsid_of e)) [
  | inl n ↦ cc (rw n at h)
  | inr (fsid, s) ↦ s ∙ ap (λ (f : ℤ × ℤ). some f) (fsid_eq_path fsid mount.fsid (rw s at h))
]

-- Of the entries that a test of their fsid keeps, one is of the mount if one was and the test keeps
-- the mount's fsid.
pub owned-keep :
    (mount : LedgerMount) (test : Option (ℤ × ℤ) → Bool) (entries : List Json)
    → any (is_entry_of mount) (keep (λ e. test (fsid_of e)) entries)
      ≡ (any (is_entry_of mount) entries && test (some mount.fsid))
unfolding keep
owned-keep mount test [] = refl
owned-keep mount test (e ∷ entries) =
    let rest = owned-keep mount test entries in
    elim (Bool-cases (is_entry_of mount e)) [
      | inl own ↦
          let same : test (fsid_of e) ≡ test (some mount.fsid) = ap test (entry_fsid mount e own) in
          elim (Bool-cases (test (some mount.fsid))) [
            | inl t ↦ rw (same, t, own) refl
            | inr t ↦ rw (same, t) (ground (arith, rest, t))
          ]
      | inr other ↦ elim (Bool-cases (test (fsid_of e))) [
        | inl k ↦ rw (k, other) rest
        | inr k ↦ rw (k, other) rest
      ]
    ]

length-keep :
    (test : Json → Bool) (entries : List Json)
    → leb (length (keep test entries)) (length entries) ≡ true
unfolding keep
length-keep test [] = refl
length-keep test (e ∷ entries) = ground (arith, length-keep test entries)

pub keep_all :
    (test : Json → Bool) (entries : List Json)
    → (length (keep test entries) == length entries) ≡ true
    → keep test entries ≡ entries
unfolding keep
keep_all test [] h = refl
keep_all test (e ∷ entries) h = elim (Bool-cases (test e)) [
  | inl t ↦ rw t (ap (λ (l : List Json). e ∷ l) (keep_all test entries (ground (arith, rw t at h))))
  | inr f ↦
      let short = length-keep test entries in
      let long : (length (keep test entries) == length (e ∷ entries)) ≡ true = rw f at h in
      ground (arith, short, long)
]
