-- ===== src/Mounts/Mounter/Stale/Untouched.antt =====
-- A file that is not ours, or that this change may not touch, stays as it is.
use smbpal_desktop.Prelude.{
  ℕ, ◌≡◌, refl, ◌∙◌, String, Bool, false, not, ◌&&◌, Option, none, some, List, [], ◌∷◌, str_eq,
  eq_iff, codes, contains, lookup, lookup-remove, Bool-cases, inl, inr,
}
use smbpal_desktop.Mounts.UnitText.{marker}
use smbpal_desktop.Mounts.Paths.{in_managed_root, managed_roots}
use smbpal_desktop.Mounts.Mounter.{Machine, Mounter, disable, stop, ran}
use smbpal_desktop.Mounts.Mounter.Stale.{
  where_of, may_touch, is_unit_name, is_text_in, is_automount_name, is_still_mounted, tidy, unlink,
  retire, retire_file, retire_named, retire_all,
}

-- A file that may be removed: it has our marker, and its mountpoint is one that the change may touch.
abbrev pub is_ours : Option (List (List ℕ)) → Option (Option (List ℕ)) → Bool
is_ours keep none = false
is_ours keep (some none) = false
is_ours keep (some (some text)) = contains (codes marker) text && may_touch keep (where_of text)

tidy-files : (where_ : Option (List ℕ)) (m : Mounter) → (tidy where_ m).files ≡ m.files
tidy-files none m = refl
tidy-files (some []) m = refl
tidy-files (some (c ∷ path)) m = elim (Bool-cases (in_managed_root (c ∷ path) managed_roots)) [
  | inl e ↦ rw e refl
  | inr e ↦ rw e refl
]

-- Nothing changes for a name.
unfoldable pub Same : String → Mounter → Mounter → Type 0
Same kept m after = lookup kept after.files ≡ lookup kept m.files

module _ (w : Machine) (kept : String) where
  unlink-Same :
      (name : String) (where_ : Option (List ℕ)) (m : Mounter)
      → str_eq name kept ≡ false
      → Same kept m (unlink w name where_ m).0
  unfolding Same unlink
  unlink-Same name where_ m other = elim (Bool-cases (w.can_unlink name)) [
    | inl e ↦ rw (e, tidy-files, lookup-remove, other) refl
    | inr e ↦ rw e refl
  ]

  retire-Same :
      (name : String) (where_ : Option (List ℕ)) (m : Mounter)
      → str_eq name kept ≡ false
      → Same kept m (retire w name where_ m).0
  unfolding Same retire
  retire-Same name where_ m other = elim (Bool-cases (is_automount_name name)) [
    | inl e ↦ rw e (unlink-Same name where_ (ran (disable name) m) other)
    | inr e ↦ elim (Bool-cases (is_still_mounted w name where_)) [
      | inl f ↦ rw (e, f) refl
      | inr f ↦ rw (e, f) (unlink-Same name where_ (ran (stop name) m) other)
    ]
  ]

  retire_file-Same :
      (keep : Option (List (List ℕ))) (name : String) (file : Option (Option (List ℕ)))
      (m : Mounter)
      → str_eq name kept ≡ false
      → Same kept m (retire_file w keep name file m).0
  unfolding Same retire_file
  retire_file-Same keep name none m other = refl
  retire_file-Same keep name (some none) m other = refl
  retire_file-Same keep name (some (some text)) m other =
      elim (Bool-cases (contains (codes marker) text && may_touch keep (where_of text))) [
        | inl e ↦ rw e (retire-Same name (where_of text) m other)
        | inr e ↦ rw e refl
      ]

  retire_file-foreign :
      (keep : Option (List (List ℕ))) (name : String) (file : Option (Option (List ℕ)))
      (m : Mounter)
      → is_ours keep file ≡ false
      → (retire_file w keep name file m).0 ≡ m
  unfolding retire_file
  retire_file-foreign keep name none m f = refl
  retire_file-foreign keep name (some none) m f = refl
  retire_file-foreign keep name (some (some text)) m f = rw f refl

  retire_named-Same :
      (wanted : List String) (keep : Option (List (List ℕ))) (name : String) (m : Mounter)
      → is_ours keep (lookup kept m.files) ≡ false
      → Same kept m (retire_named w wanted keep name m).0
  unfolding Same retire_named
  retire_named-Same wanted keep name m f =
      elim (Bool-cases (is_unit_name name && not (is_text_in name wanted))) [
        | inr e ↦ rw e refl
        | inl e ↦ elim (Bool-cases (str_eq name kept)) [
          | inr other ↦ rw e (retire_file-Same keep name (lookup name m.files) m other)
          | inl same ↦
              let is : name ≡ kept = (eq_iff name kept).0 same in
              let still = retire_file-foreign keep name (lookup name m.files) m (rw is f) in
              rw (e, still) refl
        ]
      ]

  pub retire_all-Same :
      (wanted : List String) (keep : Option (List (List ℕ))) (names : List String) (m : Mounter)
      → is_ours keep (lookup kept m.files) ≡ false
      → Same kept m (retire_all w wanted keep names m).0
  unfolding Same retire_all
  retire_all-Same wanted keep [] m f = refl
  retire_all-Same wanted keep (name ∷ names) m f =
      let here = (retire_named w wanted keep name m).0 in
      let same : lookup kept here.files ≡ lookup kept m.files =
        retire_named-Same wanted keep name m f in
      retire_all-Same wanted keep names here (rw same f) ∙ same
