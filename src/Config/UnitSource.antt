-- ===== src/Config/UnitSource.antt =====
-- What a mount unit is given as its source, for a connection of a valid document.
use Prim.Native.String.{◌++◌}
use smbpal_desktop.Prelude.{
  codes-append, elem-append, ℕ, ◌≡◌, refl, ap, ◌∙◌, String, false, ◌||◌, some, List, [], ◌∷◌, arith,
  codes, elem, ◌==◌, Dict, All,
}
use smbpal_desktop.Config.Json.{Json, object, string, null, to_dict, get}
use smbpal_desktop.Config.Schema.{Texts, host_forbidden}
use smbpal_desktop.Config.Schema.Document.{validate_object}
use smbpal_desktop.Config.Schema.Fields.{forbidden_in}
use smbpal_desktop.Config.Schema.SafeText.{Lacks, IsName, IsSafeConnection, valid_texts}
use smbpal_desktop.Config.Ids.{items_of}
use smbpal_desktop.Mounts.Units.{mount_source}

elem-codes :
    (c : ℕ) (s t : String) → elem c (codes (s ++ t)) ≡ (elem c (codes s) || elem c (codes t))
elem-codes c s t = ap (elem c) (codes-append s t) ∙ elem-append c (codes s) (codes t)

-- The characters that a unit file gives a meaning of their own: the two line ends, and the percent
-- sign of a specifier.
abbrev pub unit_forbidden : List ℕ
unit_forbidden = 10 ∷ 13 ∷ 37 ∷ []

codes_slashes : (codes "//" ≡ 47 ∷ 47 ∷ []) × (codes "/" ≡ 47 ∷ [])
codes_slashes = (refl, refl)

elem-mount_source :
    (c : ℕ) (host share : String)
    → (c == 47) ≡ false
    → elem c (codes host) ≡ false
    → elem c (codes share) ≡ false
    → elem c (codes (mount_source host share)) ≡ false
unfolding mount_source
elem-mount_source c host share n h s = ground (
  arith,
  elem-codes c "//" (host ++ "/" ++ share),
  elem-codes c host ("/" ++ share),
  elem-codes c "/" share,
)

mount_source-Lacks :
    (texts : Texts) (host share : String)
    → Lacks host_forbidden host
    → Lacks (forbidden_in texts false) share
    → Lacks unit_forbidden (mount_source host share)
mount_source-Lacks texts host share h s = ground (
  arith,
  elem-mount_source 10 host share refl (ground arith) (ground arith),
  elem-mount_source 13 host share refl (ground arith) (ground arith),
  elem-mount_source 37 host share refl (ground arith) (ground arith),
)

-- Where a connection's host and share are texts, its source is safe.
abbrev pub IsSafePair : Json → Json → Type 0
IsSafePair (string host) (string share) = Lacks unit_forbidden (mount_source host share)
IsSafePair _ _ = Unit

abbrev pub IsSafeSource : Json → Type 0
IsSafeSource (object o) = IsSafePair (get "host" (to_dict o)) (get "share" (to_dict o))
IsSafeSource _ = ⊥

pair_safe :
    (texts : Texts) (host share : Json)
    → IsName host_forbidden 253 host
    → IsName (forbidden_in texts false) 80 share
    → IsSafePair host share
pair_safe texts (string host) (string share) h s = mount_source-Lacks texts host share h.2 s.2
pair_safe texts (string host) null h s = tt
pair_safe texts null share h s = tt
pair_safe texts host share h s = ground arith

sources_safe :
    (texts : Texts) (items : List Json)
    → All (IsSafeConnection texts) items
    → All IsSafeSource items
sources_safe texts [] a = tt
sources_safe texts (object o ∷ items) a = (
  pair_safe texts (get "host" (to_dict o)) (get "share" (to_dict o)) a.0.0 a.0.1,
  sources_safe texts items a.1,
)
sources_safe texts (x ∷ items) a = ground arith

-- For each connection of a document that `validate` finds no problem with, if its host and share are
-- not null, the source that its mount unit is given holds no line end and no percent sign, so it is
-- one value of one line in which systemd expands nothing.
pub valid_sources :
    (texts : Texts) (doc : Dict Json)
    → validate_object texts doc ≡ some []
    → All IsSafeSource (items_of "connections" doc)
valid_sources texts doc h =
    sources_safe texts (items_of "connections" doc) (valid_texts texts doc h).1
