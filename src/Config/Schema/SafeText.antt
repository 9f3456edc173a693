-- ===== src/Config/Schema/SafeText.antt =====
-- The texts of a valid document that are written to other files.
use Prim.Native.String.{◌++◌}
use smbpal_desktop.Prelude.{
  ℕ, ◌≤◌, ◌≡◌, refl, String, Bool, true, false, ◌&&◌, some, List, [], ◌∷◌, arith, str_eq, Dict, All,
  codes, elem, any, length, Bool-cases, inl, inr,
}
use smbpal_desktop.Config.Json.{Json, object, string, null, bool, int, float, list, to_dict, get}
use smbpal_desktop.Config.Schema.{Texts, is_one_of, bad_chars, reserved_share_names, host_forbidden}
use smbpal_desktop.Config.Schema.Fields.{
  is_empty, forbidden_in, check_share_name, check_name, check_host, check_host_text,
  check_absolute_path, is_absolute,
}
use smbpal_desktop.Config.Schema.Records.{validate_share, validate_connection}
use smbpal_desktop.Config.Schema.Document.{validate_object}
use smbpal_desktop.Config.Schema.Accepted.{Accepted}
use smbpal_desktop.Config.Schema.Valid.{validate_object-Valid}
use smbpal_desktop.Config.Schema.Checks.{
  validate_share-ShareChecks, validate_connection-ConnectionChecks,
}
use smbpal_desktop.Config.Ids.{items_of}

-- A text has none of some characters.
abbrev pub Lacks : List ℕ → String → Type 0
Lacks forbidden s = any (λ c. elem c (codes s)) forbidden ≡ false

bad_chars-Lacks :
    (forbidden text : List ℕ)
    → is_empty (bad_chars forbidden text) ≡ true
    → any (λ c. elem c text) forbidden ≡ false
unfolding bad_chars is_empty
bad_chars-Lacks [] text h = refl
bad_chars-Lacks (d ∷ forbidden) text h = elim (Bool-cases (elem d text)) [
  | inl bad ↦ ground arith
  | inr good ↦ ground (arith, bad_chars-Lacks forbidden text (ground arith))
]

-- A name or a host that is not null is a text that is not empty, not too long and has no forbidden
-- character.
abbrev pub IsName : List ℕ → ℕ → Json → Type 0
IsName forbidden size null = Unit
IsName forbidden size (string s) =
    (str_eq s "" ≡ false) × (length (codes s) ≤ size) × Lacks forbidden s
IsName forbidden size _ = ⊥

check_name_clean :
    (texts : Texts) (served : Bool) (w s : String)
    → check_name texts served w s ≡ []
    → (length (codes s) ≤ 80)
      × (is_empty (bad_chars (forbidden_in texts served) (codes s)) ≡ true)
      × ((served && is_one_of (texts.lower s) reserved_share_names) ≡ false)
unfolding check_name
check_name_clean texts served w s h = (ground arith, ground arith, ground arith)

pub check_share_name-IsName :
    (texts : Texts) (served : Bool) (w : String) (value : Json)
    → check_share_name texts served w value ≡ []
    → IsName (forbidden_in texts served) 80 value
unfolding check_share_name check_name
check_share_name-IsName texts served w null h = tt
check_share_name-IsName texts served w (bool b) h = ground arith
check_share_name-IsName texts served w (int i) h = ground arith
check_share_name-IsName texts served w (float f) h = ground arith
check_share_name-IsName texts served w (list xs) h = ground arith
check_share_name-IsName texts served w (object o) h = ground arith
check_share_name-IsName texts served w (string s) h = elim (Bool-cases (str_eq s "")) [
  | inl e ↦ ground arith
  | inr e ↦
      let named : check_name texts served w s ≡ [] = ground arith in
      let (short, clean, _) = check_name_clean texts served w s named in
      (e, short, bad_chars-Lacks (forbidden_in texts served) (codes s) clean)
]

check_host_text_clean :
    (texts : Texts) (w s : String)
    → check_host_text texts w s ≡ []
    → (length (codes s) ≤ 253) × (is_empty (bad_chars host_forbidden (codes s)) ≡ true)
unfolding check_host_text
check_host_text_clean texts w s h = (ground arith, ground arith)

check_host-IsName :
    (texts : Texts) (w : String) (value : Json)
    → check_host texts w value ≡ []
    → IsName host_forbidden 253 value
unfolding check_host
check_host-IsName texts w null h = tt
check_host-IsName texts w (bool b) h = ground arith
check_host-IsName texts w (int i) h = ground arith
check_host-IsName texts w (float f) h = ground arith
check_host-IsName texts w (list xs) h = ground arith
check_host-IsName texts w (object o) h = ground arith
check_host-IsName texts w (string s) h = elim (Bool-cases (str_eq s "")) [
  | inl e ↦ ground arith
  | inr e ↦
      let (short, clean) = check_host_text_clean texts w s (ground arith) in
      (e, short, bad_chars-Lacks host_forbidden (codes s) clean)
]

-- A path that is not null begins with a slash and has no NUL and no line end.
abbrev pub IsPath : Json → Type 0
IsPath null = Unit
IsPath (string s) = (is_absolute (codes s) ≡ true) × Lacks (0 ∷ 10 ∷ 13 ∷ []) s
IsPath _ = ⊥

pub check_absolute_path-IsPath :
    (texts : Texts) (w : String) (value : Json)
    → check_absolute_path texts w value ≡ []
    → IsPath value
unfolding check_absolute_path
check_absolute_path-IsPath texts w null h = tt
check_absolute_path-IsPath texts w (bool b) h = ground arith
check_absolute_path-IsPath texts w (int i) h = ground arith
check_absolute_path-IsPath texts w (float f) h = ground arith
check_absolute_path-IsPath texts w (list xs) h = ground arith
check_absolute_path-IsPath texts w (object o) h = ground arith
check_absolute_path-IsPath texts w (string s) h = (ground arith, ground arith)

-- What no share's name may have, since it stands in a section header: NUL, tab, line feed, carriage
-- return and the characters "$%'/:;[\]`. A host and a share of another machine, which stand in the
-- source of a mount, are to have none of the next two lists: NUL, tab, line feed, carriage return and
-- of the one the space and "$%'/[\]`, of the other %/\.
abbrev no_header : List ℕ
no_header = 0 ∷ 9 ∷ 10 ∷ 13 ∷ 34 ∷ 36 ∷ 37 ∷ 39 ∷ 47 ∷ 58 ∷ 59 ∷ 91 ∷ 92 ∷ 93 ∷ 96 ∷ []

abbrev no_host : List ℕ
no_host = 0 ∷ 9 ∷ 10 ∷ 13 ∷ 32 ∷ 34 ∷ 36 ∷ 37 ∷ 39 ∷ 47 ∷ 91 ∷ 92 ∷ 93 ∷ 96 ∷ []

abbrev no_remote : List ℕ
no_remote = 0 ∷ 9 ∷ 10 ∷ 13 ∷ 37 ∷ 47 ∷ 92 ∷ []

-- A share's name is none that Samba reserves.
abbrev pub NotReserved : Texts → Json → Type 0
NotReserved texts (string s) =
    is_one_of (texts.lower s) ("global" ∷ "homes" ∷ "printers" ∷ "print$" ∷ []) ≡ false
NotReserved texts _ = Unit

check_share_name-NotReserved :
    (texts : Texts) (w : String) (value : Json)
    → check_share_name texts true w value ≡ []
    → IsName (forbidden_in texts true) 80 value
    → NotReserved texts value
unfolding check_share_name
check_share_name-NotReserved texts w (string s) h n =
    (check_name_clean texts true w s (ground arith)).2
check_share_name-NotReserved texts w null h n = tt
check_share_name-NotReserved texts w (bool b) h n = tt
check_share_name-NotReserved texts w (int i) h n = tt
check_share_name-NotReserved texts w (float f) h n = tt
check_share_name-NotReserved texts w (list xs) h n = tt
check_share_name-NotReserved texts w (object o) h n = tt

abbrev pub IsSafeShare : Texts → Json → Type 0
IsSafeShare texts (object o) =
    IsName no_header 80 (get "name" (to_dict o))
    × NotReserved texts (get "name" (to_dict o))
    × IsPath (get "path" (to_dict o))
IsSafeShare texts _ = ⊥

abbrev pub IsSafeConnection : Texts → Json → Type 0
IsSafeConnection texts (object o) =
    IsName no_host 253 (get "host" (to_dict o))
    × IsName no_remote 80 (get "share" (to_dict o))
    × IsPath (get "mountpoint" (to_dict o))
IsSafeConnection texts _ = ⊥

shares-IsSafeShare :
    (texts : Texts) (items : List Json)
    → All (Accepted (validate_share texts)) items
    → All (IsSafeShare texts) items
shares-IsSafeShare texts [] a = tt
shares-IsSafeShare texts (object o ∷ items) ((w, h), a) =
    let checks = validate_share-ShareChecks texts w (to_dict o) h in
    let name =
      check_share_name-IsName texts true (w ++ ".name") (get "name" (to_dict o)) checks.name in
    (
      (
        name,
        check_share_name-NotReserved texts (w ++ ".name") (get "name" (to_dict o)) checks.name name,
        check_absolute_path-IsPath texts (w ++ ".path") (get "path" (to_dict o)) checks.path,
      ),
      shares-IsSafeShare texts items a,
    )
shares-IsSafeShare texts (x ∷ items) a = ground arith

connections-IsSafeConnection :
    (texts : Texts) (items : List Json)
    → All (Accepted (validate_connection texts)) items
    → All (IsSafeConnection texts) items
connections-IsSafeConnection texts [] a = tt
connections-IsSafeConnection texts (object o ∷ items) ((w, h), a) =
    let checks = validate_connection-ConnectionChecks texts w (to_dict o) h in
    (
      (
        check_host-IsName texts (w ++ ".host") (get "host" (to_dict o)) checks.host,
        check_share_name-IsName texts false (w ++ ".share") (get "share" (to_dict o)) checks.share,
        check_absolute_path-IsPath texts (w ++ ".mountpoint") (get "mountpoint" (to_dict o))
            checks.mountpoint,
      ),
      connections-IsSafeConnection texts items a,
    )
connections-IsSafeConnection texts (x ∷ items) a = ground arith

-- In a document that `validate` finds no problem with, each share's name is null or a text of 1 to
-- 80 characters with no NUL, tab, line end or any of "$%'/:;[\]`, which without its capitals is not
-- global, homes, printers or print$; its path is null or an absolute one without a line end or a
-- NUL. Each connection's host is null or a text of 1 to 253 characters with no NUL, tab, line end,
-- space or any of "$%'/[\]`, its remote share is null or a text of 1 to 80 characters with no NUL, tab,
-- line end or any of %/\, and its mountpoint is like a path.
pub valid_texts :
    (texts : Texts) (doc : Dict Json)
    → validate_object texts doc ≡ some []
    → All (IsSafeShare texts) (items_of "shares" doc)
      × All (IsSafeConnection texts) (items_of "connections" doc)
valid_texts texts doc h =
    let valid = validate_object-Valid texts doc h in
    (
      shares-IsSafeShare texts (items_of "shares" doc) valid.shares.accepted,
      connections-IsSafeConnection texts (items_of "connections" doc) valid.connections.accepted,
    )
