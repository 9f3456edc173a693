-- ===== src/Config/Schema/Fields.antt =====
-- config/schema.py, the checks of one field: each gives the problems that it appends.
use Prim.Native.String.{◌++◌}
use mathlib.Core.List.{◌++◌ as ◌⊕◌}
use smbpal_desktop.Prelude.{
  ℕ, String, Bool, true, false, ◌&&◌, ◌||◌, List, [], ◌∷◌, some, none, if◌then◌else◌, ltb, ◌==◌,
  str_eq, codes, any, elem, length, Dict, lookup,
}
use smbpal_desktop.Prelude.Sorting.{sort_in}
use smbpal_desktop.Config.Json.{Json, null, bool, string, kind}
use smbpal_desktop.Config.Schema.{
  Texts, Problem, problem, is_id, share_name_forbidden, remote_share_name_forbidden, host_forbidden,
  is_one_of, reserved_share_names, bad_chars, join_comma, reprs, has_parent, is_user_name,
}

unfoldable pub is_empty {ℓ} : {A : Type ℓ} → List A → Bool
is_empty [] = true
is_empty (_ ∷ _) = false

-- _check_keys: the keys that are not allowed, then those that are required and not there.
unfoldable pub unknown_keys : List String → Dict Json → List String
unfolding sort_in
unknown_keys allowed [] = []
unknown_keys allowed ((key, value) ∷ obj) =
    let rest = unknown_keys allowed obj in if is_one_of key allowed then rest else sort_in key rest

unfoldable pub unknown_problems : String → List String → List Problem
unknown_problems where_ [] = []
unknown_problems where_ (key ∷ keys) =
    record { where_ = where_ ++ "." ++ key; message = "is not a recognised field" }
    ∷ unknown_problems where_ keys

abbrev pub has_key : String → Dict Json → Bool
has_key key obj = elim (lookup key obj) [ none ↦ false | some _ ↦ true ]

-- `required` is given in order.
unfoldable pub missing_problems : String → List String → Dict Json → List Problem
missing_problems where_ [] obj = []
missing_problems where_ (key ∷ required) obj =
    let rest = missing_problems where_ required obj in
    if has_key key obj
    then rest
    else record { where_ = where_; message = "is missing required field '" ++ key ++ "'" } ∷ rest

unfoldable pub check_keys : String → Dict Json → List String → List String → List Problem
check_keys where_ obj allowed required =
    unknown_problems where_ (unknown_keys allowed obj) ⊕ missing_problems where_ required obj

-- _check_id
unfoldable pub check_id : String → Json → List Problem
check_id where_ null = []
check_id where_ (string s) =
    if is_id (codes s)
    then []
    else problem (where_ ++ ".id")
        "must be 1-64 characters of letters, digits, '-' or '_', starting with a letter or digit. Ids become systemd unit names and file paths, so anything else is a way out of them."
check_id where_ _ =
    problem (where_ ++ ".id")
      "must be 1-64 characters of letters, digits, '-' or '_', starting with a letter or digit. Ids become systemd unit names and file paths, so anything else is a way out of them."

-- _check_optional_bool
unfoldable pub check_optional_bool : String → Json → List Problem
check_optional_bool where_ null = []
check_optional_bool where_ (bool b) = []
check_optional_bool where_ value = problem where_ ("expected true or false, got " ++ kind value)

-- _check_optional_ref
unfoldable pub check_optional_ref : String → Json → List Problem
check_optional_ref where_ null = []
check_optional_ref where_ (string s) =
    if is_id (codes s)
    then []
    else problem where_
        "must be null or a reference of letters, digits, '-' or '_'. It names a credential; it never holds one."
check_optional_ref where_ _ =
    problem where_
      "must be null or a reference of letters, digits, '-' or '_'. It names a credential; it never holds one."

-- _check_owner
unfoldable pub check_owner : String → Json → List Problem
check_owner where_ null = []
check_owner where_ (string s) =
    if is_user_name (codes s) then [] else problem where_ "must be null or a POSIX user name"
check_owner where_ _ = problem where_ "must be null or a POSIX user name"

-- _check_remote_account
unfoldable pub check_remote_account : String → Json → List Problem
check_remote_account where_ null = []
check_remote_account where_ (string s) =
    if str_eq s ""
    then problem where_ "must be null or a non-empty account name"
    else if any (λ c. ltb c 0x20 || (c == 0x7F)) (codes s)
    then problem where_ "must not contain a control character"
    else []
check_remote_account where_ _ = problem where_ "must be null or a non-empty account name"

abbrev pub is_absolute : List ℕ → Bool
is_absolute [] = false
is_absolute (c ∷ text) = c == b'/'

module _ (texts : Texts) where
  -- _check_type_discriminator
  unfoldable pub check_type : String → Json → List Problem
  check_type where_ null = []
  check_type where_ (string s) =
      if str_eq s "os"
      then []
      else problem (where_ ++ ".type")
          ("is " ++ texts.repr (string s) ++ "; Phase 1 supports only 'os'")
  check_type where_ value =
      problem (where_ ++ ".type") ("is " ++ texts.repr value ++ "; Phase 1 supports only 'os'")

  abbrev bad_text : List ℕ → String
  bad_text bad = "contains " ++ join_comma (reprs texts.repr_char bad)

  abbrev pub forbidden_in : Bool → List ℕ
  forbidden_in true = share_name_forbidden
  forbidden_in false = remote_share_name_forbidden

  abbrev because : Bool → String
  because true =
      ". A share name is written into a section header, so a newline in it is arbitrary smb.conf."
  because false =
      ". A mount unit's What= carries this value, and systemd reads '%' in it as a specifier."

  -- _check_share_name, for a text that is not empty.
  unfoldable pub check_name : Bool → String → String → List Problem
  unfolding bad_chars is_empty
  check_name served where_ s =
      let bad = bad_chars (forbidden_in served) (codes s) in
      (if ltb 80 (length (codes s)) then problem where_ "is longer than 80 characters" else [])
      ⊕ (if is_empty bad then [] else problem where_ (bad_text bad ++ because served))
      ⊕ (if served && is_one_of (texts.lower s) reserved_share_names
          then problem where_
              ("is " ++ texts.repr (string s) ++ ", which Samba reserves for its own section")
          else [])

  unfoldable pub check_share_name : Bool → String → Json → List Problem
  unfolding check_name
  check_share_name served where_ null = []
  check_share_name served where_ (string s) =
      if str_eq s "" then problem where_ "must not be empty" else check_name served where_ s
  check_share_name served where_ value = problem where_ ("expected a string, got " ++ kind value)

  -- _check_host, for a text that is not empty.
  unfoldable pub check_host_text : String → String → List Problem
  unfolding bad_chars is_empty
  check_host_text where_ s =
      let bad = bad_chars host_forbidden (codes s) in
      (if ltb 253 (length (codes s)) then problem where_ "is longer than 253 characters" else [])
      ⊕ (if is_empty bad then [] else problem where_ (bad_text bad))

  unfoldable pub check_host : String → Json → List Problem
  unfolding check_host_text
  check_host where_ null = []
  check_host where_ (string s) =
      if str_eq s "" then problem where_ "must not be empty" else check_host_text where_ s
  check_host where_ value = problem where_ ("expected a string, got " ++ kind value)

  -- _check_absolute_path
  unfoldable pub check_absolute_path : String → Json → List Problem
  unfolding has_parent
  check_absolute_path where_ null = []
  check_absolute_path where_ (string s) =
      if is_absolute (codes s)
      then (if elem 0 (codes s) then problem where_ "contains a NUL byte" else [])
        ⊕ (if elem 10 (codes s) || elem 13 (codes s)
            then problem where_ "contains a newline, which would break every file we write"
            else [])
        ⊕ (if has_parent (some 0) (codes s)
            then problem where_
                "contains a '..' component. Store the resolved path so that what is validated is what is used."
            else [])
      else problem where_ ("is " ++ texts.repr (string s) ++ "; must be an absolute path")
  check_absolute_path where_ value = problem where_ ("expected a string, got " ++ kind value)
