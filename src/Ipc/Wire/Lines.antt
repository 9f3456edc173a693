-- ===== src/Ipc/Wire/Lines.antt =====
-- A message is one line of printable characters.
use smbpal_desktop.Prelude.{
  ℕ, zero, suc, ◌+◌, ◌-◌, ◌/◌, ◌%◌, ◌≤◌, ◌<◌, ◌≡◌, refl, String, Bool, true, false, ◌&&◌, List, [],
  ◌∷◌, arith, All, All-append, if◌then◌else◌, ◌==◌, leb, ltb, codes, Bool-cases, inl, inr,
}
use smbpal_desktop.Config.Json.{
  ℤ, pos, negsuc, Json, null, bool, int, float, string, list, object, Items, no_items, item,
  Members, member, no_members,
}
use smbpal_desktop.Config.Naming.{numeral, numeral_from}
use smbpal_desktop.Ipc.Framing.{Bytes}
use smbpal_desktop.Ipc.Wire.{
  hex_code, unicode_escape, escape_code, dump_char, dump_chars, dump_string, dump_int, dumps,
  dump_items, dump_object, dump_members,
}

-- A printable character of ASCII.
abbrev pub IsPrintable : ℕ → Type 0
IsPrintable b = (32 ≤ b) × (b ≤ 126)

-- The numbers with a fraction in a document are written with printable characters.
unfoldable mutual
  pub IsPlain : Json → Type 0
  IsPlain (float f) = All IsPrintable (codes f)
  IsPlain (list items) = ArePlain items
  IsPlain (object members) = HasPlain members
  IsPlain _ = Unit

  pub ArePlain : Items → Type 0
  ArePlain no_items = Unit
  ArePlain (item x xs) = IsPlain x × ArePlain xs

  pub HasPlain : Members → Type 0
  HasPlain no_members = Unit
  HasPlain (member key value members) = IsPlain value × HasPlain members

hex_code-IsPrintable : (d : ℕ) → d < 16 → IsPrintable (hex_code d)
unfolding hex_code
hex_code-IsPrintable d h = ground arith

unicode_escape-IsPrintable : (n : ℕ) → All IsPrintable (unicode_escape n)
unfolding unicode_escape
unicode_escape-IsPrintable n =
    let first = hex_code-IsPrintable (n / 4096 % 16) (omega arith) in
    let second = hex_code-IsPrintable (n / 256 % 16) (omega arith) in
    let third = hex_code-IsPrintable (n / 16 % 16) (omega arith) in
    let last = hex_code-IsPrintable (n % 16) (omega arith) in
    omega (arith, first, second, third, last)

escape_code-IsPrintable : (n : ℕ) → All IsPrintable (escape_code n)
unfolding escape_code
escape_code-IsPrintable n = elim (Bool-cases (ltb n 65536)) [
  | inl e ↦ rw e (unicode_escape-IsPrintable n)
  | inr e ↦
      let high = 0xd800 + (n - 65536) / 1024 % 1024 in
      let low = 0xdc00 + (n - 65536) % 1024 in
      rw e (
        All-append IsPrintable (unicode_escape high) (unicode_escape low)
          (unicode_escape-IsPrintable high) (unicode_escape-IsPrintable low))
]

either-IsPrintable :
    (test : Bool) (x y : Bytes)
    → (test ≡ true → All IsPrintable x)
    → All IsPrintable y
    → All IsPrintable (if test then x else y)
either-IsPrintable true x y a b = a refl
either-IsPrintable false x y a b = b

dump_char-IsPrintable : (c : ℕ) → All IsPrintable (dump_char c)
unfolding dump_char
dump_char-IsPrintable c =
    either-IsPrintable (c == b'"') _ _ (λ e. omega arith)
      (either-IsPrintable (c == b'\\') _ _ (λ e. omega arith)
        (either-IsPrintable (c == 10) _ _ (λ e. omega arith)
          (either-IsPrintable (c == 13) _ _ (λ e. omega arith)
            (either-IsPrintable (c == 9) _ _ (λ e. omega arith)
              (either-IsPrintable (c == 12) _ _ (λ e. omega arith)
                (either-IsPrintable (c == 8) _ _ (λ e. omega arith)
                  (either-IsPrintable (leb b' ' c && leb c b'~') (c ∷ []) (escape_code c)
                    (λ e. ground (arith, e)) (escape_code-IsPrintable c))))))))

dump_chars-IsPrintable : (text : List ℕ) → All IsPrintable (dump_chars text)
unfolding dump_chars
dump_chars-IsPrintable [] = tt
dump_chars-IsPrintable (c ∷ text) =
    All-append IsPrintable (dump_char c) (dump_chars text) (dump_char-IsPrintable c)
      (dump_chars-IsPrintable text)

dump_string-IsPrintable : (text : String) → All IsPrintable (dump_string text)
unfolding dump_string
dump_string-IsPrintable text = (
  omega arith,
  All-append IsPrintable (dump_chars (codes text)) _ (dump_chars-IsPrintable (codes text))
      (omega arith),
)

numeral_from-IsPrintable : (f n : ℕ) → All IsPrintable (numeral_from f n)
unfolding numeral_from
numeral_from-IsPrintable zero n = tt
numeral_from-IsPrintable (suc f) n = elim (Bool-cases (ltb n 10)) [
  | inl e ↦ rw e (ground (arith, e))
  | inr e ↦ rw e (
      All-append IsPrintable (numeral_from f (n / 10)) _ (numeral_from-IsPrintable f (n / 10))
        (omega arith))
]

dump_int-IsPrintable : (i : ℤ) → All IsPrintable (dump_int i)
unfolding dump_int numeral
dump_int-IsPrintable (pos n) = numeral_from-IsPrintable (suc n) n
dump_int-IsPrintable (negsuc n) = (omega arith, numeral_from-IsPrintable (suc (suc n)) (suc n))

-- A document without odd floats is written with printable characters alone.
mutual
  unfolding dumps IsPlain

  pub dumps-IsPrintable : (value : Json) → IsPlain value → All IsPrintable (dumps value)
  dumps-IsPrintable null p = omega arith
  dumps-IsPrintable (bool true) p = omega arith
  dumps-IsPrintable (bool false) p = omega arith
  dumps-IsPrintable (int i) p = dump_int-IsPrintable i
  dumps-IsPrintable (float f) p = p
  dumps-IsPrintable (string text) p = dump_string-IsPrintable text
  dumps-IsPrintable (list no_items) p = omega arith
  dumps-IsPrintable (list (item x xs)) p = (
    omega arith,
    All-append IsPrintable (dumps x) _ (dumps-IsPrintable x p.0)
        (All-append IsPrintable (dump_items xs) _ (dump_items-IsPrintable xs p.1) (omega arith)),
  )
  dumps-IsPrintable (object members) p = (
    omega arith,
    All-append IsPrintable (dump_object members) _ (dump_object-IsPrintable members p)
        (omega arith),
  )

  dump_items-IsPrintable : (items : Items) → ArePlain items → All IsPrintable (dump_items items)
  dump_items-IsPrintable no_items p = tt
  dump_items-IsPrintable (item x xs) p = (
    omega arith,
    All-append IsPrintable (dumps x) (dump_items xs) (dumps-IsPrintable x p.0)
        (dump_items-IsPrintable xs p.1),
  )

  dump_object-IsPrintable :
      (members : Members) → HasPlain members → All IsPrintable (dump_object members)
  dump_object-IsPrintable no_members p = tt
  dump_object-IsPrintable (member key value members) p =
      All-append IsPrintable (dump_string key) _ (dump_string-IsPrintable key) (
        omega arith,
        All-append IsPrintable (dumps value) (dump_members members) (dumps-IsPrintable value p.0)
            (dump_members-IsPrintable members p.1),
      )

  dump_members-IsPrintable :
      (members : Members) → HasPlain members → All IsPrintable (dump_members members)
  dump_members-IsPrintable no_members p = tt
  dump_members-IsPrintable (member key value members) p = (
    omega arith,
    All-append IsPrintable (dump_string key) _ (dump_string-IsPrintable key) (
      omega arith,
      All-append IsPrintable (dumps value) (dump_members members) (dumps-IsPrintable value p.0)
          (dump_members-IsPrintable members p.1),
    ),
  )
