-- ===== src/Ipc/Protocol/Hex.antt =====
-- The bytes that `bytes.hex` writes are those that `bytes.fromhex` reads.
use mathlib.Core.List.{◌++◌ as ◌⊕◌}
use Prim.Native.String.{◌++◌}
use smbpal_desktop.Prelude.{
  all_below_lem, codes-append, codes_eq, codes_eq_path, ℕ, ◌+◌, ◌/◌, ◌%◌, ◌<◌, ◌≡◌, refl, ap, ◌∙◌,
  String, none, some, List, [], ◌∷◌, arith, codes, All, ltb, if◌then◌else◌, false,
}
use smbpal_desktop.Mounts.Units.{hex_digit}
use smbpal_desktop.Ipc.Framing.{Bytes, is_space_byte}
use smbpal_desktop.Ipc.Protocol.{hex, hex_value, from_hex}

abbrev pub IsByte : ℕ → Type 0
IsByte b = b < 256

-- The code of the digit.
nibble : ℕ → ℕ
nibble d = if ltb d 10 then 48 + d else 87 + d

codes-hex_digit : (d : ℕ) → d < 16 → codes (hex_digit d) ≡ nibble d ∷ []
unfolding hex_digit nibble
codes-hex_digit d h =
    codes_eq_path (codes (hex_digit d)) (nibble d ∷ [])
      (all_below_lem (λ n. codes_eq (codes (hex_digit n)) (nibble n ∷ [])) 16 d h refl)

value-nibble :
    (d : ℕ) → d < 16 → (hex_value (nibble d) ≡ some d) × (is_space_byte (nibble d) ≡ false)
unfolding hex_value nibble
value-nibble d h = ground arith

digits_text :
    (high low : ℕ) (text : String)
    → high < 16
    → low < 16
    → codes (hex_digit high ++ hex_digit low ++ text) ≡ nibble high ∷ nibble low ∷ codes text
digits_text high low text h l =
    codes-append (hex_digit high) (hex_digit low ++ text)
    ∙ ap (λ (s : List ℕ). s ⊕ codes (hex_digit low ++ text)) (codes-hex_digit high h)
    ∙ ap (λ (s : List ℕ). nibble high ∷ s)
        (codes-append (hex_digit low) text
          ∙ ap (λ (s : List ℕ). s ⊕ codes text) (codes-hex_digit low l))

-- The bytes are read back.
pub from_hex-hex :
    (bytes : Bytes) → All IsByte bytes → from_hex none (codes (hex bytes)) ≡ some bytes
unfolding hex from_hex
from_hex-hex [] h = refl
from_hex-hex (b ∷ bytes) (h, hs) =
    let high : b / 16 < 16 = omega arith in
    let low : b % 16 < 16 = omega arith in
    rw (digits_text (b / 16) (b % 16) (hex bytes) high low)
      (ground (arith, value-nibble (b / 16) high, value-nibble (b % 16) low, from_hex-hex bytes hs))
