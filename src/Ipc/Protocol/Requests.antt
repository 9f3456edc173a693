-- ===== src/Ipc/Protocol/Requests.antt =====
-- What an accepted request is, and that the daemon reads what its client sends.
use smbpal_desktop.Prelude.{
  lookup, eq_iff, ℕ, ◌+◌, ◌*◌, ◌<◌, ◌≡◌, refl, ap, String, true, false, Option, none, some, List,
  [], ◌∷◌, arith, codes, All, ltb, Bool-cases, inl, inr, ◌==◌, str_eq, ok, Ensures, Ensures-bind,
  Ensures-any, Ensures-ok, length, not,
}
use smbpal_desktop.Prelude.Show.{decimal, is_filled, is_filled-decimal}
use smbpal_desktop.Config.Json.{
  Json, null, bool, int, float, string, list, object, Members, to_dict, get,
}
use smbpal_desktop.Ipc.Framing.{Bytes, Received, is_space_byte, max_frame_bytes, read_frames}
use smbpal_desktop.Ipc.Framing.Limits.{IsFrame, read_frames-IsFrame}
use smbpal_desktop.Ipc.Protocol.{
  Request, Refusal, no_id, no_method, Loaded, undecodable, unparsable, loaded, auth_form_bytes,
  is_protocol_version, required_text, params_of, form_of, auth_of, parse_document, parse_loaded,
  parse_request, from_hex, hex_value, request_document,
}
use smbpal_desktop.Ipc.Protocol.Hex.{IsByte, from_hex-hex}

-- The form that goes with a request, if any: 32 bytes.
unfoldable pub IsForm : Option Bytes → Type 0
IsForm none = Unit
IsForm (some form) = (length form ≡ auth_form_bytes) × All IsByte form

pub record IsRequest (request : Request) : Type 0 where
  pub id : is_filled request.id ≡ true
  pub method : is_filled request.method ≡ true
  pub auth : IsForm request.auth

hex_value_small : (c d : ℕ) → hex_value c ≡ some d → d < 16
unfolding hex_value
hex_value_small c d h = ground arith

abbrev AllBytes : Option Bytes → Type 0
AllBytes none = Unit
AllBytes (some bytes) = All IsByte bytes

AllBytes-byte :
    (high low : ℕ) (rest : Option Bytes)
    → high < 16
    → low < 16
    → AllBytes rest
    → AllBytes (elim rest [ none ↦ none | some bytes ↦ some ((high * 16 + low) ∷ bytes) ])
AllBytes-byte high low none h l a = tt
AllBytes-byte high low (some bytes) h l a = (omega arith, a)

AllBytes-low :
    (high : ℕ) (value : Option ℕ) (rest : Option Bytes)
    → high < 16
    → ((d : ℕ) → value ≡ some d → d < 16)
    → AllBytes rest
    → AllBytes (elim value [
      | none ↦ none
      | some low ↦ elim rest [ none ↦ none | some bytes ↦ some ((high * 16 + low) ∷ bytes) ]
    ])
AllBytes-low high none rest h v a = tt
AllBytes-low high (some low) rest h v a = AllBytes-byte high low rest h (v low refl) a

AllBytes-high :
    (value : Option ℕ) (text : List ℕ)
    → ((d : ℕ) → value ≡ some d → d < 16)
    → ((high : ℕ) → high < 16 → AllBytes (from_hex (some high) text))
    → AllBytes (elim value [ none ↦ none | some high ↦ from_hex (some high) text ])
AllBytes-high none text v a = tt
AllBytes-high (some high) text v a = a high (v high refl)

from_hex-AllBytes :
    (text : List ℕ)
    → AllBytes (from_hex none text)
      × ((high : ℕ) → high < 16 → AllBytes (from_hex (some high) text))
unfolding from_hex
from_hex-AllBytes [] = (tt, λ high h. tt)
from_hex-AllBytes (c ∷ text) =
    let (whole, half) = from_hex-AllBytes text in
    let second = λ (high : ℕ) (h : high < 16).
      AllBytes-low high (hex_value c) (from_hex none text) h (hex_value_small c) whole in
    elim (Bool-cases (is_space_byte c)) [
      | inl s ↦ rw s (whole, second)
      | inr s ↦ rw s (AllBytes-high (hex_value c) text (hex_value_small c) half, second)
    ]

abbrev pub IsFilled : String → Type 0
IsFilled text = is_filled text ≡ true

unequal-IsFilled : (text : String) → str_eq text "" ≡ false → IsFilled text
unequal-IsFilled String.[] e = cc
unequal-IsFilled (String.◌∷◌ c s) e = refl

required_text-IsFilled :
    (refusal : Refusal) (value : Json) → Ensures IsFilled (required_text refusal value)
unfolding required_text
required_text-IsFilled refusal (string text) = elim (Bool-cases (str_eq text "")) [
  | inl e ↦ rw e tt
  | inr e ↦ rw e (unequal-IsFilled text e)
]
required_text-IsFilled refusal null = tt
required_text-IsFilled refusal (bool b) = tt
required_text-IsFilled refusal (int i) = tt
required_text-IsFilled refusal (float f) = tt
required_text-IsFilled refusal (list xs) = tt
required_text-IsFilled refusal (object o) = tt

form_of-IsForm : (form : Option Bytes) → AllBytes form → Ensures IsForm (form_of form)
unfolding form_of IsForm
form_of-IsForm none a = tt
form_of-IsForm (some form) a = elim (Bool-cases (length form == auth_form_bytes)) [
  | inl e ↦ rw e (ground (arith, e), a)
  | inr e ↦ rw e tt
]

auth_of-IsForm : (value : Json) → Ensures IsForm (auth_of value)
unfolding auth_of IsForm
auth_of-IsForm null = tt
auth_of-IsForm (string text) =
    form_of-IsForm (from_hex none (codes text)) (from_hex-AllBytes (codes text)).0
auth_of-IsForm (bool b) = tt
auth_of-IsForm (int i) = tt
auth_of-IsForm (float f) = tt
auth_of-IsForm (list xs) = tt
auth_of-IsForm (object o) = tt

parse_document-IsRequest : (doc : Json) → Ensures IsRequest (parse_document doc)
unfolding parse_document
parse_document-IsRequest (object members) =
    elim (Bool-cases (not (is_protocol_version (get "v" (to_dict members))))) [
      | inl e ↦ rw e tt
      | inr e ↦
          let doc = to_dict members in
          rw e (
            Ensures-bind IsFilled IsRequest (required_text no_id (get "id" doc)) _
              (required_text-IsFilled no_id (get "id" doc))
              (λ id i.
                Ensures-bind IsFilled IsRequest (required_text no_method (get "method" doc)) _
                  (required_text-IsFilled no_method (get "method" doc))
                  (λ method m.
                    Ensures-bind (λ p. Unit) IsRequest (params_of (get "params" doc)) _
                      (Ensures-any _)
                      (λ params p.
                        Ensures-bind IsForm IsRequest (auth_of (get "auth" doc)) _
                          (auth_of-IsForm (get "auth" doc))
                          (λ auth a. record { id = i; method = m; auth = a })))))
    ]
parse_document-IsRequest null = tt
parse_document-IsRequest (bool b) = tt
parse_document-IsRequest (int i) = tt
parse_document-IsRequest (float f) = tt
parse_document-IsRequest (list xs) = tt
parse_document-IsRequest (string s) = tt

-- A request that `parse_request` accepts has an id and a method that are not empty, and no form or one
-- of 32 bytes, each below 256, whatever `json.loads` makes of the line.
pub parse_request-IsRequest :
    (loads : Bytes → Loaded) (line : Bytes) (request : Request)
    → parse_request loads line ≡ ok request
    → IsRequest request
unfolding parse_request parse_loaded
parse_request-IsRequest loads line request h =
    elim (Bool-cases (ltb max_frame_bytes (length line))) [
      | inl e ↦ absurd (ground (arith, e))
      | inr e ↦ run (loads line) (rw e at h)
    ]
  where
    run : (document : Loaded) → parse_loaded document ≡ ok request → IsRequest request
    run undecodable h = cc
    run unparsable h = cc
    run (loaded doc) h = Ensures-ok IsRequest (parse_document doc) (parse_document-IsRequest doc) h

-- The size that `parse_request` refuses does not come through the socket: of every frame that is
-- read, whatever was sent and however it was cut, the document decides alone.
pub parse_request-read_frames :
    (loads : Bytes → Loaded) (buffer : Bytes) (received : List Received)
    → All
        (λ frame. parse_request loads frame ≡ parse_loaded (loads frame))
        (read_frames buffer received)
parse_request-read_frames loads buffer received =
    each (read_frames buffer received) (read_frames-IsFrame buffer received)
  where
    fits : (frame : Bytes) → IsFrame frame → parse_request loads frame ≡ parse_loaded (loads frame)
    fits frame f = unfold parse_request in ground (arith, f.fits)

    each :
        (frames : List Bytes)
        → All IsFrame frames
        → All (λ frame. parse_request loads frame ≡ parse_loaded (loads frame)) frames
    each [] a = tt
    each (frame ∷ frames) a = (fits frame a.0, each frames a.1)

form_of-length :
    (form : Bytes) → length form ≡ auth_form_bytes → form_of (some form) ≡ ok (some form)
unfolding form_of
form_of-length form h = ground (arith, h)

filled_unequal : (text : String) → IsFilled text → str_eq text "" ≡ false
filled_unequal text f = elim (Bool-cases (str_eq text "")) [
  | inl e ↦ absurd (cc (f, ap is_filled ((eq_iff text "").0 e)))
  | inr e ↦ e
]

-- What a client sends for a call is read by the daemon as that call: with its number as the id, its
-- method and parameters, and the bytes of its form; the method is supposed not to be empty, and the
-- form, if any, to be one.
pub parse_document-request_document :
    (counter : ℕ) (method : String) (params : Members) (auth : Option Bytes)
    → IsFilled method
    → IsForm auth
    → parse_document (object (request_document counter method params auth))
      ≡ ok (record { id = decimal counter; method = method; params = to_dict params; auth = auth })
unfolding parse_document request_document is_protocol_version get lookup required_text params_of
    auth_of to_dict IsForm
parse_document-request_document counter method params none m f =
    rw (filled_unequal (decimal counter) (is_filled-decimal counter), filled_unequal method m) refl
parse_document-request_document counter method params (some form) m (l, f) =
    rw
      (
        filled_unequal (decimal counter) (is_filled-decimal counter),
        filled_unequal method m,
        from_hex-hex form f,
        form_of-length form l,
      )
      refl
