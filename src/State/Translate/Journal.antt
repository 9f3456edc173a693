-- ===== src/State/Translate/Journal.antt =====
-- translate_journal: the last failure in the journal decides.
use smbpal_desktop.Prelude.{
  ℕ, zero, suc, ◌+◌, ◌-◌, ◌*◌, ◌≤◌, ◌≡◌, refl, ◌∙◌, Bool, true, false, Option, none, some, List, [],
  ◌∷◌, ◌++◌, arith, Option-cases, length, inl, inr, All, ◌⊎◌, Bool-cases, ◌==◌,
}
use smbpal_desktop.State.States.{StateName}
use smbpal_desktop.State.Translate.{
  Cause, Row, linux_mount_errno, errno_cause, strip_prefix, digits, close, close_of, match_rest,
  match_error, last_errno, literal, says_unresolved, translated, translate_journal,
}
use smbpal_desktop.State.Translate.Scanning.{strip_prefix-append, match_error-length}

abbrev or_else : Option ℕ → Option ℕ → Option ℕ
or_else (some n) o = some n
or_else none o = o

close-append :
    (value count : ℕ) (a b : List ℕ) → close value count (a ++ 10 ∷ b) ≡ close value count a
unfolding close
close-append value zero [] b = refl
close-append value (suc k) [] b = refl
close-append value zero (c ∷ a) b = refl
close-append value (suc k) (c ∷ a) b = refl

module _ (digit_value : ℕ → Option ℕ) where
  -- What was found before the rest of the text counts only if the rest holds nothing.
  last_errno-or_else :
      (errno : Option ℕ) (skip : ℕ) (a : List ℕ)
      → last_errno digit_value errno skip a ≡ or_else (last_errno digit_value none skip a) errno
  unfolding last_errno
  last_errno-or_else errno skip [] = refl
  last_errno-or_else errno (suc skip) (c ∷ a) = last_errno-or_else errno skip a
  last_errno-or_else errno zero (c ∷ a) = elim (Option-cases (match_error digit_value (c ∷ a))) [
    | inl e ↦ ground (arith, last_errno-or_else errno 0 a)
    | inr ((n, size), e) ↦ ground (arith, last_errno-or_else (some n) (size - 1) a)
  ]

  module _ (newline_is_no_digit : digit_value 10 ≡ none) where
    digits-append :
        (value count : ℕ) (a b : List ℕ)
        → let d = digits digit_value value count a in
          digits digit_value value count (a ++ 10 ∷ b) ≡ (d.0, d.1, d.2 ++ 10 ∷ b)
    unfolding digits
    digits-append value count [] b = rw newline_is_no_digit
    digits-append value count (c ∷ a) b = elim (Option-cases (digit_value c)) [
      | inl e ↦ ground arith
      | inr (d, e) ↦ rw (e, digits) (digits-append (value * 10 + d) (suc count) a b)
    ]

    match_error-append :
        (a b : List ℕ) → match_error digit_value (a ++ 10 ∷ b) ≡ match_error digit_value a
    unfolding match_error match_rest close_of
    match_error-append a b =
        rw (strip_prefix-append literal a b refl) (elim (Option-cases (strip_prefix literal a)) [
          | inl e ↦ rw e
          | inr (r, e) ↦
              rw (e, digits-append 0 0 r b)
                (close-append (digits digit_value 0 0 r).0 (digits digit_value 0 0 r).1
                  (digits digit_value 0 0 r).2 b)
        ])

    -- The older text is scanned as if the line end and what follows were not there.
    last_errno-append :
        (errno : Option ℕ) (skip : ℕ) (a b : List ℕ)
        → skip ≤ length a
        → last_errno digit_value errno skip (a ++ 10 ∷ b)
          ≡ last_errno digit_value (last_errno digit_value errno skip a) 0 (10 ∷ b)
    unfolding last_errno
    last_errno-append errno zero [] b h = refl
    last_errno-append errno (suc skip) [] b h = absurd (omega arith)
    last_errno-append errno (suc skip) (c ∷ a) b h = last_errno-append errno skip a b (omega arith)
    last_errno-append errno zero (c ∷ a) b h =
        elim (Option-cases (match_error digit_value (c ∷ a))) [
          | inl e ↦
              ground
                (arith, match_error-append (c ∷ a) b, last_errno-append errno 0 a b (omega arith))
          | inr ((n, size), e) ↦ ground (
            arith,
            match_error-append (c ∷ a) b,
            match_error-length digit_value (c ∷ a) {n = n} {size = size} e,
            last_errno-append (some n) (size - 1) a b,
          )
        ]

    -- A line end parts an older and a newer journal, of which each names a mount error or none: if
    -- the newer one names an error, the whole text has the newer one's cause; if only the older one
    -- does, the whole text has the older one's. It is supposed that a line end is no digit.
    pub translate_journal-append :
        (older newer : List ℕ) (n : ℕ)
        → (last_errno digit_value none 0 (10 ∷ newer) ≡ some n
            → translate_journal digit_value (older ++ 10 ∷ newer)
              ≡ translate_journal digit_value (10 ∷ newer))
          × (last_errno digit_value none 0 (10 ∷ newer) ≡ none
              → last_errno digit_value none 0 older ≡ some n
              → translate_journal digit_value (older ++ 10 ∷ newer)
                ≡ translate_journal digit_value older)
    translate_journal-append older newer n = (newer_wins older, older_stays older)
      where
        scanned :
            (a : List ℕ)
            → last_errno digit_value none 0 (a ++ 10 ∷ newer)
              ≡ or_else
                  (last_errno digit_value none 0 (10 ∷ newer))
                  (last_errno digit_value none 0 a)
        scanned a =
            last_errno-append none 0 a newer (omega arith)
            ∙ last_errno-or_else (last_errno digit_value none 0 a) 0 (10 ∷ newer)

        newer_wins :
            (a : List ℕ)
            → last_errno digit_value none 0 (10 ∷ newer) ≡ some n
            → translate_journal digit_value (a ++ 10 ∷ newer)
              ≡ translate_journal digit_value (10 ∷ newer)
        newer_wins [] e = refl
        newer_wins (c ∷ a) e = unfold translate_journal in rw (scanned (c ∷ a), e)

        older_stays :
            (a : List ℕ)
            → last_errno digit_value none 0 (10 ∷ newer) ≡ none
            → last_errno digit_value none 0 a ≡ some n
            → translate_journal digit_value (a ++ 10 ∷ newer) ≡ translate_journal digit_value a
        older_stays [] e k = unfold last_errno in cc
        older_stays (c ∷ a) e k = unfold translate_journal in rw (scanned (c ∷ a), e, k)

-- The words that a cause may have.
abbrev pub is_failure_word : StateName → Bool
is_failure_word StateName.auth_failed = true
is_failure_word StateName.failed = true
is_failure_word StateName.unreachable = true
is_failure_word StateName.unresolved = true
is_failure_word StateName.connecting = true
is_failure_word _ = false

-- A refused credential is not retried, and what is not retried is refused or failed.
abbrev pub IsSound : StateName → Bool → Type 0
IsSound state retryable =
    (is_failure_word state ≡ true)
    × (state ≡ StateName.auth_failed → retryable ≡ false)
    × (retryable ≡ false → (state ≡ StateName.auth_failed) ⊎ (state ≡ StateName.failed))

abbrev RowIsSound : Row → Type 0
RowIsSound r = IsSound r.1 r.3

errno_cause-IsSound :
    (rows : List Row) (n : ℕ)
    → All RowIsSound rows
    → IsSound (errno_cause rows n).state (errno_cause rows n).retryable
unfolding errno_cause
errno_cause-IsSound [] n h = ground arith
errno_cause-IsSound ((m, state, message, retryable) ∷ rows) n h = elim (Bool-cases (m == n)) [
  | inl e ↦ rw e h.0
  | inr e ↦ rw e (errno_cause-IsSound rows n h.1)
]

table-IsSound : All RowIsSound linux_mount_errno
table-IsSound = ground arith

abbrev pub AnswerIsSound : Option Cause → Type 0
AnswerIsSound none = Unit
AnswerIsSound (some cause) = IsSound cause.state cause.retryable

translated-AnswerIsSound : (o : Option ℕ) (text : List ℕ) → AnswerIsSound (translated o text)
translated-AnswerIsSound (some n) text = errno_cause-IsSound linux_mount_errno n table-IsSound
translated-AnswerIsSound none text = elim (Bool-cases (says_unresolved text)) [
  | inl u ↦ rw u (ground arith)
  | inr u ↦ rw u tt
]

-- Whatever the journal holds: a cause has one of the words `auth_failed`, `failed`, `unreachable`,
-- `unresolved` and `connecting`; if it is `auth_failed` it is not retryable; and if it is not
-- retryable it is `auth_failed` or `failed`.
pub translate_journal-IsSound :
    (digit_value : ℕ → Option ℕ) (text : List ℕ)
    → AnswerIsSound (translate_journal digit_value text)
unfolding translate_journal
translate_journal-IsSound digit_value [] = tt
translate_journal-IsSound digit_value (c ∷ text) =
    translated-AnswerIsSound (last_errno digit_value none 0 (c ∷ text)) (c ∷ text)
