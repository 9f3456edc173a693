-- ===== src/State/Machine/Meaning.antt =====
-- What each state that `derive` returns says of the machine, and what it never says.
use smbpal_desktop.Prelude.{
  ℕ, String, ◌≡◌, refl, ◌≢◌, ◌↔◌, ◌⊎◌, inl, inr, subst, sym, Bool, true, false, not, ◌||◌, ◌&&◌,
  Option, none, some, List, arith, Bool-cases, Option-cases, opt_str_eq, str_eq, Dict, lookup_or,
  eq_iff,
}
use smbpal_desktop.State.States.{StateName, ConnectionState, plain, is_state, is_problem}
use smbpal_desktop.State.Translate.{Cause, translate_journal}
use smbpal_desktop.State.Translate.Journal.{IsSound, AnswerIsSound, translate_journal-IsSound}
use smbpal_desktop.State.Machine.{
  Connection, Evidence, truthy, is_false, start_limit_hit, derive_mounted, cause_state,
  latched_state, derive_failed, unit_failed, is_activating, is_latched, derive_unit, derive_enabled,
  derive,
}

-- What a failed unit may be called.
abbrev is_trouble : StateName → Bool
is_trouble StateName.auth_failed = true
is_trouble StateName.failed = true
is_trouble StateName.unreachable = true
is_trouble StateName.unresolved = true
is_trouble StateName.connecting = true
is_trouble StateName.reconnecting = true
is_trouble _ = false

cause_state_lem :
    (cause : Cause)
    → IsSound cause.state cause.retryable
    → (is_trouble (cause_state cause) ≡ true)
      × (cause_state cause ≡ StateName.auth_failed → cause.retryable ≡ false)
      × (cause_state cause ≡ StateName.reconnecting → cause.retryable ≡ true)
unfolding cause_state
cause_state_lem cause h = ground arith

-- A failed unit is in trouble; a refused credential is not retried; nothing latched is retried.
record FailedFacts (s : ConnectionState) (latched : Bool) : Type 0 where
  trouble : is_trouble s.state ≡ true
  refused : s.state ≡ StateName.auth_failed → s.retryable ≡ false
  reconnecting : s.state ≡ StateName.reconnecting → s.retryable ≡ true
  writable : s.read_only ≡ false
  stopped :
      latched ≡ true
      → ((s.state ≡ StateName.auth_failed) ⊎ (s.state ≡ StateName.failed)) × (s.retryable ≡ false)

derive_failed-FailedFacts :
    (c : Connection) (cause : Option Cause) (unit : Dict String) (latched : Bool)
    → AnswerIsSound cause
    → FailedFacts (derive_failed c cause unit latched) latched
unfolding derive_failed latched_state
derive_failed-FailedFacts c none unit true h = ground arith
derive_failed-FailedFacts c none unit false h = ground arith
derive_failed-FailedFacts c (some cause) unit true h = ground (arith, cause_state_lem cause h)
derive_failed-FailedFacts c (some cause) unit false h = ground (arith, cause_state_lem cause h)

-- `start-limit-hit` is neither empty nor `success`, so the unit counts as failed.
latched_result :
    (result active : String)
    → str_eq result start_limit_hit ≡ true
    → (str_eq active "failed" || (not (str_eq result "") && not (str_eq result "success"))) ≡ true
latched_result result active h = rw ((eq_iff result start_limit_hit).0 h) (ground arith)

-- What is said of a connection that is not mounted.
record UnitFacts (s : ConnectionState) (c : Connection) (e : Evidence) : Type 0 where
  never_connected : is_state s.state StateName.connected ≡ false
  never_disabled : is_state s.state StateName.disabled ≡ false
  refused : s.state ≡ StateName.auth_failed → s.retryable ≡ false
  reconnecting : s.state ≡ StateName.reconnecting → s.retryable ≡ true
  writable : s.read_only ≡ false
  calm : (s.state ≡ StateName.idle) ⊎ (s.state ≡ StateName.unknown) → s.retryable ≡ false
  ready : s.state ≡ StateName.idle → is_false e.armed ≡ false

derive_unit-UnitFacts :
    (c : Connection) (e : Evidence) (unit : Option (Dict String))
    → AnswerIsSound e.cause
    → UnitFacts (derive_unit c e unit) c e
unfolding derive_unit is_state
derive_unit-UnitFacts c e none h = ground arith
derive_unit-UnitFacts c e (some unit) h = elim (Bool-cases (is_activating unit)) [
  | inl a ↦ rw a (ground arith)
  | inr a ↦ elim (Bool-cases (unit_failed unit)) [
    | inl f ↦
        rw (a, f) (ground (arith, derive_failed-FailedFacts c e.cause unit (is_latched unit) h))
    | inr f ↦ rw (a, f) (ground arith)
  ]
]

-- The four ways through `derive`, with what each returns.
derive_branches :
    (c : Connection) (e : Evidence)
    → ((opt_str_eq c.auto_connect "never" ≡ true)
        × (derive c e ≡ plain c.id StateName.disabled "not connected automatically"))
      ⊎ ((opt_str_eq c.auto_connect "never" ≡ false)
          × (e.occupied_by ≢ none)
          × (is_state (derive c e).state StateName.failed ≡ true)
          × ((derive c e).retryable ≡ false)
          × ((derive c e).read_only ≡ false))
      ⊎ ((opt_str_eq c.auto_connect "never" ≡ false)
          × (e.occupied_by ≡ none)
          × (truthy e.mounted ≡ true)
          × (derive c e ≡ derive_mounted c e))
      ⊎ ((opt_str_eq c.auto_connect "never" ≡ false)
          × (e.occupied_by ≡ none)
          × (truthy e.mounted ≡ false)
          × (derive c e ≡ derive_unit c e e.unit))
unfolding derive derive_enabled is_state
derive_branches c e = elim (Bool-cases (opt_str_eq c.auto_connect "never")) [
  | inl n ↦ inl (n, rw n)
  | inr n ↦ elim (Option-cases e.occupied_by) [
    | inr (o, h) ↦ inr (inl (n, ground arith, rw (n, h), rw (n, h), rw (n, h)))
    | inl h ↦ elim (Bool-cases (truthy e.mounted)) [
      | inl m ↦ inr (inr (inl (n, h, m, rw (n, h, m))))
      | inr m ↦ inr (inr (inr (n, h, m, rw (n, h, m))))
    ]
  ]
]

abbrev pub is_some {ℓ} : {A : Type ℓ} → Option A → Bool
is_some none = false
is_some (some _) = true

-- The cause was read from a journal, of which an unread one is empty.
module _ (digit_value : ℕ → Option ℕ) (text : List ℕ) (c : Connection) (e : Evidence)
    (from_journal : e.cause ≡ translate_journal digit_value text) where
  unit_facts : UnitFacts (derive_unit c e e.unit) c e
  unit_facts =
      derive_unit-UnitFacts c e e.unit
        (subst AnswerIsSound (sym from_journal) (translate_journal-IsSound digit_value text))

  -- A connection is `connected` exactly when it is not switched off, no other file system stands at
  -- its mountpoint, it is in the mount table, and its server is not known to have stopped answering.
  -- It is supposed that the cause, if any, was read from a journal.
  pub derive_connected : ((derive c e).state ≡ StateName.connected) ↔ (
      (opt_str_eq c.auto_connect "never" ≡ false)
      × (e.occupied_by ≡ none)
      × (truthy e.mounted ≡ true)
      × (is_false e.server_answering ≡ false))
  unfolding derive_mounted is_state
  derive_connected = (
    λ h. ground (arith, derive_branches c e, unit_facts),
    λ h. ground (arith, derive_branches c e, unit_facts),
  )

  -- A connection whose credential was refused is never shown as one that will be retried, one that
  -- is `reconnecting` always is, and `idle`, `disabled`, `connected` and `unknown` never are. It is
  -- supposed that the cause, if any, was read from a journal.
  pub derive_retryable :
      ((derive c e).state ≡ StateName.auth_failed → (derive c e).retryable ≡ false)
      × ((derive c e).state ≡ StateName.reconnecting → (derive c e).retryable ≡ true)
      × ((derive c e).retryable ≡ true
          → (is_state (derive c e).state StateName.idle ≡ false)
            × (is_state (derive c e).state StateName.disabled ≡ false)
            × (is_state (derive c e).state StateName.connected ≡ false)
            × (is_state (derive c e).state StateName.unknown ≡ false))
  unfolding derive_mounted is_state
  derive_retryable = (
    λ h. ground (arith, derive_branches c e, unit_facts),
    λ h. ground (arith, derive_branches c e, unit_facts),
    λ h. ground (arith, derive_branches c e, unit_facts),
  )

  -- The mount is called read-only only where something is mounted and the kernel said that it is
  -- read-only. It is supposed that the cause, if any, was read from a journal.
  pub derive_read_only :
      (derive c e).read_only ≡ true
      → (truthy e.mounted ≡ true) × (truthy e.read_only ≡ true) × (e.occupied_by ≡ none)
  unfolding derive_mounted
  derive_read_only h = ground (arith, derive_branches c e, unit_facts)

  stopped_unit :
      (unit : Dict String)
      → e.unit ≡ some unit
      → is_activating unit ≡ false
      → is_latched unit ≡ true
      → (((derive_unit c e e.unit).state ≡ StateName.auth_failed)
          ⊎ ((derive_unit c e e.unit).state ≡ StateName.failed))
        × ((derive_unit c e e.unit).retryable ≡ false)
  unfolding derive_unit unit_failed
  stopped_unit unit shown a l =
      let failed : unit_failed unit ≡ true =
        latched_result (lookup_or "Result" "" unit) (lookup_or "ActiveState" "" unit) l in
      let sound : AnswerIsSound e.cause =
        subst AnswerIsSound (sym from_journal) (translate_journal-IsSound digit_value text) in
      rw (shown, a, failed)
        (ground (arith, derive_failed-FailedFacts c e.cause unit (is_latched unit) sound))

  -- When systemd has stopped retrying the unit of a connection and is not mounting it, whatever else
  -- is known: the connection is a problem exactly if it is not switched off and one of these holds:
  -- something else stands at its mountpoint, it is not mounted, its server has stopped answering. It
  -- is shown as one that will be retried exactly if it is not switched off, nothing else stands there,
  -- it is mounted and its server has stopped answering. It is never shown as connecting, reconnecting,
  -- idle or unknown. It is supposed that the cause, if any, was read from a journal.
  pub derive_latched :
      (unit : Dict String)
      → e.unit ≡ some unit
      → is_activating unit ≡ false
      → is_latched unit ≡ true
      → (is_problem (derive c e) ≡ (
          not (opt_str_eq c.auto_connect "never")
          && (is_some e.occupied_by || not (truthy e.mounted) || is_false e.server_answering)))
        × ((derive c e).retryable ≡ (
            not (opt_str_eq c.auto_connect "never")
            && not (is_some e.occupied_by)
            && truthy e.mounted
            && is_false e.server_answering))
        × (is_state (derive c e).state StateName.connecting ≡ false)
        × (is_state (derive c e).state StateName.reconnecting ≡ false)
        × (is_state (derive c e).state StateName.idle ≡ false)
        × (is_state (derive c e).state StateName.unknown ≡ false)
  unfolding derive derive_enabled derive_mounted is_state is_problem
  derive_latched unit shown a l = elim (Bool-cases (opt_str_eq c.auto_connect "never")) [
    | inl n ↦ rw n (refl, refl, refl, refl, refl, refl)
    | inr n ↦ elim (Option-cases e.occupied_by) [
      | inr (o, h) ↦ rw (n, h) (refl, refl, refl, refl, refl, refl)
      | inl h ↦ elim (Bool-cases (truthy e.mounted)) [
        | inl m ↦ rw (n, h, m) (ground arith)
        | inr m ↦ rw (n, h, m) (ground (arith, stopped_unit unit shown a l))
      ]
    ]
  ]

-- Every state carries its connection's id.
derive_failed-id :
    (c : Connection) (cause : Option Cause) (unit : Dict String) (latched : Bool)
    → (derive_failed c cause unit latched).id ≡ c.id
unfolding derive_failed
derive_failed-id c none unit latched = refl
derive_failed-id c (some cause) unit latched = refl

derive_unit-id :
    (c : Connection) (e : Evidence) (unit : Option (Dict String)) → (derive_unit c e unit).id ≡ c.id
unfolding derive_unit
derive_unit-id c e none = refl
derive_unit-id c e (some unit) = ground (arith, derive_failed-id c e.cause unit (is_latched unit))

derive_enabled-id :
    (c : Connection) (e : Evidence) (o : Option String) → (derive_enabled c e o).id ≡ c.id
unfolding derive_enabled derive_mounted
derive_enabled-id c e (some occupant) = refl
derive_enabled-id c e none = ground (arith, derive_unit-id c e e.unit)

pub derive-id : (c : Connection) (e : Evidence) → (derive c e).id ≡ c.id
unfolding derive
derive-id c e = ground (arith, derive_enabled-id c e e.occupied_by)
