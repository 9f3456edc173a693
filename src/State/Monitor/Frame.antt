-- ===== src/State/Monitor/Frame.antt =====
-- A call of `_maybe_prime` leaves what is remembered about other connections as it was.
use smbpal_desktop.Prelude.{
  ℕ, zero, suc, ◌+◌, ◌∙◌, ◌≡◌, refl, inl, inr, String, false, not, ◌&&◌, leb, str_eq, lookup,
  lookup-insert, lookup-remove, Bool-cases, Option-cases,
}
use smbpal_desktop.State.States.{StateName, is_state}
use smbpal_desktop.State.Machine.{Connection}
use smbpal_desktop.State.Monitor.{
  Target, World, StateMonitor, target_of, mount_name, latch, declining, queued_for, is_attempt_for,
  is_target, journal_cause, auto_of, queue_start, is_refusal, after_queued, prime_idle,
  prime_connected, maybe_prime, prime_attempts,
}
use smbpal_desktop.State.Monitor.Views.{view, starts_of-append, declining-view}

-- A rule for what every way through a call keeps.
pub maybe_prime_rule :
    (w : World) (c : Connection) (state : StateName) (m : StateMonitor) (P : StateMonitor → Type 0)
    → P m
    → ((because : String) → P (latch c.id (target_of c) because m))
    → ((n : ℕ) → P (queue_start w c n m))
    → ((reason : String) (n : StateMonitor) → P n → P (declining c.id reason n))
    → P (maybe_prime w c state m)
unfolding maybe_prime prime_connected prime_idle after_queued
maybe_prime_rule w c state m P stay latched started declined =
    elim (Bool-cases (is_state state StateName.connected)) [
      | inl k ↦ elim (Bool-cases (is_attempt_for (lookup c.id m.attempted) (target_of c))) [
        | inl a ↦ rw (k, a, maybe_prime, prime_connected) (latched _)
        | inr a ↦ rw (k, a, maybe_prime, prime_connected) (declined _ _ (latched _))
      ]
      | inr k ↦ elim (Bool-cases (is_target (lookup c.id m.primed) (target_of c))) [
        | inl p ↦ elim (Bool-cases (is_state state StateName.idle)) [
          | inl i ↦ rw (k, p, i, maybe_prime) (declined _ _ stay)
          | inr i ↦ rw (k, p, i, maybe_prime) stay
        ]
        | inr p ↦ elim (Bool-cases (is_state state StateName.idle)) [
          | inr i ↦ rw (k, p, i, maybe_prime) (declined _ _ stay)
          | inl i ↦ rw (k, p, i, maybe_prime) idles
        ]
      ]
    ]
  where
    queued : (n : ℕ) → P (after_queued w c n m)
    queued zero = started 0
    queued (suc n) = elim (Bool-cases (is_refusal (journal_cause w (mount_name c)))) [
      | inl r ↦ rw (r, after_queued) (declined _ _ (latched _))
      | inr r ↦ elim (Bool-cases (leb prime_attempts (suc n))) [
        | inl l ↦ rw (r, l, after_queued) (declined _ _ (latched _))
        | inr l ↦ rw (r, l, after_queued) (started (suc n))
      ]
    ]

    idles : P (prime_idle w c m)
    idles = elim (Bool-cases (str_eq (auto_of c) "never")) [
      | inl n ↦ rw (n, prime_idle) (declined _ _ stay)
      | inr n ↦
          elim (Bool-cases (str_eq (auto_of c) "on_this_network" && not (w.reachable c.host))) [
            | inl r ↦ rw (n, r, prime_idle) (declined _ _ stay)
            | inr r ↦
                rw (n, r, prime_idle) (queued (queued_for (lookup c.id m.attempted) (target_of c)))
          ]
    ]

latch-view_ne :
    (k id because : String) (t : Target) (m : StateMonitor)
    → str_eq k id ≡ false
    → view id (latch k t because m) ≡ view id m
unfolding latch
latch-view_ne k id because t m e =
    rw (lookup-insert k id t m.primed, lookup-remove k id m.attempted, e)

queue_start-view_ne :
    (w : World) (c : Connection) (n : ℕ) (id : String) (m : StateMonitor)
    → str_eq c.id id ≡ false
    → view id (queue_start w c n m) ≡ view id m
unfolding queue_start
queue_start-view_ne w c n id m e = elim (Option-cases (w.start_error (mount_name c))) [
  | inl h ↦
      rw (h, queue_start)
        (rw (
          lookup-insert c.id id (target_of c, n + 1) m.attempted,
          starts_of-append id m.starts c.id (mount_name c),
          e,
        ))
  | inr (message, h) ↦ rw (h, queue_start) (declining-view c.id _ id m)
]

-- A call for one connection leaves the view of every other as it was.
pub maybe_prime-view_ne :
    (w : World) (c : Connection) (state : StateName) (id : String) (m : StateMonitor)
    → str_eq c.id id ≡ false
    → view id (maybe_prime w c state m) ≡ view id m
maybe_prime-view_ne w c state id m e =
    maybe_prime_rule w c state m (λ n. view id n ≡ view id m) refl
      (λ because. latch-view_ne c.id id because (target_of c) m e)
      (λ n. queue_start-view_ne w c n id m e) (λ reason n h. declining-view c.id reason id n ∙ h)
