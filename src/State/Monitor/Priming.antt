-- ===== src/State/Monitor/Priming.antt =====
-- What one call of `_maybe_prime` does to what is remembered about its connection, and to the starts
-- that were queued for it.
use Prim.Native.String.{◌++◌}
use smbpal_desktop.Prelude.{
  String, ℕ, zero, suc, ◌+◌, ◌<◌, ◌∙◌, ◌≡◌, refl, sym, subst, ◌⊎◌, inl, inr, true, false, not, ◌&&◌,
  none, some, arith, leb, str_eq, lookup, Bool-cases,
}
use smbpal_desktop.State.States.{StateName, is_state}
use smbpal_desktop.State.Translate.{Cause}
use smbpal_desktop.State.Machine.{Connection}
use smbpal_desktop.State.Monitor.{
  World, StateMonitor, latch, declining, target_of, mount_name, queued_for, is_attempt_for,
  is_target, journal_cause, auto_of, is_refusal, after_queued, prime_idle, prime_connected,
  maybe_prime, prime_attempts,
}
use smbpal_desktop.State.Monitor.Views.{
  starts_of, View, view, declining-view, latch-view_self, queue_start-view_self,
}

-- What a call may do to the view of its own connection: nothing, set the latch, or queue one start.
-- A start is queued only for an idle connection that is not latched, that is switched on, whose
-- server answers if it is asked, with fewer than three starts queued before, and, if there was one,
-- with nothing in the journal that forbids a retry.
abbrev pub MayStart : World → Connection → StateName → View → Type 0
MayStart w c state v =
    (state ≡ StateName.idle)
    × (is_target v.primed (target_of c) ≡ false)
    × (str_eq (auto_of c) "never" ≡ false)
    × ((str_eq (auto_of c) "on_this_network" && not (w.reachable c.host)) ≡ false)
    × (queued_for v.attempted (target_of c) < prime_attempts)
    × ((queued_for v.attempted (target_of c) ≡ 0)
        ⊎ (is_refusal (journal_cause w (mount_name c)) ≡ false))

abbrev pub latched_view : Connection → View → View
latched_view c v = record { primed = some (target_of c); attempted = none; starts = v.starts }

abbrev pub started_view : Connection → View → View
started_view c v = record {
  primed = v.primed;
  attempted = some (target_of c, queued_for v.attempted (target_of c) + 1);
  starts = suc v.starts;
}

abbrev pub Outcome : World → Connection → StateName → View → View → Type 0
Outcome w c state v v' =
    (v' ≡ v) ⊎ (v' ≡ latched_view c v) ⊎ ((v' ≡ started_view c v) × MayStart w c state v)

after_queued-Outcome :
    (w : World) (c : Connection) (n : ℕ) (m : StateMonitor)
    → (view c.id (after_queued w c n m) ≡ view c.id m)
      ⊎ (view c.id (after_queued w c n m) ≡ latched_view c (view c.id m))
      ⊎ ((view c.id (after_queued w c n m) ≡ record {
        primed = lookup c.id m.primed;
        attempted = some (target_of c, n + 1);
        starts = suc (starts_of c.id m.starts);
      })
          × (n < prime_attempts)
          × ((n ≡ 0) ⊎ (is_refusal (journal_cause w (mount_name c)) ≡ false)))
unfolding after_queued
after_queued-Outcome w c zero m = elim (queue_start-view_self w c 0 m) [
  | inl e ↦ inl e
  | inr e ↦ inr (inr (e, omega arith, inl refl))
]
after_queued-Outcome w c (suc n) m =
    elim (Bool-cases (is_refusal (journal_cause w (mount_name c)))) [
      | inl r ↦ inr (
          inl (
            rw (r, after_queued)
              (declining-view c.id _ c.id _ ∙ latch-view_self c.id _ (target_of c) m)))
      | inr r ↦ elim (Bool-cases (leb prime_attempts (suc n))) [
        | inl l ↦ inr (
            inl (
              rw (r, l, after_queued)
                (declining-view c.id _ c.id _ ∙ latch-view_self c.id _ (target_of c) m)))
        | inr l ↦ elim (queue_start-view_self w c (suc n) m) [
          | inl e ↦ inl (rw (r, l, after_queued) e)
          | inr e ↦ inr (inr (rw (r, l, after_queued) e, ground arith, inr r))
        ]
      ]
    ]

prime_idle-Outcome :
    (w : World) (c : Connection) (m : StateMonitor)
    → is_target (lookup c.id m.primed) (target_of c) ≡ false
    → Outcome w c StateName.idle (view c.id m) (view c.id (prime_idle w c m))
unfolding prime_idle
prime_idle-Outcome w c m p = elim (Bool-cases (str_eq (auto_of c) "never")) [
  | inl n ↦ inl (rw (n, prime_idle) (declining-view c.id _ c.id m))
  | inr n ↦ elim (Bool-cases (str_eq (auto_of c) "on_this_network" && not (w.reachable c.host))) [
    | inl r ↦ inl (rw (n, r, prime_idle) (declining-view c.id _ c.id m))
    | inr r ↦
        elim (after_queued-Outcome w c (queued_for (lookup c.id m.attempted) (target_of c)) m) [
          | inl e ↦ inl (rw (n, r, prime_idle) e)
          | inr (inl e) ↦ inr (inl (rw (n, r, prime_idle) e))
          | inr (inr (e, few, why)) ↦ inr (inr (rw (n, r, prime_idle) e, (refl, p, n, r, few, why)))
        ]
  ]
]

prime_connected-view :
    (c : Connection) (m : StateMonitor)
    → view c.id (prime_connected c m) ≡ latched_view c (view c.id m)
unfolding prime_connected
prime_connected-view c m =
    elim (Bool-cases (is_attempt_for (lookup c.id m.attempted) (target_of c))) [
      | inl e ↦ rw (e, prime_connected) (latch-view_self c.id _ (target_of c) m)
      | inr e ↦
          rw (e, prime_connected)
            (declining-view c.id _ c.id _ ∙ latch-view_self c.id _ (target_of c) m)
    ]

idle_of_is_state :
    (state : StateName) → is_state state StateName.idle ≡ true → state ≡ StateName.idle
unfolding is_state
idle_of_is_state state h = ground arith

pub maybe_prime-Outcome :
    (w : World) (c : Connection) (state : StateName) (m : StateMonitor)
    → Outcome w c state (view c.id m) (view c.id (maybe_prime w c state m))
unfolding maybe_prime
maybe_prime-Outcome w c state m = elim (Bool-cases (is_state state StateName.connected)) [
  | inl k ↦ inr (inl (rw (k, maybe_prime) (prime_connected-view c m)))
  | inr k ↦ elim (Bool-cases (is_target (lookup c.id m.primed) (target_of c))) [
    | inl p ↦ elim (Bool-cases (is_state state StateName.idle)) [
      | inl i ↦ inl (rw (k, p, i, maybe_prime) (declining-view c.id _ c.id m))
      | inr i ↦ inl (rw (k, p, i, maybe_prime) refl)
    ]
    | inr p ↦ elim (Bool-cases (is_state state StateName.idle)) [
      | inl i ↦
          let idles : maybe_prime w c state m ≡ prime_idle w c m = rw (k, p, i, maybe_prime) refl in
          subst
            (λ (s : StateName). Outcome w c s (view c.id m) (view c.id (maybe_prime w c state m)))
            (sym (idle_of_is_state state i))
            (subst (λ (n : StateMonitor). Outcome w c StateName.idle (view c.id m) (view c.id n))
              (sym idles) (prime_idle-Outcome w c m p))
      | inr i ↦ inl (rw (k, p, i, maybe_prime) (declining-view c.id _ c.id m))
    ]
  ]
]

-- A call for a connection that is seen mounted sets the latch.
pub maybe_prime-connected :
    (w : World) (c : Connection) (m : StateMonitor)
    → view c.id (maybe_prime w c StateName.connected m) ≡ latched_view c (view c.id m)
unfolding maybe_prime is_state
maybe_prime-connected w c m = prime_connected-view c m

-- An idle connection with a queued start and a cause that no retry can mend is latched.
pub maybe_prime-refused :
    (w : World) (c : Connection) (cause : Cause) (n : ℕ) (m : StateMonitor)
    → is_target (lookup c.id m.primed) (target_of c) ≡ false
    → str_eq (auto_of c) "never" ≡ false
    → (str_eq (auto_of c) "on_this_network" && not (w.reachable c.host)) ≡ false
    → queued_for (lookup c.id m.attempted) (target_of c) ≡ suc n
    → journal_cause w (mount_name c) ≡ some cause
    → cause.retryable ≡ false
    → view c.id (maybe_prime w c StateName.idle m) ≡ latched_view c (view c.id m)
unfolding maybe_prime prime_idle is_state
maybe_prime-refused w c cause n m p a r q j k =
    rw (p, a, r, q, refused) (declining-view c.id _ c.id _ ∙ latch-view_self c.id _ (target_of c) m)
  where
    reason : String
    reason = "the mount was refused: " ++ cause.message

    refused : after_queued w c (suc n) m ≡ declining c.id reason (latch c.id (target_of c) reason m)
    refused = unfold after_queued in rw (j, k)
