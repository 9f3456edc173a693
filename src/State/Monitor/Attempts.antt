-- ===== src/State/Monitor/Attempts.antt =====
-- Priming over any sequence of calls: how often a connection is started, and that an eject and a
-- refused credential are respected. The daemon's calls of `forget` end such a sequence.
use smbpal_desktop.Prelude.{
  ℕ, suc, ◌+◌, ◌≤◌, ◌≡◌, refl, sym, subst, ap, ◌∙◌, inl, inr, String, true, false, none, some, not,
  ◌&&◌, List, [], ◌∷◌, arith, str_eq, eq_iff, lookup, All, Bool-cases,
}
use smbpal_desktop.State.States.{StateName}
use smbpal_desktop.State.Translate.{Cause}
use smbpal_desktop.State.Machine.{Connection}
use smbpal_desktop.State.Monitor.{
  Target, target_eq, World, StateMonitor, target_of, mount_name, queued_for, is_target,
  journal_cause, maybe_prime, auto_of, prime_attempts,
}
use smbpal_desktop.State.Monitor.Views.{starts_of, View, view, target_eq_refl}
use smbpal_desktop.State.Monitor.Priming.{
  latched_view, Outcome, maybe_prime-Outcome, maybe_prime-connected, maybe_prime-refused,
}
use smbpal_desktop.State.Monitor.Frame.{maybe_prime-view_ne}

-- One call of `_maybe_prime`.
pub record Call : Type 0 where
  pub world : World
  pub connection : Connection
  pub state : StateName

unfoldable pub run : List Call → StateMonitor → StateMonitor
run [] m = m
run (k ∷ calls) m = run calls (maybe_prime k.world k.connection k.state m)

-- As long as a connection is not edited, all its calls have one target.
abbrev pub PointsTo : String → Target → Call → Type 0
PointsTo id t k = str_eq k.connection.id id ≡ true → target_of k.connection ≡ t

-- Either the latch is set, or every start since `base` is in the count of attempts.
record Budget (base : ℕ) (t : Target) (v : View) : Type 0 where
  few : v.starts ≤ base + prime_attempts
  counted : is_target v.primed t ≡ false → v.starts ≡ base + queued_for v.attempted t

Outcome-Budget :
    (w : World) (c : Connection) (state : StateName) (base : ℕ) (v v' : View)
    → Outcome w c state v v'
    → Budget base (target_of c) v
    → Budget base (target_of c) v'
unfolding queued_for
Outcome-Budget w c state base v v' (inl e) b = subst (Budget base (target_of c)) (sym e) b
Outcome-Budget w c state base v v' (inr (inl e)) b =
    subst (Budget base (target_of c)) (sym e)
      (record { few = b.few; counted = λ h. absurd (cc (target_eq_refl (target_of c))) })
Outcome-Budget w c state base v v' (inr (inr (e, may))) b =
    subst (Budget base (target_of c)) (sym e) (record {
      few = omega (arith, b.counted may.1, may.4);
      counted = λ h. rw (target_eq_refl (target_of c)) (omega (arith, b.counted may.1));
    })

abbrev after : Call → StateMonitor → StateMonitor
after k m = maybe_prime k.world k.connection k.state m

module _ (id : String) (t : Target) where
  -- A call keeps what its outcomes keep; a call for another connection changes nothing here.
  call_rule :
      (P : View → Type 0) (k : Call) (m : StateMonitor)
      → PointsTo id t k
      → ((v' : View)
          → (target_of k.connection ≡ t)
          → Outcome k.world k.connection k.state (view id m) v'
          → P v')
      → P (view id m)
      → P (view id (after k m))
  call_rule P k m points outcome p = elim (Bool-cases (str_eq k.connection.id id)) [
    | inr e ↦ subst P (sym (maybe_prime-view_ne k.world k.connection k.state id m e)) p
    | inl e ↦
        let same : k.connection.id ≡ id = (eq_iff k.connection.id id).0 e in
        outcome (view id (after k m)) (points e) (
          subst
            (λ (i : String). Outcome k.world k.connection k.state (view i m) (view i (after k m)))
            same (maybe_prime-Outcome k.world k.connection k.state m))
  ]

  run-Budget :
      (base : ℕ) (calls : List Call) (m : StateMonitor)
      → All (PointsTo id t) calls
      → Budget base t (view id m)
      → Budget base t (view id (run calls m))
  unfolding run
  run-Budget base [] m h b = b
  run-Budget base (k ∷ calls) m h b = run-Budget base calls (after k m) h.1 (
      call_rule (Budget base t) k m h.0
        (λ v' same o.
          subst (λ (u : Target). Budget base u v') same
            (Outcome-Budget k.world k.connection k.state base (view id m) v' o
              (subst (λ (u : Target). Budget base u (view id m)) (sym same) b)))
        b)

  -- However the world answers and whatever states are seen, a connection that nothing is remembered
  -- about is started at most three times, as long as it is neither edited nor forgotten.
  pub starts_bounded :
      (calls : List Call) (m : StateMonitor)
      → All (PointsTo id t) calls
      → lookup id m.primed ≡ none
      → lookup id m.attempted ≡ none
      → starts_of id (run calls m).starts ≤ starts_of id m.starts + 3
  unfolding queued_for
  starts_bounded calls m h p a =
      (run-Budget (starts_of id m.starts) calls m h
        (record { few = omega arith; counted = λ e. rw a (omega arith) })).few

  record Latched (n : ℕ) (v : View) : Type 0 where
    set : is_target v.primed t ≡ true
    still : v.starts ≡ n

  run-Latched :
      (n : ℕ) (calls : List Call) (m : StateMonitor)
      → All (PointsTo id t) calls
      → Latched n (view id m)
      → Latched n (view id (run calls m))
  unfolding run
  run-Latched n [] m h l = l
  run-Latched n (k ∷ calls) m h l = run-Latched n calls (after k m) h.1 (
      call_rule (Latched n) k m h.0
        (λ v' same o. elim o [
          | inl e ↦ subst (Latched n) (sym e) l
          | inr (inl e) ↦ subst (Latched n) (sym e) (record {
            set = subst (λ (u : Target). target_eq u t ≡ true) (sym same) (target_eq_refl t);
            still = l.still;
          })
          | inr (inr (e, may)) ↦ absurd (
              cc (
                subst (λ (u : Target). is_target (lookup id m.primed) u ≡ false) same may.1,
                l.set,
              ))
        ])
        l)

  -- A connection that is latched for its target is never started again, as long as it is neither
  -- edited nor forgotten.
  pub latched_never_started :
      (calls : List Call) (m : StateMonitor)
      → All (PointsTo id t) calls
      → is_target (lookup id m.primed) t ≡ true
      → starts_of id (run calls m).starts ≡ starts_of id m.starts
  latched_never_started calls m h p =
      (run-Latched (starts_of id m.starts) calls m h (record { set = p; still = refl })).still

-- Once a connection was seen mounted it is never started again, as long as it is neither edited nor
-- forgotten: an eject is a choice to respect.
pub eject_respected :
    (w : World) (c : Connection) (calls : List Call) (m : StateMonitor)
    → All (PointsTo c.id (target_of c)) calls
    → starts_of c.id (run calls (maybe_prime w c StateName.connected m)).starts
      ≡ starts_of c.id m.starts
eject_respected w c calls m h =
    latched_never_started c.id (target_of c) calls (maybe_prime w c StateName.connected m) h (
      subst (λ (v : View). is_target v.primed (target_of c) ≡ true)
        (sym (maybe_prime-connected w c m)) (target_eq_refl (target_of c)))
    ∙ ap (λ (v : View). v.starts) (maybe_prime-connected w c m)

-- A start was queued for an idle connection, and its journal names a cause that no retry can mend,
-- such as a refused credential: the call queues no start, and no later call does, as long as the
-- connection is neither edited nor forgotten. It is supposed that the connection is switched on, not
-- latched, and that its server answers if it is asked.
pub refused_never_retried :
    (w : World) (c : Connection) (cause : Cause) (n : ℕ) (calls : List Call) (m : StateMonitor)
    → All (PointsTo c.id (target_of c)) calls
    → is_target (lookup c.id m.primed) (target_of c) ≡ false
    → str_eq (auto_of c) "never" ≡ false
    → (str_eq (auto_of c) "on_this_network" && not (w.reachable c.host)) ≡ false
    → queued_for (lookup c.id m.attempted) (target_of c) ≡ suc n
    → journal_cause w (mount_name c) ≡ some cause
    → cause.retryable ≡ false
    → starts_of c.id (run calls (maybe_prime w c StateName.idle m)).starts ≡ starts_of c.id m.starts
refused_never_retried w c cause n calls m h p a r q j k =
    latched_never_started c.id (target_of c) calls (maybe_prime w c StateName.idle m) h (
      subst (λ (v : View). is_target v.primed (target_of c) ≡ true) (sym latches)
        (target_eq_refl (target_of c)))
    ∙ ap (λ (v : View). v.starts) latches
  where
    latches : view c.id (maybe_prime w c StateName.idle m) ≡ latched_view c (view c.id m)
    latches = maybe_prime-refused w c cause n m p a r q j k
