-- ===== src/State/Monitor/Views.antt =====
-- What priming remembers about one connection, and how latching, declining and starting change it.
use mathlib.Core.List.{◌++◌ as ◌⊕◌}
use smbpal_desktop.Prelude.{
  ℕ, suc, ◌+◌, ◌≡◌, refl, ◌⊎◌, inl, inr, String, true, Option, none, some, List, [], ◌∷◌, arith,
  if◌then◌else◌, str_eq, str_eq_refl, lookup, lookup-insert, lookup-remove, Option-cases,
}
use smbpal_desktop.State.Machine.{Connection}
use smbpal_desktop.State.Monitor.{
  Target, target_eq, World, StateMonitor, target_of, mount_name, latch, declining, queue_start,
}

-- How many starts were queued for a connection.
abbrev pub starts_of : String → List (String × String) → ℕ
starts_of id [] = 0
starts_of id ((i, unit) ∷ starts) =
    let rest = starts_of id starts in if str_eq i id then suc rest else rest

pub starts_of-append :
    (id : String) (starts : List (String × String)) (i unit : String)
    → starts_of id (starts ⊕ (i, unit) ∷ [])
      ≡ (if str_eq i id then suc (starts_of id starts) else starts_of id starts)
starts_of-append id [] i unit = refl
starts_of-append id ((j, u) ∷ starts) i unit = ground (arith, starts_of-append id starts i unit)

pub target_eq_refl : (t : Target) → target_eq t t ≡ true
target_eq_refl t = rw (str_eq_refl t.0, str_eq_refl t.1, str_eq_refl t.2)

-- What priming remembers about one connection.
pub record View : Type 0 where
  pub primed : Option Target
  pub attempted : Option (Target × ℕ)
  pub starts : ℕ

abbrev pub view : String → StateMonitor → View
view id m = record {
  primed = lookup id m.primed;
  attempted = lookup id m.attempted;
  starts = starts_of id m.starts;
}

pub declining-view :
    (k reason id : String) (m : StateMonitor) → view id (declining k reason m) ≡ view id m
unfolding declining
declining-view k reason id m = ground arith

pub latch-view_self :
    (id because : String) (t : Target) (m : StateMonitor)
    → view id (latch id t because m)
      ≡ record { primed = some t; attempted = none; starts = starts_of id m.starts }
unfolding latch
latch-view_self id because t m =
    rw (lookup-insert id id t m.primed, lookup-remove id id m.attempted, str_eq_refl id)

pub queue_start-view_self :
    (w : World) (c : Connection) (n : ℕ) (m : StateMonitor)
    → (view c.id (queue_start w c n m) ≡ view c.id m)
      ⊎ (view c.id (queue_start w c n m) ≡ record {
        primed = lookup c.id m.primed;
        attempted = some (target_of c, n + 1);
        starts = suc (starts_of c.id m.starts);
      })
unfolding queue_start
queue_start-view_self w c n m = elim (Option-cases (w.start_error (mount_name c))) [
  | inl e ↦ inr (
      rw (e, queue_start)
        (rw (
          lookup-insert c.id c.id (target_of c, n + 1) m.attempted,
          starts_of-append c.id m.starts c.id (mount_name c),
          str_eq_refl c.id,
        )))
  | inr (message, e) ↦ inl (rw (e, queue_start) (declining-view c.id _ c.id m))
]
