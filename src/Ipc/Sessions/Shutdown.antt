-- ===== src/Ipc/Sessions/Shutdown.antt =====
-- After a shutdown no connection stays open, in whatever order the threads take their steps.
use smbpal_desktop.Prelude.{ℕ, ◌≡◌, refl, subst, true, List, [], Bool-cases, inl, inr, ◌⊎◌}
use smbpal_desktop.Ipc.Sessions.{Phase, closing, Transport, idle, ThreadStep, run}
use smbpal_desktop.Ipc.Sessions.Table.{closed_at, is_stuck_at}
use smbpal_desktop.Ipc.Sessions.Covering.{Swept, IsSafe, run-IsSafe, idle-IsSafe}
use smbpal_desktop.Ipc.Sessions.Sockets.{shut_at, has_failed_send, closed-shut, run-free}

all_closed :
    (events : List ThreadStep) (n : ℕ)
    → (run events idle).phase ≡ closing []
    → (run events idle).leaving ≡ []
    → closed_at n (run events idle).made ≡ true
unfolding Swept
all_closed events n p l = elim (s.covered n) [
  | inl c ↦ c
  | inr (inl e) ↦ elim (subst (λ (q : Phase). Swept q t.made t.registered n) p (s.swept n) e) [
    | inl c ↦ c
    | inr o ↦ cc
  ]
  | inr (inr e) ↦ absurd (cc (e, l))
]
  where
    t : Transport
    t = run events idle

    s : IsSafe t
    s = run-IsSafe events idle idle-IsSafe

-- In whatever order the threads of the clients, those that send and the one that shuts down take
-- their steps: when the shutdown has closed what it found and no thread has yet to close the
-- connection that it served, every connection that was ever made counts as closed, and its socket
-- was shut down, unless a send to it failed.
pub shutdown_closes :
    (events : List ThreadStep) (n : ℕ)
    → (run events idle).phase ≡ closing []
    → (run events idle).leaving ≡ []
    → (closed_at n (run events idle).made ≡ true)
      × ((shut_at n (run events idle).made ≡ true) ⊎ (has_failed_send n events ≡ true))
unfolding is_stuck_at
shutdown_closes events n p l =
    let closed = all_closed events n p l in
    (
      closed,
      elim (Bool-cases (has_failed_send n events)) [
        | inl f ↦ inr f
        | inr f ↦ inl (closed-shut n (run events idle).made closed (run-free events idle n f refl))
      ],
    )
