-- ===== src/Ipc/Sessions/FailedSends.antt =====
-- A connection to which a send failed is never shut down.
use mathlib.Core.List.{◌++◌ as ◌⊕◌}
use smbpal_desktop.Prelude.{
  ℕ, zero, suc, ◌≡◌, refl, Bool, true, false, not, ◌&&◌, List, [], ◌∷◌, arith, Bool-cases, inl, inr,
}
use smbpal_desktop.Ipc.Framing.{Bytes}
use smbpal_desktop.Ipc.Sessions.{
  UnixSocketConnection, new_connection, send, close, Phase, serving, told, closing, Transport,
  ThreadStep, connected, sending, discarded, left_behind, shutting_down, update, is_stopping,
  register, shutdown_step, step, run,
}
use smbpal_desktop.Ipc.Sessions.Table.{is_stuck_at}

-- The connection is there, and its socket was not shut down.
unfoldable pub is_open_at : ℕ → List UnixSocketConnection → Bool
is_open_at n [] = false
is_open_at zero (c ∷ made) = not c.closed && not c.shut
is_open_at (suc n) (c ∷ made) = is_open_at n made

abbrev Keeps : (UnixSocketConnection → UnixSocketConnection) → Type 0
Keeps change = (c : UnixSocketConnection) → c.closed ≡ true → change c ≡ c

send-Keeps : (delivered : Bool) (payload : Bytes) → Keeps (send delivered payload)
unfolding send
send-Keeps delivered payload c h = rw h refl

close-Keeps : Keeps close
unfolding close
close-Keeps c h = rw h refl

stuck-update :
    (m n : ℕ) (change : UnixSocketConnection → UnixSocketConnection)
    (made : List UnixSocketConnection)
    → Keeps change
    → is_stuck_at n made ≡ true
    → is_stuck_at n (update m change made) ≡ true
unfolding is_stuck_at update
stuck-update m n change [] k h = h
stuck-update zero zero change (c ∷ made) k h = ground (arith, k c)
stuck-update zero (suc n) change (c ∷ made) k h = h
stuck-update (suc m) zero change (c ∷ made) k h = h
stuck-update (suc m) (suc n) change (c ∷ made) k h = stuck-update m n change made k h

stuck-append :
    (n : ℕ) (made : List UnixSocketConnection) (c : UnixSocketConnection)
    → is_stuck_at n made ≡ true
    → is_stuck_at n (made ⊕ c ∷ []) ≡ true
unfolding is_stuck_at
stuck-append n [] c h = cc
stuck-append zero (d ∷ made) c h = h
stuck-append (suc n) (d ∷ made) c h = stuck-append n made c h

shutdown_step-stuck :
    (phase : Phase) (t : Transport) (n : ℕ)
    → is_stuck_at n t.made ≡ true
    → is_stuck_at n (shutdown_step phase t).made ≡ true
unfolding shutdown_step
shutdown_step-stuck serving t n h = h
shutdown_step-stuck told t n h = h
shutdown_step-stuck (closing []) t n h = h
shutdown_step-stuck (closing (m ∷ targets)) t n h = stuck-update m n close t.made close-Keeps h

step-stuck :
    (e : ThreadStep) (t : Transport) (n : ℕ)
    → is_stuck_at n t.made ≡ true
    → is_stuck_at n (step e t).made ≡ true
unfolding step register
step-stuck connected t n h = elim (Bool-cases (is_stopping t.phase)) [
  | inl e ↦ rw e (stuck-append n t.made (close new_connection) h)
  | inr e ↦ rw e (stuck-append n t.made new_connection h)
]
step-stuck (sending m delivered payload) t n h =
    stuck-update m n (send delivered payload) t.made (send-Keeps delivered payload) h
step-stuck (discarded m) t n h = h
step-stuck (left_behind m) t n h = stuck-update m n close t.made close-Keeps h
step-stuck shutting_down t n h = shutdown_step-stuck t.phase t n h

run-stuck :
    (events : List ThreadStep) (t : Transport) (n : ℕ)
    → is_stuck_at n t.made ≡ true
    → is_stuck_at n (run events t).made ≡ true
unfolding run
run-stuck [] t n h = h
run-stuck (e ∷ events) t n h = run-stuck events (step e t) n (step-stuck e t n h)

failed_send :
    (n : ℕ) (payload : Bytes) (made : List UnixSocketConnection)
    → is_open_at n made ≡ true
    → is_stuck_at n (update n (send false payload) made) ≡ true
unfolding is_open_at is_stuck_at update send
failed_send n payload [] h = cc
failed_send zero payload (c ∷ made) h = ground (arith, h)
failed_send (suc n) payload (c ∷ made) h = failed_send n payload made h

-- When a send to an open connection fails, no later step of any thread shuts its socket down, neither
-- the end of its own thread nor the shutdown of the daemon, though the connection counts as closed.
pub failed_send_never_shut :
    (t : Transport) (n : ℕ) (payload : Bytes) (events : List ThreadStep)
    → is_open_at n t.made ≡ true
    → is_stuck_at n (run events (step (sending n false payload) t)).made ≡ true
unfolding step
failed_send_never_shut t n payload events h = run-stuck events _ n (failed_send n payload t.made h)
