-- ===== src/Ipc/Sessions/Sockets.antt =====
-- The sockets of the connections to which no send failed.
use mathlib.Core.List.{◌++◌ as ◌⊕◌}
use smbpal_desktop.Prelude.{
  ℕ, zero, suc, ◌≡◌, refl, Bool, true, false, not, ◌&&◌, ◌||◌, ◌==◌, List, [], ◌∷◌, arith,
  Bool-cases, inl, inr,
}
use smbpal_desktop.Ipc.Framing.{Bytes}
use smbpal_desktop.Ipc.Sessions.{
  UnixSocketConnection, new_connection, send, close, Phase, serving, told, closing, Transport,
  ThreadStep, connected, sending, discarded, left_behind, shutting_down, update, is_stopping,
  register, shutdown_step, step, run,
}
use smbpal_desktop.Ipc.Sessions.Table.{closed_at, is_stuck_at}

-- The socket was shut down; a number that no connection has counts as such.
unfoldable pub shut_at : ℕ → List UnixSocketConnection → Bool
shut_at n [] = true
shut_at zero (c ∷ made) = c.shut
shut_at (suc n) (c ∷ made) = shut_at n made

abbrev is_failed_send : ℕ → ThreadStep → Bool
is_failed_send n (sending m delivered payload) = (m == n) && not delivered
is_failed_send n _ = false

-- A send to this connection failed.
unfoldable pub has_failed_send : ℕ → List ThreadStep → Bool
has_failed_send n [] = false
has_failed_send n (e ∷ events) = is_failed_send n e || has_failed_send n events

pub closed-shut :
    (n : ℕ) (made : List UnixSocketConnection)
    → closed_at n made ≡ true
    → is_stuck_at n made ≡ false
    → shut_at n made ≡ true
unfolding closed_at is_stuck_at shut_at
closed-shut n [] h s = refl
closed-shut zero (c ∷ made) h s = ground (arith, h, s)
closed-shut (suc n) (c ∷ made) h s = closed-shut n made h s

-- A change that gets no connection stuck.
abbrev Frees : (UnixSocketConnection → UnixSocketConnection) → Type 0
Frees change =
    (c : UnixSocketConnection)
    → (c.closed && not c.shut) ≡ false
    → ((change c).closed && not (change c).shut) ≡ false

close-Frees : Frees close
unfolding close
close-Frees c h = ground (arith, h)

send-Frees : (payload : Bytes) → Frees (send true payload)
unfolding send
send-Frees payload c h = ground (arith, h)

free-update :
    (m n : ℕ) (change : UnixSocketConnection → UnixSocketConnection)
    (made : List UnixSocketConnection)
    → Frees change
    → is_stuck_at n made ≡ false
    → is_stuck_at n (update m change made) ≡ false
unfolding is_stuck_at update
free-update m n change [] k h = h
free-update zero zero change (c ∷ made) k h = k c h
free-update zero (suc n) change (c ∷ made) k h = h
free-update (suc m) zero change (c ∷ made) k h = h
free-update (suc m) (suc n) change (c ∷ made) k h = free-update m n change made k h

other-update :
    (m n : ℕ) (change : UnixSocketConnection → UnixSocketConnection)
    (made : List UnixSocketConnection)
    → (m == n) ≡ false
    → is_stuck_at n (update m change made) ≡ is_stuck_at n made
unfolding is_stuck_at update
other-update m n change [] o = refl
other-update zero zero change (c ∷ made) o = ground (arith, o)
other-update zero (suc n) change (c ∷ made) o = refl
other-update (suc m) zero change (c ∷ made) o = refl
other-update (suc m) (suc n) change (c ∷ made) o = other-update m n change made (ground (arith, o))

free-append :
    (n : ℕ) (made : List UnixSocketConnection) (c : UnixSocketConnection)
    → (c.closed && not c.shut) ≡ false
    → is_stuck_at n made ≡ false
    → is_stuck_at n (made ⊕ c ∷ []) ≡ false
unfolding is_stuck_at
free-append zero [] c k h = k
free-append (suc n) [] c k h = refl
free-append zero (d ∷ made) c k h = h
free-append (suc n) (d ∷ made) c k h = free-append n made c k h

sending-free :
    (m n : ℕ) (delivered : Bool) (payload : Bytes) (made : List UnixSocketConnection)
    → is_failed_send n (sending m delivered payload) ≡ false
    → is_stuck_at n made ≡ false
    → is_stuck_at n (update m (send delivered payload) made) ≡ false
sending-free m n true payload made o h =
    free-update m n (send true payload) made (send-Frees payload) h
sending-free m n false payload made o h =
    rw (other-update m n (send false payload) made (ground (arith, o))) h

shutdown_step-free :
    (phase : Phase) (t : Transport) (n : ℕ)
    → is_stuck_at n t.made ≡ false
    → is_stuck_at n (shutdown_step phase t).made ≡ false
unfolding shutdown_step
shutdown_step-free serving t n h = h
shutdown_step-free told t n h = h
shutdown_step-free (closing []) t n h = h
shutdown_step-free (closing (m ∷ targets)) t n h = free-update m n close t.made close-Frees h

step-free :
    (e : ThreadStep) (t : Transport) (n : ℕ)
    → is_failed_send n e ≡ false
    → is_stuck_at n t.made ≡ false
    → is_stuck_at n (step e t).made ≡ false
unfolding step register
step-free connected t n o h = elim (Bool-cases (is_stopping t.phase)) [
  | inl e ↦ rw e (free-append n t.made (close new_connection) (close-Frees new_connection refl) h)
  | inr e ↦ rw e (free-append n t.made new_connection refl h)
]
step-free (sending m delivered payload) t n o h = sending-free m n delivered payload t.made o h
step-free (discarded m) t n o h = h
step-free (left_behind m) t n o h = free-update m n close t.made close-Frees h
step-free shutting_down t n o h = shutdown_step-free t.phase t n h

pub run-free :
    (events : List ThreadStep) (t : Transport) (n : ℕ)
    → has_failed_send n events ≡ false
    → is_stuck_at n t.made ≡ false
    → is_stuck_at n (run events t).made ≡ false
unfolding run has_failed_send
run-free [] t n o h = h
run-free (e ∷ events) t n o h =
    run-free events (step e t) n (ground (arith, o)) (step-free e t n (ground (arith, o)) h)
