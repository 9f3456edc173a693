-- ===== src/Ipc/Sessions/Table.antt =====
-- What is known of one connection after another was changed.
use mathlib.Core.List.{◌++◌ as ◌⊕◌}
use smbpal_desktop.Prelude.{
  ℕ, zero, suc, ◌≡◌, refl, Bool, true, false, not, ◌&&◌, List, [], ◌∷◌, length, elem, arith, inl,
  inr, ◌⊎◌,
}
use smbpal_desktop.Ipc.Sessions.{UnixSocketConnection, send, close, update, without}

-- A number that no connection has counts as closed.
unfoldable pub closed_at : ℕ → List UnixSocketConnection → Bool
closed_at n [] = true
closed_at zero (c ∷ made) = c.closed
closed_at (suc n) (c ∷ made) = closed_at n made

-- A change that opens nothing again.
abbrev pub Closes : (UnixSocketConnection → UnixSocketConnection) → Type 0
Closes change = (c : UnixSocketConnection) → c.closed ≡ true → (change c).closed ≡ true

pub close-Closes : Closes close
unfolding close
close-Closes c h = ground (arith, h)

pub closed-close : (c : UnixSocketConnection) → (close c).closed ≡ true
unfolding close
closed-close c = ground arith

pub send-Closes : (delivered : Bool) (payload : List ℕ) → Closes (send delivered payload)
unfolding send
send-Closes delivered payload c h = ground (arith, h)

pub closed_at-update :
    (n m : ℕ) (change : UnixSocketConnection → UnixSocketConnection)
    (made : List UnixSocketConnection)
    → Closes change
    → closed_at m made ≡ true
    → closed_at m (update n change made) ≡ true
unfolding closed_at update
closed_at-update n m change [] k h = refl
closed_at-update zero zero change (c ∷ made) k h = k c h
closed_at-update zero (suc m) change (c ∷ made) k h = h
closed_at-update (suc n) zero change (c ∷ made) k h = h
closed_at-update (suc n) (suc m) change (c ∷ made) k h = closed_at-update n m change made k h

pub closed_at-close :
    (n : ℕ) (made : List UnixSocketConnection) → closed_at n (update n close made) ≡ true
unfolding closed_at update
closed_at-close n [] = refl
closed_at-close zero (c ∷ made) = closed-close c
closed_at-close (suc n) (c ∷ made) = closed_at-close n made

pub closed_at-append :
    (n : ℕ) (made : List UnixSocketConnection) (c : UnixSocketConnection)
    → closed_at n made ≡ true
    → (closed_at n (made ⊕ c ∷ []) ≡ true)
      ⊎ ((n ≡ length made) × (closed_at n (made ⊕ c ∷ []) ≡ c.closed))
unfolding closed_at
closed_at-append zero [] c h = inr (refl, refl)
closed_at-append (suc n) [] c h = inl refl
closed_at-append zero (d ∷ made) c h = inl h
closed_at-append (suc n) (d ∷ made) c h = elim (closed_at-append n made c h) [
  | inl e ↦ inl e
  | inr (e, f) ↦ inr (omega (arith, e), f)
]

pub elem-without :
    (n m : ℕ) (ids : List ℕ) → elem m ids ≡ true → (elem m (without n ids) ≡ true) ⊎ (m ≡ n)
unfolding without
elem-without n m [] h = cc
elem-without n m (i ∷ ids) h = ground (arith, elem-without n m ids)

pub without-elem : (n m : ℕ) (ids : List ℕ) → elem m (without n ids) ≡ true → elem m ids ≡ true
unfolding without
without-elem n m [] h = h
without-elem n m (i ∷ ids) h = ground (arith, without-elem n m ids)

-- It counts as closed, and its socket was not shut down.
unfoldable pub is_stuck_at : ℕ → List UnixSocketConnection → Bool
is_stuck_at n [] = false
is_stuck_at zero (c ∷ made) = c.closed && not c.shut
is_stuck_at (suc n) (c ∷ made) = is_stuck_at n made
