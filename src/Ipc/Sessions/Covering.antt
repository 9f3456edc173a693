-- ===== src/Ipc/Sessions/Covering.antt =====
-- Which connections are closed, or are left for a thread to close, after any steps of the threads.
use mathlib.Core.List.{◌++◌ as ◌⊕◌}
use smbpal_desktop.Prelude.{
  ℕ, ◌≡◌, refl, subst, ◌∙◌, true, false, List, [], ◌∷◌, ◌==◌, length, elem, arith, Bool-cases, inl,
  inr, ◌⊎◌,
}
use smbpal_desktop.Ipc.Sessions.{
  UnixSocketConnection, new_connection, send, close, Phase, serving, told, closing, Transport, idle,
  ThreadStep, connected, sending, discarded, left_behind, shutting_down, update, without,
  is_stopping, register, shutdown_step, step, run,
}
use smbpal_desktop.Ipc.Sessions.Table.{
  Closes, closed_at, closed_at-update, closed_at-close, closed_at-append, close-Closes,
  closed-close, send-Closes, elem-without, without-elem,
}

-- A connection is closed, or a thread has yet to close it.
abbrev pub Covered : List UnixSocketConnection → List ℕ → List ℕ → ℕ → Type 0
Covered made registered leaving n =
    (closed_at n made ≡ true) ⊎ (elem n registered ≡ true) ⊎ (elem n leaving ≡ true)

-- Once the connections were looked up, each that is registered is closed or among those left to close.
unfoldable pub Swept : Phase → List UnixSocketConnection → List ℕ → ℕ → Type 0
Swept (closing targets) made registered n =
    elem n registered ≡ true → (closed_at n made ≡ true) ⊎ (elem n targets ≡ true)
Swept _ made registered n = Unit

pub record IsSafe (t : Transport) : Type 0 where
  pub covered : (n : ℕ) → Covered t.made t.registered t.leaving n
  pub swept : (n : ℕ) → Swept t.phase t.made t.registered n

-- What is known of a connection stays, while others are made or some are closed.
abbrev Later : List UnixSocketConnection → List UnixSocketConnection → Type 0
Later made after = (n : ℕ) → closed_at n made ≡ true → closed_at n after ≡ true

Later-Covered :
    (made after : List UnixSocketConnection) (registered leaving : List ℕ) (n : ℕ)
    → Later made after
    → Covered made registered leaving n
    → Covered after registered leaving n
Later-Covered made after registered leaving n l (inl c) = inl (l n c)
Later-Covered made after registered leaving n l (inr o) = inr o

Later-Swept :
    (phase : Phase) (made after : List UnixSocketConnection) (registered : List ℕ) (n : ℕ)
    → Later made after
    → Swept phase made registered n
    → Swept phase after registered n
unfolding Swept
Later-Swept serving made after registered n l s = tt
Later-Swept told made after registered n l s = tt
Later-Swept (closing targets) made after registered n l s =
    λ h. elim (s h) [ inl c ↦ inl (l n c) | inr e ↦ inr e ]

-- A change of the connections that opens none.
changed-IsSafe :
    (t : Transport) (after : List UnixSocketConnection)
    → Later t.made after
    → IsSafe t
    → IsSafe (record t { made = after })
changed-IsSafe t after l s = record {
  covered = λ n. Later-Covered t.made after t.registered t.leaving n l (s.covered n);
  swept = λ n. Later-Swept t.phase t.made after t.registered n l (s.swept n);
}

update-Later :
    (n : ℕ) (change : UnixSocketConnection → UnixSocketConnection)
    (made : List UnixSocketConnection)
    → Closes change
    → Later made (update n change made)
update-Later n change made k m h = closed_at-update n m change made k h

close_last-Later :
    (made : List UnixSocketConnection) → Later made (made ⊕ close new_connection ∷ [])
close_last-Later made n h = elim (closed_at-append n made (close new_connection) h) [
  | inl e ↦ e
  | inr (e, f) ↦ f ∙ closed-close new_connection
]

open_last-Covered :
    (made : List UnixSocketConnection) (registered leaving : List ℕ) (n : ℕ)
    → Covered made registered leaving n
    → Covered (made ⊕ new_connection ∷ []) (length made ∷ registered) leaving n
open_last-Covered made registered leaving n (inl c) =
    elim (closed_at-append n made new_connection c) [
      | inl e ↦ inl e
      | inr (e, f) ↦ inr (inl (ground (arith, e)))
    ]
open_last-Covered made registered leaving n (inr (inl e)) = inr (inl (ground (arith, e)))
open_last-Covered made registered leaving n (inr (inr e)) = inr (inr e)

-- As long as nothing stops, nothing was looked up.
before-Swept :
    (phase : Phase) (made : List UnixSocketConnection) (registered : List ℕ) (n : ℕ)
    → is_stopping phase ≡ false
    → Swept phase made registered n
unfolding Swept
before-Swept serving made registered n h = tt
before-Swept told made registered n h = tt
before-Swept (closing ts) made registered n h = absurd (ground arith)

register-IsSafe : (t : Transport) → IsSafe t → IsSafe (register t)
unfolding register
register-IsSafe t s = elim (Bool-cases (is_stopping t.phase)) [
  | inl o ↦ rw o (changed-IsSafe t (t.made ⊕ close new_connection ∷ []) (close_last-Later t.made) s)
  | inr o ↦ rw o (record {
    covered = λ n. open_last-Covered t.made t.registered t.leaving n (s.covered n);
    swept =
        λ n. before-Swept t.phase (t.made ⊕ new_connection ∷ []) (length t.made ∷ t.registered) n o;
  })
]

close_next-IsSafe :
    (t : Transport) (m : ℕ) (targets : List ℕ)
    → t.phase ≡ closing (m ∷ targets)
    → IsSafe t
    → IsSafe (record t { phase = closing targets; made = update m close t.made })
unfolding Swept
close_next-IsSafe t m targets e s = record {
  covered = λ n.
      Later-Covered t.made (update m close t.made) t.registered t.leaving n later (s.covered n);
  swept = rest;
}
  where
    later : Later t.made (update m close t.made)
    later = update-Later m close t.made close-Closes

    before : (n : ℕ) → Swept (closing (m ∷ targets)) t.made t.registered n
    before n = subst (λ (p : Phase). Swept p t.made t.registered n) e (s.swept n)

    rest : (n : ℕ) → Swept (closing targets) (update m close t.made) t.registered n
    rest n h = elim (before n h) [
      | inl c ↦ inl (later n c)
      | inr o ↦ elim (Bool-cases (n == m)) [
        | inl same ↦
            let known : n ≡ m = ground (arith, same) in inl (rw known (closed_at-close m t.made))
        | inr other ↦ inr (ground (arith, o, other))
      ]
    ]

shutdown_step-IsSafe :
    (phase : Phase) (t : Transport) → t.phase ≡ phase → IsSafe t → IsSafe (shutdown_step phase t)
unfolding shutdown_step Swept
shutdown_step-IsSafe serving t e s = record { covered = s.covered; swept = λ n. tt }
shutdown_step-IsSafe told t e s = record { covered = s.covered; swept = λ n h. inr h }
shutdown_step-IsSafe (closing []) t e s = s
shutdown_step-IsSafe (closing (m ∷ targets)) t e s = close_next-IsSafe t m targets e s

discarded-IsSafe :
    (t : Transport) (m : ℕ)
    → IsSafe t
    → IsSafe (record t { registered = without m t.registered; leaving = m ∷ t.leaving })
unfolding Swept
discarded-IsSafe t m s = record {
  covered = λ n. covered n (s.covered n);
  swept = λ n. swept t.phase n (s.swept n);
}
  where
    covered :
        (n : ℕ)
        → Covered t.made t.registered t.leaving n
        → Covered t.made (without m t.registered) (m ∷ t.leaving) n
    covered n (inl c) = inl c
    covered n (inr (inl e)) = elim (elem-without m n t.registered e) [
      | inl kept ↦ inr (inl kept)
      | inr same ↦ inr (inr (ground (arith, same)))
    ]
    covered n (inr (inr e)) = inr (inr (ground (arith, e)))

    swept :
        (phase : Phase) (n : ℕ)
        → Swept phase t.made t.registered n
        → Swept phase t.made (without m t.registered) n
    swept serving n w = tt
    swept told n w = tt
    swept (closing targets) n w = λ h. w (without-elem m n t.registered h)

left_behind-IsSafe :
    (t : Transport) (m : ℕ)
    → IsSafe t
    → IsSafe (record t { made = update m close t.made; leaving = without m t.leaving })
left_behind-IsSafe t m s = record {
  covered = λ n. covered n (s.covered n);
  swept = λ n. Later-Swept t.phase t.made (update m close t.made) t.registered n later (s.swept n);
}
  where
    later : Later t.made (update m close t.made)
    later = update-Later m close t.made close-Closes

    covered :
        (n : ℕ)
        → Covered t.made t.registered t.leaving n
        → Covered (update m close t.made) t.registered (without m t.leaving) n
    covered n (inl c) = inl (later n c)
    covered n (inr (inl e)) = inr (inl e)
    covered n (inr (inr e)) = elim (elem-without m n t.leaving e) [
      | inl kept ↦ inr (inr kept)
      | inr same ↦ inl (rw same (closed_at-close m t.made))
    ]

step-IsSafe : (e : ThreadStep) (t : Transport) → IsSafe t → IsSafe (step e t)
unfolding step
step-IsSafe connected t s = register-IsSafe t s
step-IsSafe (sending n delivered payload) t s =
    changed-IsSafe t (update n (send delivered payload) t.made)
      (update-Later n (send delivered payload) t.made (send-Closes delivered payload)) s
step-IsSafe (discarded n) t s = discarded-IsSafe t n s
step-IsSafe (left_behind n) t s = left_behind-IsSafe t n s
step-IsSafe shutting_down t s = shutdown_step-IsSafe t.phase t refl s

pub run-IsSafe : (events : List ThreadStep) (t : Transport) → IsSafe t → IsSafe (run events t)
unfolding run
run-IsSafe [] t s = s
run-IsSafe (e ∷ events) t s = run-IsSafe events (step e t) (step-IsSafe e t s)

pub idle-IsSafe : IsSafe idle
unfolding Swept closed_at
idle-IsSafe = record { covered = λ n. inl refl; swept = λ n. tt }
