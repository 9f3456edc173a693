-- ===== src/State/Monitor/Polling/Pushing.antt =====
-- What a poll stores and pushes, computed without the priming that goes on in between.
use mathlib.Core.List.{◌++◌ as ◌⊕◌}
use smbpal_desktop.Prelude.{
  ℕ, ◌≡◌, refl, sym, subst, ap, ◌∙◌, String, Bool, true, false, List, [], ◌∷◌, arith, if◌then◌else◌,
  Dict, lookup, insert, Bool-cases, append_assoc, append-nil, map, inl, inr,
}
use smbpal_desktop.State.States.{StateName, ConnectionState}
use smbpal_desktop.State.Machine.{Connection}
use smbpal_desktop.State.Monitor.{
  World, Event, connection_removed, StateMonitor, forget, maybe_prime, latch, declining,
  queue_start, nudge,
}
use smbpal_desktop.State.Monitor.Frame.{maybe_prime_rule}
use smbpal_desktop.State.Monitor.Polling.{
  state_of, differs, connection_lookup, push, change_event, Change, poll_loop, gone_ids, emit_all,
  remove_all, poll,
}

-- What priming leaves alone.
record Same (m n : StateMonitor) : Type 0 where
  states : n.states ≡ m.states
  pushed : n.pushed ≡ m.pushed
  has_broadcast : n.has_broadcast ≡ m.has_broadcast
  prime : n.prime ≡ m.prime

declining-Same :
    (id reason : String) (m n : StateMonitor) → Same m n → Same m (declining id reason n)
unfolding declining
declining-Same id reason m n s = ground arith

queue_start-Same :
    (w : World) (c : Connection) (k : ℕ) (m : StateMonitor) → Same m (queue_start w c k m)
unfolding queue_start declining
queue_start-Same w c k m = ground arith

maybe_prime-Same :
    (w : World) (c : Connection) (state : StateName) (m : StateMonitor)
    → Same m (maybe_prime w c state m)
maybe_prime-Same w c state m =
    maybe_prime_rule w c state m (Same m)
      (record { states = refl; pushed = refl; has_broadcast = refl; prime = refl })
      (λ because.
        unfold latch in record { states = refl; pushed = refl; has_broadcast = refl; prime = refl })
      (λ k. queue_start-Same w c k m) (λ reason n s. declining-Same c.id reason m n s)

-- The new states, and the changes against the old ones.
unfoldable pub new_states : World → List Connection → Dict ConnectionState → Dict ConnectionState
new_states w [] current = current
new_states w (c ∷ connections) current =
    new_states w connections (insert (state_of w c).id (state_of w c) current)

unfoldable pub changes_from : World → List Connection → Dict ConnectionState → List Change
changes_from w [] states = []
changes_from w (c ∷ connections) states =
    let rest = changes_from w connections states in
    let previous = lookup (state_of w c).id states in
    if differs previous (state_of w c) then (previous, state_of w c) ∷ rest else rest

abbrev primed_by : World → Connection → StateMonitor → StateMonitor
primed_by w c m = if m.prime then maybe_prime w c (state_of w c).state m else m

primed_by-Same : (w : World) (c : Connection) (m : StateMonitor) → Same m (primed_by w c m)
primed_by-Same w c m = elim (Bool-cases m.prime) [
  | inl e ↦
      subst (λ (b : Bool). Same m (if b then maybe_prime w c (state_of w c).state m else m)) (sym e)
        (maybe_prime-Same w c (state_of w c).state m)
  | inr e ↦
      subst (λ (b : Bool). Same m (if b then maybe_prime w c (state_of w c).state m else m)) (sym e)
        (record { states = refl; pushed = refl; has_broadcast = refl; prime = refl })
]

record LoopFacts (w : World) (cs : List Connection) (m : StateMonitor)
    (current : Dict ConnectionState) (changes : List Change)
    (result : StateMonitor × Dict ConnectionState × List Change) : Type 0 where
  same : Same m result.0
  stored : result.1 ≡ new_states w cs current
  changed : result.2 ≡ changes ⊕ changes_from w cs m.states

changes_step :
    (b : Bool) (x : Change) (changes rest : List Change)
    → (if b then changes ⊕ x ∷ [] else changes) ⊕ rest ≡ changes ⊕ (if b then x ∷ rest else rest)
changes_step true x changes rest = append_assoc changes (x ∷ []) rest
changes_step false x changes rest = refl

poll_loop-LoopFacts :
    (w : World) (cs : List Connection) (m : StateMonitor) (current : Dict ConnectionState)
    (changes : List Change)
    → LoopFacts w cs m current changes (poll_loop w cs m current changes)
unfolding poll_loop new_states changes_from
poll_loop-LoopFacts w [] m current changes = record {
  same = record { states = refl; pushed = refl; has_broadcast = refl; prime = refl };
  stored = refl;
  changed = sym (append-nil changes);
}
poll_loop-LoopFacts w (c ∷ cs) m current changes =
    let kept = primed_by-Same w c m in
    let previous = lookup (state_of w c).id m.states in
    let now =
      if differs previous (state_of w c)
      then changes ⊕ (previous, state_of w c) ∷ []
      else changes in
    let rest =
      poll_loop-LoopFacts w cs (primed_by w c m) (insert (state_of w c).id (state_of w c) current)
        now in
    record {
      same = record {
        states = rest.same.states ∙ kept.states;
        pushed = rest.same.pushed ∙ kept.pushed;
        has_broadcast = rest.same.has_broadcast ∙ kept.has_broadcast;
        prime = rest.same.prime ∙ kept.prime;
      };
      stored = rest.stored;
      changed =
          rest.changed
          ∙ (ap (λ (states : Dict ConnectionState). now ⊕ changes_from w cs states) kept.states
              ∙ changes_step (differs previous (state_of w c)) (previous, state_of w c) changes
                  (changes_from w cs m.states));
    }

-- The events of a poll: one for each change, and one for each connection that is gone.
unfoldable pub change_events : List Connection → List Change → List Event
change_events connections [] = []
change_events connections ((previous, s) ∷ changes) =
    change_event previous s (connection_lookup s.id connections) ∷ change_events connections changes

unfoldable pub poll_events : World → List Connection → StateMonitor → List Event
poll_events w cs m =
    change_events cs (changes_from w cs m.states)
    ⊕ map connection_removed (gone_ids m.states (new_states w cs []))

push_on :
    (event : Event) (m : StateMonitor)
    → m.has_broadcast ≡ true
    → push event m ≡ record m { pushed = m.pushed ⊕ event ∷ [] }
unfolding push
push_on event m b =
    ap (λ (on : Bool). if on then record m { pushed = m.pushed ⊕ event ∷ [] } else m) b

-- What a monitor is after `events` were pushed by it.
record Pushed (m : StateMonitor) (events : List Event) (n : StateMonitor) : Type 0 where
  pushed : n.pushed ≡ m.pushed ⊕ events
  states : n.states ≡ m.states
  has_broadcast : n.has_broadcast ≡ true

emit_all-Pushed :
    (cs : List Connection) (changes : List Change) (m : StateMonitor)
    → m.has_broadcast ≡ true
    → Pushed m (change_events cs changes) (emit_all cs changes m)
unfolding emit_all change_events
emit_all-Pushed cs [] m b = record {
  pushed = sym (append-nil m.pushed);
  states = refl;
  has_broadcast = b;
}
emit_all-Pushed cs ((previous, s) ∷ changes) m b =
    let event = change_event previous s (connection_lookup s.id cs) in
    let rest = emit_all-Pushed cs changes (record m { pushed = m.pushed ⊕ event ∷ [] }) b in
    subst
      (λ (n : StateMonitor). Pushed m (event ∷ change_events cs changes) (emit_all cs changes n))
      (sym (push_on event m b))
      (record {
        pushed = rest.pushed ∙ append_assoc m.pushed (event ∷ []) (change_events cs changes);
        states = rest.states;
        has_broadcast = rest.has_broadcast;
      })

remove_all-Pushed :
    (ids : List String) (m : StateMonitor)
    → m.has_broadcast ≡ true
    → Pushed m (map connection_removed ids) (remove_all ids m)
unfolding remove_all forget nudge
remove_all-Pushed [] m b = record {
  pushed = sym (append-nil m.pushed);
  states = refl;
  has_broadcast = b;
}
remove_all-Pushed (id ∷ ids) m b =
    let event = connection_removed id in
    let rest = remove_all-Pushed ids (record (forget id m) { pushed = m.pushed ⊕ event ∷ [] }) b in
    subst (λ (n : StateMonitor). Pushed m (event ∷ map connection_removed ids) (remove_all ids n))
      (sym (push_on event (forget id m) b))
      (record {
        pushed = rest.pushed ∙ append_assoc m.pushed (event ∷ []) (map connection_removed ids);
        states = rest.states;
        has_broadcast = rest.has_broadcast;
      })

-- A poll stores the new states, and pushes one event for each connection whose state or message is
-- not what it was and one for each that is gone, in this order, whatever it primes. It is supposed
-- that somebody listens.
pub poll_pushes :
    (w : World) (cs : List Connection) (m : StateMonitor)
    → m.has_broadcast ≡ true
    → ((poll w cs m).pushed ≡ m.pushed ⊕ poll_events w cs m)
      × ((poll w cs m).states ≡ new_states w cs [])
      × ((poll w cs m).has_broadcast ≡ true)
unfolding poll poll_events
poll_pushes w cs m b =
    let (primed, current, changes) = poll_loop w cs m [] [] in
    let facts = poll_loop-LoopFacts w cs m [] [] in
    let stored = record primed { states = current } in
    let on = facts.same.has_broadcast ∙ b in
    let emitted = emit_all-Pushed cs changes stored on in
    let removed =
      remove_all-Pushed (gone_ids m.states current) (emit_all cs changes stored)
        emitted.has_broadcast in
    let joined = λ (before : List Event) (found : List Change) (states : Dict ConnectionState).
      (before ⊕ change_events cs found) ⊕ map connection_removed (gone_ids m.states states) in
    (
      removed.pushed
          ∙ (ap (λ (p : List Event). p ⊕ map connection_removed (gone_ids m.states current))
                emitted.pushed
              ∙ ((λ i. joined (facts.same.pushed i) (facts.changed i) (facts.stored i))
                  ∙ append_assoc m.pushed (change_events cs (changes_from w cs m.states))
                      (map connection_removed (gone_ids m.states (new_states w cs []))))),
      removed.states ∙ (emitted.states ∙ facts.stored),
      removed.has_broadcast,
    )
