-- ===== src/State/Monitor/Polling/Client.antt =====
-- A client of the monitor, which applies the events that are pushed, and what a poll stores.
use mathlib.Core.List.{◌++◌ as ◌⊕◌}
use smbpal_desktop.Prelude.{
  ◌≡◌, refl, subst, ap, ◌∙◌, String, true, false, Option, none, some, List, [], ◌∷◌, arith,
  if◌then◌else◌, str_eq, eq_iff, Dict, lookup, insert, remove, lookup-insert, Bool-cases, ◌⊎◌, inl,
  inr, All,
}
use smbpal_desktop.State.States.{StateName, ConnectionState, is_state}
use smbpal_desktop.State.Machine.{Connection}
use smbpal_desktop.State.Machine.Meaning.{derive-id}
use smbpal_desktop.State.Monitor.{World, Event, state_changed, connection_removed}
use smbpal_desktop.State.Monitor.Polling.{state_of, differs, connection_lookup, change_event}
use smbpal_desktop.State.Monitor.Polling.Pushing.{new_states}

-- What a client shows of a connection.
abbrev pub Shown : Type 0
Shown = StateName × String

-- A client applies the events in order.
unfoldable pub follow : List Event → Dict Shown → Dict Shown
follow [] client = client
follow (state_changed s previous mountpoint hint ∷ events) client =
    follow events (insert s.id (s.state, s.message) client)
follow (connection_removed id ∷ events) client = follow events (remove id client)

abbrev pub shown : Option ConnectionState → Option Shown
shown none = none
shown (some s) = some (s.state, s.message)

-- No two connections have one id.
abbrev pub Distinct : List Connection → Type 0
Distinct [] = Unit
Distinct (c ∷ cs) = All (λ d. str_eq c.id d.id ≡ false) cs × Distinct cs

pub state_of-id : (w : World) (c : Connection) → (state_of w c).id ≡ c.id
unfolding state_of
state_of-id w c = derive-id c _

pub follow-append :
    (xs ys : List Event) (client : Dict Shown)
    → follow (xs ⊕ ys) client ≡ follow ys (follow xs client)
unfolding follow
follow-append [] ys client = refl
follow-append (state_changed s p m h ∷ xs) ys client =
    follow-append xs ys (insert s.id (s.state, s.message) client)
follow-append (connection_removed id ∷ xs) ys client = follow-append xs ys (remove id client)

-- A change event stores its state.
pub follow-change :
    (p : Option ConnectionState) (s : ConnectionState) (o : Option Connection) (events : List Event)
    (client : Dict Shown)
    → follow (change_event p s o ∷ events) client
      ≡ follow events (insert s.id (s.state, s.message) client)
unfolding follow change_event
follow-change p s none events client = refl
follow-change p s (some c) events client = refl

pub same_state : (a b : StateName) → is_state a b ≡ true → a ≡ b
unfolding is_state
same_state a b h = ground arith

pub not_differs :
    (previous : Option ConnectionState) (s : ConnectionState)
    → differs previous s ≡ false
    → shown previous ≡ some (s.state, s.message)
unfolding differs
not_differs none s h = ground arith
not_differs (some p) s h = ground (arith, same_state p.state s.state, eq_iff p.message s.message)

-- What the monitor stores under an id after a poll.
abbrev pub answer : World → Option Connection → Option ConnectionState → Option ConnectionState
answer w none o = o
answer w (some c) o = some (state_of w c)

pub absent_lookup :
    (id : String) (cs : List Connection)
    → All (λ d. str_eq id d.id ≡ false) cs
    → connection_lookup id cs ≡ none
unfolding connection_lookup
absent_lookup id [] a = refl
absent_lookup id (c ∷ cs) a =
    ground (arith, absent_lookup id cs a.1, eq_iff c.id id, eq_iff id c.id)

pub lookup-new_states :
    (w : World) (cs : List Connection) (current : Dict ConnectionState) (id : String)
    → Distinct cs
    → lookup id (new_states w cs current) ≡ answer w (connection_lookup id cs) (lookup id current)
unfolding new_states connection_lookup
lookup-new_states w [] current id d = refl
lookup-new_states w (c ∷ cs) current id d =
    lookup-new_states w cs (insert (state_of w c).id (state_of w c) current) id d.1
    ∙ (ap (answer w (connection_lookup id cs)) (
          lookup-insert (state_of w c).id id (state_of w c) current
          ∙ ap (λ (i : String). if str_eq i id then some (state_of w c) else lookup id current)
              (state_of-id w c))
        ∙ ends (Bool-cases (str_eq c.id id)))
  where
    ends :
        (str_eq c.id id ≡ true) ⊎ (str_eq c.id id ≡ false)
        → answer w
            (connection_lookup id cs)
            (if str_eq c.id id then some (state_of w c) else lookup id current)
          ≡ answer w
              (if str_eq c.id id then some c else connection_lookup id cs)
              (lookup id current)
    ends (inl e) =
        let gone : connection_lookup id cs ≡ none =
          subst (λ (i : String). connection_lookup i cs ≡ none) ((eq_iff c.id id).0 e)
            (absent_lookup c.id cs d.0) in
        rw (e, gone)
    ends (inr e) = rw e
