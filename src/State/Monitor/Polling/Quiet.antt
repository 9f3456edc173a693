-- ===== src/State/Monitor/Polling/Quiet.antt =====
-- A client that follows the pushed events knows the monitor's states, and a poll that finds nothing
-- new pushes nothing.
use smbpal_desktop.Prelude.{
  ◌≡◌, refl, sym, subst, ap, ◌∙◌, String, Bool, true, false, not, ◌&&◌, ◌||◌, Option, none, some,
  List, [], ◌∷◌, arith, if◌then◌else◌, str_eq, str_eq_refl, eq_iff, Dict, lookup, remove,
  lookup-remove, Bool-cases, map, inl, inr,
}
use smbpal_desktop.Prelude.Sorting.{sort_in}
use smbpal_desktop.State.States.{StateName, ConnectionState, is_state}
use smbpal_desktop.State.Machine.{Connection}
use smbpal_desktop.State.Monitor.{World, connection_removed, StateMonitor}
use smbpal_desktop.State.Monitor.Polling.{state_of, differs, connection_lookup, gone_ids, poll}
use smbpal_desktop.State.Monitor.Polling.Pushing.{
  new_states, changes_from, change_events, poll_events, poll_pushes,
}
use smbpal_desktop.State.Monitor.Polling.Client.{
  Shown, follow, shown, Distinct, state_of-id, follow-append, answer, absent_lookup,
  lookup-new_states,
}
use smbpal_desktop.State.Monitor.Polling.Changes.{follow-changed}

-- Membership in a list of ids.
abbrev has : String → List String → Bool
has id [] = false
has id (j ∷ ids) = str_eq j id || has id ids

has-sort_in :
    (id j : String) (ids : List String) → has id (sort_in j ids) ≡ (str_eq j id || has id ids)
unfolding sort_in
has-sort_in id j [] = refl
has-sort_in id j (k ∷ ids) = ground (arith, has-sort_in id j ids)

abbrev is_some {ℓ} : {A : Type ℓ} → Option A → Bool
is_some none = false
is_some (some a) = true

-- An id is gone when it was there and is there no more.
has-gone_ids :
    (id : String) (old current : Dict ConnectionState)
    → has id (gone_ids old current) ≡ (is_some (lookup id old) && not (is_some (lookup id current)))
unfolding gone_ids lookup
has-gone_ids id [] current = refl
has-gone_ids id ((j, s) ∷ old) current = elim (Bool-cases (str_eq j id)) [
  | inl e ↦
      subst
        (λ (k : String).
          has id (gone_ids ((k, s) ∷ old) current)
          ≡ (is_some (lookup id ((k, s) ∷ old)) && not (is_some (lookup id current))))
        (sym ((eq_iff j id).0 e))
        (ground (
          arith,
          has-gone_ids id old current,
          has-sort_in id id (gone_ids old current),
          str_eq_refl id,
        ))
  | inr e ↦ ground (arith, has-gone_ids id old current, has-sort_in id j (gone_ids old current))
]

follow-removed :
    (ids : List String) (client : Dict Shown) (id : String)
    → lookup id (follow (map connection_removed ids) client)
      ≡ (if has id ids then none else lookup id client)
unfolding follow
follow-removed [] client id = refl
follow-removed (j ∷ ids) client id =
    ground (arith, follow-removed ids (remove j client) id, lookup-remove j id client)

-- What a client shows after the events of a poll is what the monitor then holds, for every id,
-- provided that this was so before. It is supposed that no two connections have one id.
pub client_follows :
    (w : World) (cs : List Connection) (m : StateMonitor) (client : Dict Shown)
    → m.has_broadcast ≡ true
    → Distinct cs
    → ((id : String) → lookup id client ≡ shown (lookup id m.states))
    → (id : String)
    → lookup id (follow (poll_events w cs m) client) ≡ shown (lookup id (poll w cs m).states)
unfolding poll_events lookup
client_follows w cs m client b d agree id =
    ap (lookup id) (
      follow-append (change_events cs (changes_from w cs m.states))
        (map connection_removed (gone_ids m.states (new_states w cs []))) client)
    ∙ (follow-removed (gone_ids m.states (new_states w cs []))
          (follow (change_events cs (changes_from w cs m.states)) client) id
        ∙ (rw
            (
              has-gone_ids id m.states (new_states w cs []),
              follow-changed w cs cs m.states client id d (agree id),
              (poll_pushes w cs m b).1,
              lookup-new_states w cs [] id d,
            )
            (ends (connection_lookup id cs) (lookup id m.states))))
  where
    ends :
        (o : Option Connection) (old : Option ConnectionState)
        → (if is_some old && not (is_some (answer w o none)) then none else shown (answer w o old))
          ≡ shown (answer w o none)
    ends none none = refl
    ends none (some s) = refl
    ends (some c) none = refl
    ends (some c) (some s) = refl

is_state_refl : (s : StateName) → is_state s s ≡ true
unfolding is_state
is_state_refl s = ground arith

quiet_changes :
    (w : World) (cs : List Connection) (states : Dict ConnectionState)
    → Distinct cs
    → ((id : String) (c : Connection)
        → connection_lookup id cs ≡ some c
        → lookup id states ≡ some (state_of w c))
    → changes_from w cs states ≡ []
unfolding changes_from connection_lookup differs
quiet_changes w [] states d h = refl
quiet_changes w (c ∷ cs) states d h =
    let own : lookup (state_of w c).id states ≡ some (state_of w c) =
      subst (λ (i : String). lookup i states ≡ some (state_of w c)) (sym (state_of-id w c))
        (h c.id c (rw (str_eq_refl c.id))) in
    rw (own, is_state_refl (state_of w c).state, str_eq_refl (state_of w c).message)
      (quiet_changes w cs states d.1 later)
  where
    later :
        (id : String) (e : Connection)
        → connection_lookup id cs ≡ some e
        → lookup id states ≡ some (state_of w e)
    later id e found = elim (Bool-cases (str_eq c.id id)) [
      | inl same ↦
          let gone : connection_lookup id cs ≡ none =
            subst (λ (i : String). connection_lookup i cs ≡ none) ((eq_iff c.id id).0 same)
              (absent_lookup c.id cs d.0) in
          ground arith
      | inr other ↦ h id e (rw other found)
    ]

empty_of_has : (ids : List String) → ((id : String) → has id ids ≡ false) → ids ≡ []
empty_of_has [] h = refl
empty_of_has (id ∷ ids) h = ground (arith, h id, str_eq_refl id)

none_gone : (o : Option ConnectionState) → (is_some o && not (is_some o)) ≡ false
none_gone none = refl
none_gone (some s) = refl

-- A poll with the answers of the one before pushes nothing. It is supposed that somebody listens and
-- that no two connections have one id.
pub poll_quiet :
    (w : World) (cs : List Connection) (m : StateMonitor)
    → m.has_broadcast ≡ true
    → Distinct cs
    → poll_events w cs (poll w cs m) ≡ []
unfolding poll_events change_events
poll_quiet w cs m b d =
    rw
      (
        (poll_pushes w cs m b).1,
        quiet_changes w cs (new_states w cs []) d (λ id c found.
            lookup-new_states w cs [] id d
            ∙ ap (λ (o : Option Connection). answer w o (lookup id [])) found),
        empty_of_has (gone_ids (new_states w cs []) (new_states w cs [])) (λ id.
            has-gone_ids id (new_states w cs []) (new_states w cs [])
            ∙ none_gone (lookup id (new_states w cs []))),
      )
      refl
