-- ===== src/State/Monitor/Polling/Changes.antt =====
-- The change events of a poll, followed by a client, connection by connection.
use smbpal_desktop.Prelude.{
  ◌≡◌, refl, subst, ap, ◌∙◌, String, true, false, none, some, List, [], ◌∷◌, arith, if◌then◌else◌,
  str_eq, eq_iff, Dict, lookup, insert, lookup-insert, Bool-cases, inl, inr,
}
use smbpal_desktop.State.States.{ConnectionState}
use smbpal_desktop.State.Machine.{Connection}
use smbpal_desktop.State.Monitor.{World}
use smbpal_desktop.State.Monitor.Polling.{state_of, differs, connection_lookup}
use smbpal_desktop.State.Monitor.Polling.Pushing.{changes_from, change_events}
use smbpal_desktop.State.Monitor.Polling.Client.{
  Shown, follow, shown, Distinct, state_of-id, follow-change, not_differs, answer, absent_lookup,
}

-- One connection's part of the changes, followed.
step_client : World → Connection → Dict ConnectionState → Dict Shown → Dict Shown
step_client w c old client =
    if differs (lookup (state_of w c).id old) (state_of w c)
    then insert (state_of w c).id ((state_of w c).state, (state_of w c).message) client
    else client

follow-changes_from :
    (w : World) (all : List Connection) (c : Connection) (cs : List Connection)
    (old : Dict ConnectionState) (client : Dict Shown)
    → follow (change_events all (changes_from w (c ∷ cs) old)) client
      ≡ follow (change_events all (changes_from w cs old)) (step_client w c old client)
unfolding changes_from change_events step_client
follow-changes_from w all c cs old client =
    elim (Bool-cases (differs (lookup (state_of w c).id old) (state_of w c))) [
      | inl e ↦
          rw (e, changes_from)
            (follow-change (lookup (state_of w c).id old) (state_of w c)
              (connection_lookup (state_of w c).id all) (change_events all (changes_from w cs old))
              client)
      | inr e ↦ rw (e, changes_from)
    ]

lookup-step_client_ne :
    (w : World) (c : Connection) (old : Dict ConnectionState) (client : Dict Shown) (id : String)
    → str_eq c.id id ≡ false
    → lookup id (step_client w c old client) ≡ lookup id client
unfolding step_client
lookup-step_client_ne w c old client id e = ground (
  arith,
  other,
  lookup-insert (state_of w c).id id ((state_of w c).state, (state_of w c).message) client,
)
  where
    other : str_eq (state_of w c).id id ≡ false
    other = rw (state_of-id w c) e

lookup-step_client_self :
    (w : World) (c : Connection) (old : Dict ConnectionState) (client : Dict Shown) (id : String)
    → str_eq c.id id ≡ true
    → lookup id client ≡ shown (lookup id old)
    → lookup id (step_client w c old client) ≡ some ((state_of w c).state, (state_of w c).message)
unfolding step_client
lookup-step_client_self w c old client id e h =
    elim (Bool-cases (differs (lookup (state_of w c).id old) (state_of w c))) [
      | inl d ↦ rw d (
          rw (
            lookup-insert (state_of w c).id id ((state_of w c).state, (state_of w c).message)
                client,
            same,
          ))
      | inr d ↦ rw d (
          h
          ∙ not_differs (lookup id old) (state_of w c) (
              subst (λ (i : String). differs (lookup i old) (state_of w c) ≡ false)
                ((eq_iff (state_of w c).id id).0 same) d))
    ]
  where
    same : str_eq (state_of w c).id id ≡ true
    same = rw (state_of-id w c) e

follow-untouched :
    (w : World) (all cs : List Connection) (old : Dict ConnectionState) (client : Dict Shown)
    (id : String)
    → connection_lookup id cs ≡ none
    → lookup id (follow (change_events all (changes_from w cs old)) client) ≡ lookup id client
follow-untouched w all [] old client id h = unfold follow change_events changes_from in refl
follow-untouched w all (c ∷ cs) old client id h = elim (Bool-cases (str_eq c.id id)) [
  | inl e ↦ absurd (unfold connection_lookup in ground arith)
  | inr e ↦ rw (follow-changes_from w all c cs old client) (
      follow-untouched w all cs old (step_client w c old client) id
        (unfold connection_lookup in ground arith)
      ∙ lookup-step_client_ne w c old client id e)
]

pub follow-changed :
    (w : World) (all cs : List Connection) (old : Dict ConnectionState) (client : Dict Shown)
    (id : String)
    → Distinct cs
    → lookup id client ≡ shown (lookup id old)
    → lookup id (follow (change_events all (changes_from w cs old)) client)
      ≡ shown (answer w (connection_lookup id cs) (lookup id old))
follow-changed w all [] old client id d h =
    unfold follow change_events changes_from connection_lookup in h
follow-changed w all (c ∷ cs) old client id d h = elim (Bool-cases (str_eq c.id id)) [
  | inl e ↦
      let gone : connection_lookup id cs ≡ none =
        subst (λ (i : String). connection_lookup i cs ≡ none) ((eq_iff c.id id).0 e)
          (absent_lookup c.id cs d.0) in
      ap (lookup id) (follow-changes_from w all c cs old client)
      ∙ (follow-untouched w all cs old (step_client w c old client) id gone
          ∙ (lookup-step_client_self w c old client id e h ∙ (unfold connection_lookup in rw e)))
  | inr e ↦
      ap (lookup id) (follow-changes_from w all c cs old client)
      ∙ (follow-changed w all cs old (step_client w c old client) id d.1
            (lookup-step_client_ne w c old client id e ∙ h)
          ∙ (unfold connection_lookup in rw e))
]
