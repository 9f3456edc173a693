-- ===== src/Agent/Reporting.antt =====
-- agent/reconnect.py, the end of a pass: tracks that are gone, and the states that are reported.
use mathlib.Core.List.{◌++◌ as ◌⊕◌}
use smbpal_desktop.Prelude.{
  String, Bool, true, false, not, ◌&&◌, ◌||◌, Option, none, some, List, [], ◌∷◌, if◌then◌else◌,
  str_eq, Dict,
}
use smbpal_desktop.Prelude.Sorting.{is_before}
use smbpal_desktop.State.States.{is_state}
use smbpal_desktop.Agent.Tracks.{Track, Listed}
use smbpal_desktop.Agent.LoopState.{Reconnector, Row}

-- `set(self._tracks) - seen` is deleted.
abbrev pub has_id : String → List Listed → Bool
has_id id [] = false
has_id id (c ∷ connections) = str_eq c.id id || has_id id connections

unfoldable pub prune : List Listed → Dict Track → Dict Track
prune seen [] = []
prune seen ((id, track) ∷ tracks) =
    let rest = prune seen tracks in if has_id id seen then (id, track) ∷ rest else rest

-- The rows in the order of their ids.
unfoldable pub insert_row : Row → List Row → List Row
insert_row row [] = row ∷ []
insert_row row (r ∷ rows) =
    if is_before row.id r.id then row ∷ r ∷ rows else r ∷ insert_row row rows

-- states
unfoldable pub rows : Dict Track → List Row
unfolding insert_row
rows [] = []
rows ((id, track) ∷ tracks) =
    insert_row
      (record {
        id = id;
        state = track.status.0;
        message = track.status.1;
        retryable = track.status.2;
        mountpoint = track.mounted_at;
      })
      (rows tracks)

abbrev pub bool_eq : Bool → Bool → Bool
bool_eq true b = b
bool_eq false b = not b

abbrev pub option_eq : Option String → Option String → Bool
option_eq none none = true
option_eq (some a) (some b) = str_eq a b
option_eq _ _ = false

unfoldable pub row_eq : Row → Row → Bool
unfolding is_state
row_eq a b =
    str_eq a.id b.id
    && is_state a.state b.state
    && str_eq a.message b.message
    && bool_eq a.retryable b.retryable
    && option_eq a.mountpoint b.mountpoint

unfoldable pub rows_eq : List Row → List Row → Bool
unfolding row_eq
rows_eq [] [] = true
rows_eq (a ∷ as_) (b ∷ bs) = row_eq a b && rows_eq as_ bs
rows_eq _ _ = false

abbrev pub is_reported : Option (List Row) → List Row → Bool
is_reported none current = false
is_reported (some reported) current = rows_eq reported current

-- _report
unfoldable pub report : Reconnector → Reconnector
unfolding rows
report r =
    let current = rows r.tracks in
    if is_reported r.reported current || not r.has_listener
    then r
    else record r { reported = some current; told = r.told ⊕ current ∷ [] }
