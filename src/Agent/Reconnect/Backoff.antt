-- ===== src/Agent/Reconnect/Backoff.antt =====
-- The backoff of a connection that keeps failing, and what happens when its count gets too large.
use native.Mathlib.Nat.{pow-suc}
use smbpal_desktop.Prelude.{
  ℕ, zero, suc, ◌+◌, ◌*◌, ◌^◌, ◌≤◌, ◌<◌, ◌≡◌, refl, ap, ◌∙◌, String, Bool, true, false, not, none,
  List, [], ◌∷◌, ◌++◌, ltb, if◌then◌else◌, str_eq_refl, opt_str_eq, lookup, insert, lookup-insert,
  arith,
}
use smbpal_desktop.Agent.Tracks.{
  Track, Listed, max_backoff, fast_backoff, slow_attempt, vanished, hold_disconnected, settle,
  examine,
}
use smbpal_desktop.Agent.Failures.{Failure, cap_for, delay_for, back_off, failed, retry_track}
use smbpal_desktop.Agent.LoopState.{Pass, Reconnector}
use smbpal_desktop.Agent.Reconnect.{key_of, table_get, track_for, attempt, consider}
use smbpal_desktop.Agent.Reconnect.Tables.{key_eq_refl}

one-le-pow : (n : ℕ) → 1 ≤ 2 ^ n
one-le-pow zero = omega arith
one-le-pow (suc n) = omega (arith, one-le-pow n, pow-suc 2 n)

interval-le : (interval n : ℕ) → interval ≤ interval * 2 ^ n
interval-le interval n = grind (arith, one-le-pow n)

failed_next :
    (interval now : ℕ) (f : Failure) (track : Track)
    → f.retryable ≡ true
    → track.failures + 1 < 1024
    → interval ≤ fast_backoff
    → let after = (failed interval now f track).0 in
      (now + interval ≤ after.next_try)
      × (after.next_try ≤ now + max_backoff)
      × (f.took < slow_attempt → after.next_try ≤ now + fast_backoff)
      × (after.status.2 ≡ true)
      × (after.key ≡ track.key)
      × (after.held ≡ track.held)
      × (after.mounted_at ≡ track.mounted_at)
      × ((failed interval now f track).1 ≡ false)
unfolding failed back_off delay_for cap_for
failed_next interval now f track h k l = ground (arith, interval-le interval (track.failures + 1))

retry_track-due :
    (track : Track)
    → track.held ≡ none
    → track.mounted_at ≡ none
    → ((retry_track track).next_try ≡ 0)
      × ((retry_track track).key ≡ track.key)
      × ((retry_track track).held ≡ none)
      × ((retry_track track).mounted_at ≡ none)
unfolding retry_track
retry_track-due track h m = ground (arith, h, m)

-- The mounts that were attempted by the end of the pass's look at the connection, of which this
-- was remembered.
unfoldable pub attempts_after :
    (String → String) → ℕ → ℕ → Bool → Pass → Listed → Reconnector → Track → List String
attempts_after lower uid interval trouble p c r track =
    (consider lower uid interval trouble p c
      (record r { tracks = insert c.id track r.tracks })).0.attempts

module _ (lower : String → String) (uid interval : ℕ) (trouble : Bool) (p : Pass) (c : Listed)
    (r : Reconnector) (switched_on : opt_str_eq c.auto_connect "never" ≡ false)
    (not_disconnected : c.disconnected ≡ false)
    (absent : table_get lower uid (key_of lower c) p.mounts ≡ none) where
  abbrev after_look : Track → List String
  after_look track = attempts_after lower uid interval trouble p c r track

  abbrev Waits : Track → Type 0
  Waits track = (track.key ≡ key_of lower c) × (track.held ≡ none) × (track.mounted_at ≡ none)

  remembered :
      (track : Track)
      → Waits track
      → track_for lower (key_of lower c) (lookup c.id (insert c.id track r.tracks)) ≡ track
  unfolding track_for
  remembered track (k, h, m) =
      rw (lookup-insert c.id c.id track r.tracks, str_eq_refl c.id, k, key_eq_refl (key_of lower c))
        refl

  attempted :
      (track : Track) (x : Track × Bool)
      → (if x.1
          then attempt lower interval p c
              (record r { tracks = insert c.id x.0 (insert c.id track r.tracks) })
          else (
            record r { tracks = insert c.id x.0 (insert c.id track r.tracks) },
            false,
          )).0.attempts
        ≡ (if x.1 then r.attempts ++ c.id ∷ [] else r.attempts)
  unfolding attempt
  attempted track (x, true) = refl
  attempted track (x, false) = refl

  examine-due :
      (track : Track)
      → Waits track
      → (examine c none p.monotonic trouble track).1 ≡ not (ltb p.monotonic track.next_try)
  unfolding examine vanished hold_disconnected settle
  examine-due track (k, h, m) = ground (arith, k, h, m, switched_on, not_disconnected)

  after_look_lem :
      (track : Track)
      → Waits track
      → after_look track
        ≡ (if not (ltb p.monotonic track.next_try) then r.attempts ++ c.id ∷ [] else r.attempts)
  unfolding attempts_after consider
  after_look_lem track w =
      rw (attempts_after, consider, absent, remembered track w)
        (attempted track (examine c none p.monotonic trouble track)
          ∙ ap (λ (try : Bool). if try then r.attempts ++ c.id ∷ [] else r.attempts)
              (examine-due track w))

  abbrev chosen : Bool → List String
  chosen early = if not early then r.attempts ++ c.id ∷ [] else r.attempts

  too_early :
      (track : Track) → Waits track → p.monotonic < track.next_try → after_look track ≡ r.attempts
  too_early track w h =
      let early : ltb p.monotonic track.next_try ≡ true = ground (arith, h) in
      after_look_lem track w ∙ ap chosen early

  due-attempted :
      (track : Track)
      → Waits track
      → track.next_try ≤ p.monotonic
      → after_look track ≡ r.attempts ++ c.id ∷ []
  due-attempted track w h =
      let due : ltb p.monotonic track.next_try ≡ false = ground (arith, h) in
      after_look_lem track w ∙ ap chosen due

  -- After a failure that may pass, of a connection that is switched on and not in the mount table,
  -- the next look of a pass at it does not try it again before one interval is over, does from five
  -- minutes after on, and from thirty seconds after on if the attempt took less than five; once
  -- `_retry_waiting` has cleared the wait it tries at once. Until then the connection is shown as
  -- retryable and is not held, and the failure raised nothing. It is supposed that the connection is
  -- not disconnected, was not held or mounted, that its count of failures stays below 1024, and that
  -- the interval is at most thirty seconds.
  pub failed_bounds :
      (now : ℕ) (f : Failure) (track : Track)
      → f.retryable ≡ true
      → track.failures + 1 < 1024
      → interval ≤ fast_backoff
      → track.key ≡ key_of lower c
      → track.held ≡ none
      → track.mounted_at ≡ none
      → let after = (failed interval now f track).0 in
        (p.monotonic < now + interval → after_look after ≡ r.attempts)
        × (now + max_backoff ≤ p.monotonic → after_look after ≡ r.attempts ++ c.id ∷ [])
        × (f.took < slow_attempt
            → now + fast_backoff ≤ p.monotonic
            → after_look after ≡ r.attempts ++ c.id ∷ [])
        × (after_look (retry_track after) ≡ r.attempts ++ c.id ∷ [])
        × (after.status.2 ≡ true)
        × (after.held ≡ none)
        × ((failed interval now f track).1 ≡ false)
  failed_bounds now f track h k l same free away =
      let after = (failed interval now f track).0 in
      let (soon, late, quick, shown, key, held, mounted, calm) =
        failed_next interval now f track h k l in
      let w : Waits after = (key ∙ same, held ∙ free, mounted ∙ away) in
      let (due, key', held', mounted') = retry_track-due after w.1 w.2 in
      (
        λ early. too_early after w (omega (arith, early, soon)),
        λ due_by. due-attempted after w (omega (arith, due_by, late)),
        λ fast due_by. due-attempted after w (omega (arith, due_by, quick fast)),
        due-attempted (retry_track after) (key' ∙ w.0, held', mounted') (omega (arith, due)),
        shown,
        w.1,
        calm,
      )
