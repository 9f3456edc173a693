-- ===== src/Agent/Reconnect/Starvation.antt =====
-- What a pass does once a connection has failed 1023 times in a row: the product for the backoff
-- overflows, the pass ends there, and nothing behind that connection is reached.
use smbpal_desktop.Prelude.{
  ℕ, ◌+◌, ◌≤◌, ◌≡◌, refl, sym, subst, String, Bool, true, false, Option, none, some, List, [], ◌∷◌,
  ◌++◌, arith, if◌then◌else◌, str_eq, opt_str_eq, str_eq_refl, lookup, insert, lookup-insert, All,
}
use smbpal_desktop.Agent.Tracks.{
  Track, Listed, Key, key_eq, vanished, hold_disconnected, settle, examine,
}
use smbpal_desktop.Agent.Failures.{Failure, failed, retry_track}
use smbpal_desktop.Agent.LoopState.{
  Row, Pass, Mounted, Answer, Reconnector, map_tracks, handle_calls, open_windows, read_connections,
  before,
}
use smbpal_desktop.Agent.Reconnect.{
  mine, key_of, table_get, track_for, conclude, attempt, consider, consider_all, tick, loop,
}
use smbpal_desktop.Agent.Reconnect.Tables.{
  mapped, lookup-map_tracks, attempts_of, attempts_of-append, key_eq_refl,
}

-- The share is waiting to be tried at `now` and has failed so often that the next failure overflows.
abbrev pub IsExhausted : Key → ℕ → Option Track → Type 0
IsExhausted key now none = ⊥
IsExhausted key now (some track) =
    (track.key ≡ key)
    × (track.mounted_at ≡ none)
    × (track.held ≡ none)
    × (1023 ≤ track.failures)
    × (track.next_try ≤ now)

retry_track-IsExhausted :
    (key : Key) (now : ℕ) (o : Option Track)
    → IsExhausted key now o
    → IsExhausted key now (mapped retry_track o)
unfolding retry_track
retry_track-IsExhausted key now none h = h
retry_track-IsExhausted key now (some track) h = ground arith

overflow_count :
    (interval now : ℕ) (f : Failure) (track : Track)
    → f.retryable ≡ true
    → 1023 ≤ track.failures
    → failed interval now f track ≡ (record track { failures = track.failures + 1 }, true)
unfolding failed
overflow_count interval now f track h k = ground arith

examine_tries :
    (c : Listed) (now : ℕ) (trouble : Bool) (track : Track)
    → c.disconnected ≡ false
    → opt_str_eq c.auto_connect "never" ≡ false
    → track.mounted_at ≡ none
    → track.held ≡ none
    → track.next_try ≤ now
    → examine c none now trouble track ≡ (track, true)
unfolding examine vanished hold_disconnected settle
examine_tries c now trouble track d a m h n = ground arith

-- An exception ends the loop over the connections.
consider_all_raised :
    (lower : String → String) (uid interval : ℕ) (trouble : Bool) (p : Pass) (c : Listed)
    (rest : List Listed) (r : Reconnector)
    → (consider lower uid interval trouble p c r).1 ≡ true
    → consider_all lower uid interval trouble p (c ∷ rest) r
      ≡ ((consider lower uid interval trouble p c r).0, true)
unfolding consider_all
consider_all_raised lower uid interval trouble p c rest r h = rw (h, consider_all)

module _ (lower : String → String) (uid interval : ℕ) (username : String) (c : Listed)
    (switched_on : opt_str_eq c.auto_connect "never" ≡ false)
    (not_disconnected : c.disconnected ≡ false) (own : opt_str_eq c.owner username ≡ true)
    (since : ℕ) where
  -- A pass whose list begins with the connection, whose table does not have its share, and in which
  -- its mount fails in a way that may pass, with no call of the agent meanwhile.
  pub record IsDown (p : Pass) : Type 0 where
    pub rest : List Listed
    pub listed : p.connections ≡ Answer.listed (c ∷ rest)
    pub absent : table_get lower uid (key_of lower c) p.mounts ≡ none
    pub failure : Failure
    pub down : p.mount c ≡ Mounted.refused failure
    pub temporary : failure.retryable ≡ true
    pub alone : p.meanwhile c ≡ []
    pub late : since ≤ p.monotonic

  -- One attempt that overflows: it raises, and only the count of failures changes.
  attempt_overflows :
      (p : Pass) (track : Track) (r : Reconnector)
      → IsDown p
      → lookup c.id r.tracks ≡ some track
      → 1023 ≤ track.failures
      → attempt lower interval p c r ≡ (
        record r {
          tracks = insert c.id (record track { failures = track.failures + 1 }) r.tracks;
          attempts = r.attempts ++ c.id ∷ [];
        },
        true,
      )
  unfolding attempt conclude handle_calls
  attempt_overflows p track r d e k =
      rw (d.alone, d.down, e, overflow_count interval p.monotonic d.failure track d.temporary k)

  -- The connection is exhausted, the listener was told nothing more than `told`, and another
  -- connection was attempted `n` times.
  record Starving (other : String) (told : List (List Row)) (n : ℕ) (r : Reconnector) : Type 0 where
    exhausted : IsExhausted (key_of lower c) since (lookup c.id r.tracks)
    silent : r.told ≡ told
    skipped : attempts_of other r.attempts ≡ n

  module _ (other : String) (another : str_eq c.id other ≡ false) (told : List (List Row))
      (n : ℕ) where
    considered :
        (trouble : Bool) (p : Pass) (o : Option Track) (r : Reconnector)
        → IsDown p
        → lookup c.id r.tracks ≡ o
        → IsExhausted (key_of lower c) since o
        → Starving other told n r
        → let x = examine c none p.monotonic trouble (track_for lower (key_of lower c) o) in
          let y = attempt lower interval p c (record r { tracks = insert c.id x.0 r.tracks }) in
          (x.1 ≡ true) × (y.1 ≡ true) × Starving other told n y.0
    unfolding track_for
    considered trouble p none r d e x s = absurd x
    considered trouble p (some track) r d e (k, m, h, f, t) s =
        let same : key_eq track.key (key_of lower c) ≡ true =
          subst (λ (j : Key). key_eq j (key_of lower c) ≡ true) (sym k)
            (key_eq_refl (key_of lower c)) in
        let tries =
          examine_tries c p.monotonic trouble track not_disconnected switched_on m h
            (omega (arith, d.late)) in
        let written = insert c.id track r.tracks in
        let raised =
          attempt_overflows p track (record r { tracks = written }) d
            (rw (lookup-insert c.id c.id track r.tracks, str_eq_refl c.id)) f in
        rw (same, tries, raised)
          (
            refl,
            refl,
            record {
              exhausted =
                  rw
                    (
                      lookup-insert c.id c.id (record track { failures = track.failures + 1 })
                          written,
                      str_eq_refl c.id,
                    )
                    (k, m, h, omega arith, t);
              silent = s.silent;
              skipped = rw (attempts_of-append other c.id r.attempts, another) s.skipped;
            },
          )

    consider-Starving :
        (trouble : Bool) (p : Pass) (r : Reconnector)
        → IsDown p
        → Starving other told n r
        → ((consider lower uid interval trouble p c r).1 ≡ true)
          × Starving other told n (consider lower uid interval trouble p c r).0
    unfolding consider
    consider-Starving trouble p r d s =
        let (tries, raised, kept) =
          considered trouble p (lookup c.id r.tracks) r d refl s.exhausted s in
        rw (d.absent, tries) (raised, kept)

    opened-Starving :
        (p : Pass) (r : Reconnector)
        → Starving other told n r
        → Starving other told n (read_connections p.connections (open_windows p r))
    opened-Starving p r s = read p.connections
      where
        cleared :
            (b : Bool)
            → IsExhausted
                (key_of lower c)
                since
                (lookup c.id (if b then map_tracks retry_track r.tracks else r.tracks))
        cleared false = s.exhausted
        cleared true =
            subst (IsExhausted (key_of lower c) since)
              (sym (lookup-map_tracks c.id retry_track r.tracks))
              (retry_track-IsExhausted (key_of lower c) since (lookup c.id r.tracks) s.exhausted)

        read :
            (answer : Answer) → Starving other told n (read_connections answer (open_windows p r))
        read (Answer.listed cs) =
            unfold read_connections open_windows in
            record { exhausted = cleared _; silent = s.silent; skipped = s.skipped }
        read (Answer.unavailable message) =
            unfold read_connections open_windows in
            record { exhausted = cleared _; silent = s.silent; skipped = s.skipped }

    heads :
        (p : Pass) (r : Reconnector) (d : IsDown p)
        → mine username (read_connections p.connections r).last_list ≡ c ∷ mine username d.rest
    unfolding read_connections mine
    heads p r d = rw (d.listed, own)

    tick-Starving :
        (p : Pass) (r : Reconnector)
        → IsDown p
        → Starving other told n r
        → ((tick lower uid interval username p r).1 ≡ true)
          × Starving other told n (tick lower uid interval username p r).0
    unfolding tick
    tick-Starving p r d s =
        let opened = read_connections p.connections (open_windows p r) in
        let (raised, kept) =
          consider-Starving (before p.monotonic opened.trouble_until) p opened d
            (opened-Starving p r s) in
        rw
          (
            heads p (open_windows p r) d,
            consider_all_raised lower uid interval _ p c (mine username d.rest) opened raised,
          )
          (refl, kept)

    -- Once a connection at the head of the list has failed 1023 times in a row, then as long as its
    -- server stays down no other connection is attempted in any pass, and the listener is told
    -- nothing. It is supposed that the connection is switched on, is this person's, is not
    -- disconnected or held, and that its wait is over.
    pub overflow_starves :
        (passes : List Pass) (r : Reconnector)
        → All IsDown passes
        → IsExhausted (key_of lower c) since (lookup c.id r.tracks)
        → r.told ≡ told
        → attempts_of other r.attempts ≡ n
        → ((loop lower uid interval username passes r).told ≡ told)
          × (attempts_of other (loop lower uid interval username passes r).attempts ≡ n)
    unfolding loop
    overflow_starves [] r a e t m = (t, m)
    overflow_starves (p ∷ passes) r a e t m =
        let kept = (tick-Starving p r a.0 (record { exhausted = e; silent = t; skipped = m })).1 in
        overflow_starves passes (tick lower uid interval username p r).0 a.1 kept.exhausted
          kept.silent kept.skipped
