-- ===== src/Agent/Reconnect/Passes.antt =====
-- A pass of the loop, part by part, keeps a held connection held and does not mount it.
use smbpal_desktop.Prelude.{
  opt_str_eq, ℕ, ◌≡◌, sym, subst, inl, inr, String, Bool, true, false, not, ◌||◌, Option, none,
  some, List, [], ◌∷◌, if◌then◌else◌, str_eq, eq_iff, Dict, lookup, insert, lookup-insert, All,
  Bool-cases,
}
use smbpal_desktop.Agent.Tracks.{Track, Listed, Key, key_eq, examine}
use smbpal_desktop.Agent.Failures.{retry_track}
use smbpal_desktop.Agent.LoopState.{
  Pass, Mounted, Reconnector, map_tracks, handle_calls, open_windows, read_connections, Answer,
  listed, unavailable, before,
}
use smbpal_desktop.Agent.Reconnect.{
  mine, key_of, table_get, track_for, conclude, attempt, consider, consider_all, tick,
}
use smbpal_desktop.Agent.Reporting.{prune, has_id, report, rows, is_reported}
use smbpal_desktop.Agent.Reconnect.Tables.{
  lookup-map_tracks, lookup-prune, attempts_of, attempts_of-append, key_eq_refl,
}
use smbpal_desktop.Agent.Reconnect.Holding.{
  IsHeld, keeps_held, retry_track-IsHeld, handle_calls-IsHeld, examine-IsHeld,
}

-- What is kept about a held connection: its track is held, and so often it was attempted.
-- A listed connection with this id points at this share.
abbrev pub PointsAt : (String → String) → String → Key → Listed → Type 0
PointsAt lower id key c = str_eq c.id id ≡ true → key_of lower c ≡ key

All-mine :
    (P : Listed → Type 0) (username : String) (cs : List Listed)
    → All P cs
    → All P (mine username cs)
unfolding mine
All-mine P username [] a = tt
All-mine P username (c ∷ cs) a = elim (Bool-cases (opt_str_eq c.owner username)) [
  | inl e ↦ rw (e, mine) (a.0, All-mine P username cs a.1)
  | inr e ↦ rw (e, mine) (All-mine P username cs a.1)
]

pub record Held (lower : String → String) (username id : String) (key : Key) (n : ℕ)
    (r : Reconnector) : Type 0 where
  pub list : has_id id (mine username r.last_list) ≡ true
  pub same : All (PointsAt lower id key) r.last_list
  pub track : IsHeld key (lookup id r.tracks)
  pub attempts : attempts_of id r.attempts ≡ n

module _ (lower : String → String) (uid interval : ℕ) (username : String) (id : String)
    (key : Key) where
  -- A pass in which the share is not mounted, and no `connected` call for it comes in during a mount.
  pub record LeavesAlone (p : Pass) : Type 0 where
    pub absent : table_get lower uid key p.mounts ≡ none
    pub calls : (c : Listed) → All (λ k. keeps_held key k ≡ true) (p.meanwhile c)

  attempt-Held :
      (p : Pass) (c : Listed) (n : ℕ) (r : Reconnector)
      → LeavesAlone p
      → str_eq c.id id ≡ false
      → Held lower username id key n r
      → Held lower username id key n (attempt lower interval p c r).0
  unfolding attempt
  attempt-Held p c n r l e h = record {
    list = h.list;
    same = h.same;
    track =
        kept (p.mount c) (lookup c.id (handle_calls (p.meanwhile c) r.tracks))
          (handle_calls-IsHeld id key (p.meanwhile c) r.tracks (l.calls c) h.track);
    attempts = rw (attempts_of-append id c.id r.attempts, e) h.attempts;
  }
    where
      tracks : Dict Track
      tracks = handle_calls (p.meanwhile c) r.tracks

      kept :
          (result : Mounted) (o : Option Track)
          → IsHeld key (lookup id tracks)
          → IsHeld key (lookup id (conclude lower interval p.monotonic c.id result o tracks).0)
      kept result none k = unfold conclude in k
      kept (Mounted.at where_) (some track) k =
          unfold conclude in rw (lookup-insert c.id id _ tracks, e) k
      kept (Mounted.refused f) (some track) k =
          unfold conclude in rw (lookup-insert c.id id _ tracks, e) k

  -- The pass looks at the held track itself, leaves it held and does not try.
  look :
      (c : Listed) (now : ℕ) (trouble : Bool) (o : Option Track)
      → IsHeld key o
      → IsHeld key (some (examine c none now trouble (track_for lower key o)).0)
        × ((examine c none now trouble (track_for lower key o)).1 ≡ false)
  unfolding track_for
  look c now trouble none h = absurd h
  look c now trouble (some track) h =
      let same : key_eq track.key key ≡ true =
        subst (λ (k : Key). key_eq k key ≡ true) (sym h.0) (key_eq_refl key) in
      rw same (examine-IsHeld c now trouble track key h.0 h.1)

  consider-Held :
      (trouble : Bool) (p : Pass) (c : Listed) (n : ℕ) (r : Reconnector)
      → LeavesAlone p
      → PointsAt lower id key c
      → Held lower username id key n r
      → Held lower username id key n (consider lower uid interval trouble p c r).0
  unfolding consider
  consider-Held trouble p c n r l s h = elim (Bool-cases (str_eq c.id id)) [
    | inr e ↦
        other
          (examine c (table_get lower uid (key_of lower c) p.mounts) p.monotonic trouble
            (track_for lower (key_of lower c) (lookup c.id r.tracks)))
          e
    | inl e ↦ rw (s e, l.absent) (own e)
  ]
    where
      other :
          (x : Track × Bool)
          → str_eq c.id id ≡ false
          → Held lower username id key n
              (if x.1
                then attempt lower interval p c (record r { tracks = insert c.id x.0 r.tracks })
                else (record r { tracks = insert c.id x.0 r.tracks }, false)).0
      other (x, try) e =
          let written : Held lower username id key n
              (record r { tracks = insert c.id x r.tracks }) =
            record {
              list = h.list;
              same = h.same;
              track = rw (lookup-insert c.id id x r.tracks, e) h.track;
              attempts = h.attempts;
            } in
          elim (Bool-cases try) [
            | inl t ↦
                rw t (attempt-Held p c n (record r { tracks = insert c.id x r.tracks }) l e written)
            | inr t ↦ rw t written
          ]

      own :
          str_eq c.id id ≡ true
          → let x =
              examine c none p.monotonic trouble (track_for lower key (lookup c.id r.tracks)) in
            Held lower username id key n
              (if x.1
                then attempt lower interval p c (record r { tracks = insert c.id x.0 r.tracks })
                else (record r { tracks = insert c.id x.0 r.tracks }, false)).0
      own e =
          let mine_held : IsHeld key (lookup c.id r.tracks) =
            subst (λ (i : String). IsHeld key (lookup i r.tracks)) (sym ((eq_iff c.id id).0 e))
              h.track in
          let (held, still) = look c p.monotonic trouble (lookup c.id r.tracks) mine_held in
          rw still (record {
            list = h.list;
            same = h.same;
            track = rw (lookup-insert c.id id _ r.tracks, e) held;
            attempts = h.attempts;
          })

  consider_all-Held :
      (trouble : Bool) (p : Pass) (cs : List Listed) (n : ℕ) (r : Reconnector)
      → LeavesAlone p
      → All (PointsAt lower id key) cs
      → Held lower username id key n r
      → Held lower username id key n (consider_all lower uid interval trouble p cs r).0
  unfolding consider_all
  consider_all-Held trouble p [] n r l s h = h
  consider_all-Held trouble p (c ∷ cs) n r l s h =
      let first = consider lower uid interval trouble p c r in
      let kept = consider-Held trouble p c n r l s.0 h in
      elim (Bool-cases first.1) [
        | inl e ↦ rw (e, consider_all) kept
        | inr e ↦ rw (e, consider_all) (consider_all-Held trouble p cs n first.0 l s.1 kept)
      ]

  -- Whenever the daemon answers, its list names the connection as this person's, and names no other
  -- share under its id.
  abbrev pub ListsIt : Answer → Type 0
  ListsIt (listed cs) = (has_id id (mine username cs) ≡ true) × All (PointsAt lower id key) cs
  ListsIt (unavailable message) = Unit

  opened-Held :
      (p : Pass) (n : ℕ) (r : Reconnector)
      → ListsIt p.connections
      → Held lower username id key n r
      → Held lower username id key n (read_connections p.connections (open_windows p r))
  opened-Held p n r l h = read p.connections l windows
    where
      cleared :
          (b : Bool)
          → IsHeld key (lookup id (if b then map_tracks retry_track r.tracks else r.tracks))
      cleared false = h.track
      cleared true =
          subst (IsHeld key) (sym (lookup-map_tracks id retry_track r.tracks))
            (retry_track-IsHeld key (lookup id r.tracks) h.track)

      windows : Held lower username id key n (open_windows p r)
      windows =
          unfold open_windows in
          record { list = h.list; same = h.same; track = cleared _; attempts = h.attempts }

      read :
          (answer : Answer)
          → ListsIt answer
          → Held lower username id key n (open_windows p r)
          → Held lower username id key n (read_connections answer (open_windows p r))
      read (listed cs) k w =
          unfold read_connections in
          record { list = k.0; same = k.1; track = w.track; attempts = w.attempts }
      read (unavailable message) k w =
          unfold read_connections in
          record { list = w.list; same = w.same; track = w.track; attempts = w.attempts }

  pub tick-Held :
      (p : Pass) (n : ℕ) (r : Reconnector)
      → LeavesAlone p
      → ListsIt p.connections
      → Held lower username id key n r
      → Held lower username id key n (tick lower uid interval username p r).0
  unfolding tick
  tick-Held p n r l k h =
      let opened = read_connections p.connections (open_windows p r) in
      let ready = opened-Held p n r k h in
      let connections = mine username opened.last_list in
      let trouble = before p.monotonic opened.trouble_until in
      let pass = consider_all lower uid interval trouble p connections opened in
      let kept =
        consider_all-Held trouble p connections n opened l
          (All-mine (PointsAt lower id key) username opened.last_list ready.same) ready in
      elim (Bool-cases pass.1) [
        | inl e ↦ rw (e, tick) kept
        | inr e ↦
            rw (e, tick)
              (reports (record pass.0 { tracks = prune connections pass.0.tracks })
                (pruned pass.0 connections ready.list kept))
      ]
    where
      pruned :
          (r' : Reconnector) (cs : List Listed)
          → has_id id cs ≡ true
          → Held lower username id key n r'
          → Held lower username id key n (record r' { tracks = prune cs r'.tracks })
      pruned r' cs e h' = record {
        list = h'.list;
        same = h'.same;
        track = rw (lookup-prune id cs r'.tracks, e) h'.track;
        attempts = h'.attempts;
      }

      reports :
          (r' : Reconnector)
          → Held lower username id key n r'
          → Held lower username id key n (report r')
      reports r' h' =
          elim (Bool-cases (is_reported r'.reported (rows r'.tracks) || not r'.has_listener)) [
            | inl e ↦ unfold report in rw e h'
            | inr e ↦
                unfold report in
                rw e (record {
                  list = h'.list;
                  same = h'.same;
                  track = h'.track;
                  attempts = h'.attempts;
                })
          ]
