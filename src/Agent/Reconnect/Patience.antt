-- ===== src/Agent/Reconnect/Patience.antt =====
-- What a person asked for, and a refused credential, outlast every later pass of the loop.
use smbpal_desktop.Prelude.{
  ℕ, suc, ◌≡◌, refl, sym, subst, ap, ◌∙◌, String, Bool, true, false, Option, none, some, List, [],
  ◌∷◌, ◌++◌, Dict, if◌then◌else◌, eq_iff, arith, str_eq, opt_str_eq, str_eq_refl, lookup, insert,
  lookup-insert, All,
}
use smbpal_desktop.Agent.Tracks.{
  Track, Listed, Key, key_eq, vanished, hold_disconnected, settle, examine,
}
use smbpal_desktop.Agent.Failures.{Failure, refuse, failed, release_track}
use smbpal_desktop.Agent.LoopState.{Pass, released, Mounted, Reconnector, handle_call, handle_calls}
use smbpal_desktop.Agent.Reconnect.{
  mine, key_of, track_for, conclude, attempt, consider, tick, loop,
}
use smbpal_desktop.Agent.Reporting.{has_id}
use smbpal_desktop.Agent.Reconnect.Tables.{
  mapped, lookup-map_tracks, attempts_of, attempts_of-append, key_eq_refl,
}
use smbpal_desktop.Agent.Reconnect.Holding.{IsHeld}
use smbpal_desktop.Agent.Reconnect.Passes.{PointsAt, Held, LeavesAlone, ListsIt, tick-Held}

released_holds :
    (mountpoint : String) (track : Track) {key : Key}
    → track.key ≡ key
    → opt_str_eq track.last_at mountpoint ≡ true
    → IsHeld key (some (release_track mountpoint track))
unfolding release_track
released_holds mountpoint track k e = ground arith

refuse_holds :
    (f : Failure) (track : Track) {key : Key} → track.key ≡ key → IsHeld key (some (refuse f track))
unfolding refuse
refuse_holds f track k = (k, refl)

-- The state after an attempt that failed for good.
abbrev refused_state : Pass → Listed → Failure → Track → Reconnector → Reconnector
refused_state p c f track r = record r {
  tracks = insert c.id (refuse f track) (handle_calls (p.meanwhile c) r.tracks);
  attempts = r.attempts ++ c.id ∷ [];
}

attempt-refused :
    (lower : String → String) (interval : ℕ) (p : Pass) (c : Listed) (f : Failure) (track : Track)
    (r : Reconnector)
    → lookup c.id (handle_calls (p.meanwhile c) r.tracks) ≡ some track
    → p.mount c ≡ Mounted.refused f
    → f.retryable ≡ false
    → (attempt lower interval p c r).0 ≡ refused_state p c f track r
unfolding attempt
attempt-refused lower interval p c f track r e m b =
    rw (m, e)
      (ap (λ (x : Dict Track × Bool). record r { tracks = x.0; attempts = r.attempts ++ c.id ∷ [] })
        (concluded (handle_calls (p.meanwhile c) r.tracks)))
  where
    concluded :
        (tracks : Dict Track)
        → conclude lower interval p.monotonic c.id (Mounted.refused f) (some track) tracks
          ≡ (insert c.id (refuse f track) tracks, false)
    concluded tracks = unfold conclude failed in ground arith

examine_ejects :
    (c : Listed) (now : ℕ) (track : Track) {key : Key} {gone_from : String}
    → track.key ≡ key
    → track.mounted_at ≡ some gone_from
    → IsHeld key (some (examine c none now false track).0)
      × ((examine c none now false track).1 ≡ false)
unfolding examine vanished hold_disconnected settle
examine_ejects c now track k m = ground arith

module _ (lower : String → String) (uid interval : ℕ) (username : String) (id : String)
    (key : Key) where
  -- A pass in which the daemon, if it answers, lists the connection as this person's, where it
  -- points at the same share, the mount table does not have that share, and no `connected` call for
  -- it comes in during a mount.
  abbrev pub Quiet : Pass → Type 0
  Quiet p =
      LeavesAlone lower uid interval username id key p
      × ListsIt lower uid interval username id key p.connections

  loop-Held :
      (passes : List Pass) (n : ℕ) (r : Reconnector)
      → All Quiet passes
      → Held lower username id key n r
      → Held lower username id key n (loop lower uid interval username passes r)
  unfolding loop
  loop-Held [] n r q h = h
  loop-Held (p ∷ passes) n r q h =
      loop-Held passes n (tick lower uid interval username p r).0 q.1
        (tick-Held lower uid interval username id key p n r q.0.0 q.0.1 h)

  -- However many passes there are, a held connection is not mounted and stays held. It is supposed
  -- that the last list has it, and no other share under its id, and that every pass is quiet: lists
  -- it as before, does not find it mounted, and has no `connected` call for it.
  pub loop-IsHeld :
      (passes : List Pass) (r : Reconnector)
      → All Quiet passes
      → has_id id (mine username r.last_list) ≡ true
      → All (PointsAt lower id key) r.last_list
      → IsHeld key (lookup id r.tracks)
      → (attempts_of id (loop lower uid interval username passes r).attempts
          ≡ attempts_of id r.attempts)
        × IsHeld key (lookup id (loop lower uid interval username passes r).tracks)
  loop-IsHeld passes r q l s h =
      let kept =
        loop-Held passes (attempts_of id r.attempts) r q
          (record { list = l; same = s; track = h; attempts = refl }) in
      (kept.attempts, kept.track)

  -- A disconnect asked for through SMBPal is kept: after `released` for the place where the
  -- connection is or was last mounted, no quiet pass mounts it again. It is supposed that the last
  -- list has it, and no other share under its id.
  pub disconnect_respected :
      (mountpoint : String) (track : Track) (passes : List Pass) (r : Reconnector)
      → All Quiet passes
      → has_id id (mine username r.last_list) ≡ true
      → All (PointsAt lower id key) r.last_list
      → lookup id r.tracks ≡ some track
      → track.key ≡ key
      → opt_str_eq track.last_at mountpoint ≡ true
      → attempts_of id
          (loop lower uid interval username passes
            (record r { tracks = handle_call (released mountpoint) r.tracks })).attempts
        ≡ attempts_of id r.attempts
  disconnect_respected mountpoint track passes r q l s e k at_ =
      (loop-IsHeld passes (record r { tracks = handle_call (released mountpoint) r.tracks }) q l s
        (unfold handle_call in
          subst (IsHeld key) (sym (lookup-map_tracks id (release_track mountpoint) r.tracks)) (
            subst (λ (o : Option Track). IsHeld key (mapped (release_track mountpoint) o)) (sym e)
              (released_holds mountpoint track k at_)))).0

  -- A refused credential is not retried: after an attempt that failed for good, no quiet pass mounts
  -- the connection. It is supposed that its track is there when the mount returns, and that the last
  -- list has it and no other share under its id.
  pub refusal_respected :
      (p : Pass) (c : Listed) (f : Failure) (track : Track) (passes : List Pass) (r : Reconnector)
      → All Quiet passes
      → has_id id (mine username r.last_list) ≡ true
      → All (PointsAt lower id key) r.last_list
      → c.id ≡ id
      → lookup c.id (handle_calls (p.meanwhile c) r.tracks) ≡ some track
      → track.key ≡ key
      → p.mount c ≡ Mounted.refused f
      → f.retryable ≡ false
      → attempts_of id
          (loop lower uid interval username passes (attempt lower interval p c r).0).attempts
        ≡ suc (attempts_of id r.attempts)
  refusal_respected p c f track passes r q l s i e k m b =
      let after = attempt-refused lower interval p c f track r e m b in
      let held : IsHeld key (lookup id (attempt lower interval p c r).0.tracks) =
        subst (λ (t : Reconnector). IsHeld key (lookup id t.tracks)) (sym after)
          (subst (λ (j : String). IsHeld key (lookup j (refused_state p c f track r).tracks)) i
            (rw
              (
                lookup-insert c.id c.id (refuse f track) (handle_calls (p.meanwhile c) r.tracks),
                str_eq_refl c.id,
              )
              (refuse_holds f track k))) in
      (loop-IsHeld passes (attempt lower interval p c r).0 q (unfold attempt in l)
        (unfold attempt in s) held).0
      ∙ (ap (λ (t : Reconnector). attempts_of id t.attempts) after
          ∙ (rw (attempts_of-append id c.id r.attempts, (eq_iff c.id id).1 i)))

  eject-consider :
      (p : Pass) (c : Listed) (gone_from : String) (track : Track) (r : Reconnector)
      → LeavesAlone lower uid interval username id key p
      → key_of lower c ≡ key
      → lookup c.id r.tracks ≡ some track
      → track.key ≡ key
      → track.mounted_at ≡ some gone_from
      → (consider lower uid interval false p c r).0
        ≡ record r { tracks = insert c.id (examine c none p.monotonic false track).0 r.tracks }
  unfolding consider track_for
  eject-consider p c gone_from track r q i e k m =
      rw (i, q.absent, e, subst (λ (j : Key). key_eq j key ≡ true) (sym k) (key_eq_refl key))
        (settled (examine c none p.monotonic false track)
          (examine_ejects c p.monotonic track k m).1)
    where
      settled :
          (x : Track × Bool)
          → x.1 ≡ false
          → (if x.1
              then attempt lower interval p c (record r { tracks = insert c.id x.0 r.tracks })
              else (record r { tracks = insert c.id x.0 r.tracks }, false)).0
            ≡ record r { tracks = insert c.id x.0 r.tracks }
      settled (x, try) h = ground arith

  -- An eject is respected: a connection that was mounted and is no longer in the mount table, while
  -- nothing said that its server had gone, is not mounted in that pass nor in any quiet pass after. It
  -- is supposed that the last list has it, and no other share under its id.
  pub eject_held :
      (p : Pass) (c : Listed) (gone_from : String) (track : Track) (passes : List Pass)
      (r : Reconnector)
      → All Quiet (p ∷ passes)
      → has_id id (mine username r.last_list) ≡ true
      → All (PointsAt lower id key) r.last_list
      → PointsAt lower id key c
      → str_eq c.id id ≡ true
      → lookup c.id r.tracks ≡ some track
      → track.key ≡ key
      → track.mounted_at ≡ some gone_from
      → attempts_of id
          (loop lower uid interval username passes
            (consider lower uid interval false p c r).0).attempts
        ≡ attempts_of id r.attempts
  eject_held p c gone_from track passes r q l s p' i e k m =
      let after = eject-consider p c gone_from track r q.0.0 (p' i) e k m in
      (loop-IsHeld passes (consider lower uid interval false p c r).0 q.1
        (subst (λ (t : Reconnector). has_id id (mine username t.last_list) ≡ true) (sym after) l)
        (subst (λ (t : Reconnector). All (PointsAt lower id key) t.last_list) (sym after) s)
        (subst (λ (t : Reconnector). IsHeld key (lookup id t.tracks)) (sym after)
          (rw (lookup-insert c.id id (examine c none p.monotonic false track).0 r.tracks, i)
            (examine_ejects c p.monotonic track k m).0))).0
      ∙ ap (λ (t : Reconnector). attempts_of id t.attempts) after
