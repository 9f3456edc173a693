-- ===== src/Ipc/Sessions.antt =====
-- ipc/server.py: the connections of UnixSocketTransport, as the threads of the clients, those that
-- send, and the one that shuts down change them, one step at a time.
pub mod Table
pub mod Covering
pub mod Sockets
pub mod Shutdown
pub mod FailedSends
use mathlib.Core.List.{◌++◌ as ◌⊕◌}
use smbpal_desktop.Prelude.{
  ℕ, zero, suc, Bool, true, false, List, [], ◌∷◌, if◌then◌else◌, ◌==◌, length,
}
use smbpal_desktop.Ipc.Framing.{Bytes}

-- UnixSocketConnection: `_closed`, whether the socket was shut down and closed, and what was sent.
pub record UnixSocketConnection : Type 0 where
  pub closed : Bool
  pub shut : Bool
  pub sent : List Bytes

abbrev pub new_connection : UnixSocketConnection
new_connection = record { closed = false; shut = false; sent = [] }

-- UnixSocketConnection.send; the flag says that `sendall` did not raise.
unfoldable pub send : Bool → Bytes → UnixSocketConnection → UnixSocketConnection
send delivered payload connection =
    if connection.closed
    then connection
    else if delivered
    then record connection { sent = connection.sent ⊕ payload ∷ [] }
    else record connection { closed = true }

-- UnixSocketConnection.close
unfoldable pub close : UnixSocketConnection → UnixSocketConnection
close connection =
    if connection.closed then connection else record connection { closed = true; shut = true }

-- How far `shutdown` is: not called, past `_stopping.set()`, or with these connections left to close
-- of those that it found.
pub data Phase : Type 0 where
  serving told : Phase
  closing : List ℕ → Phase

-- A connection is named by its number among all that were ever made. `registered` is `_connections`;
-- `leaving` are those that were discarded and whose thread has yet to close them.
pub record Transport : Type 0 where
  pub phase : Phase
  pub made : List UnixSocketConnection
  pub registered : List ℕ
  pub leaving : List ℕ

abbrev pub idle : Transport
idle = record { phase = serving; made = []; registered = []; leaving = [] }

-- A step of one of the threads.
pub data ThreadStep : Type 0 where
  connected : ThreadStep
  sending : ℕ → Bool → Bytes → ThreadStep
  discarded : ℕ → ThreadStep
  left_behind : ℕ → ThreadStep
  shutting_down : ThreadStep

unfoldable pub update :
    ℕ
    → (UnixSocketConnection → UnixSocketConnection)
    → List UnixSocketConnection
    → List UnixSocketConnection
update n change [] = []
update zero change (c ∷ made) = change c ∷ made
update (suc n) change (c ∷ made) = c ∷ update n change made

unfoldable pub without : ℕ → List ℕ → List ℕ
without n [] = []
without n (m ∷ ids) = let rest = without n ids in if m == n then rest else m ∷ rest

abbrev pub is_stopping : Phase → Bool
is_stopping serving = false
is_stopping _ = true

-- _serve_client, under the lock: a connection that comes while the daemon stops is closed at once.
unfoldable pub register : Transport → Transport
unfolding close
register t =
    if is_stopping t.phase
    then record t { made = t.made ⊕ close new_connection ∷ [] }
    else record t { made = t.made ⊕ new_connection ∷ []; registered = length t.made ∷ t.registered }

-- shutdown, each time one step further.
unfoldable pub shutdown_step : Phase → Transport → Transport
unfolding close update
shutdown_step serving t = record t { phase = told }
shutdown_step told t = record t { phase = closing t.registered }
shutdown_step (closing []) t = t
shutdown_step (closing (n ∷ targets)) t = record t {
  phase = closing targets;
  made = update n close t.made;
}

unfoldable pub step : ThreadStep → Transport → Transport
unfolding register send close update without shutdown_step
step connected t = register t
step (sending n delivered payload) t = record t { made = update n (send delivered payload) t.made }
step (discarded n) t = record t { registered = without n t.registered; leaving = n ∷ t.leaving }
step (left_behind n) t = record t { made = update n close t.made; leaving = without n t.leaving }
step shutting_down t = shutdown_step t.phase t

unfoldable pub run : List ThreadStep → Transport → Transport
unfolding step
run [] t = t
run (e ∷ events) t = run events (step e t)
