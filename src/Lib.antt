-- ===== src/Lib.antt =====
-- A model of SMBPal, a program that keeps SMB connections mounted and shares served. A daemon runs on
-- Linux (and serves the window, the tray and the command line over a socket); on macOS an agent in
-- each login session mounts that person's connections. Paths below are from the repository's root.
--
-- The daemon's monitor (smbpal/state/monitor.py) polls: for each configured connection it asks what
-- is mounted, what systemd knows of the mount unit and, after a failure, what the unit's journal
-- says (smbpal/state/translate.py), derives one state (smbpal/state/machine.py), starts a mount that
-- nothing has started yet, and pushes what changed to its clients. The agent's reconnect loop
-- (smbpal/agent/reconnect.py) does the mounting on macOS: it keeps a track for each connection,
-- retries with a growing wait, and leaves alone what a person ejected or disconnected and what a
-- server refused.
--
-- Prelude        tests, lists, dicts and decimal numerals that the parts share.
-- State.States   the words for a state, `STATES` and `ConnectionState` of smbpal/state/machine.py.
-- State.Translate  smbpal/state/translate.py: `translate_journal` over a list of character codes. Of
--   the regular expression `mount error\((\d+)\)` there is a scanner, match_error with digits and
--   close; last_errno is the loop over its matches. Scanning and Journal prove what it finds.
-- State.Machine  `derive` of smbpal/state/machine.py, one definition for each nested block of tests;
--   Meaning proves what its answers say.
-- State.Monitor  `StateMonitor` of smbpal/state/monitor.py: its dicts are association lists, what it
--   starts, logs and pushes is kept in lists in order. maybe_prime is `_maybe_prime`; Views, Priming
--   and Frame say what one call does to one connection and to the others, Attempts what any sequence
--   of calls does. Polling is `poll` with `_state_of`, `_emit` and `_push`; Pushing, Client, Changes
--   and Quiet say what is pushed and what a client makes of it.
-- Mounts.Units, Mounts.UnitText  smbpal/mounts/units.py: `escape_path` and the names, and the text of the units.
-- Mounts.Paths   os.path.normpath, and `in_managed_root` of smbpal/config/operations.py.
-- Mounts.Mounter  the Mounter of smbpal/mounts/apply.py, with the units as files by name. Mounter itself writes
--   them, Stale removes those that are no longer configured, Applying has `apply` and `teardown`.
--   Untouched and Foreign say which files stay, Allowed and Armed which commands are run.
-- Agent.Tracks, Agent.Failures  `_Track` and what `_consider`, `_failed`, `released`, `connected` and
--   `_retry_waiting` of smbpal/agent/reconnect.py do to one of them.
-- Agent.LoopState, Agent.Reporting  the state of the loop with the first steps of a pass, and its last.
-- Agent.Reconnect  the loop itself: tick is one pass, which also returns whether an exception ended
--   it; loop goes on from the state that an exception left, as `_loop` does. Tables, Holding and
--   Passes carry an invariant through a pass; Patience, Backoff and Starvation use it.
-- Agent.Ledger   smbpal/agent/ledger.py, with the file as the JSON value in it. A restart is an event like a
--   mount that is recorded or forgotten; Keeping is about its lists, and Owned says what it answers of one mount after any of them.
-- Config.Json    a JSON value as `json.loads` returns it.
-- Config.Schema  smbpal/config/schema.py: Fields has the checks of one field, each giving the problems
--   that it appends, Records those of a record, and Document those of the lists and of the document. The
--   functions of Python that only serve messages are a parameter, `Texts`, as is `str.lower`. Valid,
--   Accepted, Checks and what stands beside them say what a document without problems is known to be.
-- Config.Ids, Config.Naming, Config.Mountpoint  `all_ids`, `make_id` and `default_mountpoint` of
--   smbpal/config/operations.py. The search for a free number has one round more than there are taken
--   paths, which Mountpoint.Search proves to be enough.
-- Config.Operations  the edits of smbpal/config/operations.py, with `validate_or_raise` of
--   smbpal/config/schema.py. What is raised is a value of OperationError without its text. Removing has the removals. Lists and
--   Mountpoints say what becomes of the lists, RoundTrip what an edit that is taken back leaves,
--   Edits what any edits after another keep.
-- Config.UnitSource  what the schema's checks mean for the source of a mount unit.
-- Samba.Conf     smbpal/samba/conf.py: the file that is generated for the enabled shares. Sections
--   has the lines that are expected, Rendered cuts the file into its lines again, Accepts says that a valid document is not refused.
-- Samba.Include  smbpal/samba/include.py over code points. Splitting relates a text to the lines that
--   `splitlines` cuts it into, Block says where the block goes, Marked and Removal what is found of it
--   later, RoundTrip puts them together.
-- Ipc.Framing    `read_frames` of smbpal/ipc/server.py. Cutting compares its loop with lines that are read
--   off byte by byte, Limits and Chunks say what comes out whatever is sent and however it is cut.
-- Ipc.Protocol, Ipc.Wire  smbpal/ipc/protocol.py, and the request of `Client._call_once` in
--   smbpal/ipc/client.py: parse_request on a document, `bytes.hex` and `bytes.fromhex`, the messages, and
--   `json.dumps` as it is called there. Hex, Requests and Lines are about one side each, Served
--   puts client, stream and daemon together.
-- Ipc.Sessions   the connections of `UnixSocketTransport` in smbpal/ipc/server.py. A step of one of the
--   threads is a ThreadStep, and a list of them is an interleaving; the sends of `broadcast` are
--   steps like any other. Covering is about who closes which connection, Sockets and FailedSends about
--   whose socket is shut down, Shutdown puts them together.
-- Examples       tests, and every theorem with a hypothesis at a concrete input.
--
-- What the program asks of the outside is a parameter. A `World` holds the answers that one poll of
-- the monitor gets from the mount table, systemd, the journal and the network; `start_error` is the
-- message with which queueing a start fails. A `Pass` holds what one pass of the loop gets: the flags
-- of the kernel's event, both clocks, the daemon's list or why it could not be had, the mount table,
-- and for each connection the result of a mount and the calls that other threads make while it runs,
-- since the lock is not held then. A `Machine` holds what the host
-- answers while the units are changed: its mount table, also after each stop, and which calls of the
-- system fail. `digit_value` says which characters `\d` matches and what they are
-- worth, `lower` is `str.lower` and `is_space` is `str.isspace`; all are tables of Unicode. `loads` is what becomes of a line by UTF-8 and `json.loads`.
--
-- Times are natural numbers of milliseconds, so a comparison of differences is written with the
-- subtrahend on the other side. Every loop is over a list, of characters, of connections, of
-- changes, of suffixes or of passes, but for three that run on fuel: the digits of a
-- numeral, with one round more than the number, of which each takes a tenth; the search for a
-- free mountpoint; and the frames of a buffer, with one round more than it has bytes, since a frame
-- takes its line end at least, which Framing.Cutting proves to be enough.
--
-- Not modelled: the threads themselves, the log (but for the lines that decide whether another is
-- written), exceptions that the code does not expect of a mount, the limit that Python puts on the
-- digits of a numeral, and the parse of a URL in `connected`, whose key is given. The rest of the
-- program is not modelled: what stores the configuration,
-- share points, discovery, the reading side of the socket's client, the daemon's handlers, the Keychain and launchd, the
-- command line and the window.
pub mod Prelude
pub mod Agent
pub mod Mounts
pub mod State
mod Examples
pub mod Config
pub mod Samba
pub mod Ipc
