-- ===== src/Server/Runtime/Commands.antt =====
-- The queue of commands of src/ServerRuntime.cpp, which is bounded for the server and for each
-- connection.
use seed_origin.Base.{
  Option, none, some, String, ℕ, ◌+◌, ◌-◌, Bool, true, false, not, ◌||◌, List, [], ◌∷◌, ◌++◌, ltb,
  leb, ◌==◌, if◌then◌else◌, length, Result, ok, err, ◌>>◌, fail_if,
}
use seed_origin.Net.Command.{NetworkCommand, validate_command}
use seed_origin.World.Float.{FloatOps, FloatText}
use seed_origin.Server.ClientSession.{
  ClientSession, SocketResult, Read, receive, ReceiveStatus, commands, nothing_received,
  receive_closed, receive_failed,
}
use seed_origin.Server.Challenge.{ChallengePorts}
use seed_origin.Server.Dispatcher.{ServerCommandDispatcher, CommandDispatchResult, dispatch_all}
use seed_origin.Server.Runtime.{PendingCommand, ServerRuntime}

abbrev pub max_pending_commands : ℕ
max_pending_commands = 1024

abbrev pub max_pending_commands_per_connection : ℕ
max_pending_commands_per_connection = 128

-- The commands of a connection that wait.
unfoldable pub connection_pending : ℕ → List PendingCommand → ℕ
connection_pending c [] = 0
connection_pending c (p ∷ ps) =
    let rest = connection_pending c ps in if p.connection_id == c then rest + 1 else rest

-- The loop that validates them all, before any is pushed.
unfoldable pub validate_all : List NetworkCommand → Result (Unit {0})
validate_all [] = ok tt
validate_all (c ∷ cs) = validate_command c >> validate_all cs

unfoldable pub pending_of : ℕ → List NetworkCommand → List PendingCommand
pending_of connection [] = []
pending_of connection (c ∷ cs) =
    (record { connection_id = connection; command = c }) ∷ pending_of connection cs

abbrev commands_of : List PendingCommand → List NetworkCommand
commands_of [] = []
commands_of (p ∷ ps) = p.command ∷ commands_of ps

module _ {F : Type 0} where
  abbrev pub push_pending : ServerRuntime F → List PendingCommand → ServerRuntime F
  push_pending rt ps = record rt { pending_commands = rt.pending_commands ++ ps }

  -- The queue never holds more than the maximum, so that the room is not negative in the arithmetic
  -- of `size_t`.
  unfoldable pub enqueue_commands :
      ServerRuntime F → ℕ → List NetworkCommand → Result (ServerRuntime F)
  enqueue_commands rt connection cs =
      let waiting = connection_pending connection rt.pending_commands in
      fail_if (ltb (max_pending_commands - length rt.pending_commands) (length cs))
        "server command queue is full"
      >> fail_if
          (leb max_pending_commands_per_connection waiting
            || ltb (max_pending_commands_per_connection - waiting) (length cs))
          "connection command queue is full"
      >> validate_all cs
      >> ok (push_pending rt (pending_of connection cs))

  abbrev submit_valid :
      ServerRuntime F → NetworkCommand → Result (Unit {0}) → ServerRuntime F × Bool
  submit_valid rt c (err e) = (rt, false)
  submit_valid rt c (ok u) = (push_pending rt (pending_of 0 (c ∷ [])), true)

  -- A command of the server itself, as of the connection 0.
  unfoldable pub submit_command : ServerRuntime F → NetworkCommand → ServerRuntime F × Bool
  submit_command rt c =
      if not rt.running || leb max_pending_commands (length rt.pending_commands)
      then (rt, false)
      else submit_valid rt c (validate_command c)

  unfoldable pub drain_commands : ServerRuntime F → ServerRuntime F × List NetworkCommand
  drain_commands rt = (record rt { pending_commands = [] }, commands_of rt.pending_commands)

  abbrev ingested :
      ServerRuntime F → Result (ServerRuntime F) → ServerRuntime F × ReceiveStatus × Option String
  ingested rt (ok next) = (next, commands, none)
  ingested rt (err e) = (rt, receive_failed, some e)

  abbrev ingest_read :
      ServerRuntime F → Read → ReceiveStatus → ServerRuntime F × ReceiveStatus × Option String
  ingest_read rt r commands = ingested rt (enqueue_commands rt 0 r.read_commands)
  ingest_read rt r nothing_received = (rt, nothing_received, r.error)
  ingest_read rt r receive_closed = (rt, receive_closed, r.error)
  ingest_read rt r receive_failed = (rt, receive_failed, r.error)

  -- `ingest` of a session that is not one of the clients: the session, and what the call returns.
  unfoldable pub ingest :
      ServerRuntime F
      → ClientSession
      → SocketResult (List ℕ)
      → ClientSession × ServerRuntime F × ReceiveStatus × Option String
  ingest rt s socket =
      let r = receive s socket in
      let (next, status, e) = ingest_read rt r r.status in
      if rt.running
      then (r.after, next, status, e)
      else (s, rt, receive_failed, some "server runtime is stopped")

module _ {F W : Type 0} (fl : FloatOps F) (ft : FloatText F) (ports : ChallengePorts W) where
  -- The dispatcher works on the queue that it is bound to.
  unfoldable pub dispatch_pending_commands :
      ServerRuntime F
      → ServerCommandDispatcher F W
      → ServerRuntime F × ServerCommandDispatcher F W × List CommandDispatchResult
  dispatch_pending_commands rt d =
      let (left, cs) = drain_commands rt in
      let (e, results) = dispatch_all fl ft ports d cs in (left, e, results)
