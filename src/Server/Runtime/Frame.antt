-- ===== src/Server/Runtime/Frame.antt =====
-- What `processClientFrames` and `processFrame` of src/ServerRuntime.cpp do in a frame.
use seed_origin.Base.{
  ℕ, zero, suc, ◌+◌, not, ◌&&◌, List, [], ◌∷◌, Option, none, some, if◌then◌else◌, length, String,
  ℕ_key, Result, ok, err,
}
use seed_origin.Net.Command.{login}
use seed_origin.World.Float.{FloatOps, FloatText}
use seed_origin.World.Input.{WorldInput}
use seed_origin.World.InputQueue.{WorldInputQueue}
use seed_origin.World.ActionQueue.{advance_frame}
use seed_origin.Session.Lifecycle.{has_session}
use seed_origin.Server.ClientSession.{
  ClientSession, SendStatus, sent, nothing_sent, send_closed, send_failed, SocketResult,
  flush_outbound,
}
use seed_origin.Server.Challenge.{ChallengePorts}
use seed_origin.Server.Presence.{LoginFieldSpawnSettings}
use seed_origin.Server.Handlers.{is_type}
use seed_origin.Server.Dispatcher.{bind_world_input_queue, begin_dispatch, dispatch, result_of}
use seed_origin.Server.Runtime.{
  PendingCommand, ServerRuntime, accept_client, put_client, remove_closed_clients,
}
use seed_origin.Server.Runtime.Answers.{Serving, note_error, receive_all, answer, answer_dispatched}

-- What the sockets do in a frame: the clients that the listener gives, up to the error that it ends
-- with, what each connection has to read, and what each takes of what it is sent.
pub record Sockets : Type 0 where
  pub arrivals : List (Result (Unit {0}))
  pub input : ℕ → SocketResult (List ℕ)
  pub output : ℕ → List (SocketResult ℕ)

pub record ServerFrameResult (F : Type 0) : Type 0 where
  pub world_tick : ℕ
  pub network_operations : ℕ
  pub inputs : List (WorldInput F)
  pub new_authenticated_sessions : ℕ
  pub snapshot_requests : ℕ

abbrev pub max_accepts_per_frame : ℕ
max_accepts_per_frame = 64

module _ {F : Type 0} where
  abbrev pub with_queue : ServerRuntime F → Option (WorldInputQueue F) → ServerRuntime F
  with_queue rt none = rt
  with_queue rt (some q) = record rt { input_tick = record rt.input_tick { input_queue = q } }

module _ {F W : Type 0} where
  abbrev pub with_arrival :
      Serving F W → ServerRuntime F × Result ℕ → (Serving F W → Serving F W × ℕ) → Serving F W × ℕ
  with_arrival v (rt, err e) next = (note_error (record v { runtime = rt }) (some e), 0)
  with_arrival v (rt, ok c) next = let (w, n) = next (record v { runtime = rt }) in (w, n + 1)

  -- The loop of the accepts, and how many there were.
  unfoldable pub accept_all : ℕ → Serving F W → List (Result (Unit {0})) → Serving F W × ℕ
  accept_all zero v arrivals = (v, 0)
  accept_all (suc room) v [] = (v, 0)
  accept_all (suc room) v (err e ∷ arrivals) = (note_error v (some e), 0)
  accept_all (suc room) v (ok u ∷ arrivals) =
      with_arrival v (accept_client v.runtime) (λ w. accept_all room w arrivals)

  abbrev pub take_flushed :
      Serving F W → ℕ → ClientSession × SendStatus × Option String → Serving F W
  take_flushed v c (s, send_failed, e) =
      note_error (record v { runtime = put_client v.runtime c s }) e
  take_flushed v c (s, sent, e) = record v { runtime = put_client v.runtime c s }
  take_flushed v c (s, nothing_sent, e) = record v { runtime = put_client v.runtime c s }
  take_flushed v c (s, send_closed, e) = record v { runtime = put_client v.runtime c s }

  unfoldable pub flush_all :
      Serving F W → (ℕ → List (SocketResult ℕ)) → List (ℕ × ClientSession) → Serving F W
  flush_all v socket [] = v
  flush_all v socket ((c, s) ∷ cs) =
      flush_all (take_flushed v c (flush_outbound s (socket c))) socket cs

  abbrev pub remove_closed : Serving F W → Serving F W
  remove_closed v =
      let (rt, d) = remove_closed_clients v.runtime v.dispatcher in
      record v { runtime = rt; dispatcher = d }

  -- The dispatcher works on the queue of the runtime, to which it is bound.
  abbrev pub lend_queue : Serving F W → Serving F W
  lend_queue v = record v {
    dispatcher =
        begin_dispatch (bind_world_input_queue v.dispatcher v.runtime.input_tick.input_queue)
          (v.runtime.input_tick.world_tick + 1);
  }

  abbrev pub return_queue : Serving F W → Serving F W
  return_queue v = record v { runtime = with_queue v.runtime v.dispatcher.input_queue }

module _ {F W : Type 0} (fl : FloatOps F) (ft : FloatText F) (ports : ChallengePorts W)
    (settings : LoginFieldSpawnSettings F) where
  -- A connection that has a session gets no other: the login is not dispatched.
  unfoldable pub process_command : Serving F W → PendingCommand → Serving F W
  process_command v p =
      if is_type p.command login && has_session v.runtime.lifecycle p.connection_id
      then answer settings v p (result_of p.command.type (err "connection already has a session"))
      else answer_dispatched settings v p (dispatch fl ft ports v.dispatcher p.command)

  unfoldable pub process_commands : Serving F W → List PendingCommand → Serving F W
  process_commands v [] = v
  process_commands v (p ∷ ps) = process_commands (process_command v p) ps

  -- `processClientFrames`, and the number of commands that it has processed.
  unfoldable pub process_client_frames : Serving F W → (ℕ → SocketResult (List ℕ)) → Serving F W × ℕ
  process_client_frames v0 socket =
      let v = record v0 { runtime = record v0.runtime { new_authenticated_sessions = 0 } } in
      let read = receive_all (lend_queue v) socket v.runtime.clients in
      let pending = read.runtime.pending_commands in
      let taken = record read { runtime = record read.runtime { pending_commands = [] } } in
      if not v.runtime.running
      then (record v { error = some "server runtime is stopped" }, 0)
      else (remove_closed (return_queue (process_commands taken pending)), length pending)

  abbrev pub close_frame : Serving F W → ℕ → Sockets → Serving F W × ServerFrameResult F
  close_frame v operations sockets =
      let w = remove_closed (flush_all v sockets.output v.runtime.clients) in
      let (tick, frame) = advance_frame w.runtime.input_tick in
      (
        record w { runtime = record w.runtime { input_tick = tick } },
        record {
          world_tick = frame.world_tick;
          network_operations = operations;
          inputs = frame.inputs;
          new_authenticated_sessions = w.runtime.new_authenticated_sessions;
          snapshot_requests = w.dispatcher.snapshot_requests;
        },
      )

  -- `ServerRuntime::processFrame`
  unfoldable pub process_server_frame : Serving F W → Sockets → Serving F W × ServerFrameResult F
  process_server_frame v sockets =
      let (accepting, accepted) = accept_all max_accepts_per_frame v sockets.arrivals in
      let (processing, processed) = process_client_frames accepting sockets.input in
      if not v.runtime.running
      then (
        record v { error = some "server runtime is stopped" },
        record {
          world_tick = v.runtime.input_tick.world_tick;
          network_operations = 0;
          inputs = [];
          new_authenticated_sessions = 0;
          snapshot_requests = 0;
        },
      )
      else close_frame processing (accepted + processed) sockets
