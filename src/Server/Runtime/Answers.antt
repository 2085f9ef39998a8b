-- ===== src/Server/Runtime/Answers.antt =====
-- What src/ServerRuntime.cpp does with what a client has sent: its bytes become commands that wait, and
-- a login or a disconnect that has been dispatched is answered.
use seed_origin.Base.{
  ℕ, ◌+◌, Bool, true, false, not, List, [], ◌∷◌, Option, none, some, ◌==◌, if◌then◌else◌, length,
  String, codes, pos, ℕ_key, Result, ok, err,
}
use seed_origin.Net.Command.{login, disconnect, NetworkCommand, current_protocol_version}
use seed_origin.Net.Login.{LoginResponse, encode_login_response_frame}
use seed_origin.Net.Login as Login
use seed_origin.Net.Disconnect.{DisconnectResponse, encode_disconnect_response_frame}
use seed_origin.Net.Disconnect as Disconnect
use seed_origin.Session.Registry.{empty_session, logout}
use seed_origin.Session.Lifecycle.{SessionLifecycle, bind, has_session}
use seed_origin.Session.Lifecycle as Lifecycle
use seed_origin.Server.ClientSession.{
  ClientSession, ReceiveStatus, commands, nothing_received, receive_closed, receive_failed,
  SocketResult, Read, receive, enqueue_frame, request_close_after_flush,
}
use seed_origin.Server.Presence.{
  LoginFieldSpawnSettings, PlayerIdStub, OperatorNames, Placed, resolve_player_id_stub,
  place_after_login,
}
use seed_origin.Server.Handlers.{is_type}
use seed_origin.Server.Dispatcher.{ServerCommandDispatcher, CommandDispatchResult, Dispatched}
use seed_origin.Server.Runtime.{PendingCommand, ServerRuntime, client_session, put_client}
use seed_origin.Server.Runtime.Commands.{enqueue_commands}

-- What a frame of the server works on: the runtime, the dispatcher, the global state of
-- `FieldSessionPresence` with its stand-in for the port of players, and the text of the first error.
pub record Serving (F W : Type 0) : Type 0 where
  pub runtime : ServerRuntime F
  pub dispatcher : ServerCommandDispatcher F W
  pub names : OperatorNames
  pub player_ids : PlayerIdStub
  pub error : Option String

abbrev pub first : Option String → Option String → Option String
first none e = e
first (some e) later = some e

abbrev pub login_response_from_dispatch : CommandDispatchResult → LoginResponse
login_response_from_dispatch r =
    if r.accepted
    then record {
      version = current_protocol_version;
      status = Login.accepted;
      session_id = r.session.internal_id;
      payload = r.player_session_key;
    }
    else record {
      version = current_protocol_version;
      status = Login.rejected;
      session_id = pos 0;
      payload = codes r.error;
    }

abbrev pub disconnect_response_from : CommandDispatchResult → NetworkCommand → DisconnectResponse
disconnect_response_from r c = record {
  version = current_protocol_version;
  status = if r.accepted then Disconnect.accepted else Disconnect.rejected;
  session_id = c.session_id;
  payload =
      if r.accepted
      then []
      else if length (codes r.error) == 0
      then codes "disconnect was rejected"
      else codes r.error;
}

abbrev pub refused_login : CommandDispatchResult → String → CommandDispatchResult
refused_login r e = record r { accepted = false; session = empty_session; error = e }

module _ {F : Type 0} where
  -- The client is closed when the answer to an accepted disconnect has been sent.
  abbrev pub close_after : ℕ → Option ClientSession → ServerRuntime F → ServerRuntime F
  close_after c none rt = rt
  close_after c (some s) rt = put_client rt c (request_close_after_flush s)

module _ {F W : Type 0} where
  abbrev pub note_error : Serving F W → Option String → Serving F W
  note_error v e = record v { error = first v.error e }

  abbrev pub take_enqueued : Serving F W → Result (ServerRuntime F) → Serving F W
  take_enqueued v (ok rt) = record v { runtime = rt }
  take_enqueued v (err e) = note_error v (some e)

  abbrev pub take_read : Serving F W → ℕ → Read → ReceiveStatus → Serving F W
  take_read v c r receive_failed = note_error v r.error
  take_read v c r commands = take_enqueued v (enqueue_commands v.runtime c r.read_commands)
  take_read v c r nothing_received = v
  take_read v c r receive_closed = v

  -- The loop over the clients, each of which is read once. What the sockets give is an argument.
  unfoldable pub receive_all :
      Serving F W → (ℕ → SocketResult (List ℕ)) → List (ℕ × ClientSession) → Serving F W
  receive_all v socket [] = v
  receive_all v socket ((c, s) ∷ cs) =
      let r = receive s (socket c) in
      receive_all (take_read (record v { runtime = put_client v.runtime c r.after }) c r r.status)
        socket cs

  -- `enqueueSessionFrame`: a client that is not open, or not there, counts as a success.
  abbrev pub put_enqueued : Serving F W → ℕ → ClientSession × Result (Unit {0}) → Serving F W × Bool
  put_enqueued v c (s, ok u) = (record v { runtime = put_client v.runtime c s }, true)
  put_enqueued v c (s, err e) =
      (note_error (record v { runtime = put_client v.runtime c s }) (some e), false)

  abbrev pub enqueue_session_frame :
      Serving F W → ℕ → ClientSession → Result (List ℕ) → Serving F W × Bool
  enqueue_session_frame v c s (err e) = (note_error v (some e), false)
  enqueue_session_frame v c s (ok frame) = put_enqueued v c (enqueue_frame s frame)

  abbrev pub closing : ℕ → Bool → Serving F W × Bool → Serving F W
  closing c accepted (v, false) = v
  closing c accepted (v, true) =
      if accepted
      then record v { runtime = close_after c (client_session v.runtime c) v.runtime }
      else v

  abbrev pub answer_disconnect :
      Serving F W → ℕ → NetworkCommand → CommandDispatchResult → Option ClientSession → Serving F W
  answer_disconnect v c command r none = v
  answer_disconnect v c command r (some s) =
      if s.is_open
      then closing c r.accepted (
          enqueue_session_frame v c s
            (encode_disconnect_response_frame (disconnect_response_from r command)))
      else v

  -- The connection that sent the disconnect loses its own session, whichever session it has named.
  abbrev pub end_session : Serving F W → ℕ → Bool → Serving F W
  end_session v c false = v
  end_session v c true =
      let (bindings, r, ended) = Lifecycle.disconnect v.runtime.lifecycle v.dispatcher.registry c in
      record v {
        runtime = record v.runtime { lifecycle = bindings };
        dispatcher = record v.dispatcher { registry = r };
      }

  abbrev pub placed_session :
      Serving F W → ℕ → CommandDispatchResult → Placed F → Serving F W × CommandDispatchResult
  placed_session v c r (f, names, true) = (
    record v {
      names = names;
      dispatcher = record v.dispatcher { field = f };
      runtime = record v.runtime {
        new_authenticated_sessions = v.runtime.new_authenticated_sessions + 1;
      };
    },
    r,
  )
  placed_session v c r (f, names, false) = (
    end_session (record v { names = names; dispatcher = record v.dispatcher { field = f } }) c true,
    refused_login r "authenticated session could not be placed on the field",
  )

  -- A session that has been bound has a positive number, so that `placeAfterLogin` asks the port.
  abbrev pub bound_session :
      LoginFieldSpawnSettings F
      → Serving F W
      → ℕ
      → CommandDispatchResult
      → Result SessionLifecycle
      → Serving F W × CommandDispatchResult
  bound_session settings v c r (err e) = (
    record v {
      dispatcher = record v.dispatcher {
        registry = (logout v.dispatcher.registry r.session.internal_id).0;
      };
    },
    refused_login r e,
  )
  bound_session settings v c r (ok bindings) =
      let (ids, resolved) =
        resolve_player_id_stub v.player_ids r.session.internal_id r.session.claimed_id in
      let bound = record v {
        runtime = record v.runtime { lifecycle = bindings };
        player_ids = ids;
      } in
      placed_session bound c r
        (place_after_login settings v.dispatcher.field v.names r.session.internal_id resolved)

  -- A login that is accepted is bound to its connection and placed on the field.
  abbrev pub placed_login :
      LoginFieldSpawnSettings F
      → Serving F W
      → ℕ
      → CommandDispatchResult
      → Serving F W × CommandDispatchResult
  placed_login settings v c r =
      let bound = bound_session settings v c r (bind v.runtime.lifecycle c r.session) in
      if r.accepted then bound else (v, r)

  abbrev pub answer_login : ℕ → ClientSession → Serving F W × CommandDispatchResult → Serving F W
  answer_login c s (v, r) =
      (enqueue_session_frame v c s (encode_login_response_frame (login_response_from_dispatch r))).0

  abbrev pub finish_login :
      LoginFieldSpawnSettings F
      → Serving F W
      → ℕ
      → CommandDispatchResult
      → Option ClientSession
      → Serving F W
  finish_login settings v c r none = v
  finish_login settings v c r (some s) =
      let answered = answer_login c s (placed_login settings v c r) in
      if s.is_open then answered else v

  -- Behind the dispatch of a command.
  abbrev pub answer :
      LoginFieldSpawnSettings F → Serving F W → PendingCommand → CommandDispatchResult → Serving F W
  answer settings v p r =
      let session = client_session v.runtime p.connection_id in
      if p.connection_id == 0
      then v
      else if is_type p.command disconnect
      then end_session (answer_disconnect v p.connection_id p.command r session) p.connection_id
          r.accepted
      else if not (is_type p.command login)
      then v
      else finish_login settings v p.connection_id r session

  abbrev pub answer_dispatched :
      LoginFieldSpawnSettings F → Serving F W → PendingCommand → Dispatched F W → Serving F W
  answer_dispatched settings v p (d, r) = answer settings (record v { dispatcher = d }) p r
