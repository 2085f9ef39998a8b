-- ===== src/Server/Runtime.antt =====
-- include/seed/ServerRuntime.h and src/ServerRuntime.cpp: the clients, the commands that wait, and the
-- calls that run the server for one frame, which are in the child modules.
pub mod Commands
pub mod Answers
pub mod Frame
pub mod Publish
pub mod Bindings
pub mod Loops
pub mod Served
use seed_origin.Base.{
  ℕ, ◌+◌, Bool, true, false, not, ◌&&◌, List, [], ◌∷◌, Option, none, some, ◌==◌, if◌then◌else◌,
  length, String, ℤ, Map, lookup, insert, erase, ℕ_key, uint64_max, Result, ok, err,
}
use seed_origin.Net.Command.{NetworkCommand}
use seed_origin.World.Float.{FloatOps}
use seed_origin.World.Field.{Field}
use seed_origin.World.Entities.{Action}
use seed_origin.World.InputQueue.{WorldInputQueue, new_queue, clear}
use seed_origin.World.ActionQueue.{WorldInputTick, submit_action, submit_movement}
use seed_origin.Session.Registry.{SessionRegistry}
use seed_origin.Session.Lifecycle.{SessionLifecycle, session_id, disconnect}
use seed_origin.Session.Lifecycle as Lifecycle
use seed_origin.Server.ClientSession.{ClientSession, new_session}
use seed_origin.Server.Presence.{release_after_stop, remove_after_logout}
use seed_origin.Server.Dispatcher.{ServerCommandDispatcher, forget}

pub record PendingCommand : Type 0 where
  pub connection_id : ℕ
  pub command : NetworkCommand

-- `inputQueue` is the queue of the tick, which refers to it.
pub record ServerRuntime (F : Type 0) : Type 0 where
  pub running : Bool
  pub next_connection_id : ℕ
  pub clients : Map ℕ ClientSession
  pub lifecycle : SessionLifecycle
  pub input_tick : WorldInputTick F
  pub pending_commands : List PendingCommand
  pub new_authenticated_sessions : ℕ

module _ {F : Type 0} where
  abbrev pub new_runtime : ServerRuntime F
  new_runtime = record {
    running = false;
    next_connection_id = 1;
    clients = [];
    lifecycle = [];
    input_tick = record { input_queue = new_queue; world_tick = 0 };
    pending_commands = [];
    new_authenticated_sessions = 0;
  }

  -- `start`, with whether the listener could be opened.
  unfoldable pub start : ServerRuntime F → Bool → ServerRuntime F × Bool
  start rt opened =
      if not rt.running && opened then (record rt { running = true }, true) else (rt, false)

  -- `acceptPendingClient` with a client whose socket the listener has given; the new connection.
  unfoldable pub accept_client : ServerRuntime F → ServerRuntime F × Result ℕ
  accept_client rt =
      if not rt.running
      then (rt, err "server runtime is stopped")
      else if rt.next_connection_id == uint64_max
      then (rt, err "connection id allocation failed")
      else (
        record rt {
          next_connection_id = rt.next_connection_id + 1;
          clients = insert rt.next_connection_id new_session rt.clients;
        },
        ok rt.next_connection_id,
      )

  abbrev pub client_session : ServerRuntime F → ℕ → Option ClientSession
  client_session rt connection_id = lookup connection_id rt.clients

  abbrev pub put_client : ServerRuntime F → ℕ → ClientSession → ServerRuntime F
  put_client rt connection_id s = record rt { clients = insert connection_id s rt.clients }

  unfoldable pub runtime_action : ServerRuntime F → Action F → ServerRuntime F × Bool
  runtime_action rt a =
      let (tick, taken) = submit_action rt.input_tick a in
      if rt.running then (record rt { input_tick = tick }, taken) else (rt, false)

module _ {F : Type 0} (fl : FloatOps F) where
  unfoldable pub runtime_movement : ServerRuntime F → ℤ → F → F → F → ServerRuntime F × Bool
  runtime_movement rt session dx dy dz =
      let (tick, taken) = submit_movement fl rt.input_tick session dx dy dz in
      if rt.running then (record rt { input_tick = tick }, taken) else (rt, false)

  -- The loop of `stop` over the clients.
  abbrev pub release_clients : SessionLifecycle → Map ℕ ClientSession → Field F → Field F
  release_clients bindings [] f = f
  release_clients bindings ((c, s) ∷ cs) f =
      release_clients bindings cs (release_after_stop fl f (session_id bindings c)).0

  abbrev pub stopped_runtime : ServerRuntime F → SessionLifecycle → ServerRuntime F
  stopped_runtime rt bindings = record rt {
    running = false;
    clients = [];
    lifecycle = bindings;
    input_tick = record rt.input_tick { input_queue = clear rt.input_tick.input_queue };
    pending_commands = [];
  }

  -- `stop` without a registry: its sessions stay active.
  unfoldable pub stop : ServerRuntime F → Field F → ServerRuntime F × Field F
  stop rt f = (stopped_runtime rt [], release_clients rt.lifecycle rt.clients f)

  -- `stop` with a registry, which ends the sessions of all connections.
  unfoldable pub stop_sessions :
      ServerRuntime F → Field F → SessionRegistry F → ServerRuntime F × Field F × SessionRegistry F
  stop_sessions rt f r =
      let (bindings, left) = Lifecycle.clear rt.lifecycle r in
      (stopped_runtime rt bindings, release_clients rt.lifecycle rt.clients f, left)

module _ {F W : Type 0} where
  -- The clients that are left, while the loop goes over all of them.
  abbrev pub remove_from :
      ServerRuntime F
      → ServerCommandDispatcher F W
      → List (ℕ × ClientSession)
      → ServerRuntime F × ServerCommandDispatcher F W
  remove_from rt d [] = (rt, d)
  remove_from rt d ((c, s) ∷ cs) =
      let session = session_id rt.lifecycle c in
      let (bindings, r, ended) = disconnect rt.lifecycle d.registry c in
      let rest =
        remove_from
          (if s.is_open
            then rt
            else record rt { lifecycle = bindings; clients = erase c rt.clients })
          (if s.is_open
            then d
            else forget (record d { registry = r; field = (remove_after_logout d.field session).0 })
                session)
          cs in
      rest

  -- `removeClosedClients` with the dispatcher, whose registry is the one that is passed.
  unfoldable pub remove_closed_clients :
      ServerRuntime F → ServerCommandDispatcher F W → ServerRuntime F × ServerCommandDispatcher F W
  remove_closed_clients rt d = remove_from rt d rt.clients
