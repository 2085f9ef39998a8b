-- ===== src/Server/Runtime/Served.antt =====
-- Whose sessions are left when src/ServerRuntime.cpp has run its frames.
use seed_origin.Base.{
  ℕ, ◌+◌, Bool, true, false, not, ◌||◌, ◌&&◌, List, [], ◌∷◌, Option, none, some, ◌==◌, if_lem,
  if◌then◌else◌, lookup, erase, ℕ_key, lookup-erase, err, ◌≡◌, refl, ◌∙◌, arith,
}
use seed_origin.Net.Command.{login}
use seed_origin.World.Float.{FloatOps, FloatText}
use seed_origin.Session.Lifecycle.{SessionLifecycle, has_session}
use seed_origin.World.InputQueue.{WorldInputQueue}
use seed_origin.Session.Registry.{SessionRegistry}
use seed_origin.Session.Lifecycle as Lifecycle
use seed_origin.Server.ClientSession.{ClientSession, SocketResult}
use seed_origin.Server.Presence.{LoginFieldSpawnSettings}
use seed_origin.Server.Challenge.{ChallengePorts}
use seed_origin.Server.Handlers.{is_type}
use seed_origin.Server.Dispatcher.{ServerCommandDispatcher, dispatch, result_of}
use seed_origin.Server.Runtime.{PendingCommand, ServerRuntime, remove_from, remove_closed_clients}
use seed_origin.Server.Runtime.Answers.{Serving, receive_all}
use seed_origin.Server.Runtime.Frame.{
  Sockets, ServerFrameResult, accept_all, flush_all, lend_queue, with_queue, return_queue,
  remove_closed, process_command, process_commands, process_client_frames, process_server_frame,
  close_frame, max_accepts_per_frame,
}
use seed_origin.Server.Runtime.Bindings.{IsBound, answer-IsBound}
use seed_origin.Server.Runtime.Loops.{receive_all-IsBound, accept_all-IsBound, flush_all-IsBound}

-- The list has a closed client of the connection.
abbrev closed_in : ℕ → List (ℕ × ClientSession) → Bool
closed_in c [] = false
closed_in c ((k, s) ∷ cs) = (c == k) && not s.is_open || closed_in c cs

abbrev is_open_client : Option ClientSession → Bool
is_open_client none = false
is_open_client (some s) = s.is_open

closed_in-lookup :
    (c : ℕ) (cs : List (ℕ × ClientSession)) (s : ClientSession)
    → lookup c cs ≡ some s
    → s.is_open ≡ false
    → closed_in c cs ≡ true
unfolding lookup
closed_in-lookup c [] s h o = absurd (ground arith)
closed_in-lookup c ((k, t) ∷ cs) s h o = ground (arith, closed_in-lookup c cs s)

-- The connection has no session, or it is that of a client that is open.
unfoldable pub IsServed : {F : Type 0} → ℕ → ServerRuntime F → Type 0
IsServed c rt = (not (has_session rt.lifecycle c) || is_open_client (lookup c rt.clients)) ≡ true

IsServed-IsBound : {F : Type 0} (c : ℕ) (rt : ServerRuntime F) → IsServed c rt → IsBound c rt
unfolding IsServed IsBound
IsServed-IsBound c rt h = ground arith

module _ {F : Type 0} where
  -- A round of the loop that removes closed clients.
  abbrev without : ServerRuntime F → ℕ → ClientSession → SessionRegistry F → ServerRuntime F
  without rt k s r = if s.is_open then rt else record rt {
    lifecycle = (Lifecycle.disconnect rt.lifecycle r k).0;
    clients = erase k rt.clients;
  }

module _ {F : Type 0} (c : ℕ) where
  without-IsBound :
      (rt : ServerRuntime F) (k : ℕ) (s : ClientSession) (r : SessionRegistry F)
      → IsBound c rt
      → IsBound c (without rt k s r)
  unfolding IsBound Lifecycle.disconnect
  without-IsBound rt k s r h =
      ground (arith, lookup-erase c k rt.clients, lookup-erase c k rt.lifecycle)

  looked_up_IsServed :
      (rt after : ServerRuntime F) (o : Option ClientSession)
      → lookup c rt.clients ≡ o
      → lookup c after.clients ≡ (if closed_in c rt.clients then none else o)
      → IsBound c after
      → IsServed c after
  unfolding IsServed IsBound
  looked_up_IsServed rt after none e a h = ground arith
  looked_up_IsServed rt after (some s) e a h = ground (arith, closed_in-lookup c rt.clients s e)

  -- Nothing but the bindings and the clients counts.
  alike_IsBound :
      (rt next : ServerRuntime F)
      → next.lifecycle ≡ rt.lifecycle
      → next.clients ≡ rt.clients
      → IsBound c rt
      → IsBound c next
  unfolding IsBound
  alike_IsBound rt next e f h = rw (e, f) h

  alike_IsServed :
      (rt next : ServerRuntime F)
      → next.lifecycle ≡ rt.lifecycle
      → next.clients ≡ rt.clients
      → IsServed c rt
      → IsServed c next
  unfolding IsServed
  alike_IsServed rt next e f h = rw (e, f) h

  with_queue-IsBound :
      (rt : ServerRuntime F) (o : Option (WorldInputQueue F))
      → IsBound c rt
      → IsBound c (with_queue rt o)
  with_queue-IsBound rt none h = h
  with_queue-IsBound rt (some q) h = alike_IsBound rt (with_queue rt (some q)) refl refl h

module _ {F W : Type 0} (c : ℕ) where
  -- The loop that removes closed clients takes those that are in its list.
  removed_lookup :
      (cs : List (ℕ × ClientSession)) (rt : ServerRuntime F) (d : ServerCommandDispatcher F W)
      → lookup c (remove_from rt d cs).0.clients
        ≡ (if closed_in c cs then none else lookup c rt.clients)
  removed_lookup [] rt d = refl
  removed_lookup ((k, s) ∷ cs) rt d =
      removed_lookup cs (without rt k s d.registry) _ ∙ ground (arith, lookup-erase c k rt.clients)

  removed_IsBound :
      (cs : List (ℕ × ClientSession)) (rt : ServerRuntime F) (d : ServerCommandDispatcher F W)
      → IsBound c rt
      → IsBound c (remove_from rt d cs).0
  removed_IsBound [] rt d h = h
  removed_IsBound ((k, s) ∷ cs) rt d h =
      removed_IsBound cs (without rt k s d.registry) _ (without-IsBound c rt k s d.registry h)

  remove_closed_clients-IsServed :
      (rt : ServerRuntime F) (d : ServerCommandDispatcher F W)
      → IsBound c rt
      → IsServed c (remove_closed_clients rt d).0
  unfolding remove_closed_clients
  remove_closed_clients-IsServed rt d h =
      looked_up_IsServed c rt _ (lookup c rt.clients) refl (removed_lookup rt.clients rt d)
        (removed_IsBound rt.clients rt d h)

module _ {F W : Type 0} (fl : FloatOps F) (ft : FloatText F) (ports : ChallengePorts W)
    (settings : LoginFieldSpawnSettings F) where
  -- The frames of the server, one after the other.
  unfoldable pub serve_frames : Serving F W → List Sockets → Serving F W
  serve_frames v [] = v
  serve_frames v (sockets ∷ frames) =
      serve_frames (process_server_frame fl ft ports settings v sockets).0 frames

module _ {F W : Type 0} (fl : FloatOps F) (ft : FloatText F) (ports : ChallengePorts W)
    (settings : LoginFieldSpawnSettings F) (c : ℕ) where
  process_command-IsBound :
      (v : Serving F W) (p : PendingCommand)
      → IsBound c v.runtime
      → IsBound c (process_command fl ft ports settings v p).runtime
  unfolding process_command
  process_command-IsBound v p h =
      if_lem (λ (w : Serving F W). IsBound c w.runtime)
        (is_type p.command login && has_session v.runtime.lifecycle p.connection_id) _ _
        (λ g.
          answer-IsBound c settings v p
            (result_of p.command.type (err "connection already has a session")) h)
        (λ g.
          answer-IsBound c settings
            (record v { dispatcher = (dispatch fl ft ports v.dispatcher p.command).0 }) p
            (dispatch fl ft ports v.dispatcher p.command).1 h)

  process_commands-IsBound :
      (v : Serving F W) (ps : List PendingCommand)
      → IsBound c v.runtime
      → IsBound c (process_commands fl ft ports settings v ps).runtime
  unfolding process_commands
  process_commands-IsBound v [] h = h
  process_commands-IsBound v (p ∷ ps) h =
      process_commands-IsBound (process_command fl ft ports settings v p) ps
        (process_command-IsBound v p h)

  frames_processed_IsServed :
      (v : Serving F W) (socket : ℕ → SocketResult (List ℕ))
      → IsBound c v.runtime
      → IsBound c (process_client_frames fl ft ports settings v socket).0.runtime
  unfolding process_client_frames
  frames_processed_IsServed v0 socket h =
      let P = λ (r : Serving F W × ℕ). IsBound c r.0.runtime in
      let v = record v0 { runtime = record v0.runtime { new_authenticated_sessions = 0 } } in
      let read = receive_all (lend_queue v) socket v.runtime.clients in
      let taken = record read { runtime = record read.runtime { pending_commands = [] } } in
      let done = process_commands fl ft ports settings taken read.runtime.pending_commands in
      let fresh = alike_IsBound c v0.runtime v.runtime refl refl h in
      if_lem P (not v.runtime.running) _ _ (λ g. fresh)
        (λ g. IsServed-IsBound c _ (
          remove_closed_clients-IsServed c (return_queue done).runtime
            (return_queue done).dispatcher
            (with_queue-IsBound c done.runtime done.dispatcher.input_queue (
              process_commands-IsBound taken read.runtime.pending_commands (
                alike_IsBound c read.runtime taken.runtime refl refl
                  (receive_all-IsBound c (lend_queue v) socket v.runtime.clients fresh))))))

  closed_frame_IsServed :
      (v : Serving F W) (n : ℕ) (sockets : Sockets)
      → IsBound c v.runtime
      → IsServed c (close_frame fl ft ports settings v n sockets).0.runtime
  closed_frame_IsServed v n sockets h =
      let w = flush_all v sockets.output v.runtime.clients in
      alike_IsServed c (remove_closed w).runtime _ refl refl (
        remove_closed_clients-IsServed c w.runtime w.dispatcher
          (flush_all-IsBound c v sockets.output v.runtime.clients h))

  process_server_frame-IsServed :
      (v : Serving F W) (sockets : Sockets)
      → IsServed c v.runtime
      → IsServed c (process_server_frame fl ft ports settings v sockets).0.runtime
  unfolding process_server_frame
  process_server_frame-IsServed v sockets h =
      let accepting = accept_all max_accepts_per_frame v sockets.arrivals in
      let processing = process_client_frames fl ft ports settings accepting.0 sockets.input in
      if_lem (λ (r : Serving F W × ServerFrameResult F). IsServed c r.0.runtime)
        (not v.runtime.running) _ _ (λ g. h)
        (λ g. closed_frame_IsServed processing.0 (accepting.1 + processing.1) sockets (
          frames_processed_IsServed accepting.0 sockets.input (
            accept_all-IsBound c max_accepts_per_frame v sockets.arrivals
              (IsServed-IsBound c v.runtime h))))

  -- Whatever the clients send and their sockets do, after every number of frames of the server
  -- a connection has no session or it is that of an open client, if this held before the first
  -- frame.
  pub serve_frames-IsServed :
      (v : Serving F W) (frames : List Sockets)
      → IsServed c v.runtime
      → IsServed c (serve_frames fl ft ports settings v frames).runtime
  unfolding serve_frames
  serve_frames-IsServed v [] h = h
  serve_frames-IsServed v (sockets ∷ frames) h =
      serve_frames-IsServed (process_server_frame fl ft ports settings v sockets).0 frames
        (process_server_frame-IsServed v sockets h)
