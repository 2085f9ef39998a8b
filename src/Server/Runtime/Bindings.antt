-- ===== src/Server/Runtime/Bindings.antt =====
-- The sessions that src/ServerRuntime.cpp has bound to connections, and the clients behind them.
use seed_origin.Base.{
  ℕ, Bool, true, false, not, ◌||◌, List, Option, none, some, is_some, ◌==◌, if_lem, ◌+◌, uint64_max,
  has, insert, ℕ_key, lookup-insert, lookup-erase, Result, ok, err, ◌≡◌, refl, ap, arith,
}
use seed_origin.Net.Command.{NetworkCommand, login, disconnect}
use seed_origin.Session.Registry.{SessionInfo}
use seed_origin.Session.Lifecycle.{SessionLifecycle, bind, has_session}
use seed_origin.Session.Lifecycle as Lifecycle
use seed_origin.Server.Handlers.{is_type}
use seed_origin.Server.ClientSession.{
  ClientSession, new_session, enqueue_frame, request_close_after_flush,
}
use seed_origin.Server.Presence.{LoginFieldSpawnSettings, Placed, resolve_player_id_stub}
use seed_origin.Server.Dispatcher.{CommandDispatchResult}
use seed_origin.Server.Runtime.{
  PendingCommand, ServerRuntime, accept_client, client_session, put_client,
}
use seed_origin.Server.Runtime.Commands.{enqueue_commands}
use seed_origin.Server.Runtime.Answers.{
  Serving, enqueue_session_frame, closing, answer_disconnect, put_enqueued, close_after,
  end_session, placed_session, bound_session, placed_login, finish_login, answer,
}

module _ {F : Type 0} (c : ℕ) where
  -- The connection has no session, or it is that of a client.
  unfoldable pub IsBound : ServerRuntime F → Type 0
  IsBound rt = (not (has_session rt.lifecycle c) || has c rt.clients) ≡ true

  pub put_client-IsBound :
      (rt : ServerRuntime F) (k : ℕ) (s : ClientSession) → IsBound rt → IsBound (put_client rt k s)
  unfolding IsBound
  put_client-IsBound rt k s h = ground (arith, lookup-insert c k s rt.clients)

  inserted_IsBound :
      (rt : ServerRuntime F) (k : ℕ)
      → IsBound rt
      → IsBound (record rt {
        next_connection_id = rt.next_connection_id + 1;
        clients = insert k new_session rt.clients;
      })
  unfolding IsBound
  inserted_IsBound rt k h = ground (arith, lookup-insert c k new_session rt.clients)

  pub accept_client-IsBound : (rt : ServerRuntime F) → IsBound rt → IsBound (accept_client rt).0
  unfolding accept_client
  accept_client-IsBound rt h =
      if_lem (λ (r : ServerRuntime F × Result ℕ). IsBound r.0) (not rt.running) _ _ (λ g. h)
        (λ g.
          if_lem (λ (r : ServerRuntime F × Result ℕ). IsBound r.0)
            (rt.next_connection_id == uint64_max) _ _ (λ k. h)
            (λ k. inserted_IsBound rt rt.next_connection_id h))

  -- A queue that grows leaves the bindings and the clients alone.
  pub enqueue_commands-IsBound :
      (rt : ServerRuntime F) (k : ℕ) (cs : List NetworkCommand) (r : ServerRuntime F)
      → IsBound rt
      → enqueue_commands rt k cs ≡ ok r
      → IsBound r
  unfolding enqueue_commands IsBound
  enqueue_commands-IsBound rt k cs r h e = ground arith

  counted_IsBound :
      (rt : ServerRuntime F)
      → IsBound rt
      → IsBound (record rt { new_authenticated_sessions = rt.new_authenticated_sessions + 1 })
  unfolding IsBound
  counted_IsBound rt h = h

  close_after-IsBound :
      (k : ℕ) (o : Option ClientSession) (rt : ServerRuntime F)
      → IsBound rt
      → IsBound (close_after k o rt)
  close_after-IsBound k none rt h = h
  close_after-IsBound k (some s) rt h = put_client-IsBound rt k (request_close_after_flush s) h

  -- A session is bound to a connection that has a client.
  bind-IsBound :
      (rt : ServerRuntime F) (k : ℕ) (info : SessionInfo) (bindings : SessionLifecycle)
      → has k rt.clients ≡ true
      → IsBound rt
      → bind rt.lifecycle k info ≡ ok bindings
      → IsBound (record rt { lifecycle = bindings })
  unfolding bind IsBound
  bind-IsBound rt k info bindings there h e =
      ground (arith, lookup-insert c k info.internal_id rt.lifecycle)

module _ {F W : Type 0} (c : ℕ) where
  end_session-IsBound :
      (v : Serving F W) (k : ℕ) (b : Bool)
      → IsBound c v.runtime
      → IsBound c (end_session v k b).runtime
  unfolding IsBound Lifecycle.disconnect
  end_session-IsBound v k false h = h
  end_session-IsBound v k true h = ground (arith, lookup-erase c k v.runtime.lifecycle)

  put_enqueued-IsBound :
      (v : Serving F W) (k : ℕ) (r : ClientSession × Result (Unit {0}))
      → IsBound c v.runtime
      → IsBound c (put_enqueued v k r).0.runtime
  put_enqueued-IsBound v k (s, ok u) h = put_client-IsBound c v.runtime k s h
  put_enqueued-IsBound v k (s, err e) h = put_client-IsBound c v.runtime k s h

  enqueue-IsBound :
      (v : Serving F W) (k : ℕ) (s : ClientSession) (r : Result (List ℕ))
      → IsBound c v.runtime
      → IsBound c (enqueue_session_frame v k s r).0.runtime
  enqueue-IsBound v k s (err e) h = h
  enqueue-IsBound v k s (ok frame) h = put_enqueued-IsBound v k (enqueue_frame s frame) h

  closing-IsBound :
      (k : ℕ) (accepted : Bool) (r : Serving F W × Bool)
      → IsBound c r.0.runtime
      → IsBound c (closing k accepted r).runtime
  closing-IsBound k accepted (v, false) h = h
  closing-IsBound k true (v, true) h =
      close_after-IsBound c k (client_session v.runtime k) v.runtime h
  closing-IsBound k false (v, true) h = h

  answer_disconnect-IsBound :
      (v : Serving F W) (k : ℕ) (command : NetworkCommand) (r : CommandDispatchResult)
      (o : Option ClientSession)
      → IsBound c v.runtime
      → IsBound c (answer_disconnect v k command r o).runtime
  answer_disconnect-IsBound v k command r none h = h
  answer_disconnect-IsBound v k command r (some s) h =
      if_lem (λ (w : Serving F W). IsBound c w.runtime) s.is_open _ _
        (λ g. closing-IsBound k r.accepted _ (enqueue-IsBound v k s _ h)) (λ g. h)

  placed_session-IsBound :
      (v : Serving F W) (k : ℕ) (r : CommandDispatchResult) (p : Placed F)
      → IsBound c v.runtime
      → IsBound c (placed_session v k r p).0.runtime
  placed_session-IsBound v k r (f, names, true) h = counted_IsBound c v.runtime h
  placed_session-IsBound v k r (f, names, false) h =
      end_session-IsBound
        (record v { names = names; dispatcher = record v.dispatcher { field = f } }) k true h

  bound_session-IsBound :
      (settings : LoginFieldSpawnSettings F) (v : Serving F W) (k : ℕ) (r : CommandDispatchResult)
      (o : Result SessionLifecycle)
      → has k v.runtime.clients ≡ true
      → IsBound c v.runtime
      → bind v.runtime.lifecycle k r.session ≡ o
      → IsBound c (bound_session settings v k r o).0.runtime
  bound_session-IsBound settings v k r (err m) there h e = h
  bound_session-IsBound settings v k r (ok bindings) there h e =
      placed_session-IsBound
        (record v {
          runtime = record v.runtime { lifecycle = bindings };
          player_ids =
              (resolve_player_id_stub v.player_ids r.session.internal_id r.session.claimed_id).0;
        })
        k r _ (bind-IsBound c v.runtime k r.session bindings there h e)

  finish_login-IsBound :
      (settings : LoginFieldSpawnSettings F) (v : Serving F W) (k : ℕ) (r : CommandDispatchResult)
      (o : Option ClientSession)
      → client_session v.runtime k ≡ o
      → IsBound c v.runtime
      → IsBound c (finish_login settings v k r o).runtime
  finish_login-IsBound settings v k r none e h = h
  finish_login-IsBound settings v k r (some s) e h =
      if_lem (λ (w : Serving F W). IsBound c w.runtime) s.is_open _ _
        (λ g. enqueue-IsBound (placed_login settings v k r).0 k s _ (
          if_lem (λ (w : Serving F W × CommandDispatchResult). IsBound c w.0.runtime) r.accepted _ _
            (λ g. bound_session-IsBound settings v k r _ (ap is_some e) h refl) (λ g. h)))
        (λ g. h)

  pub answer-IsBound :
      (settings : LoginFieldSpawnSettings F) (v : Serving F W) (p : PendingCommand)
      (r : CommandDispatchResult)
      → IsBound c v.runtime
      → IsBound c (answer settings v p r).runtime
  answer-IsBound settings v p r h =
      let P = λ (w : Serving F W). IsBound c w.runtime in
      let k = p.connection_id in
      if_lem P (k == 0) _ _ (λ g. h)
        (λ g1.
          if_lem P (is_type p.command disconnect) _ _
            (λ g.
              end_session-IsBound _ k r.accepted
                (answer_disconnect-IsBound v k p.command r (client_session v.runtime k) h))
            (λ g2.
              if_lem P (not (is_type p.command login)) _ _ (λ g. h)
                (λ g3. finish_login-IsBound settings v k r (client_session v.runtime k) refl h)))
