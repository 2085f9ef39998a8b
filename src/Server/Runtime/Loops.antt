-- ===== src/Server/Runtime/Loops.antt =====
-- The loops of src/ServerRuntime.cpp over its clients and those that arrive, and the bindings.
use seed_origin.Base.{
  ℕ, zero, suc, List, [], ◌∷◌, Option, ℕ_key, Result, ok, err, ◌≡◌, refl, String,
}
use seed_origin.Server.ClientSession.{
  ClientSession, SocketResult, receive, SendStatus, sent, nothing_sent, send_closed, send_failed,
  ReceiveStatus, commands, nothing_received, receive_closed, receive_failed, Read, flush_outbound,
}
use seed_origin.Server.Runtime.{ServerRuntime, accept_client, put_client}
use seed_origin.Server.Runtime.Commands.{enqueue_commands}
use seed_origin.Server.Runtime.Answers.{Serving, receive_all, take_read, take_enqueued}
use seed_origin.Server.Runtime.Frame.{accept_all, with_arrival, flush_all, take_flushed}
use seed_origin.Server.Runtime.Bindings.{
  IsBound, put_client-IsBound, accept_client-IsBound, enqueue_commands-IsBound,
}

module _ {F W : Type 0} (c : ℕ) where
  take_read-IsBound :
      (v : Serving F W) (k : ℕ) (r : Read) (status : ReceiveStatus)
      → IsBound c v.runtime
      → IsBound c (take_read v k r status).runtime
  take_read-IsBound v k r receive_failed h = h
  take_read-IsBound v k r commands h =
      enqueued_IsBound v (enqueue_commands v.runtime k r.read_commands)
        (λ rt e. enqueue_commands-IsBound c v.runtime k r.read_commands rt h e) h
    where
      enqueued_IsBound :
          (v : Serving F W) (o : Result (ServerRuntime F))
          → ((rt : ServerRuntime F) → o ≡ ok rt → IsBound c rt)
          → IsBound c v.runtime
          → IsBound c (take_enqueued v o).runtime
      enqueued_IsBound v (ok rt) g h = g rt refl
      enqueued_IsBound v (err e) g h = h
  take_read-IsBound v k r nothing_received h = h
  take_read-IsBound v k r receive_closed h = h

  pub receive_all-IsBound :
      (v : Serving F W) (socket : ℕ → SocketResult (List ℕ)) (cs : List (ℕ × ClientSession))
      → IsBound c v.runtime
      → IsBound c (receive_all v socket cs).runtime
  unfolding receive_all
  receive_all-IsBound v socket [] h = h
  receive_all-IsBound v socket ((k, s) ∷ cs) h =
      let r = receive s (socket k) in
      let reading = record v { runtime = put_client v.runtime k r.after } in
      receive_all-IsBound (take_read reading k r r.status) socket cs
        (take_read-IsBound reading k r r.status (put_client-IsBound c v.runtime k r.after h))

  arrival_IsBound :
      (v : Serving F W) (r : ServerRuntime F × Result ℕ) (next : Serving F W → Serving F W × ℕ)
      → IsBound c r.0
      → ((w : Serving F W) → IsBound c w.runtime → IsBound c (next w).0.runtime)
      → IsBound c (with_arrival v r next).0.runtime
  arrival_IsBound v (rt, err e) next h g = h
  arrival_IsBound v (rt, ok k) next h g = g (record v { runtime = rt }) h

  pub accept_all-IsBound :
      (room : ℕ) (v : Serving F W) (arrivals : List (Result (Unit {0})))
      → IsBound c v.runtime
      → IsBound c (accept_all room v arrivals).0.runtime
  unfolding accept_all
  accept_all-IsBound zero v arrivals h = h
  accept_all-IsBound (suc room) v [] h = h
  accept_all-IsBound (suc room) v (err e ∷ arrivals) h = h
  accept_all-IsBound (suc room) v (ok u ∷ arrivals) h =
      arrival_IsBound v (accept_client v.runtime) _ (accept_client-IsBound c v.runtime h)
        (λ w k. accept_all-IsBound room w arrivals k)

  take_flushed-IsBound :
      (v : Serving F W) (k : ℕ) (r : ClientSession × SendStatus × Option String)
      → IsBound c v.runtime
      → IsBound c (take_flushed v k r).runtime
  take_flushed-IsBound v k (s, send_failed, e) h = put_client-IsBound c v.runtime k s h
  take_flushed-IsBound v k (s, sent, e) h = put_client-IsBound c v.runtime k s h
  take_flushed-IsBound v k (s, nothing_sent, e) h = put_client-IsBound c v.runtime k s h
  take_flushed-IsBound v k (s, send_closed, e) h = put_client-IsBound c v.runtime k s h

  pub flush_all-IsBound :
      (v : Serving F W) (socket : ℕ → List (SocketResult ℕ)) (cs : List (ℕ × ClientSession))
      → IsBound c v.runtime
      → IsBound c (flush_all v socket cs).runtime
  unfolding flush_all
  flush_all-IsBound v socket [] h = h
  flush_all-IsBound v socket ((k, s) ∷ cs) h =
      flush_all-IsBound (take_flushed v k (flush_outbound s (socket k))) socket cs
        (take_flushed-IsBound v k (flush_outbound s (socket k)) h)
