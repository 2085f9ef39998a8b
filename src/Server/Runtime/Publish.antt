-- ===== src/Server/Runtime/Publish.antt =====
-- How src/ServerRuntime.cpp publishes world updates: to each client with a session, with what its
-- session may know.
use seed_origin.Base.{ℕ, ◌+◌, List, [], ◌∷◌, String, ℤ, if◌then◌else◌, Result, ok, err, ◌>>=◌}
use seed_origin.Net.Update.{WorldUpdate, encode_world_update_frame}
use seed_origin.World.Float.{FloatOps, FloatText}
use seed_origin.World.MovementText.{MovementAck}
use seed_origin.World.Updates.{copy_world_update_for_session}
use seed_origin.Session.Lifecycle.{has_session, session_id}
use seed_origin.Server.ClientSession.{ClientSession, enqueue_frame}
use seed_origin.Server.Runtime.{ServerRuntime, put_client}

-- What a call leaves: the runtime, how many frames have been put into queues, and the error with which
-- it has ended.
pub record Published (F : Type 0) : Type 0 where
  pub after : ServerRuntime F
  pub count : ℕ
  pub outcome : Result (Unit {0})

module _ {F : Type 0} where
  abbrev published_or :
      Published F → Result (Unit {0}) → (ServerRuntime F → ℕ → Published F) → Published F
  published_or p (ok u) next = next p.after p.count
  published_or p (err e) next = p

  abbrev failed_at : ServerRuntime F → ℕ → String → Published F
  failed_at rt n e = record { after = rt; count = n; outcome = err e }

  abbrev put_published : ServerRuntime F → ℕ → ℕ → ClientSession × Result (Unit {0}) → Published F
  put_published rt n c (s, ok u) = record {
    after = put_client rt c s;
    count = n + 1;
    outcome = ok tt;
  }
  put_published rt n c (s, err e) = failed_at (put_client rt c s) n e

  abbrev publish_frame : ServerRuntime F → ℕ → ℕ → ClientSession → Result (List ℕ) → Published F
  publish_frame rt n c s (err e) = failed_at rt n e
  publish_frame rt n c s (ok frame) = put_published rt n c (enqueue_frame s frame)

module _ {F : Type 0} (fl : FloatOps F) (ft : FloatText F) (acks : List (MovementAck F)) where
  -- The frame that a session gets for an update.
  unfoldable pub frame_for : WorldUpdate → ℤ → Result (List ℕ)
  frame_for u session =
      copy_world_update_for_session fl ft u session acks >>= λ own. encode_world_update_frame own

  -- The loop over the clients; one without a session is passed over.
  unfoldable pub publish_to :
      ServerRuntime F → ℕ → WorldUpdate → List (ℕ × ClientSession) → Published F
  publish_to rt n u [] = record { after = rt; count = n; outcome = ok tt }
  publish_to rt n u ((c, s) ∷ cs) =
      let p = publish_frame rt n c s (frame_for u (session_id rt.lifecycle c)) in
      let here =
        if has_session rt.lifecycle c
        then p
        else record { after = rt; count = n; outcome = ok tt } in
      published_or here here.outcome (λ after count. publish_to after count u cs)

  unfoldable pub publish_all : ServerRuntime F → ℕ → List WorldUpdate → Published F
  publish_all rt n [] = record { after = rt; count = n; outcome = ok tt }
  publish_all rt n (u ∷ us) =
      let p = publish_to rt n u rt.clients in
      published_or p p.outcome (λ after count. publish_all after count us)

  unfoldable pub publish_world_updates : ServerRuntime F → List WorldUpdate → Published F
  publish_world_updates rt us =
      let all = publish_all rt 0 us in
      if rt.running then all else failed_at rt 0 "server runtime is stopped"
