-- ===== src/Client/Predictor/Agreement.antt =====
-- Client and server by turns: src/LocalMovementPredictor.cpp replays the movements that the server
-- has not processed on the pose that the server has reached by the others.
use seed_origin.Base.{
  ℕ, ◌≤◌, Bool, true, false, List, [], ◌∷◌, Option, none, some, length, length-drop, take, drop,
  ◌≡◌, refl, sym, ap, ◌∙◌, subst, arith,
}
use seed_origin.World.Float.{FloatOps}
use seed_origin.Client.Pending.{
  PendingMoveInput, max_pending_prediction_inputs, push, acknowledge_up_to,
}
use seed_origin.Client.Predictor.{
  PredictedPose, LocalMovementPredictor, reset, integrate, push_predicted, predict_at, predict,
  replay, record_reconcile, correct_render, rebase, reconcile,
}
use seed_origin.Client.Pending.Order.{
  Above, last_sequence, push-Above, acknowledge_up_to-drop, Above-drop,
}
use seed_origin.Client.Predictor.Replay.{
  simulated, simulated-append, replay-simulated, simulated-drop,
}

-- The client predicts a movement, or the server processes some of those that it has been sent and
-- the client hears of it.
pub data PredictionStep (F : Type 0) : Type 0 where
  moved : PendingMoveInput F → PredictionStep F
  processed : ℕ → ℕ → PredictionStep F

module _ {F : Type 0} (fl : FloatOps F) where
  -- The pose that the server has reached, and the client.
  abbrev pub prediction_step :
      PredictedPose F × LocalMovementPredictor F
      → PredictionStep F
      → PredictedPose F × LocalMovementPredictor F
  prediction_step (server, l) (moved m) = (server, (predict fl l m).0)
  prediction_step (server, l) (processed k tick) =
      let reached = replay fl server (take k l.pending) in
      (reached, reconcile fl l reached tick (last_sequence 0 (take k l.pending)))

  unfoldable pub prediction_steps :
      PredictedPose F × LocalMovementPredictor F
      → List (PredictionStep F)
      → PredictedPose F × LocalMovementPredictor F
  prediction_steps st [] = st
  prediction_steps st (e ∷ es) = prediction_steps (prediction_step st e) es

-- The client is ahead of the server by its pending movements, which are in order and bounded.
pub record IsPredicted {F : Type 0} (fl : FloatOps F) (server : PredictedPose F)
    (l : LocalMovementPredictor F) : Type 0 where
  pub ahead : simulated fl server l.pending ≡ some l.predicted_pose
  pub ascending : Above 0 l.pending
  pub bounded : length l.pending ≤ max_pending_prediction_inputs

module _ {F : Type 0} (fl : FloatOps F) where
  at_push :
      (server next : PredictedPose F) (l : LocalMovementPredictor F) (m : PendingMoveInput F)
      (r : List (PendingMoveInput F) × Bool)
      → integrate fl l.predicted_pose m ≡ some next
      → push l.pending m ≡ r
      → IsPredicted fl server l
      → IsPredicted fl server (push_predicted fl l m next r).0
  at_push server next l m (after, false) h k w = w
  at_push server next l m (after, true) h k w =
      let (grown, up, room) = push-Above l.pending after m k w.ascending in
      record {
        ahead =
            ap (simulated fl server) grown
            ∙ simulated-append fl server l.predicted_pose next l.pending m w.ahead h;
        ascending = up;
        bounded = room;
      }

  at_integrate :
      (server : PredictedPose F) (l : LocalMovementPredictor F) (m : PendingMoveInput F)
      (o : Option (PredictedPose F))
      → integrate fl l.predicted_pose m ≡ o
      → IsPredicted fl server l
      → IsPredicted fl server (predict_at fl l m o).0
  at_integrate server l m none h w = w
  at_integrate server l m (some next) h w = at_push server next l m (push l.pending m) h refl w

  -- What `reconcile` draws and counts leaves the prediction alone.
  reconcile_prediction :
      (l : LocalMovementPredictor F) (p : PredictedPose F) (tick n : ℕ)
      → ((reconcile fl l p tick n).pending ≡ acknowledge_up_to l.pending n)
        × ((reconcile fl l p tick n).predicted_pose ≡ replay fl p (acknowledge_up_to l.pending n))
  unfolding reconcile correct_render record_reconcile rebase
  reconcile_prediction l p tick n = ground arith

  -- The server's movements and the client's reconciliation leave the client's prediction as it is.
  processed_lem :
      (server : PredictedPose F) (l : LocalMovementPredictor F) (k tick : ℕ)
      → IsPredicted fl server l
      → let (reached, after) = prediction_step fl (server, l) (processed k tick) in
        (after.pending ≡ drop k l.pending) × (after.predicted_pose ≡ l.predicted_pose)
  processed_lem server l k tick w =
      let n = last_sequence 0 (take k l.pending) in
      let reached = replay fl server (take k l.pending) in
      let left = acknowledge_up_to-drop 0 k l.pending w.ascending in
      let (pending, predicted) = reconcile_prediction l reached tick n in
      (
        pending ∙ left,
        predicted
            ∙ ap (replay fl reached) left
            ∙ replay-simulated fl reached l.predicted_pose (drop k l.pending)
                (simulated-drop fl server l.predicted_pose k l.pending w.ahead),
      )

  step-IsPredicted :
      (st : PredictedPose F × LocalMovementPredictor F) (e : PredictionStep F)
      → IsPredicted fl st.0 st.1
      → IsPredicted fl (prediction_step fl st e).0 (prediction_step fl st e).1
  unfolding predict
  step-IsPredicted (server, l) (moved m) w =
      at_integrate server l m (integrate fl l.predicted_pose m) refl w
  step-IsPredicted (server, l) (processed k tick) w =
      let reached = replay fl server (take k l.pending) in
      let (pending, predicted) = processed_lem server l k tick w in
      record {
        ahead =
            ap (simulated fl reached) pending
            ∙ simulated-drop fl server l.predicted_pose k l.pending w.ahead
            ∙ ap (λ q. some q) (sym predicted);
        ascending = subst (Above 0) (sym pending) (Above-drop 0 k l.pending w.ascending);
        bounded = omega (arith, ap length pending, length-drop k l.pending, w.bounded);
      }

  steps-IsPredicted :
      (st : PredictedPose F × LocalMovementPredictor F) (es : List (PredictionStep F))
      → IsPredicted fl st.0 st.1
      → IsPredicted fl (prediction_steps fl st es).0 (prediction_steps fl st es).1
  unfolding prediction_steps
  steps-IsPredicted st [] w = w
  steps-IsPredicted st (e ∷ es) w =
      steps-IsPredicted (prediction_step fl st e) es (step-IsPredicted st e w)

  run-IsPredicted :
      (start : PredictedPose F) (es : List (PredictionStep F))
      → let st = prediction_steps fl (start, reset fl start) es in IsPredicted fl st.0 st.1
  unfolding reset simulated
  run-IsPredicted start es =
      steps-IsPredicted (start, reset fl start) es
        (record { ahead = refl; ascending = tt; bounded = omega arith })

  -- However a client predicts movements and hears of those that the server has processed from
  -- its buffer in order, the server's pose with the movements that are left gives the predicted
  -- pose; the buffer is bounded, and the next news takes the processed movements off the buffer
  -- without a change of the predicted pose.
  pub prediction_steps_agree :
      (start : PredictedPose F) (es : List (PredictionStep F)) (k tick : ℕ)
      → let st = prediction_steps fl (start, reset fl start) es in
        let after = prediction_step fl st (processed k tick) in
        (replay fl st.0 st.1.pending ≡ st.1.predicted_pose)
        × (length st.1.pending ≤ max_pending_prediction_inputs)
        × (after.1.pending ≡ drop k st.1.pending)
        × (after.1.predicted_pose ≡ st.1.predicted_pose)
  prediction_steps_agree start es k tick =
      let st = prediction_steps fl (start, reset fl start) es in
      let w = run-IsPredicted start es in
      (
        replay-simulated fl st.0 st.1.predicted_pose st.1.pending w.ahead,
        w.bounded,
        (processed_lem st.0 st.1 k tick w).0,
        (processed_lem st.0 st.1 k tick w).1,
      )
