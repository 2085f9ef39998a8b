-- ===== src/Client/Predictor.antt =====
-- include/seed/LocalMovementPredictor.h and src/LocalMovementPredictor.cpp: the pose that a client
-- predicts for its player ahead of the server, and the one that it draws.
pub mod Replay
pub mod Agreement
use seed_origin.Base.{
  ℕ, ◌+◌, Bool, true, false, ◌||◌, List, [], ◌∷◌, Option, none, some, if◌then◌else◌, length,
}
use seed_origin.World.Float.{FloatOps}
use seed_origin.World.Movement.{integrate_movement}
use seed_origin.Client.Pending.{PendingMoveInput, push, acknowledge_up_to}

pub record PredictedPose (F : Type 0) : Type 0 where
  pub x : F
  pub y : F
  pub z : F

pub record ClientPredictionMetrics (F : Type 0) : Type 0 where
  pub last_error_distance : F
  pub reconcile_count : ℕ
  pub average_pending_input_count : F

pub record LocalMovementPredictor (F : Type 0) : Type 0 where
  pub predicted_pose : PredictedPose F
  pub rendered_pose : PredictedPose F
  pub pending : List (PendingMoveInput F)
  pub last_acked : ℕ
  pub world_tick : ℕ
  pub correction_seconds : F
  pub prediction_metrics : ClientPredictionMetrics F

abbrev pub pose : {F : Type 0} → F → F → F → PredictedPose F
pose x y z = record { x = x; y = y; z = z }

module _ {F : Type 0} (fl : FloatOps F) where
  abbrev pub zero_seconds : F
  zero_seconds = fl.lit 0 1

  abbrev pub prediction_correction_seconds : F
  prediction_correction_seconds = fl.lit 15 100

  abbrev pub prediction_snap_distance : F
  prediction_snap_distance = fl.lit 5 1

  unfoldable pub pose_distance : PredictedPose F → PredictedPose F → F
  pose_distance a b =
      let dx = fl.fsub a.x b.x in
      let dy = fl.fsub a.y b.y in
      let dz = fl.fsub a.z b.z in
      fl.fsqrt (fl.fadd (fl.fadd (fl.fmul dx dx) (fl.fmul dy dy)) (fl.fmul dz dz))

  unfoldable pub reset : PredictedPose F → LocalMovementPredictor F
  reset p = record {
    predicted_pose = p;
    rendered_pose = p;
    pending = [];
    last_acked = 0;
    world_tick = 0;
    correction_seconds = zero_seconds;
    prediction_metrics = record {
      last_error_distance = zero_seconds;
      reconcile_count = 0;
      average_pending_input_count = zero_seconds;
    };
  }

  -- One movement from a pose, `none` where the simulation refuses it.
  abbrev pub integrate : PredictedPose F → PendingMoveInput F → Option (PredictedPose F)
  integrate p m = moved (integrate_movement fl p.x p.y p.z m.dx m.dy m.dz)
    where
      moved : Option (F × F × F) → Option (PredictedPose F)
      moved none = none
      moved (some (x, y, z)) = some (pose x y z)

  -- `predict` behind the integration of the movement.
  abbrev pub push_predicted :
      LocalMovementPredictor F
      → PendingMoveInput F
      → PredictedPose F
      → List (PendingMoveInput F) × Bool
      → LocalMovementPredictor F × Bool
  push_predicted l m next (pending, false) = (l, false)
  push_predicted l m next (pending, true) = (
    record l {
      pending = pending;
      predicted_pose = next;
      rendered_pose =
          pose (fl.fadd l.rendered_pose.x m.dx) (fl.fadd l.rendered_pose.y m.dy)
            (fl.fadd l.rendered_pose.z m.dz);
    },
    true,
  )

  abbrev pub predict_at :
      LocalMovementPredictor F
      → PendingMoveInput F
      → Option (PredictedPose F)
      → LocalMovementPredictor F × Bool
  predict_at l m none = (l, false)
  predict_at l m (some next) = push_predicted l m next (push l.pending m)

  unfoldable pub predict :
      LocalMovementPredictor F → PendingMoveInput F → LocalMovementPredictor F × Bool
  predict l m = predict_at l m (integrate l.predicted_pose m)

  abbrev pub on_pose :
      PredictedPose F
      → (PredictedPose F → PredictedPose F)
      → Option (PredictedPose F)
      → PredictedPose F
  on_pose p next none = p
  on_pose p next (some q) = next q

  -- `replayUnacked`: the first movement that is refused ends the loop.
  unfoldable pub replay : PredictedPose F → List (PendingMoveInput F) → PredictedPose F
  replay p [] = p
  replay p (m ∷ ms) = on_pose p (λ q. replay q ms) (integrate p m)

  unfoldable pub record_reconcile : LocalMovementPredictor F → F → LocalMovementPredictor F
  record_reconcile l error =
      let average = l.prediction_metrics.average_pending_input_count in
      let count = l.prediction_metrics.reconcile_count + 1 in
      record l {
        prediction_metrics = record {
          last_error_distance = error;
          reconcile_count = count;
          average_pending_input_count =
              fl.fadd average
                (fl.fdiv (fl.fsub (fl.of_count (length l.pending)) average) (fl.of_count count));
        };
      }

  abbrev snap_render : LocalMovementPredictor F → LocalMovementPredictor F
  snap_render l = record l { rendered_pose = l.predicted_pose; correction_seconds = zero_seconds }

  unfoldable pub correct_render : LocalMovementPredictor F → F → Bool → LocalMovementPredictor F
  correct_render l error snap =
      if snap || fl.fleb prediction_snap_distance error
      then snap_render l
      else if fl.fltb (fl.lit 1 10000) error
      then record l { correction_seconds = prediction_correction_seconds }
      else snap_render l

  -- What `reconcile` and `applySnapshotBaseline` do first.
  unfoldable pub rebase :
      LocalMovementPredictor F → PredictedPose F → ℕ → ℕ → LocalMovementPredictor F
  rebase l authority tick last_processed =
      let left = acknowledge_up_to l.pending last_processed in
      record l {
        pending = left;
        predicted_pose = replay authority left;
        last_acked = last_processed;
        world_tick = tick;
      }

  unfoldable pub reconcile :
      LocalMovementPredictor F → PredictedPose F → ℕ → ℕ → LocalMovementPredictor F
  reconcile l authority tick last_processed =
      let m = rebase l authority tick last_processed in
      let error = pose_distance m.rendered_pose m.predicted_pose in
      correct_render (record_reconcile m error) error false

  unfoldable pub apply_snapshot_baseline :
      LocalMovementPredictor F → PredictedPose F → ℕ → ℕ → LocalMovementPredictor F
  apply_snapshot_baseline l authority tick last_processed =
      record_reconcile (snap_render (rebase l authority tick last_processed)) zero_seconds

  -- A coordinate that is drawn, moved by the share `t` of its way to the one that is predicted.
  abbrev pub blend : F → F → F → F
  blend drawn target t = fl.fadd drawn (fl.fmul (fl.fsub target drawn) t)

  abbrev pub blend_pose : PredictedPose F → PredictedPose F → F → PredictedPose F
  blend_pose r p t = pose (blend r.x p.x t) (blend r.y p.y t) (blend r.z p.z t)

  -- A drawn pose after a step of `dt` and the seconds of correction that are left, as
  -- `LocalMovementPredictor::stepRender` and `RemotePlayerPoseStore::stepRender` have them.
  unfoldable pub step_correction : PredictedPose F → PredictedPose F → F → F → PredictedPose F × F
  step_correction rendered target remaining dt_seconds =
      let dt = if fl.fltb dt_seconds zero_seconds then zero_seconds else dt_seconds in
      let t = if fl.fleb remaining dt then fl.lit 1 1 else fl.fdiv dt remaining in
      let left = fl.fsub remaining dt in
      if fl.fleb remaining zero_seconds
      then (target, remaining)
      else if fl.fleb left zero_seconds
      then (target, zero_seconds)
      else (blend_pose rendered target t, left)

  unfoldable pub step_render : LocalMovementPredictor F → F → LocalMovementPredictor F
  step_render l dt_seconds =
      let (drawn, left) =
        step_correction l.rendered_pose l.predicted_pose l.correction_seconds dt_seconds in
      record l { rendered_pose = drawn; correction_seconds = left }
