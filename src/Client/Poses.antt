-- ===== src/Client/Poses.antt =====
-- src/RemotePlayerPoseStore.cpp: the poses of the other players, as the server has told them and as
-- they are drawn.
use seed_origin.Base.{
  ℕ, Bool, true, false, not, ◌&&◌, ◌||◌, List, [], ◌∷◌, Option, none, some, if◌then◌else◌, ℤ, pos,
  leb_ℤ, ltb_ℤ, eqb_ℤ, Map, lookup, insert, ℤ_key,
}
use seed_origin.World.Float.{FloatOps}
use seed_origin.World.Field.{PlayerPoseSnapshot}
use seed_origin.Client.Predictor.{
  PredictedPose, pose, pose_distance, zero_seconds, prediction_correction_seconds,
  prediction_snap_distance, step_correction,
}

pub record RemotePlayerPose (F : Type 0) : Type 0 where
  pub gameplay_id : ℤ
  pub session_id : ℤ
  pub name : List ℕ
  pub authority : PredictedPose F
  pub rendered : PredictedPose F

pub record RemotePlayerPoseStore (F : Type 0) : Type 0 where
  pub poses : Map ℤ (RemotePlayerPose F)
  pub session_to_gameplay_id : Map ℤ ℤ
  pub correction_seconds : Map ℤ F

module _ {F : Type 0} where
  abbrev pub no_poses : RemotePlayerPoseStore F
  no_poses = record { poses = []; session_to_gameplay_id = []; correction_seconds = [] }

  abbrev pub pose_from : PlayerPoseSnapshot F → RemotePlayerPose F
  pose_from s = record {
    gameplay_id = s.gameplay_id;
    session_id = s.session_id;
    name = s.name;
    authority = pose s.x s.y s.z;
    rendered = pose s.x s.y s.z;
  }

  -- The snapshots that the loop passes over: those of no player, and that of the client's own.
  abbrev pub is_passed_over : ℤ → PlayerPoseSnapshot F → Bool
  is_passed_over local s =
      leb_ℤ s.session_id (pos 0)
      || leb_ℤ s.gameplay_id (pos 0)
      || ltb_ℤ (pos 0) local && eqb_ℤ s.session_id local

  abbrev pub add_pose : RemotePlayerPoseStore F → PlayerPoseSnapshot F → RemotePlayerPoseStore F
  add_pose r s = record r {
    poses = insert s.gameplay_id (pose_from s) r.poses;
    session_to_gameplay_id = insert s.session_id s.gameplay_id r.session_to_gameplay_id;
  }

  -- The loop of `replaceFromSnapshot`, on the maps that it has built so far.
  unfoldable pub add_poses :
      ℤ → RemotePlayerPoseStore F → List (PlayerPoseSnapshot F) → RemotePlayerPoseStore F
  add_poses local r [] = r
  add_poses local r (s ∷ ss) =
      add_poses local (if is_passed_over local s then r else add_pose r s) ss

  unfoldable pub replace_from_snapshot :
      RemotePlayerPoseStore F → List (PlayerPoseSnapshot F) → ℤ → RemotePlayerPoseStore F
  replace_from_snapshot r snapshots local = add_poses local no_poses snapshots

  abbrev pub find : RemotePlayerPoseStore F → ℤ → Option (RemotePlayerPose F)
  find r gameplay_id = lookup gameplay_id r.poses

module _ {F : Type 0} (fl : FloatOps F) where
  -- `correctRender`: the pose and its seconds of correction.
  unfoldable pub correct_render : RemotePlayerPose F → F → Bool → RemotePlayerPose F × F
  correct_render p error snap =
      if snap || fl.fleb (prediction_snap_distance fl) error
      then (record p { rendered = p.authority }, zero_seconds fl)
      else if fl.fltb (fl.lit 1 10000) error
      then (p, prediction_correction_seconds fl)
      else (record p { rendered = p.authority }, zero_seconds fl)

  abbrev pub put_corrected :
      RemotePlayerPoseStore F → ℤ → RemotePlayerPose F × F → RemotePlayerPoseStore F
  put_corrected r gameplay_id (p, remaining) = record r {
    poses = insert gameplay_id p r.poses;
    correction_seconds = insert gameplay_id remaining r.correction_seconds;
  }

  abbrev apply_at :
      RemotePlayerPoseStore F
      → ℤ
      → PredictedPose F
      → Bool
      → Option (RemotePlayerPose F)
      → RemotePlayerPoseStore F × Bool
  apply_at r gameplay_id p snap none = (r, false)
  apply_at r gameplay_id p snap (some found) =
      let moved = record found { authority = p } in
      (
        put_corrected r gameplay_id
            (correct_render moved (pose_distance fl moved.rendered moved.authority) snap),
        true,
      )

  abbrev apply_mapped :
      RemotePlayerPoseStore F → PredictedPose F → Bool → Option ℤ → RemotePlayerPoseStore F × Bool
  apply_mapped r p snap none = (r, false)
  apply_mapped r p snap (some gameplay_id) =
      apply_at r gameplay_id p snap (lookup gameplay_id r.poses)

  unfoldable pub apply_authoritative :
      RemotePlayerPoseStore F → ℤ → PredictedPose F → Bool → RemotePlayerPoseStore F × Bool
  apply_authoritative r session_id p snap =
      if leb_ℤ session_id (pos 0)
        || not (fl.is_finite p.x)
        || not (fl.is_finite p.y)
        || not (fl.is_finite p.z)
      then (r, false)
      else apply_mapped r p snap (lookup session_id r.session_to_gameplay_id)

  abbrev seconds_or_zero : Option F → F
  seconds_or_zero none = zero_seconds fl
  seconds_or_zero (some t) = t

  -- A turn of the loop of `stepRender`: the pose's drawn position and its seconds that are left.
  abbrev pub step_pose :
      RemotePlayerPoseStore F → F → ℤ → RemotePlayerPose F → RemotePlayerPoseStore F
  step_pose r dt gameplay_id p =
      let (drawn, left) =
        step_correction fl p.rendered p.authority
          (seconds_or_zero (lookup gameplay_id r.correction_seconds)) dt in
      put_corrected r gameplay_id (record p { rendered = drawn }, left)

  unfoldable pub step_poses :
      RemotePlayerPoseStore F → F → Map ℤ (RemotePlayerPose F) → RemotePlayerPoseStore F
  step_poses r dt [] = r
  step_poses r dt ((gameplay_id, p) ∷ m) = step_poses (step_pose r dt gameplay_id p) dt m

  unfoldable pub step_render : RemotePlayerPoseStore F → F → RemotePlayerPoseStore F
  step_render r dt = step_poses r dt r.poses
