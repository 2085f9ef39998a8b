-- ===== src/World/Movement.antt =====
-- `isValidMovementDelta` of src/MovementIntentQueue.cpp and src/MovementSimulation.cpp: one step of
-- a position, which server and client compute alike.
use seed_origin.Base.{Bool, not, ◌||◌, ◌&&◌, Option, none, some, if◌then◌else◌}
use seed_origin.World.Float.{FloatOps}

module _ {F : Type 0} (fl : FloatOps F) where
  abbrev pub max_move_distance_per_frame : F
  max_move_distance_per_frame = fl.lit 100 1

  abbrev pub max_world_coordinate : F
  max_world_coordinate = fl.lit 1000000 1

  unfoldable pub is_valid_movement_delta : F → F → F → Bool
  is_valid_movement_delta dx dy dz =
      if not (fl.is_finite dx) || not (fl.is_finite dy) || not (fl.is_finite dz)
      then Bool.false
      else fl.fleb (fl.fadd (fl.fadd (fl.fmul dx dx) (fl.fmul dy dy)) (fl.fmul dz dz))
          (fl.fmul max_move_distance_per_frame max_move_distance_per_frame)

  -- A coordinate that the world has room for.
  abbrev pub is_in_world : F → Bool
  is_in_world c = fl.is_finite c && not (fl.fltb max_world_coordinate (fl.fabs c))

  -- The three coordinates that the call writes; `none` where it returns false and writes none.
  unfoldable pub integrate_movement : F → F → F → F → F → F → Option (F × F × F)
  integrate_movement x y z dx dy dz =
      let next_x = fl.fadd x dx in
      let next_y = fl.fadd y dy in
      let next_z = fl.fadd z dz in
      if not (is_valid_movement_delta dx dy dz)
      then none
      else if not (is_in_world next_x && is_in_world next_y && is_in_world next_z)
      then none
      else some (next_x, next_y, next_z)
