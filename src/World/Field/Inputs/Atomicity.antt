-- ===== src/World/Field/Inputs/Atomicity.antt =====
-- `Field::processInputs` of src/Field.cpp on a frame that it refuses, in either pass.
use seed_origin.Base.{ℕ, List, [], ◌≡◌, arith}
use seed_origin.World.Float.{FloatOps}
use seed_origin.World.Input.{WorldInput}
use seed_origin.World.Field.{Field}
use seed_origin.World.Field.Check.{
  Outcome, done, rejected, crashed, Projection, check_inputs, initial_projection,
}
use seed_origin.World.Field.Inputs.{Applied, restore, finish, commit, apply_inputs, process_inputs}
use seed_origin.World.Field.Inputs.Extent.{Preserves, Leaves}
use seed_origin.World.Field.Inputs.Turns.{apply_inputs-Leaves}

-- Nothing but the field's own status differs.
abbrev pub IsRolledBack : {F : Type 0} → Field F → Field F → Type 0
IsRolledBack f g = g ≡ record f { field_status = g.field_status }

module _ {F : Type 0} (fl : FloatOps F) where
  restore-IsRolledBack : (f g : Field F) → Preserves f g → IsRolledBack f (restore f g)
  unfolding restore
  restore-IsRolledBack f g p = λ k. record f {
    field_status = g.field_status;
    position_queue = p.same_positions k;
    action_queue = p.same_actions k;
    npc_respawns = p.same_respawns k;
    session_to_player_id = p.same_sessions k;
    player_to_session_id = p.same_players k;
    next_gameplay_id = p.same_next_id k;
  }

  finish-IsRolledBack :
      (f : Field F) (o : Applied fl) (g : Field F)
      → Leaves f o
      → finish fl f o ≡ rejected g
      → IsRolledBack f g
  unfolding Leaves
  finish-IsRolledBack f crashed g p h = cc
  finish-IsRolledBack f (done r) g p h = cc
  finish-IsRolledBack f (rejected e) g p h = ground (arith, restore-IsRolledBack f e p)

  commit-IsRolledBack :
      (f : Field F) (tick : ℕ) (is : List (WorldInput F)) (o : Outcome (Unit {0}) (Projection F))
      (g : Field F)
      → commit fl f tick is o ≡ rejected g
      → IsRolledBack f g
  commit-IsRolledBack f tick is crashed g h = cc
  commit-IsRolledBack f tick is (rejected u) g h = ground arith
  commit-IsRolledBack f tick is (done pr) g h =
      finish-IsRolledBack f (apply_inputs fl f tick is []) g (apply_inputs-Leaves fl f tick is []) h

  -- Where the inputs of a frame are refused, in either pass, the field is the one before the
  -- call in everything but its own status.
  pub process_inputs-IsRolledBack :
      (f g : Field F) (inputs : List (WorldInput F)) (tick : ℕ)
      → process_inputs fl f inputs tick ≡ rejected g
      → g ≡ record f { field_status = g.field_status }
  unfolding process_inputs
  process_inputs-IsRolledBack f g inputs tick h =
      commit-IsRolledBack f tick inputs (check_inputs fl f tick (initial_projection f) inputs) g h
