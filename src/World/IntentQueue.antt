-- ===== src/World/IntentQueue.antt =====
-- `MovementIntentQueue` of src/MovementIntentQueue.cpp, and src/NpcAi.cpp: the queues from which a
-- world frame takes its movements, and to which it restores them where it fails, and the planner of
-- the NPCs' movements.
use seed_origin.Base.{
  ℕ, ◌+◌, ◌-◌, Bool, true, false, not, ◌&&◌, ◌||◌, List, [], ◌∷◌, ◌++◌, Option, none, some, ltb,
  leb, ◌==◌, if◌then◌else◌, length, ℤ, pos, leb_ℤ, uint64_max,
}
use seed_origin.World.Float.{FloatOps}
use seed_origin.World.Entities.{Position}
use seed_origin.World.Input.{MovementIntent}
use seed_origin.World.Movement.{is_valid_movement_delta, max_move_distance_per_frame}

abbrev pub max_pending_intents : ℕ
max_pending_intents = 4096

-- A queue of either kind: what is pending, and the number of the next element.
pub record IntentQueue (T : Type 0) : Type 0 where
  pub pending : List T
  pub next_sequence : ℕ

module _ {T : Type 0} where
  abbrev pub no_intents : IntentQueue T
  no_intents = record { pending = []; next_sequence = 1 }

  -- The tests that both `enqueue` functions make of the queue.
  abbrev pub is_full : IntentQueue T → Bool
  is_full q = leb max_pending_intents (length q.pending) || q.next_sequence == uint64_max

  abbrev push : IntentQueue T → T → IntentQueue T
  push q i = record { pending = q.pending ++ i ∷ []; next_sequence = q.next_sequence + 1 }

  unfoldable pub take_frame : IntentQueue T → IntentQueue T × List T
  take_frame q = (record q { pending = [] }, q.pending)

  -- The frame goes in front of what has been pushed since. In the arithmetic of `size_t` the room
  -- is never negative, as the queue holds at most the maximum.
  unfoldable pub restore_frame : IntentQueue T → List T → IntentQueue T × Bool
  restore_frame q frame =
      if ltb (max_pending_intents - length q.pending) (length frame)
      then (q, false)
      else (record q { pending = frame ++ q.pending }, true)

pub record NpcAiObservation (F : Type 0) : Type 0 where
  pub npc_id : ℤ
  pub npc_position : Position F
  pub target_position : Position F
  pub step : F
  pub npc_alive : Bool

pub record NpcAiDecision (F : Type 0) : Type 0 where
  pub npc_id : ℤ
  pub dx : F
  pub dy : F
  pub dz : F

pub record NpcAiInput (F : Type 0) : Type 0 where
  pub sequence : ℕ
  pub decision : NpcAiDecision F

module _ {F : Type 0} (fl : FloatOps F) where
  unfoldable pub enqueue_intent :
      IntentQueue (MovementIntent F) → ℤ → F → F → F → ℕ → IntentQueue (MovementIntent F) × Bool
  enqueue_intent q session_id dx dy dz client_input_sequence =
      if leb_ℤ session_id (pos 0) || not (is_valid_movement_delta fl dx dy dz) || is_full q
      then (q, false)
      else (
        push q (record {
          sequence = q.next_sequence;
          session_id = session_id;
          dx = dx;
          dy = dy;
          dz = dz;
          client_input_sequence = client_input_sequence;
        }),
        true,
      )

  unfoldable pub enqueue_npc :
      IntentQueue (NpcAiInput F) → NpcAiDecision F → IntentQueue (NpcAiInput F) × Bool
  enqueue_npc q d =
      if leb_ℤ d.npc_id (pos 0) || not (is_valid_movement_delta fl d.dx d.dy d.dz) || is_full q
      then (q, false)
      else (push q (record { sequence = q.next_sequence; decision = d }), true)

  abbrev is_finite_position : Position F → Bool
  is_finite_position p = fl.is_finite p.x && fl.is_finite p.y && fl.is_finite p.z

  abbrev zero_length : F
  zero_length = fl.lit 0 1

  -- The step towards the target along one axis.
  abbrev towards : F → F → F
  towards d step = if fl.fltb zero_length d then step else fl.fneg step

  -- The decision that `plan` writes: a step along the axis on which the target is farthest.
  unfoldable pub plan_step : ℤ → F → F → F → F → NpcAiDecision F
  plan_step npc_id step dx dy dz =
      let abs_x = fl.fabs dx in
      let abs_y = fl.fabs dy in
      let abs_z = fl.fabs dz in
      let stay : NpcAiDecision F = record {
        npc_id = npc_id;
        dx = zero_length;
        dy = zero_length;
        dz = zero_length;
      } in
      if fl.fleb abs_y abs_x && fl.fleb abs_z abs_x && fl.fltb zero_length abs_x
      then record stay { dx = towards dx step }
      else if fl.fleb abs_z abs_y && fl.fltb zero_length abs_y
      then record stay { dy = towards dy step }
      else if fl.fltb zero_length abs_z
      then record stay { dz = towards dz step }
      else stay

  -- `NpcAiPlanner::plan`, `none` where it returns false.
  unfoldable pub plan : NpcAiObservation F → Option (NpcAiDecision F)
  plan o =
      let dx = fl.fsub o.target_position.x o.npc_position.x in
      let dy = fl.fsub o.target_position.y o.npc_position.y in
      let dz = fl.fsub o.target_position.z o.npc_position.z in
      let d = plan_step o.npc_id o.step dx dy dz in
      if leb_ℤ o.npc_id (pos 0)
        || not o.npc_alive
        || not (fl.is_finite o.step)
        || fl.fleb o.step zero_length
        || fl.fltb (max_move_distance_per_frame fl) o.step
        || not (is_finite_position o.npc_position)
        || not (is_finite_position o.target_position)
      then none
      else if not (fl.is_finite dx) || not (fl.is_finite dy) || not (fl.is_finite dz)
      then none
      else if is_valid_movement_delta fl d.dx d.dy d.dz
      then some d
      else none
