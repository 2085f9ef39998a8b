-- ===== src/World/ActionQueue.antt =====
-- src/ActionQueue.cpp with src/ServerTick.cpp, and src/WorldInputTick.cpp: the queue of actions, and
-- the counters of world ticks over the two queues. Each operation of the action queue holds its mutex
-- throughout.
use seed_origin.Base.{
  ℕ, ◌+◌, Bool, true, false, not, ◌||◌, List, [], ◌∷◌, ◌++◌, leb, ◌==◌, if◌then◌else◌, length, ℤ,
  uint64_max,
}
use seed_origin.World.Float.{FloatOps}
use seed_origin.World.Entities.{Action}
use seed_origin.World.Input.{WorldInput}
use seed_origin.World.InputQueue.{
  WorldInputQueue, MovementEnqueueResult, enqueued, ignored_stale, rejected, enqueue_action,
  enqueue_sequenced_movement, take_frame,
}

pub record QueuedAction (F : Type 0) : Type 0 where
  pub sequence : ℕ
  pub action : Action F

pub record ActionQueue (F : Type 0) : Type 0 where
  pub pending : List (QueuedAction F)
  pub next_sequence : ℕ

abbrev pub max_pending_actions : ℕ
max_pending_actions = 4096

-- `FrameActions`
pub record FrameActions (F : Type 0) : Type 0 where
  pub world_tick : ℕ
  pub actions : List (QueuedAction F)

pub record ServerTick (F : Type 0) : Type 0 where
  pub action_queue : ActionQueue F
  pub world_tick : ℕ

-- `WorldFrameInputs`
pub record WorldFrameInputs (F : Type 0) : Type 0 where
  pub world_tick : ℕ
  pub inputs : List (WorldInput F)

pub record WorldInputTick (F : Type 0) : Type 0 where
  pub input_queue : WorldInputQueue F
  pub world_tick : ℕ

module _ {F : Type 0} where
  unfoldable pub enqueue : ActionQueue F → Action F → ActionQueue F × Bool
  enqueue q a =
      if not a.valid
      then (q, false)
      else if leb max_pending_actions (length q.pending) || q.next_sequence == uint64_max
      then (q, false)
      else (
        record {
          pending = q.pending ++ (record { sequence = q.next_sequence; action = a }) ∷ [];
          next_sequence = q.next_sequence + 1;
        },
        true,
      )

  unfoldable pub take_actions : ActionQueue F → ActionQueue F × List (QueuedAction F)
  take_actions q = (record q { pending = [] }, q.pending)

  unfoldable pub submit : ServerTick F → Action F → ServerTick F × Bool
  submit t a = let (q, taken) = enqueue t.action_queue a in (record t { action_queue = q }, taken)

  unfoldable pub advance_actions : ServerTick F → ServerTick F × FrameActions F
  advance_actions t =
      let tick = t.world_tick + 1 in
      let (q, actions) = take_actions t.action_queue in
      (
        record { action_queue = q; world_tick = tick },
        record { world_tick = tick; actions = actions },
      )

  unfoldable pub submit_action : WorldInputTick F → Action F → WorldInputTick F × Bool
  submit_action t a =
      let (q, taken) = enqueue_action t.input_queue a in (record t { input_queue = q }, taken)

  unfoldable pub advance_frame : WorldInputTick F → WorldInputTick F × WorldFrameInputs F
  advance_frame t =
      let tick = t.world_tick + 1 in
      let (q, inputs) = take_frame t.input_queue in
      (record { input_queue = q; world_tick = tick }, record { world_tick = tick; inputs = inputs })

abbrev pub is_enqueued : MovementEnqueueResult → Bool
is_enqueued enqueued = true
is_enqueued ignored_stale = false
is_enqueued rejected = false

module _ {F : Type 0} (fl : FloatOps F) where
  -- `WorldInputQueue::enqueueMovement`
  abbrev pub enqueue_movement : WorldInputQueue F → ℤ → F → F → F → WorldInputQueue F × Bool
  enqueue_movement q session_id dx dy dz =
      let (after, result) = enqueue_sequenced_movement fl q session_id dx dy dz 0 in
      (after, is_enqueued result)

  unfoldable pub submit_movement : WorldInputTick F → ℤ → F → F → F → WorldInputTick F × Bool
  submit_movement t session_id dx dy dz =
      let (q, taken) = enqueue_movement t.input_queue session_id dx dy dz in
      (record t { input_queue = q }, taken)
