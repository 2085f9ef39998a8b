-- ===== src/World/Applier/Actions.antt =====
-- `WorldFrameApplier::apply(const FrameActions&, …)` of src/WorldFrameApplier.cpp: a frame of actions,
-- with the movements of sessions and of NPCs that wait in the applier's queues. A call that fails
-- restores what it has taken from the queues.
use seed_origin.Base.{
  Bool, true, false, not, ◌&&◌, List, [], ◌∷◌, Option, none, some, is_some, if◌then◌else◌, Result,
  ok, err,
}
use seed_origin.World.Float.{FloatOps}
use seed_origin.World.Entities.{Npc, is_alive}
use seed_origin.World.Movement.{is_valid_movement_delta}
use seed_origin.World.Input.{MovementIntent}
use seed_origin.World.Field.{Field, has_player, find_npc, put_action_queue}
use seed_origin.World.Field.Frame.{process_frame, queue_movement, queue_npc_movement}
use seed_origin.World.Field.Check.{rejected}
use seed_origin.World.ActionQueue.{QueuedAction, FrameActions}
use seed_origin.World.IntentQueue.{IntentQueue, NpcAiInput, take_frame, restore_frame}
use seed_origin.World.Updates.{Built, build_actions}
use seed_origin.World.Applier.{
  WorldFrameApplier, FrameApplied, refused, applied, with_built, record_owner_acks,
  last_processed_of,
}

-- Both queues may be missing.
module _ {T : Type 0} where
  abbrev pub taken_queue : Option (IntentQueue T) → Option (IntentQueue T)
  taken_queue none = none
  taken_queue (some q) = some (take_frame q).0

  abbrev pub taken_frame : Option (IntentQueue T) → List T
  taken_frame none = []
  taken_frame (some q) = (take_frame q).1

  abbrev pub restored : Option (IntentQueue T) → List T → Option (IntentQueue T)
  restored none frame = none
  restored (some q) frame = some (restore_frame q frame).0

module _ {F : Type 0} where
  abbrev pub all_valid : List (QueuedAction F) → Bool
  all_valid [] = true
  all_valid (a ∷ as') = a.action.valid && all_valid as'

  abbrev pub all_present : Field F → List (MovementIntent F) → Bool
  all_present f [] = true
  all_present f (i ∷ is) = has_player f i.session_id && all_present f is

  abbrev npc_lives : Option (Npc F) → Bool
  npc_lives none = false
  npc_lives (some n) = is_alive n

  abbrev put_actions : Field F → List (QueuedAction F) → Field F
  put_actions f [] = f
  put_actions f (a ∷ as') = put_actions (put_action_queue f a.action) as'

  abbrev pub restore_movements : WorldFrameApplier F → List (MovementIntent F) → WorldFrameApplier F
  restore_movements w intents = record w { movement_queue = restored w.movement_queue intents }

  abbrev pub restore_both :
      WorldFrameApplier F → List (MovementIntent F) → List (NpcAiInput F) → WorldFrameApplier F
  restore_both w intents inputs = record w {
    movement_queue = restored w.movement_queue intents;
    npc_ai_input_queue = restored w.npc_ai_input_queue inputs;
  }

module _ {F : Type 0} (fl : FloatOps F) where
  abbrev pub all_possible : Field F → List (NpcAiInput F) → Bool
  all_possible f [] = true
  all_possible f (i ∷ is) =
      npc_lives (find_npc f i.decision.npc_id)
      && is_valid_movement_delta fl i.decision.dx i.decision.dy i.decision.dz
      && all_possible f is

  -- A loop of `queueMovement`: the field that it leaves, and whether no call has failed.
  abbrev both : Field F × Bool → (Field F → Field F × Bool) → Field F × Bool
  both (f, true) next = next f
  both (f, false) next = (f, false)

  unfoldable pub queue_movements : Field F → List (MovementIntent F) → Field F × Bool
  queue_movements f [] = (f, true)
  queue_movements f (i ∷ is) =
      both (queue_movement fl f i.session_id i.dx i.dy i.dz) (λ g. queue_movements g is)

  unfoldable pub queue_npc_movements : Field F → List (NpcAiInput F) → Field F × Bool
  queue_npc_movements f [] = (f, true)
  queue_npc_movements f (i ∷ is) =
      both (queue_npc_movement fl f i.decision.npc_id i.decision.dx i.decision.dy i.decision.dz)
        (λ g. queue_npc_movements g is)

  -- What follows the queues: the actions and the frame of the field, and the acknowledgements of
  -- the movements, where the applier has a queue of them.
  abbrev finish_actions :
      WorldFrameApplier F → FrameActions F → List (MovementIntent F) → WorldFrameApplier F
  finish_actions w frame intents =
      let done_field = process_frame (put_actions w.field frame.actions) frame.world_tick in
      let after = record w { field = done_field } in
      if is_some w.movement_queue
      then record_owner_acks after frame.world_tick (last_processed_of [] intents)
      else after

  abbrev pub queue_npcs :
      WorldFrameApplier F
      → FrameActions F
      → List (MovementIntent F)
      → List (NpcAiInput F)
      → Built
      → Field F × Bool
      → FrameApplied F
  queue_npcs w frame intents inputs b (f, false) =
      refused (restore_both (record w { field = f }) intents inputs)
        "NPC AI input could not be queued in the field"
  queue_npcs w frame intents inputs b (f, true) =
      applied (finish_actions (record w { field = f }) frame intents) b.updates

  abbrev pub queue_intents :
      WorldFrameApplier F
      → FrameActions F
      → List (MovementIntent F)
      → List (NpcAiInput F)
      → Built
      → Field F × Bool
      → FrameApplied F
  queue_intents w frame intents inputs b (f, false) =
      refused (restore_both (record w { field = f }) intents inputs)
        "movement intent could not be queued in the field"
  queue_intents w frame intents inputs b (f, true) =
      queue_npcs (record w { field = f }) frame intents inputs b (queue_npc_movements f inputs)

  -- Where the updates cannot be built, the movements of NPCs are not restored.
  abbrev pub actions_built :
      WorldFrameApplier F
      → FrameActions F
      → List (MovementIntent F)
      → List (NpcAiInput F)
      → Built
      → Result (Unit {0})
      → FrameApplied F
  actions_built w frame intents inputs b (err e) = record {
    applier = restore_movements w intents;
    updates = b.updates;
    outcome = rejected e;
  }
  actions_built w frame intents inputs b (ok u) =
      queue_intents w frame intents inputs b (queue_movements w.field intents)

  unfoldable pub apply_actions : WorldFrameApplier F → FrameActions F → FrameApplied F
  apply_actions w0 frame =
      let w = record w0 { owner_acks = [] } in
      let intents = taken_frame w.movement_queue in
      let w1 = record w { movement_queue = taken_queue w.movement_queue } in
      let inputs = taken_frame w.npc_ai_input_queue in
      let w2 = record w1 { npc_ai_input_queue = taken_queue w.npc_ai_input_queue } in
      let b = build_actions w2.update_builder frame in
      if not (all_valid frame.actions)
      then refused w "world frame contains an invalid action"
      else if not (all_present w.field intents)
      then refused (restore_movements w1 intents)
          "movement intent session is not present in the field"
      else if not (all_possible w.field inputs)
      then refused (restore_both w2 intents inputs) "NPC AI input is invalid for the world frame"
      else actions_built (with_built w2 b) frame intents inputs b b.outcome
