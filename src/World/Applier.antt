-- ===== src/World/Applier.antt =====
-- src/WorldFrameApplier.cpp: a frame of inputs or of actions is applied to the field, and gives the
-- updates of the frame and the acknowledgements for the players that have moved.
pub mod Actions
pub mod Failure
use seed_origin.Base.{
  ℕ, ◌+◌, Bool, true, false, not, ◌&&◌, ◌||◌, List, [], ◌∷◌, ◌++◌, Option, none, some, is_some,
  String, ltb, ◌==◌, if◌then◌else◌, length, ℤ, pos, leb_ℤ, Map, lookup, insert, ℤ_key, Result, ok,
  err,
}
use seed_origin.Net.Update.{WorldUpdate}
use seed_origin.World.Float.{FloatOps, FloatText}
use seed_origin.World.Ether.{has_adverse_effect, instability}
use seed_origin.World.Entities.{Npc, is_alive, Player}
use seed_origin.World.Movement.{is_valid_movement_delta}
use seed_origin.World.Input.{WorldInput, WorldInputBody, MovementIntent, CombatResolution}
use seed_origin.World.InputSequence.{sequence_or_zero}
use seed_origin.World.Field.{
  Field, PlayerPoseSnapshot, has_player, find_player, find_npc, put_action_queue,
}
use seed_origin.World.Field.Frame.{
  process_frame, queue_movement, queue_npc_movement, public_npc_snapshots, public_player_poses,
}
use seed_origin.World.Field.Check.{Outcome, done, rejected, crashed}
use seed_origin.World.Field.Inputs.{process_inputs}
use seed_origin.World.ActionQueue.{QueuedAction, FrameActions, WorldFrameInputs}
use seed_origin.World.IntentQueue.{IntentQueue, NpcAiInput, take_frame, restore_frame}
use seed_origin.World.MovementText.{MovementAck}
use seed_origin.World.Snapshot.{format_payload}
use seed_origin.World.Updates.{
  WorldFrameUpdateBuilder, Built, new_builder, build, build_actions, append_combat_resolution,
  append_hazard, append_snapshot,
}

-- The queues are null pointers where an applier has none.
pub record WorldFrameApplier (F : Type 0) : Type 0 where
  pub field : Field F
  pub movement_queue : Option (IntentQueue (MovementIntent F))
  pub npc_ai_input_queue : Option (IntentQueue (NpcAiInput F))
  pub update_builder : WorldFrameUpdateBuilder
  pub owner_acks : List (MovementAck F)
  pub snapshot_acks : List (MovementAck F)
  pub last_processed_by_session : Map ℤ ℕ

-- What a call leaves: the applier, the updates of its out-parameter, and what it returns.
pub record FrameApplied (F : Type 0) : Type 0 where
  pub applier : WorldFrameApplier F
  pub updates : List WorldUpdate
  pub outcome : Outcome String (Unit {0})

abbrev greater : ℕ → ℕ → ℕ
greater a b = if ltb b a then a else b

module _ {F : Type 0} where
  abbrev pub refused : WorldFrameApplier F → String → FrameApplied F
  refused w e = record { applier = w; updates = []; outcome = rejected e }

  abbrev pub applied : WorldFrameApplier F → List WorldUpdate → FrameApplied F
  applied w updates = record { applier = w; updates = updates; outcome = done tt }

  abbrev ack_at : ℤ → ℕ → ℕ → Player F → MovementAck F
  ack_at session_id world_tick last_processed p = record {
    session_id = session_id;
    x = p.position.x;
    y = p.position.y;
    z = p.position.z;
    world_tick = world_tick;
    last_processed_input_sequence = last_processed;
  }

  -- `recordOwnerAck` at the player that the session acts for.
  abbrev acknowledged : WorldFrameApplier F → ℤ → ℕ → ℕ → Option (Player F) → WorldFrameApplier F
  acknowledged w session_id world_tick last_processed none = w
  acknowledged w session_id world_tick last_processed (some p) = record w {
    owner_acks = w.owner_acks ++ ack_at session_id world_tick last_processed p ∷ [];
    last_processed_by_session =
        insert session_id
          (greater last_processed
            (sequence_or_zero (lookup session_id w.last_processed_by_session)))
          w.last_processed_by_session;
  }

  unfoldable pub record_owner_ack : WorldFrameApplier F → ℤ → ℕ → ℕ → WorldFrameApplier F
  record_owner_ack w session_id world_tick last_processed =
      acknowledged w session_id world_tick last_processed (find_player w.field session_id)

  -- The sessions that have moved, in their order, with the greatest number of their movements: the
  -- maps `moved` and `lastProcessed` in one.
  unfoldable pub last_processed_of : Map ℤ ℕ → List (MovementIntent F) → Map ℤ ℕ
  last_processed_of m [] = m
  last_processed_of m (i ∷ is) =
      last_processed_of
        (insert i.session_id
          (greater i.client_input_sequence (sequence_or_zero (lookup i.session_id m))) m)
        is

  unfoldable pub record_owner_acks : WorldFrameApplier F → ℕ → Map ℤ ℕ → WorldFrameApplier F
  record_owner_acks w world_tick [] = w
  record_owner_acks w world_tick ((session_id, last) ∷ m) =
      record_owner_acks (record_owner_ack w session_id world_tick last) world_tick m

  abbrev movements_of : List (WorldInput F) → List (MovementIntent F)
  movements_of [] = []
  movements_of (i ∷ is) = of_body i.body (movements_of is)
    where
      of_body : WorldInputBody F → List (MovementIntent F) → List (MovementIntent F)
      of_body (WorldInputBody.movement m) rest = m ∷ rest
      of_body (WorldInputBody.action a) rest = rest
      of_body (WorldInputBody.combat c) rest = rest
      of_body (WorldInputBody.spell s) rest = rest
      of_body (WorldInputBody.chat c) rest = rest

  abbrev pub with_built : WorldFrameApplier F → Built → WorldFrameApplier F
  with_built w b = record w { update_builder = b.builder }

module _ {F : Type 0} (fl : FloatOps F) where
  abbrev is_bad_power : F → Bool
  is_bad_power power = not (fl.is_finite power) || fl.fleb power (fl.lit 0 1)

  -- The text with which an input is refused.
  abbrev body_error : Field F → WorldInputBody F → Option String
  body_error f (WorldInputBody.action a) =
      if a.valid then none else some "world input contains an invalid action"
  body_error f (WorldInputBody.movement i) =
      if has_player f i.session_id
      then none
      else some "world input movement session is not present in the field"
  body_error f (WorldInputBody.combat i) =
      if leb_ℤ i.attacker_id (pos 0) || leb_ℤ i.target_id (pos 0) || is_bad_power i.power
      then some "world input combat intent is invalid"
      else none
  body_error f (WorldInputBody.spell i) =
      if leb_ℤ i.caster_id (pos 0)
        || leb_ℤ i.target_id (pos 0)
        || length i.element == 0
        || ltb 32 (length i.element)
        || is_bad_power i.power
      then some "world input spell intent is invalid"
      else none
  body_error f (WorldInputBody.chat i) =
      if leb_ℤ i.sender_id (pos 0) || length i.audience == 0 || length i.message == 0
      then some "world input chat intent is invalid"
      else none

  abbrev first_error : Option String → Option String → Option String
  first_error none later = later
  first_error (some e) later = some e

  unfoldable pub input_error : Field F → List (WorldInput F) → Option String
  input_error f [] = none
  input_error f (i ∷ is) = first_error (body_error f i.body) (input_error f is)

module _ {F : Type 0} (fl : FloatOps F) (ft : FloatText F) where
  -- The end of `apply`: where the last update fails, the updates and acknowledgements are dropped.
  abbrev close_built : WorldFrameApplier F → Built → Result (Unit {0}) → FrameApplied F
  close_built w b (ok u) = applied (with_built w b) b.updates
  close_built w b (err e) = refused (record (with_built w b) { owner_acks = [] }) e

  abbrev apply_hazard : WorldFrameApplier F → ℕ → List WorldUpdate → FrameApplied F
  apply_hazard w tick updates =
      let b =
        append_hazard fl ft w.update_builder tick w.field.last_ether_hazard
          (instability fl w.field.field_ether) updates in
      if has_adverse_effect fl w.field.field_ether
      then close_built w b b.outcome
      else applied w updates

  abbrev go_on_with :
      WorldFrameApplier F
      → Built
      → Result (Unit {0})
      → (WorldFrameApplier F → List WorldUpdate → FrameApplied F)
      → FrameApplied F
  go_on_with w b (ok u) next = next (with_built w b) b.updates
  go_on_with w b (err e) next = refused (record (with_built w b) { owner_acks = [] }) e

  -- The updates of the attacks and spells, then that of the hazard.
  unfoldable pub apply_resolutions :
      WorldFrameApplier F → ℕ → List (CombatResolution F) → List WorldUpdate → FrameApplied F
  apply_resolutions w tick [] updates = apply_hazard w tick updates
  apply_resolutions w tick (r ∷ rs) updates =
      let b = append_combat_resolution ft w.update_builder tick r updates in
      go_on_with w b b.outcome (λ w' us. apply_resolutions w' tick rs us)

  -- What `apply` does behind `processInputs`.
  abbrev pub apply_processed :
      WorldFrameApplier F
      → WorldFrameInputs F
      → List WorldUpdate
      → Outcome (Field F) (Field F × List (CombatResolution F))
      → FrameApplied F
  apply_processed w frame updates (done (field, resolutions)) =
      apply_resolutions
        (record_owner_acks (record w { field = field }) frame.world_tick
          (last_processed_of [] (movements_of frame.inputs)))
        frame.world_tick resolutions updates
  apply_processed w frame updates (rejected field) =
      refused (record w { field = field }) "world input could not be applied in the field"
  apply_processed w frame updates crashed = record {
    applier = w;
    updates = updates;
    outcome = crashed;
  }

  abbrev pub apply_built :
      WorldFrameApplier F → WorldFrameInputs F → Built → Result (Unit {0}) → FrameApplied F
  apply_built w frame b (err e) = record {
    applier = with_built w b;
    updates = b.updates;
    outcome = rejected e;
  }
  apply_built w frame b (ok u) =
      apply_processed (with_built w b) frame b.updates
        (process_inputs fl w.field frame.inputs frame.world_tick)

  abbrev apply_checked : WorldFrameApplier F → WorldFrameInputs F → Option String → FrameApplied F
  apply_checked w frame (some e) = refused w e
  apply_checked w frame none =
      let b = build ft w.update_builder frame in apply_built w frame b b.outcome

  -- `apply(const WorldFrameInputs&, …)`
  unfoldable pub apply : WorldFrameApplier F → WorldFrameInputs F → FrameApplied F
  apply w frame =
      apply_checked (record w { owner_acks = [] }) frame (input_error fl w.field frame.inputs)

  -- The acknowledgements that go with a snapshot.
  abbrev snapshot_acks_of : Map ℤ ℕ → ℕ → List (PlayerPoseSnapshot F) → List (MovementAck F)
  snapshot_acks_of last tick [] = []
  snapshot_acks_of last tick (p ∷ ps) =
      (record {
        session_id = p.session_id;
        x = p.x;
        y = p.y;
        z = p.z;
        world_tick = tick;
        last_processed_input_sequence = sequence_or_zero (lookup p.session_id last);
      })
      ∷ snapshot_acks_of last tick ps

  abbrev capture_appended : WorldFrameApplier F → ℕ → Built → Result (Unit {0}) → FrameApplied F
  capture_appended w tick b (err e) = record {
    applier = with_built w b;
    updates = b.updates;
    outcome = rejected e;
  }
  capture_appended w tick b (ok u) =
      applied
        (record (with_built w b) {
          snapshot_acks =
              snapshot_acks_of w.last_processed_by_session tick (public_player_poses w.field);
        })
        b.updates

  abbrev capture_formatted :
      WorldFrameApplier F → ℕ → List WorldUpdate → Result (List ℕ) → FrameApplied F
  capture_formatted w tick updates (err e) = record {
    applier = w;
    updates = updates;
    outcome = rejected e;
  }
  capture_formatted w tick updates (ok payload) =
      let b = append_snapshot w.update_builder tick payload updates in
      capture_appended w tick b b.outcome

  unfoldable pub capture_public_snapshot :
      WorldFrameApplier F → ℕ → List WorldUpdate → FrameApplied F
  capture_public_snapshot w tick updates =
      capture_formatted (record w { snapshot_acks = [] }) tick updates
        (format_payload fl ft w.field.field_ether w.field.last_ether_hazard
          (public_npc_snapshots w.field) (public_player_poses w.field))

  -- `capturePublicSnapshotIfNewSessions`; the acknowledgements to publish are the applier's.
  unfoldable pub capture_if_new_sessions :
      WorldFrameApplier F → ℕ → ℕ → List WorldUpdate → FrameApplied F
  capture_if_new_sessions w new_sessions tick updates =
      let captured = capture_public_snapshot w tick updates in
      if new_sessions == 0 then applied w updates else captured
