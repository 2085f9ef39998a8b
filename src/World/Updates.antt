-- ===== src/World/Updates.antt =====
-- src/WorldFrameUpdateBuilder.cpp: the updates of a frame, which it numbers, and the copies of them
-- that each session is sent.
pub mod Numbers
use seed_origin.Base.{
  ℕ, ◌+◌, ◌-◌, Bool, true, false, not, ◌||◌, List, [], ◌∷◌, ◌++◌, Option, none, some, ltb, leb,
  ◌==◌, if◌then◌else◌, length, ℤ, eqb_ℤ, String, Result, ok, err, ◌>>=◌, ◌>>◌, uint64_max,
}
use seed_origin.Net.Command.{current_protocol_version}
use seed_origin.Net.Update.{
  WorldUpdate, UpdateKind, snapshot, event, other, max_update_payload, validate_world_update,
}
use seed_origin.World.Float.{FloatOps, FloatText}
use seed_origin.World.Input.{WorldInput, CombatResolution}
use seed_origin.World.ActionQueue.{QueuedAction, FrameActions, WorldFrameInputs}
use seed_origin.World.MovementText.{
  MovementAck, format_movement_ack, ack_fields, is_finite_pose, parse_movement_event_session,
}
use seed_origin.World.UpdateText.{
  action_text, input_text, hazard_text, resolution_text, public_pose_text, local_pose_text,
}

pub record WorldFrameUpdateBuilder : Type 0 where
  pub update_sequence : ℕ
  pub event_id : ℕ

abbrev pub new_builder : WorldFrameUpdateBuilder
new_builder = record { update_sequence = 1; event_id = 1 }

-- What a call leaves: the builder, the list of its out-parameter, and what it returns.
pub record Built : Type 0 where
  pub builder : WorldFrameUpdateBuilder
  pub updates : List WorldUpdate
  pub outcome : Result (Unit {0})

abbrev refused : WorldFrameUpdateBuilder → List WorldUpdate → String → Built
refused b updates e = record { builder = b; updates = updates; outcome = err e }

abbrev pub event_update : WorldFrameUpdateBuilder → ℕ → List ℕ → WorldUpdate
event_update b world_tick payload = record {
  version = current_protocol_version;
  kind = event;
  world_tick = world_tick;
  sequence = b.update_sequence;
  event_id = b.event_id;
  payload = payload;
}

-- The update is pushed where it is valid; where it is not, the list becomes the one given.
abbrev push_valid :
    WorldFrameUpdateBuilder
    → List WorldUpdate
    → List WorldUpdate
    → WorldUpdate
    → Result (Unit {0})
    → Built
push_valid b updates otherwise u (ok done) = record {
  builder = b;
  updates = updates ++ u ∷ [];
  outcome = ok tt;
}
push_valid b updates otherwise u (err e) = refused b otherwise e

unfoldable pub append_event : WorldFrameUpdateBuilder → ℕ → List ℕ → List WorldUpdate → Built
append_event b world_tick payload updates =
    let u = event_update b world_tick payload in
    if b.update_sequence == uint64_max || b.event_id == uint64_max
    then refused b [] "world update identity exhausted"
    else push_valid (record { update_sequence = b.update_sequence + 1; event_id = b.event_id + 1 })
        updates [] u (validate_world_update u)

-- The number of the snapshot is taken also where the snapshot is not valid.
unfoldable pub append_snapshot : WorldFrameUpdateBuilder → ℕ → List ℕ → List WorldUpdate → Built
append_snapshot b world_tick payload updates =
    let u : WorldUpdate = record {
      version = current_protocol_version;
      kind = snapshot;
      world_tick = world_tick;
      sequence = b.update_sequence;
      event_id = 0;
      payload = payload;
    } in
    if b.update_sequence == uint64_max
    then refused b updates "world update identity exhausted"
    else push_valid (record b { update_sequence = b.update_sequence + 1 }) updates updates u
        (validate_world_update u)

-- Go on with what the call has left, unless it has failed.
abbrev pub if_done : Result (Unit {0}) → Built → Built → Built
if_done (ok done) r later = later
if_done (err e) r later = r

abbrev pub go_on : Built → (WorldFrameUpdateBuilder → List WorldUpdate → Built) → Built
go_on r next = if_done r.outcome r (next r.builder r.updates)

-- The loop of both `build` functions: the first event that fails ends it.
unfoldable pub append_events :
    WorldFrameUpdateBuilder → ℕ → List (List ℕ) → List WorldUpdate → Built
append_events b world_tick [] updates = record { builder = b; updates = updates; outcome = ok tt }
append_events b world_tick (payload ∷ payloads) updates =
    go_on (append_event b world_tick payload updates)
      (λ b' us. append_events b' world_tick payloads us)

module _ {F : Type 0} where
  abbrev action_texts : List (QueuedAction F) → List (List ℕ)
  action_texts [] = []
  action_texts (a ∷ as') = action_text a ∷ action_texts as'

  -- `build(const FrameActions&, …)`; the test of the size against `size_t` never fails.
  unfoldable pub build_actions : WorldFrameUpdateBuilder → FrameActions F → Built
  build_actions b frame =
      if ltb max_update_payload (length frame.actions)
      then refused b [] "world frame contains too many actions"
      else if leb (uint64_max - b.update_sequence) (length frame.actions)
          || leb (uint64_max - b.event_id) (length frame.actions)
      then refused b [] "world update identity exhausted"
      else append_events b frame.world_tick (action_texts frame.actions) []

module _ {F : Type 0} (ft : FloatText F) where
  abbrev pub input_texts : List (WorldInput F) → List (List ℕ)
  input_texts [] = []
  input_texts (i ∷ is) = input_text ft i ∷ input_texts is

  -- `build(const WorldFrameInputs&, …)`
  unfoldable pub build : WorldFrameUpdateBuilder → WorldFrameInputs F → Built
  build b frame =
      if ltb max_update_payload (length frame.inputs)
      then refused b [] "world frame contains too many inputs"
      else append_events b frame.world_tick (input_texts frame.inputs) []

  unfoldable pub append_combat_resolution :
      WorldFrameUpdateBuilder → ℕ → CombatResolution F → List WorldUpdate → Built
  append_combat_resolution b world_tick r updates =
      append_event b world_tick (resolution_text ft r) updates

module _ {F : Type 0} (fl : FloatOps F) (ft : FloatText F) where
  unfoldable pub append_hazard : WorldFrameUpdateBuilder → ℕ → F → F → List WorldUpdate → Built
  append_hazard b world_tick severity instability updates =
      if not (fl.is_finite severity)
        || not (fl.is_finite instability)
        || fl.fleb severity (fl.lit 0 1)
        || fl.fleb instability (fl.lit 1 1)
      then refused b updates "world hazard is invalid"
      else append_event b world_tick (hazard_text ft severity instability) updates

  abbrev find_owner_ack : List (MovementAck F) → ℤ → Option (MovementAck F)
  find_owner_ack [] session_id = none
  find_owner_ack (a ∷ as') session_id =
      let rest = find_owner_ack as' session_id in
      if eqb_ℤ a.session_id session_id then some a else rest

  -- The three functions that attach fields to a copy end alike: the longer update is validated.
  abbrev attached : WorldUpdate → List ℕ → Result WorldUpdate
  attached u extra =
      let longer = record u { payload = u.payload ++ extra } in
      validate_world_update longer >> ok longer

  unfoldable pub attach_owner_ack_fields : WorldUpdate → MovementAck F → Result WorldUpdate
  attach_owner_ack_fields u ack =
      format_movement_ack fl ft ack >>= λ discarded. attached u (ack_fields fl ft ack)

  unfoldable pub attach_public_pose_fields : WorldUpdate → MovementAck F → Result WorldUpdate
  attach_public_pose_fields u ack =
      if not (is_finite_pose fl ft ack.x ack.y ack.z)
      then err "public movement pose contains invalid state"
      else attached u (public_pose_text ft ack)

  unfoldable pub attach_local_snapshot_fields : WorldUpdate → MovementAck F → Result WorldUpdate
  attach_local_snapshot_fields u ack =
      if not (is_finite_pose fl ft ack.x ack.y ack.z)
      then err "snapshot local pose contains invalid state"
      else attached u (local_pose_text ft ack)

  abbrev with_ack :
      WorldUpdate
      → (WorldUpdate → MovementAck F → Result WorldUpdate)
      → Option (MovementAck F)
      → Result WorldUpdate
  with_ack u attach none = ok u
  with_ack u attach (some ack) = attach u ack

  -- The copy of an update for a session; `movement` is the session whose movement it tells of.
  abbrev copy_event : WorldUpdate → ℤ → List (MovementAck F) → Option ℤ → Result WorldUpdate
  copy_event u recipient acks none = ok u
  copy_event u recipient acks (some movement) =
      with_ack u
        (if eqb_ℤ movement recipient then attach_owner_ack_fields else attach_public_pose_fields)
        (find_owner_ack acks movement)

  abbrev copy_for : WorldUpdate → UpdateKind → ℤ → List (MovementAck F) → Result WorldUpdate
  copy_for u snapshot recipient acks =
      with_ack u attach_local_snapshot_fields (find_owner_ack acks recipient)
  copy_for u event recipient acks =
      copy_event u recipient acks (parse_movement_event_session u.payload)
  copy_for u (other n) recipient acks =
      copy_event u recipient acks (parse_movement_event_session u.payload)

  unfoldable pub copy_world_update_for_session :
      WorldUpdate → ℤ → List (MovementAck F) → Result WorldUpdate
  copy_world_update_for_session u recipient acks = copy_for u u.kind recipient acks
