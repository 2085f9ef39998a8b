-- ===== src/Client/Receiver.antt =====
-- src/ClientWorldUpdateReceiver.cpp: the client's view of the world, its prediction and the other
-- players' poses, brought up to date by the updates that the connection delivers.
use seed_origin.Base.{
  ℕ, ◌+◌, Bool, true, false, not, ◌&&◌, ◌||◌, List, [], ◌∷◌, Option, none, some, is_some,
  if◌then◌else◌, codes, ℤ, pos, leb_ℤ, ltb_ℤ, eqb_ℤ, String, Result, ok, err, strip_prefix,
}
use seed_origin.Net.Command.{NetworkCommand, make_request_snapshot_command}
use seed_origin.Net.Reassembly.{Accumulator, Appended, initial}
use seed_origin.Net.Update.{WorldUpdate, UpdateKind, snapshot, event, other}
use seed_origin.Net.Update.Streaming.{append_updates}
use seed_origin.World.Float.{FloatOps, FloatText}
use seed_origin.World.MovementText.{
  MovementAck, PublicMovementPose, parse_movement_ack, try_parse_attached_movement_ack,
  try_parse_public_movement_pose,
}
use seed_origin.Client.Predictor.{LocalMovementPredictor, pose, reconcile, apply_snapshot_baseline}
use seed_origin.Client.Hazards.{
  ClientHazardEffectQueue, HazardIngestResult, applied, ignored_duplicate, snapshot_requested,
  rejected, backpressure, Ingested, ingest, observe_event, confirm,
}
use seed_origin.Client.Poses.{RemotePlayerPoseStore, apply_authoritative, replace_from_snapshot}
use seed_origin.Client.Snapshot.{EnvironmentState, snapshot_state}

pub data WorldReceiveDecision : Type 0 where
  updates_applied no_data request_snapshot updates_rejected : WorldReceiveDecision

pub record ClientWorldUpdateReceiver (F : Type 0) : Type 0 where
  pub accumulator : Accumulator
  pub environment : EnvironmentState F
  pub hazard_queue : ClientHazardEffectQueue F
  pub predictor : LocalMovementPredictor F
  pub remotes : RemotePlayerPoseStore F
  pub local_session_id : ℤ
  pub needs_snapshot : Bool
  pub expected : ℕ
  pub decision : WorldReceiveDecision

-- A call: what it leaves, the number of updates that it has applied, and what it returns.
pub record Received (F : Type 0) : Type 0 where
  pub after : ClientWorldUpdateReceiver F
  pub applied_count : ℕ
  pub outcome : Result (Unit {0})

abbrev resync_text : String
resync_text = "world update cannot be applied before snapshot resync"

module _ {F : Type 0} where
  abbrev pub stopped : ClientWorldUpdateReceiver F → WorldReceiveDecision → String → Received F
  stopped r d e = record { after = record r { decision = d }; applied_count = 0; outcome = err e }

  abbrev pub gone_on : ClientWorldUpdateReceiver F → Received F
  gone_on r = record { after = r; applied_count = 0; outcome = ok tt }

  unfoldable pub bind_local_session : ClientWorldUpdateReceiver F → ℤ → ClientWorldUpdateReceiver F
  bind_local_session r session_id = record r { local_session_id = session_id }

  unfoldable pub begin_reconnect : ClientWorldUpdateReceiver F → ClientWorldUpdateReceiver F
  begin_reconnect r = record r {
    accumulator = initial;
    needs_snapshot = true;
    expected = 1;
    decision = request_snapshot;
  }

  unfoldable pub try_build_request_snapshot_command :
      ClientWorldUpdateReceiver F → Option NetworkCommand
  try_build_request_snapshot_command r =
      if not r.needs_snapshot || leb_ℤ r.local_session_id (pos 0)
      then none
      else some (make_request_snapshot_command r.local_session_id)

  abbrev is_own : ClientWorldUpdateReceiver F → ℤ → Bool
  is_own r session_id = ltb_ℤ (pos 0) r.local_session_id && eqb_ℤ session_id r.local_session_id

module _ {F : Type 0} (fl : FloatOps F) (ft : FloatText F) where
  -- The player's own acknowledgement reconciles its prediction.
  abbrev reconcile_own : ClientWorldUpdateReceiver F → MovementAck F → ClientWorldUpdateReceiver F
  reconcile_own r a =
      if is_own r a.session_id
      then record r {
        predictor =
            reconcile fl r.predictor (pose a.x a.y a.z) a.world_tick
              a.last_processed_input_sequence;
      }
      else r

  abbrev reconcile_attached :
      ClientWorldUpdateReceiver F → Option (MovementAck F) → ClientWorldUpdateReceiver F
  reconcile_attached r none = r
  reconcile_attached r (some a) = reconcile_own r a

  abbrev move_remote :
      ClientWorldUpdateReceiver F → Option (PublicMovementPose F) → ClientWorldUpdateReceiver F
  move_remote r none = r
  move_remote r (some p) =
      if leb_ℤ r.local_session_id (pos 0) || not (eqb_ℤ p.session_id r.local_session_id)
      then record r {
        remotes = (apply_authoritative fl r.remotes p.session_id (pose p.x p.y p.z) false).0;
      }
      else r

  abbrev apply_ack : ClientWorldUpdateReceiver F → Result (MovementAck F) → Received F
  apply_ack r (err e) = stopped r updates_rejected e
  apply_ack r (ok a) = gone_on (reconcile_own r a)

  -- What an event that is applied in its turn does.
  unfoldable pub apply_payload : ClientWorldUpdateReceiver F → List ℕ → Received F
  apply_payload r payload =
      if is_some (strip_prefix (codes "movementAck=") payload)
      then apply_ack r (parse_movement_ack fl ft payload)
      else gone_on (
          move_remote (reconcile_attached r (try_parse_attached_movement_ack fl ft payload))
            (try_parse_public_movement_pose fl ft payload))

  abbrev pub at_ingested :
      ClientWorldUpdateReceiver F → List ℕ → HazardIngestResult → String → Received F
  at_ingested r payload applied e = apply_payload r payload
  at_ingested r payload ignored_duplicate e = gone_on r
  at_ingested r payload snapshot_requested e =
      stopped (record r { needs_snapshot = true }) request_snapshot e
  at_ingested r payload rejected e = stopped r updates_rejected e
  at_ingested r payload backpressure e = stopped r updates_rejected e

  abbrev pub with_ingested : ClientWorldUpdateReceiver F → Ingested F → ClientWorldUpdateReceiver F
  with_ingested r i = record r { hazard_queue = i.after; expected = i.after.sync.expected_sequence }

  unfoldable pub apply_event : ClientWorldUpdateReceiver F → WorldUpdate → Received F
  apply_event r u =
      let i =
        if is_some (strip_prefix (codes "etherHazard=") u.payload)
        then ingest fl ft r.hazard_queue u
        else observe_event r.hazard_queue u in
      if r.needs_snapshot
      then stopped r request_snapshot resync_text
      else at_ingested (with_ingested r i) u.payload i.result i.error

  abbrev rebase_local :
      ClientWorldUpdateReceiver F → EnvironmentState F → ℕ → ClientWorldUpdateReceiver F
  rebase_local r s world_tick =
      if s.has_local_player
      then record r {
        predictor =
            apply_snapshot_baseline fl r.predictor (pose s.local_x s.local_y s.local_z) world_tick
              s.last_processed_input_sequence;
      }
      else r

  -- The snapshot replaces the state, and the client goes on with the next number.
  abbrev pub apply_state :
      ClientWorldUpdateReceiver F → WorldUpdate → Result (EnvironmentState F) → Received F
  apply_state r u (err e) = stopped r updates_rejected e
  apply_state r u (ok s) =
      let based =
        rebase_local
          (record r {
            environment = s;
            hazard_queue = confirm r.hazard_queue u.sequence;
            needs_snapshot = false;
            expected = u.sequence + 1;
          })
          s u.world_tick in
      gone_on (record based {
        remotes = replace_from_snapshot based.remotes s.players based.local_session_id;
      })

  -- A turn of the loop of `receive`, with whether the update counts as applied.
  abbrev pub apply_update :
      ClientWorldUpdateReceiver F → WorldUpdate → UpdateKind → Received F × Bool
  apply_update r u snapshot = (apply_state r u (snapshot_state fl ft u), true)
  apply_update r u event = if r.needs_snapshot then (gone_on r, false) else (apply_event r u, true)
  apply_update r u (other n) = (stopped r updates_rejected "world update kind is unsupported", true)

  -- The end of `receive`.
  abbrev finish : ClientWorldUpdateReceiver F → ℕ → Received F
  finish r count =
      if r.needs_snapshot
      then record {
        after = record r { decision = request_snapshot };
        applied_count = count;
        outcome = err resync_text;
      }
      else record {
        after = record r { decision = updates_applied };
        applied_count = count;
        outcome = ok tt;
      }

  abbrev add_one : ℕ → Bool → ℕ
  add_one count true = count + 1
  add_one count false = count

  abbrev go_on :
      ℕ
      → Received F × Bool
      → Result (Unit {0})
      → (ClientWorldUpdateReceiver F → ℕ → Received F)
      → Received F
  go_on count (step, counts) (err e) next = record step { applied_count = count }
  go_on count (step, counts) (ok u) next = next step.after (add_one count counts)

  unfoldable pub apply_updates : ClientWorldUpdateReceiver F → ℕ → List WorldUpdate → Received F
  apply_updates r count [] = finish r count
  apply_updates r count (u ∷ us) =
      let step = apply_update r u u.kind in
      go_on count step step.0.outcome (λ r' n. apply_updates r' n us)

  abbrev receive_appended :
      ClientWorldUpdateReceiver F → Appended WorldUpdate → Result (Unit {0}) → Received F
  receive_appended r a (err e) = stopped r updates_rejected e
  receive_appended r a (ok u) = receive_items r a.items
    where
      receive_items : ClientWorldUpdateReceiver F → List WorldUpdate → Received F
      receive_items q [] = gone_on (record q { decision = no_data })
      receive_items q (v ∷ vs) = apply_updates (record q { decision = no_data }) 0 (v ∷ vs)

  unfoldable pub receive : ClientWorldUpdateReceiver F → List ℕ → Received F
  receive r bytes =
      let a = append_updates r.accumulator bytes in
      receive_appended (record r { accumulator = a.after }) a a.outcome
