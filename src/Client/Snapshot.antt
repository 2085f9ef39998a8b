-- ===== src/Client/Snapshot.antt =====
-- src/ClientWorldSnapshotApplier.cpp and include/seed/ClientEnvironmentState.h: the client's view of
-- the world, which a snapshot replaces as a whole. A `long` has the range of an `int64_t`.
pub mod Fields
use seed_origin.Base.{
  ℕ, zero, suc, ◌+◌, Bool, true, false, not, ◌&&◌, ◌||◌, List, [], ◌∷◌, ◌++◌, Option, none, some,
  is_some, ◌==◌, if◌then◌else◌, length, ℤ, pos, pos_part, eqb_ℤ, leb_ℤ, ltb_ℤ, Map, lookup, ℕ_key,
  String, Result, ok, err, ◌>>=◌, ◌>>◌, fail_if, uint64_max,
}
use seed_origin.Net.Update.{WorldUpdate, UpdateKind, is_snapshot, validate_world_update}
use seed_origin.Net.Sequence.{WorldUpdateSequenceTracker, confirm_snapshot}
use seed_origin.World.Float.{FloatOps, FloatText}
use seed_origin.World.Entities.{is_empty_player_name}
use seed_origin.World.Field.{NpcSnapshot, PlayerPoseSnapshot}
use seed_origin.World.MovementText.{fields_from}
use seed_origin.Client.Snapshot.Fields.{Parsing, ParsedNpc, nothing_parsed, note_fields}

pub record EnvironmentState (F : Type 0) : Type 0 where
  pub fire : F
  pub water : F
  pub earth : F
  pub air : F
  pub hazard : F
  pub world_tick : ℕ
  pub sequence : ℕ
  pub npcs : List (NpcSnapshot F)
  pub players : List (PlayerPoseSnapshot F)
  pub has_local_player : Bool
  pub local_x : F
  pub local_y : F
  pub local_z : F
  pub last_processed_input_sequence : ℕ

module _ {F : Type 0} (fl : FloatOps F) where
  abbrev value_or_zero : Option F → F
  value_or_zero none = fl.lit 0 1
  value_or_zero (some v) = v

  -- `ClientEnvironmentState::ClientEnvironmentState`
  abbrev pub initial_environment : EnvironmentState F
  initial_environment = record {
    fire = fl.lit 0 1;
    water = fl.lit 0 1;
    earth = fl.lit 0 1;
    air = fl.lit 0 1;
    hazard = fl.lit 0 1;
    world_tick = 0;
    sequence = 0;
    npcs = [];
    players = [];
    has_local_player = false;
    local_x = fl.lit 0 1;
    local_y = fl.lit 0 1;
    local_z = fl.lit 0 1;
    last_processed_input_sequence = 0;
  }

  abbrev is_finite_at : F → F → F → Bool
  is_finite_at x y z = fl.is_finite x && fl.is_finite y && fl.is_finite z

  abbrev is_complete_npc : ParsedNpc F → Bool
  is_complete_npc p =
      ltb_ℤ (pos 0) p.npc.npc_id
      && not (length p.npc.npc_type == 0)
      && is_finite_at p.npc.x p.npc.y p.npc.z
      && leb_ℤ (pos 0) p.npc.hp
      && p.alive

  abbrev is_complete_player : PlayerPoseSnapshot F → Bool
  is_complete_player p =
      ltb_ℤ (pos 0) p.session_id && is_finite_at p.x p.y p.z && not (is_empty_player_name p.name)

  -- A loop over the indices from `index` up: every element has to be there and to be complete.
  abbrev pub add_found :
      {T U : Type 0} → (T → Bool) → (T → U) → String → Option T → Result (List U) → Result (List U)
  add_found complete out e none later = err e
  add_found complete out e (some t) later =
      if complete t then (later >>= λ rest. ok (out t ∷ rest)) else err e

  unfoldable pub collected :
      {T U : Type 0} → (T → Bool) → (T → U) → String → Map ℕ T → ℕ → ℕ → Result (List U)
  collected complete out e m index zero = ok []
  collected complete out e m index (suc count) =
      add_found complete out e (lookup index m) (collected complete out e m (suc index) count)

  -- Where the text has a count, it is that of the elements, which are then taken in order.
  abbrev counted :
      {T U : Type 0} → (T → Bool) → (T → U) → String → String → Map ℕ T → Option ℤ → Result (List U)
  counted complete out mismatch incomplete m none = ok []
  counted complete out mismatch incomplete m (some n) =
      if eqb_ℤ (pos (length m)) n
      then collected complete out incomplete m 0 (pos_part n)
      else err mismatch

  -- Fields of the environment are there all five, local ones all four or none.
  abbrev all_environment : Parsing F → Bool
  all_environment p =
      is_some p.fire && is_some p.water && is_some p.earth && is_some p.air && is_some p.hazard

  abbrev all_local : Parsing F → Bool
  all_local p =
      is_some p.local_x && is_some p.local_y && is_some p.local_z && is_some p.local_sequence

  abbrev any_local : Parsing F → Bool
  any_local p =
      is_some p.local_x || is_some p.local_y || is_some p.local_z || is_some p.local_sequence

  abbrev sequence_or_zero : Option ℕ → ℕ
  sequence_or_zero none = 0
  sequence_or_zero (some n) = n

  -- `parsePayload` behind its loop.
  unfoldable pub state_of : Parsing F → Result (EnvironmentState F)
  state_of p =
      fail_if (not (all_environment p)) "snapshot payload is missing an environment field"
      >> fail_if
          (fl.fltb (value_or_zero p.hazard) (fl.lit 0 1)
            || fl.fltb (fl.lit 10 1) (value_or_zero p.hazard))
          "snapshot hazard is outside the supported range"
      >> (counted is_complete_npc (λ n. n.npc) "snapshot NPC count does not match fields"
            "snapshot NPC fields are incomplete" p.npcs p.npc_count
          >>= λ npcs.
              counted is_complete_player (λ q. q) "snapshot player count does not match fields"
                "snapshot player fields are incomplete" p.players p.player_count
              >>= λ players.
                  (fail_if (any_local p && not (all_local p))
                      "snapshot local player fields are incomplete"
                    >> ok (record {
                      fire = value_or_zero p.fire;
                      water = value_or_zero p.water;
                      earth = value_or_zero p.earth;
                      air = value_or_zero p.air;
                      hazard = value_or_zero p.hazard;
                      world_tick = 0;
                      sequence = 0;
                      npcs = npcs;
                      players = players;
                      has_local_player = all_local p;
                      local_x = value_or_zero p.local_x;
                      local_y = value_or_zero p.local_y;
                      local_z = value_or_zero p.local_z;
                      last_processed_input_sequence = sequence_or_zero p.local_sequence;
                    })))

module _ {F : Type 0} (fl : FloatOps F) (ft : FloatText F) where
  unfoldable pub parse_payload : List ℕ → Result (EnvironmentState F)
  parse_payload payload =
      note_fields fl ft nothing_parsed (fields_from [] payload) >>= λ p. state_of fl p

  abbrev stamped : WorldUpdate → EnvironmentState F → EnvironmentState F
  stamped u s = record s { world_tick = u.world_tick; sequence = u.sequence }

  -- `applySnapshot`: the state that replaces the client's.
  unfoldable pub snapshot_state : WorldUpdate → Result (EnvironmentState F)
  snapshot_state u =
      fail_if (not (is_snapshot u.kind) || not (u.event_id == 0))
        "only a zero-event snapshot can replace client state"
      >> validate_world_update u
      >> fail_if (u.sequence == uint64_max) "snapshot sequence cannot be incremented"
      >> (parse_payload u.payload >>= λ s. ok (stamped u s))
