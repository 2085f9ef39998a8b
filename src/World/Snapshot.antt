-- ===== src/World/Snapshot.antt =====
-- src/WorldSnapshotBuilder.cpp: the text of a snapshot of the world, in which the NPCs and the
-- players are numbered, and the snapshots that the builder numbers itself.
use seed_origin.Base.{
  ℕ, suc, ◌+◌, Bool, not, ◌||◌, List, [], ◌∷◌, ◌++◌, String, ltb, ◌==◌, if◌then◌else◌, length,
  codes, pos, leb_ℤ, ltb_ℤ, Result, ok, err, ◌>>=◌, ◌>>◌, uint64_max,
}
use seed_origin.Net.Command.{current_protocol_version}
use seed_origin.Net.Update.{WorldUpdate, snapshot, validate_world_update}
use seed_origin.World.Float.{FloatOps, FloatText}
use seed_origin.World.Ether.{EnvironmentEther}
use seed_origin.World.Entities.{is_empty_player_name, contains_byte}
use seed_origin.World.Field.{NpcSnapshot, PlayerPoseSnapshot}
use seed_origin.World.InputQueue.{to_string}

-- A field of the snapshot's `index`-th NPC or player, up to its value.
abbrev pub field_of : String → ℕ → String → List ℕ
field_of kind index name =
    b';' ∷ codes kind ++ (b'.' ∷ to_string (pos index) ++ (b'.' ∷ codes name ++ b'=' ∷ []))

module _ {F : Type 0} (fl : FloatOps F) (ft : FloatText F) where
  abbrev is_bad_pose : F → F → F → Bool
  is_bad_pose x y z = not (fl.is_finite x) || not (fl.is_finite y) || not (fl.is_finite z)

  abbrev is_bad_npc : NpcSnapshot F → Bool
  is_bad_npc n =
      leb_ℤ n.npc_id (pos 0)
      || length n.npc_type == 0
      || ltb 32 (length n.npc_type)
      || is_bad_pose n.x n.y n.z
      || ltb_ℤ n.hp (pos 0)

  abbrev pose_fields : String → ℕ → F → F → F → List ℕ
  pose_fields kind index x y z =
      field_of kind index "x"
      ++ (ft.show x
          ++ (field_of kind index "y" ++ (ft.show y ++ (field_of kind index "z" ++ ft.show z))))

  abbrev npc_fields : ℕ → NpcSnapshot F → List ℕ
  npc_fields index n =
      field_of "npc" index "id"
      ++ (to_string n.npc_id
          ++ (field_of "npc" index "type"
              ++ (n.npc_type
                  ++ (pose_fields "npc" index n.x n.y n.z
                      ++ (field_of "npc" index "hp"
                          ++ (to_string n.hp ++ (field_of "npc" index "alive" ++ codes "1")))))))

  -- The loop over the NPCs, from an index on.
  unfoldable pub npc_texts : ℕ → List (NpcSnapshot F) → Result (List ℕ)
  npc_texts index [] = ok []
  npc_texts index (n ∷ ns) =
      let later = npc_texts (suc index) ns in
      if is_bad_npc n
      then err "public NPC snapshot contains invalid state"
      else (later >>= λ rest. ok (npc_fields index n ++ rest))

  abbrev is_bad_player : PlayerPoseSnapshot F → Bool
  is_bad_player p =
      leb_ℤ p.session_id (pos 0)
      || is_bad_pose p.x p.y p.z
      || is_empty_player_name p.name
      || contains_byte b';' p.name
      || contains_byte b'=' p.name

  abbrev player_fields : ℕ → PlayerPoseSnapshot F → List ℕ
  player_fields index p =
      field_of "player" index "session"
      ++ (to_string p.session_id
          ++ (pose_fields "player" index p.x p.y p.z
              ++ ((if ltb_ℤ (pos 0) p.gameplay_id
                    then field_of "player" index "id" ++ to_string p.gameplay_id
                    else [])
                  ++ (field_of "player" index "name" ++ p.name))))

  -- The loop over the players, from an index on.
  unfoldable pub player_texts : ℕ → List (PlayerPoseSnapshot F) → Result (List ℕ)
  player_texts index [] = ok []
  player_texts index (p ∷ ps) =
      let later = player_texts (suc index) ps in
      if is_bad_player p
      then err "public player snapshot contains invalid state"
      else (later >>= λ rest. ok (player_fields index p ++ rest))

  abbrev ether_fields : EnvironmentEther F → F → List ℕ
  ether_fields ether hazard =
      codes "ether.fire="
      ++ (ft.show ether.fire_value
          ++ (codes ";ether.water="
              ++ (ft.show ether.water_value
                  ++ (codes ";ether.earth="
                      ++ (ft.show ether.earth_value
                          ++ (codes ";ether.air="
                              ++ (ft.show ether.air_value
                                  ++ (codes ";ether.hazard=" ++ ft.show hazard))))))))

  unfoldable pub format_payload :
      EnvironmentEther F → F → List (NpcSnapshot F) → List (PlayerPoseSnapshot F) → Result (List ℕ)
  format_payload ether hazard npcs players =
      if not (fl.is_finite hazard) || fl.fltb hazard (fl.lit 0 1)
      then err "snapshot hazard is invalid"
      else (npc_texts 0 npcs >>= λ npc_text. player_texts 0 players >>= λ player_text. ok (
          ether_fields ether hazard
          ++ (codes ";npc.count="
              ++ (to_string (pos (length npcs))
                  ++ (npc_text
                      ++ (codes ";player.count="
                          ++ (to_string (pos (length players)) ++ player_text)))))))

  abbrev numbered : ℕ → ℕ → Result (List ℕ) → ℕ × Result WorldUpdate
  numbered sequence world_tick (err e) = (sequence, err e)
  numbered sequence world_tick (ok payload) =
      let u : WorldUpdate = record {
        version = current_protocol_version;
        kind = snapshot;
        world_tick = world_tick;
        sequence = sequence;
        event_id = 0;
        payload = payload;
      } in
      (sequence + 1, validate_world_update u >> ok u)

  -- `WorldSnapshotBuilder::build`; the builder holds nothing but `sequence`.
  unfoldable pub build_snapshot :
      ℕ
      → ℕ
      → EnvironmentEther F
      → F
      → List (NpcSnapshot F)
      → List (PlayerPoseSnapshot F)
      → ℕ × Result WorldUpdate
  build_snapshot sequence world_tick ether hazard npcs players =
      if sequence == uint64_max
      then (sequence, err "snapshot sequence exhausted")
      else numbered sequence world_tick (format_payload ether hazard npcs players)
