-- ===== src/World/Field/Frame.antt =====
-- src/Field.cpp: movements that are queued, respawns, the snapshots of who is in the field, and
-- `processFrame`, which applies the queues.
pub mod Queues
use seed_origin.Base.{
  ℕ, Bool, true, false, not, ◌&&◌, ◌||◌, List, [], ◌∷◌, Option, none, some, ltb, ◌==◌,
  if◌then◌else◌, ℤ, pos, leb_ℤ, ltb_ℤ, Map, lookup, has, insert, ℤ_key,
}
use seed_origin.World.Float.{FloatOps}
use seed_origin.World.Status.{Status}
use seed_origin.World.Entities.{
  Position, set_coordinates, Player, get_player_name, set_player_position, Npc, is_alive,
  set_npc_position, respawn, Action,
}
use seed_origin.World.Movement.{integrate_movement, is_in_world}
use seed_origin.World.Field.{
  Field, NpcRespawnState, PlayerPoseSnapshot, NpcSnapshot, resolve_player_id, find_npc,
  put_position_queue, session_id_for_player,
}
use seed_origin.World.Field.Combat.{with_player, apply_action}

module _ {F : Type 0} where
  -- A write through `findNpc`, where it is not null.
  unfoldable pub with_npc : Field F → ℤ → (Npc F → Npc F) → Field F
  with_npc f id change = elim (lookup id f.npc_list) [
    | none ↦ f
    | some n ↦ record f { npc_list = insert id (change n) f.npc_list }
  ]

  -- One turn of the loop on the position queue.
  unfoldable pub apply_position : Field F → Position F → Field F
  apply_position f p =
      if has p.player_id f.player_list
      then with_player f p.player_id (λ q. set_player_position q p)
      else with_npc f p.player_id (λ n. if is_alive n then set_npc_position n p else n)

  unfoldable pub apply_positions : Field F → List (Position F) → Field F
  apply_positions f [] = f
  apply_positions f (p ∷ ps) = apply_positions (apply_position f p) ps

  -- The loop on the action queue, whose body is that of `applyAction`.
  unfoldable pub apply_actions : Field F → List (Action F) → Field F
  apply_actions f [] = f
  apply_actions f (a ∷ as') = apply_actions (apply_action f a) as'

  abbrev or_unchanged : Npc F → Option (Npc F) → Npc F
  or_unchanged n none = n
  or_unchanged n (some m) = m

  abbrev pub revive : NpcRespawnState F → Npc F → Npc F
  revive r n = if is_alive n then n else or_unchanged n (respawn n r.status r.position)

  -- The loop on the respawns: the field, and the respawns that are left.
  unfoldable pub apply_respawns :
      Field F → ℕ → Map ℤ (NpcRespawnState F) → Field F × Map ℤ (NpcRespawnState F)
  apply_respawns f tick [] = (f, [])
  apply_respawns f tick ((id, r) ∷ rs) =
      if ltb tick r.respawn_tick
      then (let (g, left) = apply_respawns f tick rs in (g, (id, r) ∷ left))
      else apply_respawns (with_npc f id (revive r)) tick rs

  unfoldable pub process_frame : Field F → ℕ → Field F
  process_frame f tick =
      let moved = apply_positions f f.position_queue in
      let acted = apply_actions (record moved { position_queue = [] }) moved.action_queue in
      let (revived, left) =
        apply_respawns (record acted { action_queue = [] }) tick acted.npc_respawns in
      record revived { npc_respawns = left }

  unfoldable pub public_npcs : Map ℤ (Npc F) → List (NpcSnapshot F)
  public_npcs [] = []
  public_npcs ((id, n) ∷ m) =
      let rest = public_npcs m in
      if not (is_alive n)
      then rest
      else (record {
        npc_id = n.id;
        npc_type = n.type;
        x = n.position.x;
        y = n.position.y;
        z = n.position.z;
        hp = n.status.hp;
      })
        ∷ rest

  unfoldable pub public_npc_snapshots : Field F → List (NpcSnapshot F)
  public_npc_snapshots f = public_npcs f.npc_list

  abbrev pub pose_of : ℤ → Player F → PlayerPoseSnapshot F
  pose_of bound p = record {
    session_id = if ltb_ℤ (pos 0) bound then bound else p.id;
    x = p.position.x;
    y = p.position.y;
    z = p.position.z;
    gameplay_id = p.id;
    name = get_player_name p;
  }

  -- A player who was authenticated and has left.
  abbrev pub is_offline : ℤ → Player F → Bool
  is_offline bound p = ltb_ℤ (pos 0) p.auth_player_id && leb_ℤ bound (pos 0)

  unfoldable pub poses : Field F → Map ℤ (Player F) → List (PlayerPoseSnapshot F)
  poses f [] = []
  poses f ((id, p) ∷ m) =
      let rest = poses f m in
      let bound = session_id_for_player f p.id in
      if is_offline bound p then rest else pose_of bound p ∷ rest

  unfoldable pub public_player_poses : Field F → List (PlayerPoseSnapshot F)
  public_player_poses f = poses f f.player_list

  abbrev pub queued : Field F → Position F → Option (F × F × F) → Field F × Bool
  queued f p none = (f, false)
  queued f p (some (x, y, z)) = (put_position_queue f (set_coordinates p x y z), true)

module _ {F : Type 0} (fl : FloatOps F) where
  unfoldable pub schedule_npc_respawn : Field F → ℤ → ℕ → Status → Position F → Field F × Bool
  schedule_npc_respawn f id tick status position = elim (find_npc f id) [
    | none ↦ (f, false)
    | some n ↦
        if is_alive n
          || tick == 0
          || leb_ℤ status.hp (pos 0)
          || not (is_in_world fl position.x)
          || not (is_in_world fl position.y)
          || not (is_in_world fl position.z)
          || has id f.npc_respawns
        then (f, false)
        else (
          record f {
            npc_respawns =
                insert id (record { status = status; position = position; respawn_tick = tick })
                  f.npc_respawns;
          },
          true,
        )
  ]

  unfoldable pub queue_movement : Field F → ℤ → F → F → F → Field F × Bool
  queue_movement f player_id dx dy dz =
      elim (lookup (resolve_player_id f player_id) f.player_list) [
        | none ↦ (f, false)
        | some p ↦
            queued f p.position
              (integrate_movement fl p.position.x p.position.y p.position.z dx dy dz)
      ]

  unfoldable pub queue_npc_movement : Field F → ℤ → F → F → F → Field F × Bool
  queue_npc_movement f id dx dy dz = elim (find_npc f id) [
    | none ↦ (f, false)
    | some n ↦
        if not (is_alive n)
        then (f, false)
        else queued f n.position
            (integrate_movement fl n.position.x n.position.y n.position.z dx dy dz)
  ]
