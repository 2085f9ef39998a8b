-- ===== src/World/Field.antt =====
-- include/seed/Field.h and src/Field.cpp: the state of the field and its operations on players,
-- NPCs and sessions. The field is one global instance, which the operations take and return.
pub mod Bindings
pub mod Calls
pub mod Frame
pub mod Combat
pub mod Check
pub mod Inputs
use seed_origin.Base.{
  ℕ, zero, suc, ◌+◌, ◌-◌, Bool, true, false, not, ◌&&◌, ◌||◌, List, [], ◌∷◌, ◌++◌, map, Option,
  none, some, is_some, ltb, leb, ◌==◌, if◌then◌else◌, length, bytes_eq, ℤ, pos, ◌+ℤ◌, ◌-ℤ◌, leb_ℤ,
  ltb_ℤ, eqb_ℤ, pos_part, int64_max, Map, lookup, has, insert, erase, ℤ_key,
}
use seed_origin.World.Float.{FloatOps}
use seed_origin.World.Status.{Status, gain_hp, gain_mp, no_status}
use seed_origin.World.Entities.{
  Position, set_coordinates, Player, trim_player_name, get_player_name, Npc, is_alive, Action,
}
use seed_origin.World.Ether.{EnvironmentEther, no_ether, fzero}
use seed_origin.World.Movement.{integrate_movement, is_in_world}

pub record NpcRespawnState (F : Type 0) : Type 0 where
  pub status : Status
  pub position : Position F
  pub respawn_tick : ℕ

pub record Field (F : Type 0) : Type 0 where
  pub player_list : Map ℤ (Player F)
  pub npc_list : Map ℤ (Npc F)
  pub position_queue : List (Position F)
  pub action_queue : List (Action F)
  pub field_status : Status
  pub field_ether : EnvironmentEther F
  pub last_ether_hazard : F
  pub next_attack_tick : Map ℤ ℕ
  pub next_spell_tick : Map ℤ ℕ
  pub npc_respawns : Map ℤ (NpcRespawnState F)
  pub session_to_player_id : Map ℤ ℤ
  pub player_to_session_id : Map ℤ ℤ
  pub next_gameplay_id : ℤ

pub record PlayerPoseSnapshot (F : Type 0) : Type 0 where
  pub session_id : ℤ
  pub x : F
  pub y : F
  pub z : F
  pub gameplay_id : ℤ
  pub name : List ℕ

-- The source's `alive` is true in every snapshot that is made.
pub record NpcSnapshot (F : Type 0) : Type 0 where
  pub npc_id : ℤ
  pub npc_type : List ℕ
  pub x : F
  pub y : F
  pub z : F
  pub hp : ℤ

abbrev pub or_zero : Option ℤ → ℤ
or_zero none = pos 0
or_zero (some i) = i

-- The numbers from `next` up to, and without, the largest `int64_t`.
abbrev pub numbers_left : ℤ → ℕ
numbers_left next = pos_part (pos int64_max -ℤ next)

module _ {F : Type 0} where
  -- `resolvePlayerId`
  unfoldable pub resolve_player_id : Field F → ℤ → ℤ
  resolve_player_id f id =
      if leb_ℤ id (pos 0)
      then pos 0
      else if has id f.player_list
      then id
      else or_zero (lookup id f.session_to_player_id)

  abbrev pub has_player : Field F → ℤ → Bool
  has_player f id = ltb_ℤ (pos 0) (resolve_player_id f id)

  -- `findPlayer`; a null pointer is `none`.
  abbrev pub find_player : Field F → ℤ → Option (Player F)
  find_player f id = lookup (resolve_player_id f id) f.player_list

  abbrev pub find_npc : Field F → ℤ → Option (Npc F)
  find_npc f id = lookup id f.npc_list

  unfoldable pub gain_status : Field F → Status → Field F
  gain_status f s = record f { field_status = gain_mp (gain_hp f.field_status s.hp) s.mp }

  abbrev pub put_position_queue : Field F → Position F → Field F
  put_position_queue f p = record f { position_queue = f.position_queue ++ p ∷ [] }

  abbrev pub put_action_queue : Field F → Action F → Field F
  put_action_queue f a = record f { action_queue = f.action_queue ++ a ∷ [] }

  -- The new field and what the call returns.
  unfoldable pub put_player : Field F → Player F → Field F × Bool
  put_player f p =
      if leb_ℤ p.id (pos 0) || is_some (find_npc f p.id)
      then (f, false)
      else (record f { player_list = insert p.id p f.player_list }, true)

  unfoldable pub put_npc : Field F → Npc F → Field F × Bool
  put_npc f n =
      if leb_ℤ n.id (pos 0) || has_player f n.id || is_some (find_npc f n.id)
      then (f, false)
      else (record f { npc_list = insert n.id n f.npc_list }, true)

  -- The rest of the next function, at the session that the player is bound to.
  abbrev pub forget_binding : Field F → ℤ → Option ℤ → Field F
  forget_binding f gameplay_id none = f
  forget_binding f gameplay_id (some session) = record f {
    session_to_player_id = erase session f.session_to_player_id;
    player_to_session_id = erase gameplay_id f.player_to_session_id;
  }

  unfoldable pub forget_bindings_for_player : Field F → ℤ → Field F
  forget_bindings_for_player f gameplay_id =
      forget_binding f gameplay_id (lookup gameplay_id f.player_to_session_id)

  unfoldable pub unset_player : Field F → Player F → Field F × Bool
  unset_player f p =
      let player_id = resolve_player_id f p.id in
      if leb_ℤ player_id (pos 0)
      then (f, false)
      else (let g = forget_bindings_for_player f player_id in
          (
            record g {
              next_attack_tick = erase player_id g.next_attack_tick;
              next_spell_tick = erase player_id g.next_spell_tick;
              player_list = erase player_id g.player_list;
            },
            has player_id g.player_list,
          ))

  unfoldable pub unset_npc : Field F → Npc F → Field F × Bool
  unset_npc f n = (
    record f { npc_respawns = erase n.id f.npc_respawns; npc_list = erase n.id f.npc_list },
    has n.id f.npc_list,
  )

  -- The rest of the next function, at the player that the session is bound to.
  abbrev pub unbind_from : Field F → ℤ → Option ℤ → Field F × Bool
  unbind_from f session_id none = (f, false)
  unbind_from f session_id (some player) = (
    record f {
      player_to_session_id = erase player f.player_to_session_id;
      session_to_player_id = erase session_id f.session_to_player_id;
    },
    true,
  )

  unfoldable pub unbind_session : Field F → ℤ → Field F × Bool
  unbind_session f session_id =
      if leb_ℤ session_id (pos 0)
      then (f, false)
      else unbind_from f session_id (lookup session_id f.session_to_player_id)

  unfoldable pub bind_session : Field F → ℤ → ℤ → Field F × Bool
  bind_session f session_id gameplay_id =
      if leb_ℤ session_id (pos 0) || leb_ℤ gameplay_id (pos 0)
      then (f, false)
      else if not (has gameplay_id f.player_list)
      then (f, false)
      else (let g = forget_bindings_for_player (unbind_session f session_id).0 gameplay_id in
          (
            record g {
              session_to_player_id = insert session_id gameplay_id g.session_to_player_id;
              player_to_session_id = insert gameplay_id session_id g.player_to_session_id;
            },
            true,
          ))

  abbrev pub player_id_for_session : Field F → ℤ → ℤ
  player_id_for_session f session_id = or_zero (lookup session_id f.session_to_player_id)

  abbrev pub session_id_for_player : Field F → ℤ → ℤ
  session_id_for_player f gameplay_id = or_zero (lookup gameplay_id f.player_to_session_id)

  abbrev pub is_taken : Field F → ℤ → Bool
  is_taken f id = has id f.player_list || is_some (find_npc f id) || has id f.session_to_player_id

  -- The loop of `allocateGameplayId` on the numbers that are left below the largest `int64_t`.
  unfoldable pub allocate_from : Field F → ℕ → ℤ → ℤ × ℤ
  allocate_from f zero next = (next, pos 0)
  allocate_from f (suc left) next =
      let later = allocate_from f left (next +ℤ pos 1) in
      if is_taken f next then later else (next +ℤ pos 1, next)

  unfoldable pub allocate_gameplay_id : Field F → Field F × ℤ
  allocate_gameplay_id f =
      let (next, id) = allocate_from f (numbers_left f.next_gameplay_id) f.next_gameplay_id in
      (record f { next_gameplay_id = next }, id)

  abbrev first_with_auth_id : ℤ → Map ℤ (Player F) → Option (Player F)
  first_with_auth_id id [] = none
  first_with_auth_id id ((k, p) ∷ m) =
      let rest = first_with_auth_id id m in if eqb_ℤ p.auth_player_id id then some p else rest

  unfoldable pub find_player_by_auth_id : Field F → ℤ → Option (Player F)
  find_player_by_auth_id f id =
      if leb_ℤ id (pos 0) then none else first_with_auth_id id f.player_list

  abbrev any_name : List ℕ → Map ℤ (Player F) → Bool
  any_name n [] = false
  any_name n ((k, p) ∷ m) = bytes_eq (get_player_name p) n || any_name n m

  unfoldable pub has_player_name : Field F → List ℕ → Bool
  has_player_name f display_name =
      let trimmed = trim_player_name display_name in
      if length trimmed == 0 then false else any_name trimmed f.player_list

  unfoldable pub resident_player_ids : Field F → List ℤ
  resident_player_ids f = map (λ e. e.0) f.player_list
