-- ===== src/World/Entities.antt =====
-- include/seed/Position.h, Buff.h, Player.h, Npc.h, Action.h and PlayerName.h with their sources:
-- what the field holds. `F` is the type of a `float`. `Position` has a `mapId` that is 0 throughout.
-- What the constructors and `Buff::getStatus` log is left out.
use seed_origin.Base.{
  ℕ, ◌-◌, Bool, true, false, not, ◌&&◌, ◌||◌, List, [], ◌∷◌, ◌++◌, Option, none, some, leb, ◌==◌,
  if◌then◌else◌, length, replicate, ℤ, pos, leb_ℤ, ltb_ℤ, eqb_ℤ, ◌-ℤ◌, is_some,
}
use mathlib.Core.List.{reverse}
use seed_origin.World.Status.{Status, no_status, gain_hp, gain_mp}
use seed_origin.World.Float.{FloatOps}

pub record Position (F : Type 0) : Type 0 where
  pub player_id : ℤ
  pub x : F
  pub y : F
  pub z : F

module _ {F : Type 0} where
  -- `Position::setPosition`
  abbrev pub set_coordinates : Position F → F → F → F → Position F
  set_coordinates p x y z = record p { x = x; y = y; z = z }

  -- `Player::setPosition` and `Npc::setPosition` on the position that they hold.
  abbrev pub move_to : Position F → Position F → Position F
  move_to p q = set_coordinates p q.x q.y q.z

module _ {F : Type 0} (fl : FloatOps F) where
  -- `Position::movePosition`
  abbrev pub move_position : Position F → F → F → F → Position F
  move_position p dx dy dz = record p { x = fl.fadd p.x dx; y = fl.fadd p.y dy; z = fl.fadd p.z dz }

pub record Buff : Type 0 where
  pub id : ℤ
  pub buff_name : List ℕ
  pub lifetime : ℤ
  pub start_time : ℤ
  pub status : Status

-- `Buff::Buff`
abbrev pub make_buff : ℤ → List ℕ → ℤ → ℤ → Buff
make_buff id buff_name lifetime start_time = record {
  id = id;
  buff_name = buff_name;
  lifetime = lifetime;
  start_time = start_time;
  status = no_status;
}

abbrev pub set_buff_status : Buff → Status → Buff
set_buff_status b s = record b { status = s }

-- The loop of `Player::processBuffs`.
abbrev pub apply_buffs : List Buff → Status → Status
apply_buffs [] s = s
apply_buffs (b ∷ bs) s = apply_buffs bs (gain_mp (gain_hp s b.status.hp) b.status.mp)

-- Space, tab, newline, return, vertical tab and form feed.
abbrev pub is_player_name_padding : ℕ → Bool
is_player_name_padding c = c == 32 || c == 9 || c == 10 || c == 13 || c == 11 || c == 12

abbrev pub drop_padding : List ℕ → List ℕ
drop_padding [] = []
drop_padding (c ∷ cs) =
    let rest = drop_padding cs in if is_player_name_padding c then rest else c ∷ cs

-- The scan from the front, then the scan from the back.
unfoldable pub trim_player_name : List ℕ → List ℕ
trim_player_name raw = reverse (drop_padding (reverse (drop_padding raw)))

abbrev pub is_empty_player_name : List ℕ → Bool
is_empty_player_name raw = length (trim_player_name raw) == 0

-- `sizeof(name)`
abbrev pub name_size : ℕ
name_size = 64

pub record Player (F : Type 0) : Type 0 where
  pub id : ℤ
  pub auth_player_id : ℤ
  pub name : List ℕ
  pub status : Status
  pub buffs : List Buff
  pub position : Position F

abbrev pub contains_byte : ℕ → List ℕ → Bool
contains_byte c [] = false
contains_byte c (b ∷ bs) = b == c || contains_byte c bs

-- `std::string(name)`: up to the first zero byte.
abbrev pub c_string : List ℕ → List ℕ
c_string [] = []
c_string (b ∷ bs) = let rest = c_string bs in if b == 0 then [] else b ∷ rest

module _ {F : Type 0} where
  -- `Player::Player(int64_t, const Status&, const Position&)`
  abbrev pub make_player : ℤ → Status → Position F → Player F
  make_player id status position = record {
    id = id;
    auth_player_id = pos 0;
    name = replicate name_size 0;
    status = status;
    buffs = [];
    position = position;
  }

  abbrev pub set_auth_player_id : Player F → ℤ → Player F
  set_auth_player_id p issued_id =
      if ltb_ℤ (pos 0) p.auth_player_id
      then p
      else record p { auth_player_id = if ltb_ℤ issued_id (pos 0) then pos 0 else issued_id }

  abbrev pub get_player_name : Player F → List ℕ
  get_player_name p = c_string p.name

  -- The new player and whether the name was taken.
  unfoldable pub set_player_name : Player F → List ℕ → Player F × Bool
  set_player_name p display_name =
      let trimmed = trim_player_name display_name in
      if length trimmed == 0 || leb name_size (length trimmed)
      then (p, false)
      else if contains_byte b';' trimmed || contains_byte b'=' trimmed
      then (p, false)
      else (record p { name = trimmed ++ replicate (name_size - length trimmed) 0 }, true)

  abbrev pub set_player_position : Player F → Position F → Player F
  set_player_position p q = record p { position = move_to p.position q }

  abbrev pub set_buff : Player F → Buff → Player F
  set_buff p b = record p { buffs = p.buffs ++ b ∷ [] }

  abbrev pub process_buffs : Player F → Player F
  process_buffs p = record p { status = apply_buffs p.buffs p.status }

pub record Npc (F : Type 0) : Type 0 where
  pub id : ℤ
  pub type : List ℕ
  pub status : Status
  pub position : Position F
  pub alive : Bool

module _ {F : Type 0} where
  abbrev pub make_npc : ℤ → List ℕ → Status → Position F → Npc F
  make_npc id type status position = record {
    id = id;
    type = type;
    status = status;
    position = position;
    alive = ltb_ℤ (pos 0) status.hp;
  }

  abbrev pub is_alive : Npc F → Bool
  is_alive n = n.alive && ltb_ℤ (pos 0) n.status.hp

  abbrev pub set_npc_position : Npc F → Position F → Npc F
  set_npc_position n q = record n { position = move_to n.position q }

  -- `none` where the call returns false, which leaves the NPC as it was.
  unfoldable pub apply_damage : Npc F → ℤ → Option (Npc F)
  apply_damage n damage =
      if not (is_alive n) || leb_ℤ damage (pos 0)
      then none
      else (let hurt = gain_hp n.status (pos 0 -ℤ damage) in
          some
            (record n { status = hurt; alive = if eqb_ℤ hurt.hp (pos 0) then false else n.alive }))

  unfoldable pub respawn : Npc F → Status → Position F → Option (Npc F)
  respawn n new_status new_position =
      if leb_ℤ new_status.hp (pos 0)
      then none
      else some (record n {
        status = new_status;
        position = move_to n.position new_position;
        alive = true;
      })

pub record Action (F : Type 0) : Type 0 where
  pub action_type : ℤ
  pub player_from : Player F
  pub player_to : Player F
  pub status : Status
  pub valid : Bool

module _ {F : Type 0} (default_player : Player F) where
  abbrev or_default : Option (Player F) → Player F
  or_default none = default_player
  or_default (some p) = p

  -- `Action::Action`; a null pointer is `none`.
  abbrev pub make_action : ℤ → Option (Player F) → Option (Player F) → Status → Action F
  make_action action_type from to status = record {
    action_type = action_type;
    player_from = or_default from;
    player_to = or_default to;
    status = status;
    valid =
        eqb_ℤ action_type (pos 0)
        || eqb_ℤ action_type (pos 1) && is_some from && is_some to
        || (eqb_ℤ action_type (pos 2) || eqb_ℤ action_type (pos 3)) && is_some from;
  }
