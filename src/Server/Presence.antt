-- ===== src/Server/Presence.antt =====
-- src/FieldSessionPresence.cpp, src/InMemoryAuthenticatedPlayerIdStub.cpp and
-- include/seed/LoginFieldSpawnSettings.h: the player that a session gets on the field.
use seed_origin.Base.{
  ℕ, Bool, true, false, not, ◌&&◌, ◌||◌, List, [], ◌∷◌, Option, none, some, ◌==◌, if◌then◌else◌,
  length, bytes_eq, ℤ, pos, ◌+ℤ◌, leb_ℤ, ltb_ℤ, eqb_ℤ, Map, lookup, insert, ℤ_key, bytes_key,
}
use seed_origin.World.Float.{FloatOps}
use seed_origin.World.Status.{make_status, no_status}
use seed_origin.World.Entities.{
  Player, make_player, set_auth_player_id, set_player_name, get_player_name, trim_player_name,
}
use seed_origin.World.Field.{
  Field, find_player_by_auth_id, has_player_name, allocate_gameplay_id, put_player, bind_session,
  unbind_session, unset_player, player_id_for_session,
}

pub record LoginFieldSpawnSettings (F : Type 0) : Type 0 where
  pub x : F
  pub y : F
  pub z : F
  pub hp : ℤ
  pub mp : ℤ
  pub max_hp : ℤ
  pub max_mp : ℤ
  pub player_name : List ℕ

abbrev at_least_zero : ℤ → ℤ
at_least_zero v = if ltb_ℤ v (pos 0) then pos 0 else v

unfoldable pub clamp_spawn_resource : ℤ → ℤ → ℤ
clamp_spawn_resource value max_value =
    if ltb_ℤ (at_least_zero max_value) (at_least_zero value)
    then at_least_zero max_value
    else at_least_zero value

-- The stand-in for the port that gives a session its player.
pub record PlayerIdStub : Type 0 where
  pub by_claimed_id : Map (List ℕ) ℤ
  pub next_player_id : ℤ

abbrev pub new_stub : PlayerIdStub
new_stub = record { by_claimed_id = []; next_player_id = pos 1000001 }

abbrev resolve_new : PlayerIdStub → List ℕ → Option ℤ → PlayerIdStub × Option ℤ
resolve_new s claimed_id (some id) = (s, some id)
resolve_new s claimed_id none = (
  record {
    by_claimed_id = insert claimed_id s.next_player_id s.by_claimed_id;
    next_player_id = s.next_player_id +ℤ pos 1;
  },
  some s.next_player_id,
)

-- `resolvePlayerId` of the stub.
unfoldable pub resolve_player_id_stub : PlayerIdStub → ℤ → List ℕ → PlayerIdStub × Option ℤ
resolve_player_id_stub s session_id claimed_id =
    if length claimed_id == 0
    then (record s { next_player_id = s.next_player_id +ℤ pos 1 }, some s.next_player_id)
    else resolve_new s claimed_id (lookup claimed_id s.by_claimed_id)

-- `operatorNamesByAuthId`, which is global.
abbrev pub OperatorNames : Type 0
OperatorNames = Map ℤ (List ℕ)

unfoldable pub name_claimed_by_other_auth : OperatorNames → List ℕ → ℤ → Bool
name_claimed_by_other_auth [] trimmed auth_id = false
name_claimed_by_other_auth ((k, name) ∷ names) trimmed auth_id =
    not (eqb_ℤ k auth_id) && bytes_eq name trimmed
    || name_claimed_by_other_auth names trimmed auth_id

abbrev name_or : List ℕ → Option (List ℕ) → List ℕ
name_or spare none = trim_player_name spare
name_or spare (some name) = name

-- The field and the names, and what a call returns.
abbrev pub Placed : Type 0 → Type 0
Placed F = Field F × OperatorNames × Bool

module _ {F : Type 0} where
  abbrev pub spawn_player : LoginFieldSpawnSettings F → ℤ → ℤ → Player F
  spawn_player s gameplay_id auth_id =
      set_auth_player_id
        (make_player gameplay_id
          (make_status (clamp_spawn_resource s.hp s.max_hp) (clamp_spawn_resource s.mp s.max_mp))
          (record { player_id = gameplay_id; x = s.x; y = s.y; z = s.z }))
        auth_id

  abbrev with_names : OperatorNames → Field F × Bool → Placed F
  with_names names (f, done) = (f, names, done)

  abbrev put_spawned : OperatorNames → ℤ → ℤ → ℤ → List ℕ → Field F × Bool → Placed F
  put_spawned names session_id auth_id gameplay_id display_name (f, false) = (f, names, false)
  put_spawned names session_id auth_id gameplay_id display_name (f, true) =
      with_names (insert auth_id display_name names) (bind_session f session_id gameplay_id)

  abbrev named : Field F → OperatorNames → ℤ → ℤ → ℤ → List ℕ → Player F × Bool → Placed F
  named f names session_id auth_id gameplay_id display_name (p, false) = (f, names, false)
  named f names session_id auth_id gameplay_id display_name (p, true) =
      put_spawned names session_id auth_id gameplay_id display_name (put_player f p)

  abbrev allocated :
      LoginFieldSpawnSettings F → OperatorNames → ℤ → ℤ → List ℕ → Field F × ℤ → Placed F
  allocated s names session_id auth_id display_name (f, gameplay_id) =
      if leb_ℤ gameplay_id (pos 0)
      then (f, names, false)
      else named f names session_id auth_id gameplay_id display_name
          (set_player_name (spawn_player s gameplay_id auth_id) display_name)

  -- `placeAfterLogin` where no player of the user is on the field.
  abbrev spawn : LoginFieldSpawnSettings F → Field F → OperatorNames → ℤ → ℤ → Placed F
  spawn s f names session_id auth_id =
      let display_name = name_or s.player_name (lookup auth_id names) in
      if length display_name == 0
        || name_claimed_by_other_auth names display_name auth_id
        || has_player_name f display_name
      then (f, names, false)
      else allocated s names session_id auth_id display_name (allocate_gameplay_id f)

  abbrev pub place_at :
      LoginFieldSpawnSettings F → Field F → OperatorNames → ℤ → ℤ → Option (Player F) → Placed F
  place_at s f names session_id auth_id (some p) = with_names names (bind_session f session_id p.id)
  place_at s f names session_id auth_id none = spawn s f names session_id auth_id

  abbrev place_resolved :
      LoginFieldSpawnSettings F → Field F → OperatorNames → ℤ → Option ℤ → Placed F
  place_resolved s f names session_id none = (f, names, false)
  place_resolved s f names session_id (some auth_id) =
      if leb_ℤ auth_id (pos 0)
      then (f, names, false)
      else place_at s f names session_id auth_id (find_player_by_auth_id f auth_id)

  -- `placeAfterLogin`, with what the port has resolved the session to.
  unfoldable pub place_after_login :
      LoginFieldSpawnSettings F → Field F → OperatorNames → ℤ → Option ℤ → Placed F
  place_after_login s f names session_id resolved =
      if leb_ℤ session_id (pos 0)
      then (f, names, false)
      else place_resolved s f names session_id resolved

  -- The name of the user's player is not in its own way.
  abbrev name_taken_by_other : Field F → List ℕ → Option (Player F) → Bool
  name_taken_by_other f trimmed none = has_player_name f trimmed
  name_taken_by_other f trimmed (some p) =
      if bytes_eq (get_player_name p) trimmed then false else has_player_name f trimmed

  -- The player on the field is renamed in place, under the key that it has: its id.
  abbrev rename : Field F → Player F × Bool → Field F
  rename f (p, false) = f
  rename f (p, true) = record f { player_list = insert p.id p f.player_list }

  abbrev rename_found : Field F → List ℕ → Option (Player F) → Field F
  rename_found f trimmed none = f
  rename_found f trimmed (some p) = rename f (set_player_name p trimmed)

module _ {F : Type 0} (fl : FloatOps F) where
  -- A player without a status, at the origin.
  abbrev blank_player : ℤ → Player F
  blank_player id =
      make_player id no_status
        (record { player_id = id; x = fl.lit 0 1; y = fl.lit 0 1; z = fl.lit 0 1 })

  -- `operatorSetPlayerName`; the tests that the probe makes are those of the player's own setter.
  unfoldable pub operator_set_player_name : Field F → OperatorNames → ℤ → List ℕ → Placed F
  operator_set_player_name f names auth_id display_name =
      let trimmed = trim_player_name display_name in
      let existing = find_player_by_auth_id f auth_id in
      if leb_ℤ auth_id (pos 0)
      then (f, names, false)
      else if not (set_player_name (blank_player (pos 0)) trimmed).1
      then (f, names, false)
      else if name_claimed_by_other_auth names trimmed auth_id
      then (f, names, false)
      else if name_taken_by_other f trimmed existing
      then (f, names, false)
      else (rename_found f trimmed existing, insert auth_id trimmed names, true)

  unfoldable pub release_after_stop : Field F → ℤ → Field F × Bool
  release_after_stop f session_id =
      let gameplay_id = player_id_for_session f session_id in
      let g = (unbind_session f session_id).0 in
      if leb_ℤ session_id (pos 0)
      then (f, false)
      else if leb_ℤ gameplay_id (pos 0)
      then (g, true)
      else unset_player g (blank_player gameplay_id)

module _ {F : Type 0} where
  unfoldable pub remove_after_logout : Field F → ℤ → Field F × Bool
  remove_after_logout f session_id =
      if leb_ℤ session_id (pos 0) then (f, false) else unbind_session f session_id
