-- ===== src/Client/Snapshot/Fields.antt =====
-- The loop of `parsePayload` of src/ClientWorldSnapshotApplier.cpp over the fields of a snapshot's
-- text, with `parseNpcField` and `parsePlayerField`.
use seed_origin.Base.{
  ℕ, Bool, true, false, not, ◌&&◌, ◌||◌, List, [], ◌∷◌, Option, none, some, ltb, leb, ◌==◌,
  if◌then◌else◌, length, bytes_eq, codes, ℤ, pos, pos_part, leb_ℤ, ltb_ℤ, Map, lookup, insert,
  ℕ_key, String, Result, ok, err, ◌>>=◌, split_at, strip_prefix,
}
use seed_origin.World.Float.{FloatOps, FloatText}
use seed_origin.World.Entities.{trim_player_name, contains_byte}
use seed_origin.World.Field.{NpcSnapshot, PlayerPoseSnapshot}
use seed_origin.World.MovementText.{parse_int64, parse_uint64, parse_finite_float}

-- An NPC of whom some fields may not have been read yet.
pub record ParsedNpc (F : Type 0) : Type 0 where
  pub npc : NpcSnapshot F
  pub alive : Bool

-- What the loop has read so far: the local variables of `parsePayload` and the state.
pub record Parsing (F : Type 0) : Type 0 where
  pub fire : Option F
  pub water : Option F
  pub earth : Option F
  pub air : Option F
  pub hazard : Option F
  pub npcs : Map ℕ (ParsedNpc F)
  pub npc_count : Option ℤ
  pub players : Map ℕ (PlayerPoseSnapshot F)
  pub player_count : Option ℤ
  pub local_x : Option F
  pub local_y : Option F
  pub local_z : Option F
  pub local_sequence : Option ℕ

abbrev pub nothing_parsed : {F : Type 0} → Parsing F
nothing_parsed = record {
  fire = none;
  water = none;
  earth = none;
  air = none;
  hazard = none;
  npcs = [];
  npc_count = none;
  players = [];
  player_count = none;
  local_x = none;
  local_y = none;
  local_z = none;
  local_sequence = none;
}

abbrev pub or_err : {T : Type 0} → Option T → String → Result T
or_err none e = err e
or_err (some t) e = ok t

-- A number that passes a test.
abbrev pub tested : {T : Type 0} → (T → Bool) → Option T → Option T
tested p none = none
tested p (some t) = if p t then some t else none

abbrev is_count : ℤ → Bool
is_count n = leb_ℤ (pos 0) n && ltb_ℤ n (pos 256)

-- `npc.count` and `player.count`: once at most.
abbrev read_count : Option ℤ → List ℕ → String → Result (Option ℤ)
read_count (some n) value e = err e
read_count none value e = or_err (tested is_count (parse_int64 value)) e >>= λ n. ok (some n)

abbrev index_and_field : List ℕ → String → Option ℤ → Result (ℕ × List ℕ)
index_and_field field bad none = err bad
index_and_field field bad (some n) = ok (pos_part n, field)

-- The index between the prefix and the next dot, and the field behind it.
abbrev split_key : Option (List ℕ × List ℕ) → String → String → Result (ℕ × List ℕ)
split_key none no_dot bad = err no_dot
split_key (some (index, field)) no_dot bad =
    if length index == 0 || length field == 0
    then err no_dot
    else index_and_field field bad (tested is_count (parse_int64 index))

module _ {F : Type 0} (fl : FloatOps F) (ft : FloatText F) where
  abbrev zero_value : F
  zero_value = fl.lit 0 1

  abbrev npc_or_new : Option (ParsedNpc F) → ParsedNpc F
  npc_or_new (some p) = p
  npc_or_new none = record {
    npc = record {
      npc_id = pos 0;
      npc_type = [];
      x = zero_value;
      y = zero_value;
      z = zero_value;
      hp = pos 0;
    };
    alive = false;
  }

  abbrev player_or_new : Option (PlayerPoseSnapshot F) → PlayerPoseSnapshot F
  player_or_new (some p) = p
  player_or_new none = record {
    session_id = pos 0;
    x = zero_value;
    y = zero_value;
    z = zero_value;
    gameplay_id = pos 0;
    name = [];
  }

  abbrev is : List ℕ → String → Bool
  is key name = bytes_eq key (codes name)

  abbrev is_npc_type : List ℕ → Bool
  is_npc_type value = not (length value == 0) && leb (length value) 32

  unfoldable pub set_npc_field : ParsedNpc F → List ℕ → List ℕ → Result (ParsedNpc F)
  set_npc_field p field value =
      let n = p.npc in
      let coordinate = or_err (parse_finite_float fl ft value) "snapshot NPC position is invalid" in
      if is field "id"
      then (or_err (parse_int64 value) "snapshot NPC id is invalid" >>= λ v.
          ok (record p { npc = record n { npc_id = v } }))
      else if is field "type"
      then (if is_npc_type value
          then ok (record p { npc = record n { npc_type = value } })
          else err "snapshot NPC type is invalid")
      else if is field "x"
      then (coordinate >>= λ v. ok (record p { npc = record n { x = v } }))
      else if is field "y"
      then (coordinate >>= λ v. ok (record p { npc = record n { y = v } }))
      else if is field "z"
      then (coordinate >>= λ v. ok (record p { npc = record n { z = v } }))
      else if is field "hp"
      then (or_err (tested (leb_ℤ (pos 0)) (parse_int64 value)) "snapshot NPC HP is invalid"
          >>= λ v. ok (record p { npc = record n { hp = v } }))
      else if is field "alive"
      then (if is value "1"
          then ok (record p { alive = true })
          else err "snapshot NPC alive state is invalid")
      else err "snapshot contains an unknown NPC field"

  abbrev is_snapshot_name : List ℕ → Bool
  is_snapshot_name trimmed = not (length trimmed == 0) && not (contains_byte b';' trimmed)

  unfoldable pub set_player_field :
      PlayerPoseSnapshot F → List ℕ → List ℕ → Result (PlayerPoseSnapshot F)
  set_player_field p field value =
      let positive = tested (ltb_ℤ (pos 0)) (parse_int64 value) in
      let coordinate =
        or_err (parse_finite_float fl ft value) "snapshot player position is invalid" in
      let trimmed = trim_player_name value in
      if is field "session"
      then (or_err positive "snapshot player session is invalid" >>= λ v.
          ok (record p { session_id = v }))
      else if is field "x"
      then (coordinate >>= λ v. ok (record p { x = v }))
      else if is field "y"
      then (coordinate >>= λ v. ok (record p { y = v }))
      else if is field "z"
      then (coordinate >>= λ v. ok (record p { z = v }))
      else if is field "id"
      then (or_err positive "snapshot player gameplay id is invalid" >>= λ v.
          ok (record p { gameplay_id = v }))
      else if is field "name"
      then (if is_snapshot_name trimmed
          then ok (record p { name = trimmed })
          else err "snapshot player name is invalid")
      else err "snapshot contains an unknown player field"

  -- `parseNpcField`, behind the prefix of its key.
  abbrev note_npc : Parsing F → List ℕ → List ℕ → List ℕ → Result (Parsing F)
  note_npc p key rest value =
      if ltb (length key) 7
      then err "snapshot NPC field is invalid"
      else (split_key (split_at b'.' rest) "snapshot contains an invalid NPC field"
            "snapshot contains an invalid NPC index"
          >>= λ k. set_npc_field (npc_or_new (lookup k.0 p.npcs)) k.1 value >>= λ n.
              ok (record p { npcs = insert k.0 n p.npcs }))

  -- `parsePlayerField`, behind the prefix of its key.
  abbrev note_player : Parsing F → List ℕ → List ℕ → List ℕ → Result (Parsing F)
  note_player p key rest value =
      if ltb (length key) 10
      then err "snapshot player field is invalid"
      else (split_key (split_at b'.' rest) "snapshot contains an invalid player field"
            "snapshot contains an invalid player index"
          >>= λ k. set_player_field (player_or_new (lookup k.0 p.players)) k.1 value >>= λ q.
              ok (record p { players = insert k.0 q p.players }))

  abbrev bad_field : String
  bad_field = "snapshot payload contains an invalid or duplicate field"

  -- A field of the environment: once at most.
  abbrev once : Option F → List ℕ → Result (Option F)
  once (some v) value = err bad_field
  once none value = or_err (parse_finite_float fl ft value) bad_field >>= λ v. ok (some v)

  abbrev note_environment : Parsing F → List ℕ → List ℕ → Result (Parsing F)
  note_environment p key value =
      if is key "ether.fire"
      then (once p.fire value >>= λ v. ok (record p { fire = v }))
      else if is key "ether.water"
      then (once p.water value >>= λ v. ok (record p { water = v }))
      else if is key "ether.earth"
      then (once p.earth value >>= λ v. ok (record p { earth = v }))
      else if is key "ether.air"
      then (once p.air value >>= λ v. ok (record p { air = v }))
      else if is key "ether.hazard"
      then (once p.hazard value >>= λ v. ok (record p { hazard = v }))
      else err bad_field

  abbrev note_local : Parsing F → List ℕ → List ℕ → Result (Parsing F)
  note_local p key value =
      let coordinate =
        or_err (parse_finite_float fl ft value) "snapshot local position is invalid" in
      if is key "local.x"
      then (coordinate >>= λ v. ok (record p { local_x = some v }))
      else if is key "local.y"
      then (coordinate >>= λ v. ok (record p { local_y = some v }))
      else if is key "local.z"
      then (coordinate >>= λ v. ok (record p { local_z = some v }))
      else if is key "local.lastProcessedInputSequence"
      then (or_err (parse_uint64 value) "snapshot local input sequence is invalid" >>= λ v.
          ok (record p { local_sequence = some v }))
      else note_environment p key value

  -- The prefixes `npc.` and `player.`, behind the counts.
  abbrev note_prefixed :
      Parsing F → List ℕ → List ℕ → Option (List ℕ) → Option (List ℕ) → Result (Parsing F)
  note_prefixed p key value (some rest) player = note_npc p key rest value
  note_prefixed p key value none (some rest) = note_player p key rest value
  note_prefixed p key value none none = note_local p key value

  unfoldable pub note_value : Parsing F → List ℕ → List ℕ → Result (Parsing F)
  note_value p key value =
      if is key "npc.count"
      then (read_count p.npc_count value "snapshot NPC count is invalid" >>= λ n.
          ok (record p { npc_count = n }))
      else if is key "player.count"
      then (read_count p.player_count value "snapshot player count is invalid" >>= λ n.
          ok (record p { player_count = n }))
      else note_prefixed p key value (strip_prefix (codes "npc.") key)
          (strip_prefix (codes "player.") key)

  abbrev note_field : Parsing F → Option (List ℕ × List ℕ) → Result (Parsing F)
  note_field p none = err "snapshot payload contains a field without a value"
  note_field p (some (key, value)) = note_value p key value

  unfoldable pub note_fields : Parsing F → List (List ℕ) → Result (Parsing F)
  note_fields p [] = ok p
  note_fields p (field ∷ fields) = note_field p (split_at b'=' field) >>= λ q. note_fields q fields
