-- ===== src/Net/Command.antt =====
-- include/seed/NetworkCommand.h and src/NetworkCommand.cpp, include/seed/Protocol.h: the command
-- envelope and its validation. A payload is the list of its bytes.
pub mod Valid
use seed_origin.Base.{
  ℕ, ◌<◌, ◌≤◌, ◌≡◌, refl, Bool, true, false, not, ◌&&◌, ◌||◌, List, [], ◌∷◌, arith, ltb, leb, ◌==◌,
  if◌then◌else◌, length, ℤ, pos, leb_ℤ, eqb_ℤ, ◌<ℤ◌, Result, ok, err, ◌>>=◌, ◌>>◌, fail_if,
}

abbrev pub current_protocol_version : ℕ
current_protocol_version = 1

abbrev pub max_command_payload : ℕ
max_command_payload = 4096

-- `other` is a value of the enum's underlying type that names no enumerator.
pub data CommandType : Type 0 where
  login move chat attack cast_spell disconnect request_snapshot : CommandType
  other : ℕ → CommandType

-- `static_cast<uint16_t>(type)` before it wraps.
abbrev pub code : CommandType → ℕ
code login = 1
code move = 2
code chat = 3
code attack = 4
code cast_spell = 5
code disconnect = 6
code request_snapshot = 7
code (other n) = n

-- `static_cast<CommandType>(n)`
abbrev pub command_type : ℕ → CommandType
command_type n =
    if n == 1
    then login
    else if n == 2
    then move
    else if n == 3
    then chat
    else if n == 4
    then attack
    else if n == 5
    then cast_spell
    else if n == 6
    then disconnect
    else if n == 7
    then request_snapshot
    else other n

pub record NetworkCommand : Type 0 where
  pub version : ℕ
  pub type : CommandType
  pub session_id : ℤ
  pub payload : List ℕ

abbrev pub is_known_command_type : CommandType → Bool
is_known_command_type (other n) = false
is_known_command_type t = true

-- The `if (command.type == Login) … else if …` of `validateCommand`.
abbrev session_rule : CommandType → ℤ → Result (Unit {0})
session_rule login id =
    fail_if (not (eqb_ℤ id (pos 0))) "login must not provide an internal session id"
session_rule t id = fail_if (leb_ℤ id (pos 0)) "command requires an active session id"

abbrev has_no_payload : CommandType → Bool
has_no_payload disconnect = true
has_no_payload request_snapshot = true
has_no_payload t = false

unfoldable pub validate_command : NetworkCommand → Result (Unit {0})
validate_command c = do
  fail_if (not (c.version == current_protocol_version)) "unsupported protocol version"
  fail_if (not (is_known_command_type c.type)) "unknown command type"
  fail_if (ltb max_command_payload (length c.payload)) "command payload too large"
  session_rule c.type c.session_id
  fail_if (has_no_payload c.type && not (length c.payload == 0)) "command payload must be empty"

unfoldable pub make_request_snapshot_command : ℤ → NetworkCommand
make_request_snapshot_command session_id = record {
  version = current_protocol_version;
  type = request_snapshot;
  session_id = session_id;
  payload = [];
}

-- What a command that passes the validation satisfies.
abbrev SessionRule : CommandType → ℤ → Type 0
SessionRule login id = id ≡ pos 0
SessionRule t id = pos 0 <ℤ id

abbrev PayloadRule : CommandType → List ℕ → Type 0
PayloadRule disconnect p = p ≡ []
PayloadRule request_snapshot p = p ≡ []
PayloadRule t p = Unit {0}

pub record IsValidCommand (c : NetworkCommand) : Type 0 where
  pub current : c.version ≡ current_protocol_version
  pub known : is_known_command_type c.type ≡ true
  pub short : length c.payload ≤ max_command_payload
  pub session : SessionRule c.type c.session_id
  pub empty : PayloadRule c.type c.payload
