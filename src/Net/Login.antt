-- ===== src/Net/Login.antt =====
-- include/seed/LoginResponse.h, src/LoginResponse.cpp and src/LoginResponseCodec.cpp.
pub mod RoundTrip
use seed_origin.Base.{
  ℕ, Bool, not, ◌||◌, List, drop, ◌==◌, ltb, if◌then◌else◌, length, ℤ, pos, leb_ℤ, eqb_ℤ, Result,
  ok, err, ◌>>=◌, ◌>>◌, fail_if,
}
use seed_origin.Net.Command.{current_protocol_version, max_command_payload}
use seed_origin.Net.Bytes.{read_frame_u16, read_frame_u64}
use seed_origin.Net.Plain.{frame_header_size, plain_frame, check_length}

-- `other` is a value of the enum's underlying type that names no enumerator.
pub data LoginResponseStatus : Type 0 where
  accepted rejected : LoginResponseStatus
  other : ℕ → LoginResponseStatus

abbrev pub status_code : LoginResponseStatus → ℕ
status_code accepted = 1
status_code rejected = 2
status_code (other n) = n

abbrev pub login_status : ℕ → LoginResponseStatus
login_status n = if n == 1 then accepted else if n == 2 then rejected else other n

pub record LoginResponse : Type 0 where
  pub version : ℕ
  pub status : LoginResponseStatus
  pub session_id : ℤ
  pub payload : List ℕ

abbrev login_status_rule : LoginResponseStatus → ℤ → List ℕ → Result (Unit {0})
login_status_rule accepted id p = fail_if (leb_ℤ id (pos 0)) "accepted login response is invalid"
login_status_rule rejected id p =
    fail_if (not (eqb_ℤ id (pos 0)) || length p == 0) "rejected login response is invalid"
login_status_rule (other n) id p = err "unknown login response status"

unfoldable pub validate_login_response : LoginResponse → Result (Unit {0})
validate_login_response r = do
  fail_if (not (r.version == current_protocol_version)) "unsupported login response version"
  fail_if (ltb max_command_payload (length r.payload)) "login response payload is too large"
  login_status_rule r.status r.session_id r.payload

abbrev pub login_frame_of : LoginResponse → List ℕ
login_frame_of r = plain_frame r.version (status_code r.status) r.session_id r.payload

unfoldable pub encode_login_response_frame : LoginResponse → Result (List ℕ)
encode_login_response_frame r = do validate_login_response r; ok (login_frame_of r)

abbrev pub login_response_of : List ℕ → LoginResponse
login_response_of frame = record {
  version = read_frame_u16 frame 0;
  status = login_status (read_frame_u16 frame 2);
  session_id = read_frame_u64 frame 4;
  payload = drop frame_header_size frame;
}

unfoldable pub decode_login_response_frame : List ℕ → Result LoginResponse
decode_login_response_frame frame = do
  check_length frame "login response frame header is incomplete"
      "login response frame length is invalid"
  validate_login_response (login_response_of frame)
  ok (login_response_of frame)
