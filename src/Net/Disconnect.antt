-- ===== src/Net/Disconnect.antt =====
-- include/seed/DisconnectResponse.h, src/DisconnectResponse.cpp and
-- src/DisconnectResponseCodec.cpp. The status is not on the wire: the payload tells it.
pub mod RoundTrip
use seed_origin.Base.{
  ℕ, Bool, not, ◌||◌, List, drop, ◌==◌, ltb, if◌then◌else◌, length, ℤ, pos, leb_ℤ, Result, ok, err,
  ◌>>=◌, ◌>>◌, fail_if,
}
use seed_origin.Net.Command.{current_protocol_version, max_command_payload, code, disconnect}
use seed_origin.Net.Bytes.{read_frame_u16, read_frame_u64}
use seed_origin.Net.Plain.{frame_header_size, plain_frame, check_length}

-- `other` is a value of the enum's underlying type that names no enumerator.
pub data DisconnectResponseStatus : Type 0 where
  accepted rejected : DisconnectResponseStatus
  other : ℕ → DisconnectResponseStatus

pub record DisconnectResponse : Type 0 where
  pub version : ℕ
  pub status : DisconnectResponseStatus
  pub session_id : ℤ
  pub payload : List ℕ

abbrev disconnect_status_rule : DisconnectResponseStatus → ℤ → List ℕ → Result (Unit {0})
disconnect_status_rule accepted id p =
    fail_if (leb_ℤ id (pos 0) || not (length p == 0)) "accepted disconnect response is invalid"
disconnect_status_rule rejected id p =
    fail_if (length p == 0) "rejected disconnect response is invalid"
disconnect_status_rule (other n) id p = err "unknown disconnect response status"

unfoldable pub validate_disconnect_response : DisconnectResponse → Result (Unit {0})
validate_disconnect_response r = do
  fail_if (not (r.version == current_protocol_version)) "unsupported disconnect response version"
  fail_if (ltb max_command_payload (length r.payload)) "disconnect response payload is too large"
  disconnect_status_rule r.status r.session_id r.payload

abbrev pub disconnect_frame_of : DisconnectResponse → List ℕ
disconnect_frame_of r = plain_frame r.version (code disconnect) r.session_id r.payload

unfoldable pub encode_disconnect_response_frame : DisconnectResponse → Result (List ℕ)
encode_disconnect_response_frame r = do validate_disconnect_response r; ok (disconnect_frame_of r)

abbrev pub disconnect_status : List ℕ → DisconnectResponseStatus
disconnect_status p = if length p == 0 then accepted else rejected

abbrev pub disconnect_response_of : List ℕ → DisconnectResponse
disconnect_response_of frame = record {
  version = read_frame_u16 frame 0;
  status = disconnect_status (drop frame_header_size frame);
  session_id = read_frame_u64 frame 4;
  payload = drop frame_header_size frame;
}

unfoldable pub decode_disconnect_response_frame : List ℕ → Result DisconnectResponse
decode_disconnect_response_frame frame = do
  check_length frame "disconnect response frame header is incomplete"
      "disconnect response frame length is invalid"
  fail_if (not (read_frame_u16 frame 2 == code disconnect)) "frame is not a disconnect response"
  validate_disconnect_response (disconnect_response_of frame)
  ok (disconnect_response_of frame)
