-- ===== src/Tests/Wire.antt =====
-- Commands, updates and responses of src/NetworkFrameCodec.cpp and its kin on concrete values.
use seed_origin.Base.{ℕ, List, [], ◌∷◌, pos, codes, ok, ◌≡◌, refl, IsInt64, All, arith}
use seed_origin.Net.Command.{NetworkCommand, move, validate_command, IsValidCommand}
use seed_origin.Net.Bytes.{IsByte}
use seed_origin.Net.Frame.{encode_frame, decode_frame}
use seed_origin.Net.Frame.RoundTrip.{decode_frame-encode_frame, encode_frame-decode_frame}
use seed_origin.Net.Update.{
  WorldUpdate, event, validate_world_update, update_frame_of, encode_world_update_frame,
  decode_world_update_frame, IsRepresentable,
}
use seed_origin.Net.Update.RoundTrip.{decode_world_update_frame-encode}
use seed_origin.Net.Login.{
  LoginResponse, accepted, validate_login_response, login_frame_of, encode_login_response_frame,
  decode_login_response_frame,
}
use seed_origin.Net.Login.RoundTrip.{decode_login_response_frame-encode}
use seed_origin.Net.Disconnect.{
  DisconnectResponse, rejected, validate_disconnect_response, disconnect_frame_of,
  encode_disconnect_response_frame, decode_disconnect_response_frame,
}
use seed_origin.Net.Disconnect.RoundTrip.{decode_disconnect_response_frame-encode}

abbrev pub step_east : NetworkCommand
step_east = record { version = 1; type = move; session_id = pos 7; payload = codes "dx=1" }

abbrev pub step_frame : List ℕ
step_frame =
    0 ∷ 1 ∷ 0 ∷ 2 ∷ 0 ∷ 0 ∷ 0 ∷ 0 ∷ 0 ∷ 0 ∷ 0 ∷ 7 ∷ 0 ∷ 0 ∷ 0 ∷ 4 ∷ 100 ∷ 120 ∷ 61 ∷ 49 ∷ []

step_east_encoded : encode_frame step_east ≡ ok step_frame
unfolding encode_frame validate_command
step_east_encoded = refl

step_frame_decoded : decode_frame step_frame ≡ ok step_east
unfolding decode_frame validate_command
step_frame_decoded = refl

pub step_id-IsInt64 : IsInt64 (pos 7)
step_id-IsInt64 = ground arith

decode_frame-encode_frame_example : decode_frame step_frame ≡ ok step_east
decode_frame-encode_frame_example =
    decode_frame-encode_frame step_east step_frame step_id-IsInt64 step_east_encoded

step_frame-IsByte : All IsByte step_frame
step_frame-IsByte = ground arith

encode_frame-decode_frame_example :
    (encode_frame step_east ≡ ok step_frame) × IsValidCommand step_east
encode_frame-decode_frame_example =
    encode_frame-decode_frame step_frame step_east step_frame-IsByte step_frame_decoded

abbrev pub hello_update : WorldUpdate
hello_update = record {
  version = 1;
  kind = event;
  world_tick = 3;
  sequence = 1;
  event_id = 9;
  payload = codes "hi";
}

hello_update_encoded : encode_world_update_frame hello_update ≡ ok (update_frame_of hello_update)
unfolding encode_world_update_frame validate_world_update
hello_update_encoded = refl

pub hello_update-IsRepresentable : IsRepresentable hello_update
hello_update-IsRepresentable = ground arith

decode_world_update_frame-encode_example :
    decode_world_update_frame (update_frame_of hello_update) ≡ ok hello_update
decode_world_update_frame-encode_example =
    decode_world_update_frame-encode hello_update (update_frame_of hello_update)
      hello_update-IsRepresentable hello_update_encoded

abbrev welcome : LoginResponse
welcome = record { version = 1; status = accepted; session_id = pos 7; payload = codes "hi" }

welcome_encoded : encode_login_response_frame welcome ≡ ok (login_frame_of welcome)
unfolding encode_login_response_frame validate_login_response
welcome_encoded = refl

decode_login_response_frame-encode_example :
    decode_login_response_frame (login_frame_of welcome) ≡ ok welcome
decode_login_response_frame-encode_example =
    decode_login_response_frame-encode welcome (login_frame_of welcome) step_id-IsInt64
      welcome_encoded

abbrev refusal : DisconnectResponse
refusal = record { version = 1; status = rejected; session_id = pos 7; payload = codes "no" }

refusal_encoded : encode_disconnect_response_frame refusal ≡ ok (disconnect_frame_of refusal)
unfolding encode_disconnect_response_frame validate_disconnect_response
refusal_encoded = refl

decode_disconnect_response_frame-encode_example :
    decode_disconnect_response_frame (disconnect_frame_of refusal) ≡ ok refusal
decode_disconnect_response_frame-encode_example =
    decode_disconnect_response_frame-encode refusal (disconnect_frame_of refusal) step_id-IsInt64
      refusal_encoded
