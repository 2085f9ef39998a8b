-- ===== src/Net/Frame.antt =====
-- src/NetworkFrameCodec.cpp: one command as a frame of sixteen header bytes and its payload.
-- `decodeFrame` fills its command also where it fails; no caller reads it then.
pub mod RoundTrip
pub mod Streaming
use seed_origin.Base.{ℕ, List, drop, Result, ok, err, ◌>>=◌, ◌>>◌}
use seed_origin.Net.Command.{NetworkCommand, code, command_type, validate_command}
use seed_origin.Net.Bytes.{read_frame_u16, read_frame_u64}
use seed_origin.Net.Plain.{frame_header_size, plain_frame, check_length}

abbrev pub frame_of : NetworkCommand → List ℕ
frame_of c = plain_frame c.version (code c.type) c.session_id c.payload

unfoldable pub encode_frame : NetworkCommand → Result (List ℕ)
encode_frame c = do validate_command c; ok (frame_of c)

abbrev pub command_of : List ℕ → NetworkCommand
command_of frame = record {
  version = read_frame_u16 frame 0;
  type = command_type (read_frame_u16 frame 2);
  session_id = read_frame_u64 frame 4;
  payload = drop frame_header_size frame;
}

unfoldable pub decode_frame : List ℕ → Result NetworkCommand
decode_frame frame = do
  check_length frame "frame header is incomplete" "frame length is invalid"
  validate_command (command_of frame)
  ok (command_of frame)
