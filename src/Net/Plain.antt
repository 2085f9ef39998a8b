-- ===== src/Net/Plain.antt =====
-- The frame of sixteen header bytes and a payload that commands, login responses and disconnect
-- responses share: src/NetworkFrameCodec.cpp, src/LoginResponseCodec.cpp and
-- src/DisconnectResponseCodec.cpp write and read it with the same statements.
pub mod Layout
pub mod Canonical
use seed_origin.Base.{
  ℕ, ◌+◌, not, ◌||◌, List, [], ◌∷◌, String, ltb, ◌==◌, length, set, replicate, ℤ, Result, ◌>>=◌,
  ◌>>◌, fail_if,
}
use seed_origin.Net.Command.{max_command_payload}
use seed_origin.Net.Bytes.{write_frame_u16, write_frame_u32, write_frame_u64, read_frame_u32}

abbrev pub frame_header_size : ℕ
frame_header_size = 16

-- `for (i = 0; i < payload.size(); ++i) frame[offset + i] = payload[i];`
abbrev pub copy_payload : List ℕ → ℕ → List ℕ → List ℕ
copy_payload frame offset [] = frame
copy_payload frame offset (b ∷ bs) = copy_payload (set frame offset b) (offset + 1) bs

-- `frame.assign(…)` and the writes after it.
abbrev pub plain_frame : ℕ → ℕ → ℤ → List ℕ → List ℕ
plain_frame version tag session_id payload =
    let blank = replicate (frame_header_size + length payload) 0 in
    let f1 = write_frame_u16 blank 0 version in
    let f2 = write_frame_u16 f1 2 tag in
    let f3 = write_frame_u64 f2 4 session_id in
    let f4 = write_frame_u32 f3 12 (length payload) in copy_payload f4 frame_header_size payload

-- The two guards that every decoder begins with.
abbrev pub check_length : List ℕ → String → String → Result (Unit {0})
check_length frame incomplete invalid = do
  fail_if (ltb (length frame) frame_header_size) incomplete
  let payload_length = read_frame_u32 frame 12
  fail_if
      (ltb max_command_payload payload_length
        || not (length frame == frame_header_size + payload_length))
      invalid
