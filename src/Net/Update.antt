-- ===== src/Net/Update.antt =====
-- include/seed/WorldUpdate.h, src/WorldUpdate.cpp and src/WorldUpdateFrameCodec.cpp: the updates
-- that the server publishes, their validation and their frames.
pub mod RoundTrip
pub mod Streaming
use seed_origin.Base.{
  ℕ, ◌+◌, ◌-◌, ◌%◌, ◌^◌, ◌≤◌, ◌≡◌, Bool, true, false, not, ◌&&◌, ◌||◌, List, drop, ◌==◌, ltb,
  if◌then◌else◌, length, replicate, Result, ok, err, ◌>>=◌, ◌>>◌, fail_if,
}
use seed_origin.Net.Command.{current_protocol_version}
use seed_origin.Net.Bytes.{write_be, read_be, read_frame_u16}
use seed_origin.Net.Plain.{copy_payload}

abbrev pub max_update_payload : ℕ
max_update_payload = 16384

abbrev pub world_update_frame_magic : ℕ
world_update_frame_magic = 0x5755

abbrev pub world_update_frame_header_size : ℕ
world_update_frame_header_size = 36

-- `other` is a value of the enum's underlying type that names no enumerator.
pub data UpdateKind : Type 0 where
  snapshot event : UpdateKind
  other : ℕ → UpdateKind

abbrev pub kind_code : UpdateKind → ℕ
kind_code snapshot = 1
kind_code event = 2
kind_code (other n) = n

abbrev pub update_kind : ℕ → UpdateKind
update_kind n = if n == 1 then snapshot else if n == 2 then event else other n

pub record WorldUpdate : Type 0 where
  pub version : ℕ
  pub kind : UpdateKind
  pub world_tick : ℕ
  pub sequence : ℕ
  pub event_id : ℕ
  pub payload : List ℕ

-- The numbers of an update fit the fields of the struct.
pub record IsRepresentable (u : WorldUpdate) : Type 0 where
  pub tick_fits : u.world_tick ≤ 2 ^ 64 - 1
  pub sequence_fits : u.sequence ≤ 2 ^ 64 - 1
  pub event_fits : u.event_id ≤ 2 ^ 64 - 1

abbrev pub is_known_update_kind : UpdateKind → Bool
is_known_update_kind snapshot = true
is_known_update_kind event = true
is_known_update_kind (other n) = false

abbrev pub is_snapshot : UpdateKind → Bool
is_snapshot snapshot = true
is_snapshot k = false

abbrev pub is_event : UpdateKind → Bool
is_event event = true
is_event k = false

unfoldable pub validate_world_update : WorldUpdate → Result (Unit {0})
validate_world_update u = do
  fail_if (not (u.version == current_protocol_version)) "unsupported update protocol version"
  fail_if (not (is_known_update_kind u.kind)) "unknown world update kind"
  fail_if (u.sequence == 0) "world update sequence must be positive"
  fail_if (ltb max_update_payload (length u.payload)) "world update payload too large"
  fail_if (is_snapshot u.kind && not (u.event_id == 0)) "snapshot must not provide an event id"
  fail_if (is_event u.kind && u.event_id == 0) "event must provide an event id"

abbrev pub write16 : List ℕ → ℕ → ℕ → List ℕ
write16 output offset value = write_be 2 output offset value

abbrev pub write32 : List ℕ → ℕ → ℕ → List ℕ
write32 output offset value = write_be 4 output offset value

abbrev pub write64 : List ℕ → ℕ → ℕ → List ℕ
write64 output offset value = write_be 8 output offset value

abbrev pub read16 : List ℕ → ℕ → ℕ
read16 = read_frame_u16

abbrev pub read32 : List ℕ → ℕ → ℕ
read32 input offset = read_be 4 input offset (2 ^ 32) 0

abbrev pub read64 : List ℕ → ℕ → ℕ
read64 input offset = read_be 8 input offset (2 ^ 64) 0

abbrev pub update_frame_of : WorldUpdate → List ℕ
update_frame_of u =
    let size = length u.payload in
    let blank = replicate (world_update_frame_header_size + size) 0 in
    let f1 = write16 blank 0 world_update_frame_magic in
    let f2 = write16 f1 2 u.version in
    let f3 = write16 f2 4 (kind_code u.kind) in
    let f4 = write16 f3 6 0 in
    let f5 = write64 f4 8 u.world_tick in
    let f6 = write64 f5 16 u.sequence in
    let f7 = write64 f6 24 u.event_id in
    let f8 = write32 f7 32 (size % 2 ^ 32) in
    copy_payload f8 world_update_frame_header_size u.payload

unfoldable pub encode_world_update_frame : WorldUpdate → Result (List ℕ)
encode_world_update_frame u = do
  validate_world_update u
  fail_if (ltb (2 ^ 32 - 1) (length u.payload)) "world update payload is too large for a frame"
  ok (update_frame_of u)

abbrev pub update_of : List ℕ → WorldUpdate
update_of frame = record {
  version = read16 frame 2;
  kind = update_kind (read16 frame 4);
  world_tick = read64 frame 8;
  sequence = read64 frame 16;
  event_id = read64 frame 24;
  payload = drop world_update_frame_header_size frame;
}

-- The guards of the decoder in front of the validation.
abbrev pub check_update_frame : List ℕ → Result (Unit {0})
check_update_frame frame = do
  fail_if (ltb (length frame) world_update_frame_header_size)
      "world update frame header is incomplete"
  fail_if (not (read16 frame 0 == world_update_frame_magic) || not (read16 frame 6 == 0))
      "world update frame identity is invalid"
  let payload_length = read32 frame 32
  fail_if
      (ltb max_update_payload payload_length
        || not (length frame == world_update_frame_header_size + payload_length))
      "world update frame length is invalid"

unfoldable pub decode_world_update_frame : List ℕ → Result WorldUpdate
decode_world_update_frame frame = do
  check_update_frame frame
  validate_world_update (update_of frame)
  ok (update_of frame)
