-- ===== src/Client/Demux.antt =====
-- include/seed/ClientInboundDemux.h and src/ClientInboundDemux.cpp: the client tells the frames of
-- world updates from those of responses, which come over one connection.
pub mod Rounds
pub mod Delivery
pub mod Rest
use seed_origin.Base.{
  ℕ, zero, suc, ◌+◌, Bool, true, false, not, ◌||◌, List, [], ◌∷◌, ◌++◌, ltb, ◌==◌, if◌then◌else◌,
  length, take, drop, String, Result, ok, err,
}
use seed_origin.Net.Command.{
  current_protocol_version, max_command_payload, CommandType, disconnect, code,
}
use seed_origin.Net.Bytes.{read_frame_u16, read_frame_u32}
use seed_origin.Net.Plain.{frame_header_size}
use seed_origin.Net.Update.{
  world_update_frame_magic, world_update_frame_header_size, max_update_payload,
}

pub data InboundFrameKind : Type 0 where
  login_response disconnect_response world_update : InboundFrameKind

pub record InboundFrame : Type 0 where
  pub kind : InboundFrameKind
  pub bytes : List ℕ

pub record ClientInboundDemux : Type 0 where
  pub buffered : List ℕ
  pub failed_state : Bool

abbrev pub no_bytes : ClientInboundDemux
no_bytes = record { buffered = []; failed_state = false }

-- A call of `append`: what it leaves, the frames of its out-parameter, and what it returns.
pub record Demuxed : Type 0 where
  pub after : ClientInboundDemux
  pub frames : List InboundFrame
  pub outcome : Result (Unit {0})

abbrev pub is_supported_inbound_prefix : ℕ → Bool
is_supported_inbound_prefix prefix =
    prefix == world_update_frame_magic || prefix == current_protocol_version

abbrev pub waiting : List ℕ → Demuxed
waiting buffered = record {
  after = record { buffered = buffered; failed_state = false };
  frames = [];
  outcome = ok tt;
}

abbrev pub failing : List ℕ → String → Demuxed
failing buffered e = record {
  after = record { buffered = buffered; failed_state = true };
  frames = [];
  outcome = err e;
}

-- What a frame's prefix decides: its header, its largest payload, where the payload's length is, the
-- text for one that is too long.
pub record Layout : Type 0 where
  pub header_size : ℕ
  pub length_at : ℕ
  pub max_payload : ℕ
  pub too_long : String

abbrev pub update_layout : Layout
update_layout = record {
  header_size = world_update_frame_header_size;
  length_at = 32;
  max_payload = max_update_payload;
  too_long = "world update stream payload exceeds maximum size";
}

abbrev pub response_layout : Layout
response_layout = record {
  header_size = frame_header_size;
  length_at = 12;
  max_payload = max_command_payload;
  too_long = "command response stream payload exceeds maximum size";
}

unfoldable pub layout_of : List ℕ → Layout
layout_of buffered =
    if read_frame_u16 buffered 0 == world_update_frame_magic then update_layout else response_layout

unfoldable pub kind_of : List ℕ → InboundFrameKind
kind_of buffered =
    if read_frame_u16 buffered 0 == world_update_frame_magic
    then world_update
    else if read_frame_u16 buffered 2 == code disconnect
    then disconnect_response
    else login_response

unfoldable pub frame_size : List ℕ → ℕ
frame_size buffered =
    (layout_of buffered).header_size + read_frame_u32 buffered (layout_of buffered).length_at

abbrev pub emit : InboundFrame → Demuxed → Demuxed
emit frame r = record r { frames = frame ∷ r.frames }

-- The loop of `append`. A round takes at least the header off the buffer, so as many rounds as bytes
-- are enough.
unfoldable pub demux : ℕ → List ℕ → Demuxed
demux zero buffered = waiting buffered
demux (suc fuel) buffered =
    let later = demux fuel (drop (frame_size buffered) buffered) in
    let layout = layout_of buffered in
    if ltb (length buffered) 2
    then waiting buffered
    else if not (is_supported_inbound_prefix (read_frame_u16 buffered 0))
    then failing buffered "inbound frame prefix is invalid"
    else if ltb (length buffered) layout.header_size
    then waiting buffered
    else if ltb layout.max_payload (read_frame_u32 buffered layout.length_at)
    then failing buffered layout.too_long
    else if ltb (length buffered) (frame_size buffered)
    then waiting buffered
    else emit (record { kind = kind_of buffered; bytes = take (frame_size buffered) buffered })
        later

unfoldable pub append : ClientInboundDemux → List ℕ → Demuxed
append d bytes =
    if d.failed_state
    then record { after = d; frames = []; outcome = err "client inbound demux is failed" }
    else demux (length (d.buffered ++ bytes)) (d.buffered ++ bytes)

abbrev pub reset : ClientInboundDemux → ClientInboundDemux
reset d = no_bytes
