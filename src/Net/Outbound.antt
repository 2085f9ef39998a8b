-- ===== src/Net/Outbound.antt =====
-- src/OutboundFrameQueue.cpp: the frames that a session has still to be sent. A partial send
-- consumes a part of the first one.
pub mod Order
use seed_origin.Base.{
  ℕ, ◌+◌, Bool, true, false, ◌||◌, List, [], ◌∷◌, ◌++◌, ltb, leb, ◌==◌, if◌then◌else◌, length, drop,
  Result, ok, err,
}
use seed_origin.Net.Plain.{frame_header_size}

abbrev pub max_outbound_frames : ℕ
max_outbound_frames = 256

abbrev pub max_outbound_frame_size : ℕ
max_outbound_frame_size = frame_header_size + 16384

abbrev pub OutboundFrameQueue : Type 0
OutboundFrameQueue = List (List ℕ)

unfoldable pub enqueue : OutboundFrameQueue → List ℕ → Result OutboundFrameQueue
enqueue frames frame =
    if ltb (length frame) frame_header_size || ltb max_outbound_frame_size (length frame)
    then err "outbound frame size is invalid"
    else if leb max_outbound_frames (length frames)
    then err "outbound frame queue is full"
    else ok (frames ++ frame ∷ [])

unfoldable pub consume_front : OutboundFrameQueue → ℕ → OutboundFrameQueue × Bool
consume_front [] bytes = ([], false)
consume_front (frame ∷ frames) bytes =
    if ltb (length frame) bytes
    then (frame ∷ frames, false)
    else if bytes == length frame
    then (frames, true)
    else (drop bytes frame ∷ frames, true)

-- The queue, the frame that the call yields and what it returns.
unfoldable pub pop : OutboundFrameQueue → OutboundFrameQueue × List ℕ × Bool
pop [] = ([], [], false)
pop (frame ∷ frames) =
    let (left, done) = consume_front (frame ∷ frames) (length frame) in (left, frame, done)

abbrev pub clear : OutboundFrameQueue → OutboundFrameQueue
clear frames = []
