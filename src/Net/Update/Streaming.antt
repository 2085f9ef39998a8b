-- ===== src/Net/Update/Streaming.antt =====
-- src/WorldUpdateAccumulator.cpp: the reassembly loop at the format of world update frames. Its
-- length field is read by the same four shifts that `readFrameU32` has.
use seed_origin.Base.{ℕ, ◌≡◌, arith, List, length, concat, All, ok}
use seed_origin.Net.Update.{
  WorldUpdate, IsRepresentable, max_update_payload, world_update_frame_header_size, update_frame_of,
  validate_world_update, decode_world_update_frame,
}
use seed_origin.Net.Update.RoundTrip.{
  length-update_frame_of, accumulator_length-read, validate_world_update_bounds,
  decode_world_update_frame-frame_of,
}
use seed_origin.Net.Reassembly.{Format, IsFormat, Accumulator, Appended, initial, append, feed}
use seed_origin.Net.Reassembly.Delivery.{IsEncoding, Fits, encodings, feed-encodings}

abbrev pub update_format : Format WorldUpdate
update_format = record {
  header_size = world_update_frame_header_size;
  max_payload = max_update_payload;
  length_at = 32;
  decode = decode_world_update_frame;
  failed_text = "world update accumulator is failed";
  chunk_text = "world update stream frame exceeds maximum size";
  payload_text = "world update stream payload exceeds maximum size";
}

pub update_IsFormat : IsFormat update_format
update_IsFormat = record { in_header = omega arith; sizes_fit = omega arith }

-- `WorldUpdateAccumulator::append`
abbrev pub append_updates : Accumulator → List ℕ → Appended WorldUpdate
append_updates = append update_format

-- An update that the server can publish: the encoder accepts it.
abbrev pub IsPublishable : WorldUpdate → Type 0
IsPublishable u = (validate_world_update u ≡ ok tt) × IsRepresentable u

pub update_IsEncoding :
    IsEncoding update_format update_frame_of (λ u. length u.payload) IsPublishable
update_IsEncoding = record {
  length_frame = length-update_frame_of;
  size_read = λ u p. accumulator_length-read u p.0 p.1;
  size_short = λ u p. (validate_world_update_bounds u p.0).1;
  decoded = λ u p. decode_world_update_frame-frame_of u p.0 p.1;
}

-- A client to which publishable updates are sent receives exactly them, in order, whatever the
-- sizes of its reads are, as long as no read takes the buffer past the largest frame.
pub feed-update_encodings :
    (us : List WorldUpdate) (xs : List (List ℕ))
    → All IsPublishable us
    → concat xs ≡ encodings update_frame_of us
    → Fits update_format update_IsFormat initial xs
    → feed update_format initial xs ≡ record { after = initial; items = us; outcome = ok tt }
feed-update_encodings =
    feed-encodings update_format update_IsFormat update_frame_of (λ u. length u.payload)
      IsPublishable update_IsEncoding
