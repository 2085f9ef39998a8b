-- ===== src/Net/Frame/Streaming.antt =====
-- src/FrameAccumulator.cpp: the reassembly loop at the format of command frames.
use seed_origin.Base.{ℕ, ◌≡◌, arith, List, length, concat, All, ok, IsInt64}
use seed_origin.Net.Command.{NetworkCommand, IsValidCommand, max_command_payload}
use seed_origin.Net.Command.{code}
use seed_origin.Net.Plain.{frame_header_size}
use seed_origin.Net.Plain.Layout.{length-plain_frame, length-read}
use seed_origin.Net.Frame.{frame_of, decode_frame}
use seed_origin.Net.Frame.RoundTrip.{decode_frame-frame_of}
use seed_origin.Net.Reassembly.{Format, IsFormat, Accumulator, Appended, initial, append, feed}
use seed_origin.Net.Reassembly.Delivery.{IsEncoding, Fits, encodings, feed-encodings}

abbrev pub command_format : Format NetworkCommand
command_format = record {
  header_size = frame_header_size;
  max_payload = max_command_payload;
  length_at = 12;
  decode = decode_frame;
  failed_text = "frame accumulator is failed";
  chunk_text = "stream frame exceeds maximum size";
  payload_text = "stream payload exceeds maximum size";
}

pub command_IsFormat : IsFormat command_format
command_IsFormat = record { in_header = omega arith; sizes_fit = omega arith }

-- `FrameAccumulator::append`
abbrev pub append_frames : Accumulator → List ℕ → Appended NetworkCommand
append_frames = append command_format

-- A command that a client can put on the wire: the encoder accepts it, and its id fits its field.
abbrev pub IsSendable : NetworkCommand → Type 0
IsSendable c = IsValidCommand c × IsInt64 c.session_id

pub command_IsEncoding : IsEncoding command_format frame_of (λ c. length c.payload) IsSendable
command_IsEncoding = record {
  length_frame = λ c. length-plain_frame c.version (code c.type) c.session_id c.payload;
  size_read = λ c v. length-read c.version (code c.type) c.session_id c.payload v.0.short;
  size_short = λ c v. v.0.short;
  decoded = λ c v. decode_frame-frame_of c v.0 v.1;
}

-- A connection on which sendable commands are sent yields exactly them, in order, whatever the
-- sizes of the reads are, as long as no read takes the buffer past the largest frame.
pub feed-command_encodings :
    (cs : List NetworkCommand) (xs : List (List ℕ))
    → All IsSendable cs
    → concat xs ≡ encodings frame_of cs
    → Fits command_format command_IsFormat initial xs
    → feed command_format initial xs ≡ record { after = initial; items = cs; outcome = ok tt }
feed-command_encodings =
    feed-encodings command_format command_IsFormat frame_of (λ c. length c.payload) IsSendable
      command_IsEncoding
