-- ===== src/Net/Reassembly.antt =====
-- The reassembly of frames from the chunks of a TCP stream: the loop that src/FrameAccumulator.cpp
-- and src/WorldUpdateAccumulator.cpp have in common, over the format of a frame. A format has a
-- header of a fixed size, in which four bytes hold the size of the payload that follows.
pub mod Stream
pub mod Delivery
use seed_origin.Base.{
  ℕ, zero, suc, ◌+◌, ◌-◌, ◌%◌, ◌^◌, ◌≤◌, ◌<◌, Bool, true, false, List, [], ◌∷◌, ◌++◌, String, ltb,
  if◌then◌else◌, length, take, drop, Result, ok, err,
}
use seed_origin.Net.Bytes.{read_frame_u32}

-- What differs between the two classes: constants, the decoder, and the texts of the errors.
pub record Format (C : Type 0) : Type 0 where
  pub header_size : ℕ
  pub max_payload : ℕ
  pub length_at : ℕ
  pub decode : List ℕ → Result C
  pub failed_text : String
  pub chunk_text : String
  pub payload_text : String

-- The length field lies in the header, and sizes do not wrap.
pub record IsFormat {C : Type 0} (fmt : Format C) : Type 0 where
  pub in_header : fmt.length_at + 4 ≤ fmt.header_size
  pub sizes_fit : fmt.header_size + fmt.max_payload < 2 ^ 32

pub record Accumulator : Type 0 where
  pub buffered : List ℕ
  pub failed : Bool

abbrev pub initial : Accumulator
initial = record { buffered = []; failed = false }

-- A call of `append`: the state that it leaves, the items of its out-parameter, and whether it
-- returned true. (Where it returns true the text of `error` is not part of the result.)
pub record Appended (C : Type 0) : Type 0 where
  pub after : Accumulator
  pub items : List C
  pub outcome : Result (Unit {0})

module _ {C : Type 0} where
  abbrev pub emit : C → Appended C → Appended C
  emit c r = record r { items = c ∷ r.items }

  abbrev pub emit_all : List C → Appended C → Appended C
  emit_all [] r = r
  emit_all (c ∷ cs) r = emit c (emit_all cs r)

  abbrev pub rejected : List ℕ → String → Appended C
  rejected buffered e = record {
    after = record { buffered = buffered; failed = true };
    items = [];
    outcome = err e;
  }

  abbrev pub waiting : List ℕ → Appended C
  waiting buffered = record {
    after = record { buffered = buffered; failed = false };
    items = [];
    outcome = ok tt;
  }

  -- The end of one round: the frame has been cut off the buffer and decoded.
  abbrev pub take_decoded : Result C → List ℕ → Appended C → Appended C
  take_decoded (ok c) rest later = emit c later
  take_decoded (err e) rest later = rejected rest e

module _ {C : Type 0} (fmt : Format C) where
  abbrev pub payload_length : List ℕ → ℕ
  payload_length buffered = read_frame_u32 buffered fmt.length_at

  abbrev pub frame_size : List ℕ → ℕ
  frame_size buffered = fmt.header_size + payload_length buffered

  -- `while (buffered.size() >= FRAME_HEADER_SIZE) { … }`. A round takes at least the header off
  -- the buffer, so as many rounds as bytes are enough.
  unfoldable pub drain : ℕ → List ℕ → Appended C
  drain zero buffered = waiting buffered
  drain (suc fuel) buffered =
      let later = drain fuel (drop (frame_size buffered) buffered) in
      if ltb (length buffered) fmt.header_size
      then waiting buffered
      else if ltb fmt.max_payload (payload_length buffered)
      then rejected buffered fmt.payload_text
      else if ltb (length buffered) (frame_size buffered)
      then waiting buffered
      else take_decoded (fmt.decode (take (frame_size buffered) buffered))
          (drop (frame_size buffered) buffered) later

  -- The room that is left, in the arithmetic of `size_t`.
  abbrev pub room : List ℕ → ℕ
  room buffered = (fmt.header_size + fmt.max_payload + 2 ^ 64 - length buffered) % 2 ^ 64

  unfoldable pub append : Accumulator → List ℕ → Appended C
  append a bytes =
      if a.failed
      then record { after = a; items = []; outcome = err fmt.failed_text }
      else if ltb (room a.buffered) (length bytes)
      then rejected a.buffered fmt.chunk_text
      else drain (length (a.buffered ++ bytes)) (a.buffered ++ bytes)

  -- The reads of one connection: the first chunk that is refused closes it.
  unfoldable pub feed : Accumulator → List (List ℕ) → Appended C
  feed a [] = record { after = a; items = []; outcome = ok tt }
  feed a (x ∷ xs) =
      let r = append a x in
      let later = feed r.after xs in elim r.outcome [ ok _ ↦ emit_all r.items later | err e ↦ r ]

unfoldable pub reset : Accumulator → Accumulator
reset a = initial
