-- ===== src/Net/Frame/RoundTrip.antt =====
-- Encoding and decoding of command frames are inverse, in both directions.
use seed_origin.Base.{
  ℕ, ◌≤◌, ◌≡◌, refl, true, sym, ap, ◌∙◌, arith, List, All, Result, ok, IsInt64, >>-eq-ok,
  ok-injective, ◌>>◌,
}
use seed_origin.Net.Command.{
  NetworkCommand, IsValidCommand, CommandType, code, command_type, validate_command,
  is_known_command_type, login, move, chat, attack, cast_spell, disconnect, request_snapshot, other,
}
use seed_origin.Net.Command.Valid.{validate_command-IsValid, IsValidCommand-validate}
use seed_origin.Net.Bytes.{IsByte}
use seed_origin.Net.Plain.{check_length, plain_frame}
use seed_origin.Net.Plain.Layout.{
  version-read, tag-read, id-read, payload-read, check_length-plain_frame, check_length_ok,
}
use seed_origin.Net.Plain.Canonical.{plain_frame-reads}
use seed_origin.Net.Frame.{frame_of, encode_frame, decode_frame, command_of}

command_type-code : (t : CommandType) → is_known_command_type t ≡ true → command_type (code t) ≡ t
command_type-code login h = refl
command_type-code move h = refl
command_type-code chat h = refl
command_type-code attack h = refl
command_type-code cast_spell h = refl
command_type-code disconnect h = refl
command_type-code request_snapshot h = refl
command_type-code (other n) h = cc

code-command_type : (n : ℕ) → code (command_type n) ≡ n
code-command_type n = ground arith

code-lt : (t : CommandType) → is_known_command_type t ≡ true → code t ≤ 7
code-lt t h = ground arith

command_of-frame_of :
    (c : NetworkCommand) → IsValidCommand c → IsInt64 c.session_id → command_of (frame_of c) ≡ c
command_of-frame_of c v i =
    let n = code c.type in
    let n7 = code-lt c.type v.known in
    λ k. record {
      version = version-read c.version n c.session_id c.payload (omega arith) k;
      type =
          (ap command_type (tag-read c.version n c.session_id c.payload (omega arith))
              ∙ command_type-code c.type v.known)
            k;
      session_id = id-read c.version n c.session_id c.payload i k;
      payload = payload-read c.version n c.session_id c.payload k;
    }

pub decode_frame-frame_of :
    (c : NetworkCommand)
    → IsValidCommand c
    → IsInt64 c.session_id
    → decode_frame (frame_of c) ≡ ok c
unfolding decode_frame
decode_frame-frame_of c v i =
    rw (check_length-plain_frame c.version (code c.type) c.session_id c.payload _ _ v.short) (λ k.
      (ap validate_command (command_of-frame_of c v i) ∙ IsValidCommand-validate c v) k
      >> ok (command_of-frame_of c v i k))

-- The decoder gives back, from its frame, every command with a 64-bit session id that the encoder
-- accepts.
pub decode_frame-encode_frame :
    (c : NetworkCommand) (frame : List ℕ)
    → IsInt64 c.session_id
    → encode_frame c ≡ ok frame
    → decode_frame frame ≡ ok c
unfolding encode_frame
decode_frame-encode_frame c frame i e =
    let (valid, made) = >>-eq-ok (validate_command c) (ok (frame_of c)) e in
    ap decode_frame (ok-injective (sym made))
    ∙ decode_frame-frame_of c (validate_command-IsValid c valid) i

-- The guards that a decoded frame has passed.
decode_frame-inversion :
    (frame : List ℕ) (c : NetworkCommand)
    → decode_frame frame ≡ ok c
    → (check_length frame "frame header is incomplete" "frame length is invalid" ≡ ok tt)
      × (validate_command (command_of frame) ≡ ok tt)
      × (command_of frame ≡ c)
unfolding decode_frame
decode_frame-inversion frame c e =
    let checks : Result (Unit {0}) = validate_command (command_of frame) in
    let last : Result NetworkCommand = ok (command_of frame) in
    let (a, e1) =
      >>-eq-ok (check_length frame "frame header is incomplete" "frame length is invalid")
        (checks >> last) e in
    let (v, e2) = >>-eq-ok checks last e1 in (a, v, ok-injective e2)

-- A frame of bytes that the decoder accepts is the one that the encoder makes of the command it
-- yields, and that command is valid.
pub encode_frame-decode_frame :
    (frame : List ℕ) (c : NetworkCommand)
    → All IsByte frame
    → decode_frame frame ≡ ok c
    → (encode_frame c ≡ ok frame) × IsValidCommand c
unfolding encode_frame
encode_frame-decode_frame frame c p e =
    let (sized, valid, same) = decode_frame-inversion frame c e in
    let (long, size, small) = check_length_ok frame _ _ sized in
    let back : frame_of (command_of frame) ≡ frame =
      ap
        (λ t.
          plain_frame (command_of frame).version t (command_of frame).session_id
            (command_of frame).payload)
        (code-command_type _)
      ∙ plain_frame-reads frame long p size in
    (
      ap encode_frame (sym same) ∙ (λ k. valid k >> ok (back k)),
      validate_command-IsValid c (ap validate_command (sym same) ∙ valid),
    )
