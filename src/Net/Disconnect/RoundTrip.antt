-- ===== src/Net/Disconnect/RoundTrip.antt =====
-- What a disconnect response says survives the wire, though its status is not sent.
use seed_origin.Base.{
  ℕ, ◌≤◌, ◌≡◌, sym, ap, ◌∙◌, arith, List, length, ok, IsInt64, >>-eq-ok, ok-injective, ◌>>◌,
}
use seed_origin.Net.Plain.Layout.{
  version-read, tag-read, id-read, payload-read, check_length-plain_frame,
}
use seed_origin.Net.Disconnect.{
  DisconnectResponse, disconnect_status, validate_disconnect_response, disconnect_frame_of,
  disconnect_response_of, encode_disconnect_response_frame, decode_disconnect_response_frame,
}

-- The fields that the validation bounds, and the status that it ties to the payload.
validate_disconnect_response_bounds :
    (r : DisconnectResponse)
    → validate_disconnect_response r ≡ ok tt
    → (r.version ≡ 1) × (length r.payload ≤ 4096) × (disconnect_status r.payload ≡ r.status)
unfolding validate_disconnect_response
validate_disconnect_response_bounds r h = ground arith

disconnect_response_of-frame_of :
    (r : DisconnectResponse)
    → validate_disconnect_response r ≡ ok tt
    → IsInt64 r.session_id
    → disconnect_response_of (disconnect_frame_of r) ≡ r
disconnect_response_of-frame_of r h i =
    let (v, p, e) = validate_disconnect_response_bounds r h in
    λ k. record {
      version = version-read r.version 6 r.session_id r.payload (omega arith) k;
      status = (ap disconnect_status (payload-read r.version 6 r.session_id r.payload) ∙ e) k;
      session_id = id-read r.version 6 r.session_id r.payload i k;
      payload = payload-read r.version 6 r.session_id r.payload k;
    }

-- The decoder gives back, from its frame, every disconnect response with a 64-bit session id that
-- the encoder accepts.
pub decode_disconnect_response_frame-encode :
    (r : DisconnectResponse) (frame : List ℕ)
    → IsInt64 r.session_id
    → encode_disconnect_response_frame r ≡ ok frame
    → decode_disconnect_response_frame frame ≡ ok r
unfolding encode_disconnect_response_frame decode_disconnect_response_frame
decode_disconnect_response_frame-encode r frame i e =
    let (valid, made) = >>-eq-ok (validate_disconnect_response r) (ok (disconnect_frame_of r)) e in
    let (v, p, s) = validate_disconnect_response_bounds r valid in
    let back = disconnect_response_of-frame_of r valid i in
    ap decode_disconnect_response_frame (ok-injective (sym made))
    ∙ rw
        (
          check_length-plain_frame r.version 6 r.session_id r.payload _ _ p,
          tag-read r.version 6 r.session_id r.payload (omega arith),
        )
        (λ k. (ap validate_disconnect_response back ∙ valid) k >> ok (back k))
