-- ===== src/Net/Login/RoundTrip.antt =====
-- What a login response says survives the wire.
use seed_origin.Base.{
  ℕ, ◌≤◌, ◌≡◌, sym, ap, ◌∙◌, arith, List, length, ok, IsInt64, >>-eq-ok, ok-injective, ◌>>◌,
}
use seed_origin.Net.Plain.Layout.{
  version-read, tag-read, id-read, payload-read, check_length-plain_frame,
}
use seed_origin.Net.Login.{
  LoginResponse, status_code, login_status, validate_login_response, login_frame_of,
  login_response_of, encode_login_response_frame, decode_login_response_frame,
}

-- The fields that the validation bounds.
validate_login_response_bounds :
    (r : LoginResponse)
    → validate_login_response r ≡ ok tt
    → (r.version ≡ 1)
      × (length r.payload ≤ 4096)
      × (status_code r.status ≤ 2)
      × (login_status (status_code r.status) ≡ r.status)
unfolding validate_login_response
validate_login_response_bounds r h = ground arith

login_response_of-login_frame_of :
    (r : LoginResponse)
    → validate_login_response r ≡ ok tt
    → IsInt64 r.session_id
    → login_response_of (login_frame_of r) ≡ r
login_response_of-login_frame_of r h i =
    let (v, p, s, e) = validate_login_response_bounds r h in
    let n = status_code r.status in
    λ k. record {
      version = version-read r.version n r.session_id r.payload (omega arith) k;
      status = (ap login_status (tag-read r.version n r.session_id r.payload (omega arith)) ∙ e) k;
      session_id = id-read r.version n r.session_id r.payload i k;
      payload = payload-read r.version n r.session_id r.payload k;
    }

-- The decoder gives back, from its frame, every login response with a 64-bit session id that the
-- encoder accepts.
pub decode_login_response_frame-encode :
    (r : LoginResponse) (frame : List ℕ)
    → IsInt64 r.session_id
    → encode_login_response_frame r ≡ ok frame
    → decode_login_response_frame frame ≡ ok r
unfolding encode_login_response_frame decode_login_response_frame
decode_login_response_frame-encode r frame i e =
    let (valid, made) = >>-eq-ok (validate_login_response r) (ok (login_frame_of r)) e in
    let (v, p, s, t) = validate_login_response_bounds r valid in
    let back = login_response_of-login_frame_of r valid i in
    ap decode_login_response_frame (ok-injective (sym made))
    ∙ rw (check_length-plain_frame r.version (status_code r.status) r.session_id r.payload _ _ p)
        (λ k. (ap validate_login_response back ∙ valid) k >> ok (back k))
