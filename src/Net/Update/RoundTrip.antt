-- ===== src/Net/Update/RoundTrip.antt =====
-- Encoding and decoding of world updates.
use seed_origin.Base.{
  ℕ, ◌+◌, ◌-◌, ◌*◌, ◌/◌, ◌%◌, ◌^◌, ◌<◌, ◌≤◌, ◌≡◌, sym, ap, ◌∙◌, ◌||◌, not, ltb, ◌==◌, arith, List,
  [], ◌∷◌, ◌++◌, length, length-append, replicate-add, Result, ok, ◌>>◌, >>-eq-ok, fail_if,
  ok-injective,
}
use seed_origin.Net.Bytes.{bytes8, join8_lem, read_frame_u32}
use seed_origin.Net.Plain.Layout.{copy_payload-append}
use seed_origin.Net.Update.{
  WorldUpdate, IsRepresentable, kind_code, update_kind, validate_world_update, update_frame_of,
  update_of, check_update_frame, encode_world_update_frame, decode_world_update_frame, read16,
  read32,
}

abbrev bytes2 : ℕ → List ℕ
bytes2 v = (v / 2 ^ 8 % 256) ∷ (v / 2 ^ 0 % 256) ∷ []

abbrev update_header : WorldUpdate → List ℕ
update_header u =
    let size = length u.payload % 2 ^ 32 in
    0x57
    ∷ 0x55
    ∷ (bytes2 u.version
        ++ (bytes2 (kind_code u.kind)
            ++ (0
                ∷ 0
                ∷ (bytes8 u.world_tick
                    ++ (bytes8 u.sequence
                        ++ (bytes8 u.event_id
                            ++ (size / 2 ^ 24 % 256)
                              ∷ (size / 2 ^ 16 % 256)
                              ∷ (size / 2 ^ 8 % 256)
                              ∷ (size / 2 ^ 0 % 256)
                              ∷ []))))))

update_frame_of-layout : (u : WorldUpdate) → update_frame_of u ≡ update_header u ++ u.payload
update_frame_of-layout u =
    rw (replicate-add {A = ℕ} 36 (length u.payload) 0)
      (copy_payload-append (update_header u) u.payload)

pub length-update_frame_of : (u : WorldUpdate) → length (update_frame_of u) ≡ 36 + length u.payload
length-update_frame_of u =
    ap length (update_frame_of-layout u) ∙ length-append (update_header u) u.payload

u16_loop : (n : ℕ) → n < 2 ^ 16 → (n / 2 ^ 8 % 256 * 2 ^ 8 + n / 2 ^ 0 % 256) % 2 ^ 16 ≡ n
u16_loop n h = omega arith

u32_loop :
    (n : ℕ)
    → n ≤ 16384
    → let s = n % 2 ^ 32 in
      let m : ℕ = 2 ^ 32 in
      (((0 * 256 % m + s / 2 ^ 24 % 256) * 256 % m + s / 2 ^ 16 % 256) * 256 % m + s / 2 ^ 8 % 256)
          * 256
          % m
        + s / 2 ^ 0 % 256
      ≡ n
u32_loop n h = omega arith

-- What the validation bounds.
pub validate_world_update_bounds :
    (u : WorldUpdate)
    → validate_world_update u ≡ ok tt
    → (u.version ≡ 1)
      × (length u.payload ≤ 16384)
      × (kind_code u.kind ≤ 2)
      × (update_kind (kind_code u.kind) ≡ u.kind)
unfolding validate_world_update
validate_world_update_bounds u h = ground arith

module _ (u : WorldUpdate) (valid : validate_world_update u ≡ ok tt) (r : IsRepresentable u) where
  update_of-frame_of : update_of (update_frame_of u) ≡ u
  update_of-frame_of =
      let (v, p, s, e) = validate_world_update_bounds u valid in
      ap update_of (update_frame_of-layout u) ∙ (λ k. record {
        version = u16_loop u.version (omega arith) k;
        kind = (ap update_kind (u16_loop (kind_code u.kind) (omega arith)) ∙ e) k;
        world_tick = join8_lem u.world_tick (omega arith) k;
        sequence = join8_lem u.sequence (omega arith) k;
        event_id = join8_lem u.event_id (omega arith) k;
        payload = u.payload;
      })

  pub update_length-read : read32 (update_frame_of u) 32 ≡ length u.payload
  update_length-read =
      let (v, p, s, e) = validate_world_update_bounds u valid in
      ap (λ f. read32 f 32) (update_frame_of-layout u) ∙ u32_loop (length u.payload) p

  -- The accumulator reads the same four bytes by shifts.
  pub accumulator_length-read : read_frame_u32 (update_frame_of u) 32 ≡ length u.payload
  accumulator_length-read =
      let (v, p, s, e) = validate_world_update_bounds u valid in
      ap (λ f. read_frame_u32 f 32) (update_frame_of-layout u) ∙ shifts (length u.payload) p
    where
      shifts :
          (n : ℕ)
          → n ≤ 16384
          → let s = n % 2 ^ 32 in
            s / 2 ^ 24 % 256 * 2 ^ 24 % 2 ^ 32
              + s / 2 ^ 16 % 256 * 2 ^ 16 % 2 ^ 32
              + s / 2 ^ 8 % 256 * 2 ^ 8 % 2 ^ 32
              + s / 2 ^ 0 % 256
            ≡ n
      shifts n h = omega arith

  check_update_frame-frame_of : check_update_frame (update_frame_of u) ≡ ok tt
  check_update_frame-frame_of =
      let (v, p, s, e) = validate_world_update_bounds u valid in
      passes (update_frame_of u) (read32 (update_frame_of u) 32) (length-update_frame_of u)
        update_length-read p (ap (λ f. read16 f 0) (update_frame_of-layout u))
        (ap (λ f. read16 f 6) (update_frame_of-layout u))
    where
      passes :
          (f : List ℕ) (n : ℕ)
          → length f ≡ 36 + length u.payload
          → n ≡ length u.payload
          → length u.payload ≤ 16384
          → read16 f 0 ≡ 0x5755
          → read16 f 6 ≡ 0
          → (fail_if (ltb (length f) 36) "world update frame header is incomplete"
              >> (fail_if
                    (not (read16 f 0 == 0x5755) || not (read16 f 6 == 0))
                    "world update frame identity is invalid"
                  >> fail_if
                      (ltb 16384 n || not (length f == 36 + n))
                      "world update frame length is invalid"))
            ≡ ok tt
      passes f n a b c d e = ground arith

  pub decode_world_update_frame-frame_of : decode_world_update_frame (update_frame_of u) ≡ ok u
  unfolding decode_world_update_frame
  decode_world_update_frame-frame_of =
      rw check_update_frame-frame_of
        (λ k. (ap validate_world_update update_of-frame_of ∙ valid) k >> ok (update_of-frame_of k))

-- The decoder gives back, from its frame, every update with 64-bit numbers that the encoder
-- accepts.
pub decode_world_update_frame-encode :
    (u : WorldUpdate) (frame : List ℕ)
    → IsRepresentable u
    → encode_world_update_frame u ≡ ok frame
    → decode_world_update_frame frame ≡ ok u
unfolding encode_world_update_frame
decode_world_update_frame-encode u frame r e =
    let big : Result (Unit {0}) =
      fail_if (ltb (2 ^ 32 - 1) (length u.payload))
        "world update payload is too large for a frame" in
    let (valid, e1) = >>-eq-ok (validate_world_update u) (big >> ok (update_frame_of u)) e in
    let (_, made) = >>-eq-ok big (ok (update_frame_of u)) e1 in
    ap decode_world_update_frame (ok-injective (sym made))
    ∙ decode_world_update_frame-frame_of u valid r
