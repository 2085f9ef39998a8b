-- ===== src/Net/Plain/Layout.antt =====
-- What stands in a plain frame, and what the readers find there.
use seed_origin.Base.{
  ℕ, ◌+◌, ◌*◌, ◌/◌, ◌%◌, ◌^◌, ◌<◌, ◌≤◌, ◌≡◌, refl, sym, ap, ◌∙◌, ◌||◌, not, ltb, ◌==◌, arith, List,
  [], ◌∷◌, ◌++◌, String, append_assoc, length, length-append, replicate, replicate-add,
  set-append_length, drop, ℤ, IsInt64, ok, ◌>>◌, fail_if,
}
use seed_origin.Net.Bytes.{
  to_bits64, of_bits64-bytes, bytes8, read_frame_u16, read_frame_u32, read_frame_u64,
}
use seed_origin.Net.Plain.{frame_header_size, copy_payload, plain_frame, check_length}

pub copy_payload-append :
    (pre p : List ℕ) → copy_payload (pre ++ replicate (length p) 0) (length pre) p ≡ pre ++ p
copy_payload-append pre [] = refl
copy_payload-append pre (b ∷ bs) = rw set-append_length (
    ap (λ n. copy_payload (pre ++ b ∷ replicate (length bs) 0) n bs)
      (sym (length-append pre (b ∷ [])))
    ∙ ap (λ xs. copy_payload xs (length (pre ++ b ∷ [])) bs)
        (sym (append_assoc pre (b ∷ []) (replicate (length bs) 0)))
    ∙ copy_payload-append (pre ++ b ∷ []) bs
    ∙ append_assoc pre (b ∷ []) bs)

-- Sixteen bytes: the version, the tag, the id and the length of the payload.
abbrev pub plain_header : ℕ → ℕ → ℤ → ℕ → List ℕ
plain_header version tag id size =
    (version / 2 ^ 8 % 256)
    ∷ (version % 256)
    ∷ (tag / 2 ^ 8 % 256)
    ∷ (tag % 256)
    ∷ (bytes8 (to_bits64 id)
        ++ (size / 2 ^ 24 % 256) ∷ (size / 2 ^ 16 % 256) ∷ (size / 2 ^ 8 % 256) ∷ (size % 256) ∷ [])

pub u16_round : (n : ℕ) → n < 2 ^ 16 → (n / 2 ^ 8 % 256 * 2 ^ 8 + n % 256) % 2 ^ 16 ≡ n
u16_round n h = omega arith

pub u32_round :
    (n : ℕ)
    → n < 2 ^ 32
    → n / 2 ^ 24 % 256 * 2 ^ 24 % 2 ^ 32
        + n / 2 ^ 16 % 256 * 2 ^ 16 % 2 ^ 32
        + n / 2 ^ 8 % 256 * 2 ^ 8 % 2 ^ 32
        + n % 256
      ≡ n
u32_round n h = omega arith

module _ (version tag : ℕ) (id : ℤ) (payload : List ℕ) where
  abbrev header : List ℕ
  header = plain_header version tag id (length payload)

  pub plain_frame-layout : plain_frame version tag id payload ≡ header ++ payload
  plain_frame-layout =
      rw (replicate-add {A = ℕ} 16 (length payload) 0) (copy_payload-append header payload)

  pub length-plain_frame :
      length (plain_frame version tag id payload) ≡ frame_header_size + length payload
  length-plain_frame = ap length plain_frame-layout ∙ length-append header payload

  pub version-read :
      version < 2 ^ 16 → read_frame_u16 (plain_frame version tag id payload) 0 ≡ version
  version-read h = ap (λ f. read_frame_u16 f 0) plain_frame-layout ∙ u16_round version h

  pub tag-read : tag < 2 ^ 16 → read_frame_u16 (plain_frame version tag id payload) 2 ≡ tag
  tag-read h = ap (λ f. read_frame_u16 f 2) plain_frame-layout ∙ u16_round tag h

  pub id-read : IsInt64 id → read_frame_u64 (plain_frame version tag id payload) 4 ≡ id
  id-read h = ap (λ f. read_frame_u64 f 4) plain_frame-layout ∙ of_bits64-bytes id h

  pub length-read :
      length payload ≤ 4096
      → read_frame_u32 (plain_frame version tag id payload) 12 ≡ length payload
  length-read h =
      ap (λ f. read_frame_u32 f 12) plain_frame-layout ∙ u32_round (length payload) (omega arith)

  pub payload-read : drop frame_header_size (plain_frame version tag id payload) ≡ payload
  payload-read = ap (drop frame_header_size) plain_frame-layout

  pub check_length-plain_frame :
      (incomplete invalid : String)
      → length payload ≤ 4096
      → check_length (plain_frame version tag id payload) incomplete invalid ≡ ok tt
  check_length-plain_frame incomplete invalid h =
      passes (plain_frame version tag id payload)
        (read_frame_u32 (plain_frame version tag id payload) 12) length-plain_frame (length-read h)
    where
      passes :
          (f : List ℕ) (n : ℕ)
          → length f ≡ frame_header_size + length payload
          → n ≡ length payload
          → (fail_if (ltb (length f) 16) incomplete
              >> fail_if (ltb 4096 n || not (length f == 16 + n)) invalid)
            ≡ ok tt
      passes f n a b = ground arith

-- What a frame that has passed the two guards satisfies.
pub check_length_ok :
    (frame : List ℕ) (incomplete invalid : String)
    → check_length frame incomplete invalid ≡ ok tt
    → (16 ≤ length frame)
      × (length frame ≡ 16 + read_frame_u32 frame 12)
      × (read_frame_u32 frame 12 ≤ 4096)
check_length_ok frame incomplete invalid e = guards frame (read_frame_u32 frame 12) e
  where
    guards :
        (f : List ℕ) (n : ℕ)
        → (fail_if (ltb (length f) 16) incomplete
            >> fail_if (ltb 4096 n || not (length f == 16 + n)) invalid)
          ≡ ok tt
        → (16 ≤ length f) × (length f ≡ 16 + n) × (n ≤ 4096)
    guards f n a = ground arith
