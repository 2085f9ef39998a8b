-- ===== src/Net/Plain/Canonical.antt =====
-- A plain frame is determined by what the readers find in it.
use seed_origin.Base.{
  ℕ, ◌+◌, ◌*◌, ◌/◌, ◌%◌, ◌^◌, ◌<◌, ◌≤◌, ◌≡◌, ◌∙◌, arith, List, [], ◌∷◌, ◌++◌, length, drop, All,
}
use seed_origin.Net.Bytes.{
  to_bits64, of_bits64, bytes8, join8, read_frame_u16, read_frame_u32, read_frame_u64, IsByte,
}
use seed_origin.Net.Plain.{plain_frame}
use seed_origin.Net.Plain.Layout.{plain_frame-layout}

to_bits64-of_bits64 : (n : ℕ) → n < 2 ^ 64 → to_bits64 (of_bits64 n) ≡ n
to_bits64-of_bits64 n h = ground arith

u16_hi : (a b : ℕ) → a < 256 → b < 256 → (a * 2 ^ 8 + b) % 2 ^ 16 / 2 ^ 8 % 256 ≡ a
u16_hi a b p q = omega arith

u16_lo : (a b : ℕ) → a < 256 → b < 256 → (a * 2 ^ 8 + b) % 2 ^ 16 % 256 ≡ b
u16_lo a b p q = omega arith

-- The bytes of the number that eight bytes make.
bytes8-join8 :
    (a b c d e f g h : ℕ)
    → All IsByte (a ∷ b ∷ c ∷ d ∷ e ∷ f ∷ g ∷ h ∷ [])
    → bytes8 (join8 a b c d e f g h) ≡ a ∷ b ∷ c ∷ d ∷ e ∷ f ∷ g ∷ h ∷ []
bytes8-join8 a b c d e f g h p = ground arith

u32_bytes :
    (a b c d : ℕ)
    → All IsByte (a ∷ b ∷ c ∷ d ∷ [])
    → let n = read_frame_u32 (a ∷ b ∷ c ∷ d ∷ []) 0 in
      (n / 2 ^ 24 % 256) ∷ (n / 2 ^ 16 % 256) ∷ (n / 2 ^ 8 % 256) ∷ (n % 256) ∷ []
      ≡ a ∷ b ∷ c ∷ d ∷ []
u32_bytes a b c d p = ground arith

join8-lt :
    (a b c d e f g h : ℕ)
    → All IsByte (a ∷ b ∷ c ∷ d ∷ e ∷ f ∷ g ∷ h ∷ [])
    → join8 a b c d e f g h < 2 ^ 64
join8-lt a b c d e f g h p = omega arith

-- Writing what was read gives the frame back.
pub plain_frame-reads :
    (frame : List ℕ)
    → 16 ≤ length frame
    → All IsByte frame
    → length frame ≡ 16 + read_frame_u32 frame 12
    → plain_frame
        (read_frame_u16 frame 0)
        (read_frame_u16 frame 2)
        (read_frame_u64 frame 4)
        (drop 16 frame)
      ≡ frame
plain_frame-reads
      (b0 ∷ b1 ∷ b2 ∷ b3 ∷ b4 ∷ b5 ∷ b6 ∷ b7 ∷ b8 ∷ b9 ∷ b10 ∷ b11 ∷ b12 ∷ b13 ∷ b14 ∷ b15 ∷ rest) h
      p n =
    let bytes : All IsByte (b4 ∷ b5 ∷ b6 ∷ b7 ∷ b8 ∷ b9 ∷ b10 ∷ b11 ∷ []) = omega arith in
    plain_frame-layout
      (read_frame_u16
        (b0 ∷ b1 ∷ b2 ∷ b3 ∷ b4 ∷ b5 ∷ b6 ∷ b7 ∷ b8 ∷ b9 ∷ b10 ∷ b11 ∷ b12 ∷ b13 ∷ b14 ∷ b15 ∷ rest)
        0)
      (read_frame_u16
        (b0 ∷ b1 ∷ b2 ∷ b3 ∷ b4 ∷ b5 ∷ b6 ∷ b7 ∷ b8 ∷ b9 ∷ b10 ∷ b11 ∷ b12 ∷ b13 ∷ b14 ∷ b15 ∷ rest)
        2)
      (read_frame_u64
        (b0 ∷ b1 ∷ b2 ∷ b3 ∷ b4 ∷ b5 ∷ b6 ∷ b7 ∷ b8 ∷ b9 ∷ b10 ∷ b11 ∷ b12 ∷ b13 ∷ b14 ∷ b15 ∷ rest)
        4)
      rest
    ∙ (λ k.
        u16_hi b0 b1 p.0 p.1.0 k
        ∷ u16_lo b0 b1 p.0 p.1.0 k
        ∷ ((b2 * 2 ^ 8 + b3) % 2 ^ 16 / 2 ^ 8 % 256)
        ∷ ((b2 * 2 ^ 8 + b3) % 2 ^ 16 % 256)
        ∷ (bytes8 (
              to_bits64-of_bits64 (join8 b4 b5 b6 b7 b8 b9 b10 b11)
                (join8-lt b4 b5 b6 b7 b8 b9 b10 b11 bytes) k)
            ++ (n' k / 2 ^ 24 % 256)
              ∷ (n' k / 2 ^ 16 % 256)
              ∷ (n' k / 2 ^ 8 % 256)
              ∷ (n' k % 256)
              ∷ rest))
    ∙ (λ k.
        b0
        ∷ b1
        ∷ u16_hi b2 b3 (omega arith) (omega arith) k
        ∷ u16_lo b2 b3 (omega arith) (omega arith) k
        ∷ (bytes8-join8 b4 b5 b6 b7 b8 b9 b10 b11 bytes k
            ++ (u32_bytes b12 b13 b14 b15 (omega arith) k ++ rest)))
  where
    n' : length rest ≡ read_frame_u32 (b12 ∷ b13 ∷ b14 ∷ b15 ∷ []) 0
    n' = omega arith
plain_frame-reads _ h p n = absurd (omega arith)
