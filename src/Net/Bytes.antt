-- ===== src/Net/Bytes.antt =====
-- include/seed/FrameHeaderBinary.h, and the byte loops of src/WorldUpdateFrameCodec.cpp: numbers in
-- big-endian order inside a byte vector. A byte is a number below 256, so `|` into a word whose low
-- eight bits are clear is `+`.
use seed_origin.Base.{
  ℕ, zero, suc, ◌+◌, ◌-◌, ◌*◌, ◌/◌, ◌%◌, ◌^◌, ◌<◌, ◌≡◌, ap, ◌∙◌, List, [], ◌∷◌, arith, ltb,
  if◌then◌else◌, get_or, set, ℤ, pos, negsuc, IsInt64,
}

-- `for (i = 0; i < n; ++i) output[offset + i] = uint8_t(value >> (8 * (n - 1 - i)));`
abbrev pub write_be : ℕ → List ℕ → ℕ → ℕ → List ℕ
write_be zero output offset value = output
write_be (suc k) output offset value =
    write_be k (set output offset (value / 2 ^ (8 * k) % 256)) (offset + 1) value

-- `for (i = 0; i < n; ++i) value = (value << 8) | input[offset + i];` in a word of modulus `m`.
abbrev pub read_be : ℕ → List ℕ → ℕ → ℕ → ℕ → ℕ
read_be zero input offset m value = value
read_be (suc k) input offset m value =
    read_be k input (offset + 1) m (value * 256 % m + get_or input offset 0)

-- `static_cast<uint64_t>(v)` of an `int64_t`, and back.
abbrev pub to_bits64 : ℤ → ℕ
to_bits64 (pos n) = n
to_bits64 (negsuc n) = 2 ^ 64 - 1 - n

abbrev pub of_bits64 : ℕ → ℤ
of_bits64 b = if ltb b (2 ^ 63) then pos b else negsuc (2 ^ 64 - 1 - b)

abbrev pub write_frame_u16 : List ℕ → ℕ → ℕ → List ℕ
write_frame_u16 output offset value =
    set (set output offset (value / 2 ^ 8 % 256)) (offset + 1) (value % 256)

abbrev pub write_frame_u32 : List ℕ → ℕ → ℕ → List ℕ
write_frame_u32 output offset value =
    set
      (set (set (set output offset (value / 2 ^ 24 % 256)) (offset + 1) (value / 2 ^ 16 % 256))
        (offset + 2) (value / 2 ^ 8 % 256))
      (offset + 3) (value % 256)

abbrev pub write_frame_u64 : List ℕ → ℕ → ℤ → List ℕ
write_frame_u64 output offset value = write_be 8 output offset (to_bits64 value)

abbrev pub read_frame_u16 : List ℕ → ℕ → ℕ
read_frame_u16 input offset = (get_or input offset 0 * 2 ^ 8 + get_or input (offset + 1) 0) % 2 ^ 16

abbrev pub read_frame_u32 : List ℕ → ℕ → ℕ
read_frame_u32 input offset =
    get_or input offset 0 * 2 ^ 24 % 2 ^ 32
    + get_or input (offset + 1) 0 * 2 ^ 16 % 2 ^ 32
    + get_or input (offset + 2) 0 * 2 ^ 8 % 2 ^ 32
    + get_or input (offset + 3) 0

abbrev pub read_frame_u64 : List ℕ → ℕ → ℤ
read_frame_u64 input offset = of_bits64 (read_be 8 input offset (2 ^ 64) 0)

pub of_bits64-to_bits64 : (v : ℤ) → IsInt64 v → of_bits64 (to_bits64 v) ≡ v
of_bits64-to_bits64 v h = ground arith

-- Writing eight digits and reading them back, whatever stands in front.
abbrev pub bytes8 : ℕ → List ℕ
bytes8 v =
    (v / 2 ^ 56 % 256)
    ∷ (v / 2 ^ 48 % 256)
    ∷ (v / 2 ^ 40 % 256)
    ∷ (v / 2 ^ 32 % 256)
    ∷ (v / 2 ^ 24 % 256)
    ∷ (v / 2 ^ 16 % 256)
    ∷ (v / 2 ^ 8 % 256)
    ∷ (v / 2 ^ 0 % 256)
    ∷ []

abbrev pub join8 : ℕ → ℕ → ℕ → ℕ → ℕ → ℕ → ℕ → ℕ → ℕ
join8 a b c d e f g h =
    let m : ℕ = 2 ^ 64 in
    ((((((((0 * 256 % m + a) * 256 % m + b) * 256 % m + c) * 256 % m + d) * 256 % m + e) * 256 % m
              + f)
            * 256
            % m
          + g)
        * 256
        % m
      + h)

pub join8_lem :
    (v : ℕ)
    → v < 2 ^ 64
    → join8
        (v / 2 ^ 56 % 256)
        (v / 2 ^ 48 % 256)
        (v / 2 ^ 40 % 256)
        (v / 2 ^ 32 % 256)
        (v / 2 ^ 24 % 256)
        (v / 2 ^ 16 % 256)
        (v / 2 ^ 8 % 256)
        (v / 2 ^ 0 % 256)
      ≡ v
join8_lem v h = omega arith

pub to_bits64-lt : (v : ℤ) → IsInt64 v → to_bits64 v < 2 ^ 64
to_bits64-lt v h = ground arith

-- Reading the eight bytes gives the number back.
pub of_bits64-bytes :
    (v : ℤ)
    → IsInt64 v
    → of_bits64 (
        join8
          (to_bits64 v / 2 ^ 56 % 256)
          (to_bits64 v / 2 ^ 48 % 256)
          (to_bits64 v / 2 ^ 40 % 256)
          (to_bits64 v / 2 ^ 32 % 256)
          (to_bits64 v / 2 ^ 24 % 256)
          (to_bits64 v / 2 ^ 16 % 256)
          (to_bits64 v / 2 ^ 8 % 256)
          (to_bits64 v / 2 ^ 0 % 256))
      ≡ v
of_bits64-bytes v h =
    ap of_bits64 (join8_lem (to_bits64 v) (to_bits64-lt v h)) ∙ of_bits64-to_bits64 v h

abbrev pub IsByte : ℕ → Type 0
IsByte b = b < 256
