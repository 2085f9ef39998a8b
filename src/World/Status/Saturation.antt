-- ===== src/World/Status/Saturation.antt =====
-- Gains saturate at zero and at the largest `long`, and no step of them overflows.
use seed_origin.Base.{
  ◌≡◌, ℤ, pos, negsuc, ◌+ℤ◌, ◌-ℤ◌, ◌≤ℤ◌, ltb_ℤ, int64_max, IsInt64, arith, if◌then◌else◌,
}
use seed_origin.World.Status.{Status, IsValidStatus, gain, gain_hp, gain_mp}

-- The sum, held to the interval from 0 to the largest `long`.
unfoldable pub clamped_sum : ℤ → ℤ → ℤ
clamped_sum value amount =
    let sum = value +ℤ amount in
    if ltb_ℤ sum (pos 0) then pos 0 else if ltb_ℤ (pos int64_max) sum then pos int64_max else sum

-- The gain of a count from 0 to the largest long is the sum held to that interval, for every
-- amount that a long holds.
pub gain-eq-clamped_sum :
    (value amount : ℤ)
    → pos 0 ≤ℤ value
    → value ≤ℤ pos int64_max
    → IsInt64 amount
    → gain value amount ≡ clamped_sum value amount
unfolding gain clamped_sum ◌+ℤ◌ ◌-ℤ◌
gain-eq-clamped_sum value amount h k i = ground arith

-- The intermediate results of both branches are `long`s: there is no undefined overflow.
pub gain_no_overflow :
    (value amount : ℤ)
    → pos 0 ≤ℤ value
    → value ≤ℤ pos int64_max
    → IsInt64 amount
    → (pos 1 ≤ℤ amount → IsInt64 (pos int64_max -ℤ amount))
      × (amount ≤ℤ negsuc 0 → IsInt64 (amount +ℤ pos 1) × IsInt64 (pos 0 -ℤ (amount +ℤ pos 1)))
unfolding ◌+ℤ◌ ◌-ℤ◌
gain_no_overflow value amount h k i = ground arith

-- Gaining hit points keeps both counts of a status from 0 to the largest long, for every amount
-- that a long holds.
pub gain_hp-IsValid :
    (s : Status) (v : ℤ) → IsInt64 v → IsValidStatus s → IsValidStatus (gain_hp s v)
unfolding gain ◌+ℤ◌ ◌-ℤ◌
gain_hp-IsValid s v i h = ground arith

pub gain_mp-IsValid :
    (s : Status) (v : ℤ) → IsInt64 v → IsValidStatus s → IsValidStatus (gain_mp s v)
unfolding gain ◌+ℤ◌ ◌-ℤ◌
gain_mp-IsValid s v i h = ground arith
