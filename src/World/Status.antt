-- ===== src/World/Status.antt =====
-- include/seed/Status.h and src/Status.cpp: hit points and magic points, which saturate.
pub mod Saturation
use seed_origin.Base.{
  ℕ, Bool, ℤ, pos, negsuc, ◌+ℤ◌, ◌-ℤ◌, ltb_ℤ, leb_ℤ, ◌≤ℤ◌, int64_max, if◌then◌else◌,
}

pub record Status : Type 0 where
  pub hp : ℤ
  pub mp : ℤ

abbrev pub floor_zero : ℤ → ℤ
floor_zero v = if ltb_ℤ v (pos 0) then pos 0 else v

-- `Status::Status()`
abbrev pub no_status : Status
no_status = record { hp = pos 0; mp = pos 0 }

-- `Status::Status(long, long)`
abbrev pub make_status : ℤ → ℤ → Status
make_status hp mp = record { hp = floor_zero hp; mp = floor_zero mp }

abbrev pub set_hp : Status → ℤ → Status
set_hp s v = record s { hp = floor_zero v }

abbrev pub set_mp : Status → ℤ → Status
set_mp s v = record s { mp = floor_zero v }

-- The body that `gainHp` and `gainMp` share.
unfoldable pub gain : ℤ → ℤ → ℤ
unfolding ◌+ℤ◌ ◌-ℤ◌
gain value amount =
    let max_value = pos int64_max in
    if ltb_ℤ (pos 0) amount
    then (if ltb_ℤ (max_value -ℤ amount) value then max_value else value +ℤ amount)
    else if ltb_ℤ amount (pos 0)
    then (let magnitude_without_one = pos 0 -ℤ (amount +ℤ pos 1) in
        if leb_ℤ value magnitude_without_one
        then pos 0
        else value -ℤ magnitude_without_one -ℤ pos 1)
    else value

abbrev pub gain_hp : Status → ℤ → Status
gain_hp s v = record s { hp = gain s.hp v }

abbrev pub gain_mp : Status → ℤ → Status
gain_mp s v = record s { mp = gain s.mp v }

-- What every status satisfies: both counts are non-negative `long`s.
pub record IsValidStatus (s : Status) : Type 0 where
  pub hp_nonneg : pos 0 ≤ℤ s.hp
  pub hp_fits : s.hp ≤ℤ pos int64_max
  pub mp_nonneg : pos 0 ≤ℤ s.mp
  pub mp_fits : s.mp ≤ℤ pos int64_max
