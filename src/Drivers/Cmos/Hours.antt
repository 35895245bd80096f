-- ===== src/Drivers/Cmos/Hours.antt =====
-- The hour of a clock with twelve hours.
use old_boruixkernel.Common.{ℕ, ◌+◌, ◌%◌, ◌<◌, ◌≡◌, refl, Bool, false, arith}
use old_boruixkernel.Drivers.Cmos.{hour_of}

-- With twelve hours the bit for the afternoon, 0x80, has no influence: the hour read is the same with and
-- without it, in both encodings.
pub hour_of_afternoon :
    (register : ℕ) (is_bcd : Bool)
    → register < 128
    → hour_of (register + 128) is_bcd false ≡ hour_of register is_bcd false
hour_of_afternoon register is_bcd h =
    let e : (register + 128) % 128 ≡ register % 128 = omega arith in rw e refl
