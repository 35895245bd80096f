-- ===== src/Drivers/Cmos/Examples.antt =====
-- The theorems on the clock at concrete times.
use old_boruixkernel.Common.{◌+◌, ◌*◌, ◌≡◌, arith}
use old_boruixkernel.Drivers.Cmos.{RtcTime, unix_seconds}
use old_boruixkernel.Drivers.Cmos.Days.{day_number, unix_seconds-day_number}

-- The end of February in a leap year.
abbrev leap_day : RtcTime
leap_day = record { sec = 7; min = 30; hour = 12; day = 29; month = 2; year = 24; century = 2000 }

unix_seconds-day_number_example :
    unix_seconds leap_day + 730425 * 86400 ≡ day_number 2024 2 29 * 86400 + 12 * 3600 + 30 * 60 + 7
unix_seconds-day_number_example =
    unix_seconds-day_number leap_day (omega arith) (omega arith) (omega arith) (omega arith)
      (omega arith)
