-- ===== src/Drivers/Cmos.antt =====
-- kernel_driver_hub/src/driver_hub/cmos.rs: the clock. `read` is the hardware: it gives the value of a
-- register, a byte, in a round of the loop. Bytes are numbers below 256.
pub mod Days
pub mod Hours
mod Examples
use old_boruixkernel.Common.{
  ℕ, zero, suc, ◌+◌, ◌-◌, ◌*◌, ◌/◌, ◌%◌, Bool, true, false, Option, none, some, ltb, leb, ◌==◌,
  ◌&&◌, ◌||◌, if◌then◌else◌, not,
}

pub record RtcTime : Type 0 where
  pub sec : ℕ
  pub min : ℕ
  pub hour : ℕ
  pub day : ℕ
  pub month : ℕ
  pub year : ℕ
  pub century : ℕ

abbrev pub bcd_to_binary : ℕ → Bool → ℕ
bcd_to_binary value is_bcd = if is_bcd then value / 16 * 10 + value % 16 else value

unfoldable pub is_leap_year : ℕ → Bool
is_leap_year year = (year % 4 == 0 && not (year % 100 == 0)) || (year % 400 == 0)

abbrev pub days_in_month : ℕ → ℕ → ℕ
days_in_month year month =
    if month == 2
    then (if is_leap_year year then 29 else 28)
    else if (month == 4) || (month == 6) || (month == 9) || (month == 11)
    then 30
    else 31

-- The hour from its register: `hour & 0x7F` is converted, and then its bit 0x80 is tested.
abbrev pub hour_of : ℕ → Bool → Bool → ℕ
hour_of register is_bcd is_24h =
    let hour = bcd_to_binary (register % 128) is_bcd in
    let pm = (hour / 128) % 2 == 1 in
    if is_24h
    then hour
    else let later = if pm && ltb hour 12 then (hour + 12) % 256 else hour in
      if not pm && (later == 12) then 0 else later

-- What one round reads.
abbrev pub round_time : (ℕ → ℕ) → RtcTime
round_time read =
    let status_b = read 0x0b in
    let is_bcd = (status_b / 4) % 2 == 0 in
    let is_24h = not ((status_b / 2) % 2 == 0) in
    record {
      sec = bcd_to_binary (read 0x00) is_bcd;
      min = bcd_to_binary (read 0x02) is_bcd;
      hour = hour_of (read 0x04) is_bcd is_24h;
      day = bcd_to_binary (read 0x07) is_bcd;
      month = bcd_to_binary (read 0x08) is_bcd;
      year = bcd_to_binary (read 0x09) is_bcd;
      century = if read 0x32 == 0 then 2000 else bcd_to_binary (read 0x32) is_bcd * 100;
    }

abbrev pub same_time : RtcTime → RtcTime → Bool
same_time s t =
    (s.sec == t.sec)
    && (s.min == t.min)
    && (s.hour == t.hour)
    && (s.day == t.day)
    && (s.month == t.month)
    && (s.year == t.year)
    && (s.century == t.century)

-- `for _ in 0..5`, with `n` rounds left and the time of the last round.
unfoldable pub clock_rounds : (ℕ → ℕ → ℕ) → ℕ → ℕ → RtcTime → Option RtcTime
clock_rounds read zero i last = none
clock_rounds read (suc n) i last =
    let current = round_time (read i) in
    let skipped = clock_rounds read n (i + 1) last in
    let rest = clock_rounds read n (i + 1) current in
    if (read i 0x0a / 128) % 2 == 1
    then skipped
    else if same_time current last
    then some current
    else rest

unfoldable pub read_rtc_time : (ℕ → ℕ → ℕ) → Option RtcTime
unfolding clock_rounds
read_rtc_time read =
    clock_rounds read 5 0
      (record { sec = 0; min = 0; hour = 0; day = 0; month = 0; year = 0; century = 0 })

-- `for y in 2000..year`, with `n` years.
unfoldable pub year_days : ℕ → ℕ
year_days zero = 0
year_days (suc n) = year_days n + (if is_leap_year (2000 + n) then 366 else 365)

-- `for m in 1..month`, with `n` months.
unfoldable pub month_days : ℕ → ℕ → ℕ
month_days year zero = 0
month_days year (suc n) = month_days year n + days_in_month year (n + 1)

-- `day - 1` is on a byte.
unfoldable pub unix_seconds : RtcTime → ℕ
unfolding year_days month_days
unix_seconds t =
    let year = t.century + t.year in
    let days = year_days (year - 2000) + month_days year (t.month - 1) + (t.day + 255) % 256 in
    days * 86400 + t.hour * 3600 + t.min * 60 + t.sec
