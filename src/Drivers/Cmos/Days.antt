-- ===== src/Drivers/Cmos/Days.antt =====
-- The days of `unix_seconds`, beside the closed form of the number of a day of the calendar.
use old_boruixkernel.Common.{
  ℕ, zero, suc, ◌+◌, ◌-◌, ◌*◌, ◌/◌, ◌≤◌, ◌≡◌, refl, sym, ap, ◌∙◌, subst, leb, if◌then◌else◌, arith,
  Bool-cases, inl, inr,
}
use old_boruixkernel.Drivers.Cmos.{RtcTime, is_leap_year, year_days, month_days, unix_seconds}

-- The days of `y` years of the Gregorian calendar.
abbrev pub gregorian_days : ℕ → ℕ
gregorian_days y = 365 * y + y / 4 + y / 400 - y / 100

-- The number of a day: a year begins in March here, so that a leap day is its last, and the months
-- have 31, 30, 31, 30 and 31 days by fives.
abbrev pub day_number : ℕ → ℕ → ℕ → ℕ
day_number y m d =
    if leb m 2
    then gregorian_days (y - 1) + (153 * (m + 9) + 2) / 5 + d - 1
    else gregorian_days y + (153 * (m - 3) + 2) / 5 + d - 1

-- A year is 365 days and the leap day.
year_length :
    (y : ℕ)
    → gregorian_days (y + 1) ≡ gregorian_days y + (if is_leap_year (y + 1) then 366 else 365)
unfolding is_leap_year
year_length y = ground arith

years : (n : ℕ) → year_days n + 730425 ≡ gregorian_days (1999 + n) + 306
unfolding year_days
years zero = refl
years (suc n) =
    let e : 1999 + n + 1 ≡ 2000 + n = omega arith in
    let k : 1999 + suc n ≡ 2000 + n = omega arith in
    let step : gregorian_days (2000 + n)
        ≡ gregorian_days (1999 + n) + (if is_leap_year (2000 + n) then 366 else 365) =
      subst
        (λ z. gregorian_days z ≡ gregorian_days (1999 + n) + (if is_leap_year z then 366 else 365))
        e (year_length (1999 + n)) in
    let h = years n in
    let sum : year_days n + (if is_leap_year (2000 + n) then 366 else 365) + 730425
        ≡ gregorian_days (2000 + n) + 306 =
      omega (arith, h, step) in
    sum ∙ ap (λ z. gregorian_days z + 306) (sym k)

-- The days before a month, in a year that begins in January; `k` months are before it.
months :
    (y k : ℕ)
    → k ≤ 11
    → month_days y k + 306 ≡ (
        if leb (k + 1) 2
        then (153 * (k + 1 + 9) + 2) / 5
        else (153 * (k + 1 - 3) + 2) / 5 + (if is_leap_year y then 366 else 365))
unfolding month_days
months y zero h = refl
months y (suc zero) h = refl
months y (suc (suc zero)) h = elim (Bool-cases (is_leap_year y)) [
  | inl l ↦ rw l refl
  | inr l ↦ rw l refl
]
months y (suc (suc (suc zero))) h = elim (Bool-cases (is_leap_year y)) [
  | inl l ↦ rw l refl
  | inr l ↦ rw l refl
]
months y (suc (suc (suc (suc zero)))) h = elim (Bool-cases (is_leap_year y)) [
  | inl l ↦ rw l refl
  | inr l ↦ rw l refl
]
months y (suc (suc (suc (suc (suc zero))))) h = elim (Bool-cases (is_leap_year y)) [
  | inl l ↦ rw l refl
  | inr l ↦ rw l refl
]
months y (suc (suc (suc (suc (suc (suc zero)))))) h = elim (Bool-cases (is_leap_year y)) [
  | inl l ↦ rw l refl
  | inr l ↦ rw l refl
]
months y (suc (suc (suc (suc (suc (suc (suc zero))))))) h = elim (Bool-cases (is_leap_year y)) [
  | inl l ↦ rw l refl
  | inr l ↦ rw l refl
]
months y (suc (suc (suc (suc (suc (suc (suc (suc zero)))))))) h =
    elim (Bool-cases (is_leap_year y)) [ inl l ↦ rw l refl | inr l ↦ rw l refl ]
months y (suc (suc (suc (suc (suc (suc (suc (suc (suc zero))))))))) h =
    elim (Bool-cases (is_leap_year y)) [ inl l ↦ rw l refl | inr l ↦ rw l refl ]
months y (suc (suc (suc (suc (suc (suc (suc (suc (suc (suc zero)))))))))) h =
    elim (Bool-cases (is_leap_year y)) [ inl l ↦ rw l refl | inr l ↦ rw l refl ]
months y (suc (suc (suc (suc (suc (suc (suc (suc (suc (suc (suc zero))))))))))) h =
    elim (Bool-cases (is_leap_year y)) [ inl l ↦ rw l refl | inr l ↦ rw l refl ]
months y (suc (suc (suc (suc (suc (suc (suc (suc (suc (suc (suc (suc n)))))))))))) h =
    absurd (omega arith)

-- The seconds of `unix_seconds` are those of the number of the day, counted from the first of January 2000,
-- for every date of the years from 2000 on.
pub unix_seconds-day_number :
    (t : RtcTime)
    → 2000 ≤ t.century + t.year
    → 1 ≤ t.month
    → t.month ≤ 12
    → 1 ≤ t.day
    → t.day ≤ 255
    → unix_seconds t + 730425 * 86400
      ≡ day_number (t.century + t.year) t.month t.day * 86400 + t.hour * 3600 + t.min * 60 + t.sec
unfolding unix_seconds
unix_seconds-day_number t since lo hi first last =
    let y = t.century + t.year in
    let days = years (y - 2000) in
    let e : 1999 + (y - 2000) ≡ y - 1 = omega arith in
    let before : year_days (y - 2000) + 730425 ≡ gregorian_days (y - 1) + 306 =
      subst (λ z. year_days (y - 2000) + 730425 ≡ gregorian_days z + 306) e days in
    let back : y - 1 + 1 ≡ y = omega arith in
    let year : gregorian_days y ≡ gregorian_days (y - 1) + (if is_leap_year y then 366 else 365) =
      subst (λ z. gregorian_days z ≡ gregorian_days (y - 1) + (if is_leap_year z then 366 else 365))
        back (year_length (y - 1)) in
    let same : t.month - 1 + 1 ≡ t.month = omega arith in
    let month = months y (t.month - 1) (omega arith) in
    elim (Bool-cases (leb t.month 2)) [
      | inl early ↦
          let table : month_days y (t.month - 1) + 306 ≡ (153 * (t.month + 9) + 2) / 5 =
            rw (same, early) at month in
          rw (unix_seconds, early) (omega (arith, before, table))
      | inr late ↦
          let table : month_days y (t.month - 1) + 306
              ≡ (153 * (t.month - 3) + 2) / 5 + (if is_leap_year y then 366 else 365) =
            rw (same, late) at month in
          rw (unix_seconds, late) (omega (arith, before, year, table))
    ]
