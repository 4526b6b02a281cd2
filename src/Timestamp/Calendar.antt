-- ===== src/Timestamp/Calendar.antt =====
-- The calendar: a day number is the same after a trip through year, month and day.
use canboat_rs.Prelude.{
  ℕ, ◌+◌, ◌-◌, ◌*◌, ◌/◌, ◌≤◌, ◌<◌, ◌≡◌, refl, arith, some, true, ◌&&◌, ltb, leb, if◌then◌else◌,
}
use canboat_rs.Int.{
  ℤ, pos, negsuc, ◌+ℤ◌, ◌-ℤ◌, ◌*ℤ◌, pos_part, neg_part, div_euclid, div_trunc, as_i32, ltb_ℤ,
  +ℤ_cancel,
}
use canboat_rs.Timestamp.{
  year_of_era, days_before_year, month_of_mp, days_to_ymd, days_since_epoch, epoch_day,
}

-- Inside an era: the year of a day begins on or before it, and has at most 366 days.
year_of_era-bound :
    (doe : ℕ)
    → doe < 146097
    → (year_of_era doe ≤ 399)
      × (days_before_year (year_of_era doe) ≤ doe)
      × (doe - days_before_year (year_of_era doe) ≤ 365)
year_of_era-bound doe h = (omega arith, omega arith, omega arith)

-- Inside a year, which begins in March.
abbrev mp_of : ℕ → ℕ
mp_of doy = (5 * doy + 2) / 153

abbrev day_of : ℕ → ℕ
day_of doy = doy - (153 * ((5 * doy + 2) / 153) + 2) / 5 + 1

day_of-bound :
    (doy : ℕ)
    → doy ≤ 365
    → (mp_of doy ≤ 11)
      × (1 ≤ day_of doy)
      × (day_of doy ≤ 31)
      × ((153 * mp_of doy + 2) / 5 + day_of doy - 1 ≡ doy)
day_of-bound doy h = (omega arith, omega arith, omega arith, omega arith)

month_of_mp-bound :
    (mp : ℕ)
    → mp ≤ 11
    → let m = month_of_mp mp in (1 ≤ m) × (m ≤ 12) × ((if ltb 2 m then m - 3 else m + 9) ≡ mp)
month_of_mp-bound mp h = (ground arith, ground arith, ground arith)

-- A day number by its era and the day in it.
abbrev era_of : ℤ → ℤ
era_of days = div_euclid (days +ℤ pos 719468) 146097

abbrev day_of_era : ℤ → ℕ
day_of_era days = pos_part (days +ℤ pos 719468 -ℤ era_of days *ℤ pos 146097)

split_era :
    (z : ℤ)
    → let doe = pos_part (z -ℤ div_euclid z 146097 *ℤ pos 146097) in
      (doe < 146097) × (div_euclid z 146097 *ℤ pos 146097 +ℤ pos doe ≡ z)
unfolding ◌-ℤ◌ ◌+ℤ◌ ◌*ℤ◌ div_euclid
split_era (pos n) = (ground arith, ground arith)
split_era (negsuc n) = (ground arith, ground arith)

-- The years of these days fit an i32.
abbrev pub IsNear : ℤ → Type 0
IsNear days = (pos_part days < 700_000_000_000) × (neg_part days < 700_000_000_000)

era-IsNear :
    (days : ℤ)
    → IsNear days
    → (pos_part (era_of days) < 4_800_000) × (neg_part (era_of days) < 4_800_000)
unfolding ◌+ℤ◌ div_euclid
era-IsNear (pos n) (h, k) = (ground arith, ground arith)
era-IsNear (negsuc n) (h, k) = (ground arith, ground arith)

as_i32_id :
    (era : ℤ) (yoe : ℕ)
    → yoe ≤ 399
    → pos_part era < 4_800_000
    → neg_part era < 4_800_000
    → as_i32 (pos yoe +ℤ era *ℤ pos 400) ≡ pos yoe +ℤ era *ℤ pos 400
unfolding ◌+ℤ◌ ◌*ℤ◌ as_i32
as_i32_id (pos e) yoe h k l = ground arith
as_i32_id (negsuc e) yoe h k l = ground arith

era_of_year :
    (era : ℤ) (yoe : ℕ)
    → yoe ≤ 399
    → let y = pos yoe +ℤ era *ℤ pos 400 in
      (div_trunc (if ltb_ℤ y (pos 0) then y -ℤ pos 399 else y) 400 ≡ era)
      × (pos_part (y -ℤ era *ℤ pos 400) ≡ yoe)
unfolding ◌-ℤ◌ ◌+ℤ◌ ◌*ℤ◌ div_trunc
era_of_year (pos e) yoe h = (ground arith, ground arith)
era_of_year (negsuc e) yoe h = (ground arith, ground arith)

-- January and February belong to the year before.
year_back :
    (m : ℕ) (y : ℤ)
    → let year = if leb m 2 then y +ℤ pos 1 else y in (if leb m 2 then year -ℤ pos 1 else year) ≡ y
unfolding ◌-ℤ◌ ◌+ℤ◌
year_back m y = ground arith

in_range :
    (m d : ℕ)
    → 1 ≤ m
    → m ≤ 12
    → 1 ≤ d
    → d ≤ 31
    → (leb 1 m && leb m 12 && (leb 1 d && leb d 31)) ≡ true
in_range m d a b c e = ground arith

-- For every day less than 7 * 10^11 days from 1970-01-01: `days_to_ymd` gives a month of 1 to 12 and
-- a day of 1 to 31, and `days_since_epoch` of the date that it gives is that day again.
pub days_since_epoch-days_to_ymd :
    (days : ℤ)
    → IsNear days
    → let date = days_to_ymd days in
      (1 ≤ date.1)
      × (date.1 ≤ 12)
      × (1 ≤ date.2)
      × (date.2 ≤ 31)
      × (days_since_epoch date.0 (pos date.1) (pos date.2) ≡ some days)
unfolding days_to_ymd days_since_epoch epoch_day
days_since_epoch-days_to_ymd days near =
    let z = days +ℤ pos 719468 in
    let era = era_of days in
    let doe = day_of_era days in
    let (doe_lt, whole) = split_era z in
    let (yoe_le, begins, doy_le) = year_of_era-bound doe doe_lt in
    let yoe = year_of_era doe in
    let doy = doe - days_before_year yoe in
    let (mp_le, d_ge, d_le, doy_back) = day_of-bound doy doy_le in
    let (m_ge, m_le, mp_back) = month_of_mp-bound (mp_of doy) mp_le in
    let (era_pos, era_neg) = era-IsNear days near in
    let narrow = as_i32_id era yoe yoe_le era_pos era_neg in
    let m = month_of_mp (mp_of doy) in
    let (era_back, yoe_back) = era_of_year era yoe yoe_le in
    let doe_back : days_before_year yoe + doy ≡ doe = omega arith in
    let days_back : z -ℤ pos 719468 ≡ days = +ℤ_cancel days (pos 719468) in
    let year = year_back m (pos yoe +ℤ era *ℤ pos 400) in
    let ok = in_range m (day_of doy) m_ge m_le d_ge d_le in
    (
      m_ge,
      m_le,
      d_ge,
      d_le,
      rw (narrow, year, era_back, yoe_back, mp_back, doy_back, doe_back, ok, whole, days_back) refl,
    )
