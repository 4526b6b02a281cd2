-- ===== src/Timestamp/UnixMs.antt =====
-- A time that is printed is read back.
use canboat_rs.Prelude.{
  ℕ, ◌+◌, ◌-◌, ◌*◌, ◌/◌, ◌%◌, ◌≤◌, ◌<◌, ◌≡◌, refl, sym, ap, ◌∙◌, arith, [], ◌∷◌, some, Bool, true,
  false, leb, if◌then◌else◌,
}
use canboat_rs.Int.{pos, ◌+ℤ◌, ◌-ℤ◌, ◌*ℤ◌, div_euclid, as_i32}
use canboat_rs.Frame.{Text}
use canboat_rs.Timestamp.{
  days_to_ymd, days_since_epoch, pad_signed, format_iso, fraction_ms, to_unix_ms, year_of_era,
  days_before_year, month_of_mp,
}
use canboat_rs.Timestamp.Calendar.{days_since_epoch-days_to_ymd}
use canboat_rs.Timestamp.Digits.{
  digit, pad_two, pad_three, pad_four, parse_two, parse_three, parse_four,
}

abbrev two : ℕ → Text → Text
two n rest = digit (n / 10) ∷ digit n ∷ rest

abbrev three : ℕ → Text → Text
three n rest = digit (n / 10 / 10) ∷ two n rest

abbrev four : ℕ → Text → Text
four n rest = digit (n / 10 / 10 / 10) ∷ three n rest

-- `YYYY-MM-DDTHH:MM:SS.mmmZ`, digit by digit.
abbrev iso_text : ℕ → ℕ → ℕ → ℕ → ℕ → ℕ → ℕ → Text
iso_text y mo d h mi s ms =
    four y
      (45 ∷ two mo (45 ∷ two d (84 ∷ two h (58 ∷ two mi (58 ∷ two s (46 ∷ three ms (90 ∷ [])))))))

pos-add : (a b : ℕ) → pos a +ℤ pos b ≡ pos (a + b)
unfolding ◌+ℤ◌
pos-add a b = ground arith

pos-mul : (a b : ℕ) → pos a *ℤ pos b ≡ pos (a * b)
unfolding ◌*ℤ◌
pos-mul a b = ground arith

unix_ms :
    (days h mi s ms : ℕ)
    → (pos days *ℤ pos 86400 +ℤ pos h *ℤ pos 3600 +ℤ pos mi *ℤ pos 60 +ℤ pos s) *ℤ pos 1000
        +ℤ pos ms
      ≡ pos ((days * 86400 + h * 3600 + mi * 60 + s) * 1000 + ms)
unix_ms days h mi s ms = simp (pos-add, pos-mul) refl

to_unix_ms-iso_text :
    (y mo d h mi s ms days : ℕ)
    → y < 10000
    → mo < 100
    → d < 100
    → h < 100
    → mi < 100
    → s < 100
    → ms < 1000
    → days_since_epoch (pos y) (pos mo) (pos d) ≡ some (pos days)
    → to_unix_ms (iso_text y mo d h mi s ms)
      ≡ some (pos ((days * 86400 + h * 3600 + mi * 60 + s) * 1000 + ms))
unfolding to_unix_ms fraction_ms
to_unix_ms-iso_text y mo d h mi s ms days hy hmo hd hh hmi hs hms e =
    let a = parse_four y hy in
    let b = parse_two mo hmo in
    let c = parse_two d hd in
    let p = parse_two h hh in
    let q = parse_two mi hmi in
    let r = parse_two s hs in
    let t = parse_three ms hms in rw (a, b, c, p, q, r, t, e) (ap some (unix_ms days h mi s ms))

-- Inside the era of a day before the year 10000.
year_of-bound :
    (z : ℕ)
    → 719468 ≤ z
    → z < 3652365
    → let yoe = year_of_era (z % 146097) in
      let mp = (5 * (z % 146097 - days_before_year yoe) + 2) / 153 in
      let year = yoe + z / 146097 * 400 in
      (1000 ≤ year) × (year < 10000) × (leb (month_of_mp mp) 2 ≡ true → year + 1 < 10000)
year_of-bound z h k = (omega arith, omega arith, λ e. ground arith)

as_i32-pos : (k : ℕ) → k < 10000 → as_i32 (pos k) ≡ pos k
unfolding as_i32
as_i32-pos k h = ground arith

pos-sub : (a b : ℕ) → b ≤ a → pos a -ℤ pos b ≡ pos (a - b)
unfolding ◌-ℤ◌
pos-sub a b h = ground arith

year_if :
    (b : Bool) (y : ℕ)
    → 1000 ≤ y
    → y < 10000
    → (b ≡ true → y + 1 < 10000)
    → (year : ℕ) × ((if b then pos y +ℤ pos 1 else pos y) ≡ pos year)
      × (1000 ≤ year)
      × (year < 10000)
year_if true y h k l = (y + 1, pos-add y 1, omega arith, l refl)
year_if false y h k l = (y, refl, h, k)

year-days_to_ymd :
    (n : ℕ) → n < 2932897 → (y : ℕ) × ((days_to_ymd (pos n)).0 ≡ pos y) × (1000 ≤ y) × (y < 10000)
unfolding days_to_ymd div_euclid
year-days_to_ymd n h =
    let z = n + 719468 in
    let sum = pos-add n 719468 in
    let era = pos-mul (z / 146097) 146097 in
    let years = pos-mul (z / 146097) 400 in
    let rest : pos z -ℤ pos (z / 146097 * 146097) ≡ pos (z % 146097) =
      pos-sub z (z / 146097 * 146097) (omega arith) ∙ ap pos (omega arith) in
    let yoe = year_of_era (z % 146097) in
    let (low, high, top) = year_of-bound z (omega arith) (omega arith) in
    let year = pos-add yoe (z / 146097 * 400) in
    let narrow = as_i32-pos (yoe + z / 146097 * 400) high in
    rw (sum, era, rest, years, year, narrow) (year_if _ _ low high top)

-- For every time before the year 10000, in milliseconds since 1970: the text that `format_iso`
-- prints is read by `to_unix_ms` as that time.
pub to_unix_ms-format_iso :
    (ms : ℕ) → ms < 253402300800000 → to_unix_ms (format_iso ms) ≡ some (pos ms)
unfolding format_iso pad_signed
to_unix_ms-format_iso ms h =
    let n = ms / 1000 / 86400 in
    let tod = ms / 1000 % 86400 in
    let (y, e, low, high) = year-days_to_ymd n (omega arith) in
    let (m_ge, m_le, d_ge, d_le, back) =
      days_since_epoch-days_to_ymd (pos n) (omega arith, omega arith) in
    let mo = (days_to_ymd (pos n)).1 in
    let d = (days_to_ymd (pos n)).2 in
    let a = pad_four y low high in
    let b = pad_two mo (omega arith) in
    let c = pad_two d (omega arith) in
    let p = pad_two (tod / 3600) (omega arith) in
    let q = pad_two (tod % 3600 / 60) (omega arith) in
    let r = pad_two (tod % 60) (omega arith) in
    let t = pad_three (ms % 1000) (omega arith) in
    let read =
      to_unix_ms-iso_text y mo d (tod / 3600) (tod % 3600 / 60) (tod % 60) (ms % 1000) n high
        (omega arith) (omega arith) (omega arith) (omega arith) (omega arith) (omega arith)
        (rw (sym e) back) in
    rw (e, a, b, c, p, q, r, t) (read ∙ ap some (ap pos (omega arith)))
