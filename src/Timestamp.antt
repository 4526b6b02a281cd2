-- ===== src/Timestamp.antt =====
-- crates/canboat-core/src/format/timestamp.rs: the calendar and the canonical form of a timestamp; and
-- `format_iso` of crates/canboat-io/src/device/socketcan.rs, which prints milliseconds since 1970.
-- Integers of 64 bits are unbounded here, `as i32` wraps.
pub mod Calendar
pub mod Digits
pub mod UnixMs
use canboat_rs.Prelude.{
  ℕ, zero, suc, ◌+◌, ◌-◌, ◌*◌, ◌/◌, ◌%◌, List, [], ◌∷◌, ◌++◌, Option, none, some, Bool, true, false,
  not, ◌&&◌, ◌||◌, ltb, leb, ◌==◌, ◌>>=◌, if◌then◌else◌, length, take, drop, replicate, get_or,
}
use canboat_rs.Int.{
  ℤ, pos, negsuc, ◌+ℤ◌, ◌-ℤ◌, ◌*ℤ◌, pos_part, div_euclid, div_trunc, as_i32, ltb_ℤ,
}
use canboat_rs.Frame.{Text, to_string}

-- The part of `days_to_ymd` inside an era of 400 years, which begin on the first of March.
abbrev pub year_of_era : ℕ → ℕ
year_of_era doe = (doe - doe / 1460 + doe / 36524 - doe / 146096) / 365

abbrev pub days_before_year : ℕ → ℕ
days_before_year yoe = 365 * yoe + yoe / 4 - yoe / 100

abbrev pub month_of_mp : ℕ → ℕ
month_of_mp mp = if ltb mp 10 then mp + 3 else mp - 9

unfoldable pub days_to_ymd : ℤ → ℤ × ℕ × ℕ
days_to_ymd days =
    let z = days +ℤ pos 719468 in
    let era = div_euclid z 146097 in
    let doe = pos_part (z -ℤ era *ℤ pos 146097) in
    let yoe = year_of_era doe in
    let y = as_i32 (pos yoe +ℤ era *ℤ pos 400) in
    let doy = doe - days_before_year yoe in
    let mp = (5 * doy + 2) / 153 in
    let d = doy - (153 * mp + 2) / 5 + 1 in
    let m = month_of_mp mp in (if leb m 2 then y +ℤ pos 1 else y, m, d)

-- `days_since_epoch` of a month and a day that are not negative.
unfoldable pub epoch_day : ℤ → ℕ → ℕ → Option ℤ
epoch_day year m d =
    let y = if leb m 2 then year -ℤ pos 1 else year in
    let era = div_trunc (if ltb_ℤ y (pos 0) then y -ℤ pos 399 else y) 400 in
    let yoe = pos_part (y -ℤ era *ℤ pos 400) in
    let mp = if ltb 2 m then m - 3 else m + 9 in
    let doy = (153 * mp + 2) / 5 + d - 1 in
    let doe = days_before_year yoe + doy in
    if leb 1 m && leb m 12 && (leb 1 d && leb d 31)
    then some (era *ℤ pos 146097 +ℤ pos doe -ℤ pos 719468)
    else none

unfoldable pub days_since_epoch : ℤ → ℤ → ℤ → Option ℤ
days_since_epoch year (pos m) (pos d) = epoch_day year m d
days_since_epoch year (pos m) (negsuc d) = none
days_since_epoch year (negsuc m) d = none

-- `{:0w$}` of a number, and of a signed one.
unfoldable pub pad : ℕ → ℕ → Text
pad w n = let s = to_string n in replicate (w - length s) 48 ++ s

unfoldable pub pad_signed : ℕ → ℤ → Text
pad_signed w (pos n) = pad w n
pad_signed w (negsuc n) = 45 ∷ pad (w - 1) (suc n)

-- `YYYY-MM-DDTHH:MM:SS.mmmZ`.
unfoldable pub format_iso : ℕ → Text
format_iso ms =
    let secs = ms / 1000 in
    let (y, mo, d) = days_to_ymd (pos (secs / 86400)) in
    let tod = secs % 86400 in
    pad_signed 4 y
    ++ 45 ∷ pad 2 mo
    ++ 45 ∷ pad 2 d
    ++ 84 ∷ pad 2 (tod / 3600)
    ++ 58 ∷ pad 2 (tod % 3600 / 60)
    ++ 58 ∷ pad 2 (tod % 60)
    ++ 46 ∷ pad 3 (ms % 1000)
    ++ 90 ∷ []

abbrev pub is_digit : ℕ → Bool
is_digit c = leb 48 c && leb c 57

-- `parse::<i64>()` of a text of a few bytes: a sign or none, then digits.
unfoldable pub parse_digits : ℕ → Text → Option ℕ
parse_digits acc [] = some acc
parse_digits acc (c ∷ cs) =
    let rest = parse_digits (acc * 10 + (c - 48)) cs in if is_digit c then rest else none

unfoldable pub parse_unsigned : Text → Option ℕ
parse_unsigned [] = none
parse_unsigned (c ∷ cs) = parse_digits 0 (c ∷ cs)

unfoldable pub parse_i64 : Text → Option ℤ
parse_i64 [] = none
parse_i64 (c ∷ cs) =
    if c == 45
    then (do n ← parse_unsigned cs; some (pos 0 -ℤ pos n))
    else if c == 43
    then (do n ← parse_unsigned cs; some (pos n))
    else (do n ← parse_unsigned (c ∷ cs); some (pos n))

-- `b[i..j]`.
abbrev pub slice : ℕ → ℕ → Text → Text
slice i j b = take (j - i) (drop i b)

abbrev pub is_date_sep : ℕ → Bool
is_date_sep c = c == 84 || (c == 45 || c == 32)

abbrev pub has_seps : Text → Bool
has_seps b =
    get_or b 4 0 == 45
    && (get_or b 7 0 == 45
        && (is_date_sep (get_or b 10 0) && (get_or b 13 0 == 58 && get_or b 16 0 == 58)))

-- The milliseconds, 0 where there are none.
unfoldable pub fraction_ms : Text → ℤ
fraction_ms b =
    if leb 23 (length b) && (get_or b 19 0 == 46 || get_or b 19 0 == 44)
    then elim (parse_i64 (slice 20 23 b)) [ some v ↦ v | none ↦ pos 0 ]
    else pos 0

unfoldable pub to_unix_ms : Text → Option ℤ
to_unix_ms b = if ltb (length b) 19 then none else do
  y ← parse_i64 (slice 0 4 b)
  mo ← parse_i64 (slice 5 7 b)
  d ← parse_i64 (slice 8 10 b)
  h ← parse_i64 (slice 11 13 b)
  mi ← parse_i64 (slice 14 16 b)
  s ← parse_i64 (slice 17 19 b)
  days ← if has_seps b then days_since_epoch y mo d else none
  let secs = days *ℤ pos 86400 +ℤ h *ℤ pos 3600 +ℤ mi *ℤ pos 60 +ℤ s
  some (secs *ℤ pos 1000 +ℤ fraction_ms b)
