-- ===== src/Tests/Schedules.antt =====
-- The theorems on the calendar, the request engine, the filter and the supervisor at concrete inputs.
use canboat_rs.Prelude.{
  ℕ, ◌+◌, ◌≤◌, ◌<◌, ◌≡◌, ◌≢◌, refl, inr, ◌⊎◌, arith, List, [], ◌∷◌, map, none, some, true, false,
  leb, ◌==◌, if◌then◌else◌,
}
use canboat_rs.Int.{pos, negsuc}
use canboat_rs.Timestamp.{days_to_ymd, days_since_epoch, format_iso, to_unix_ms}
use canboat_rs.Timestamp.Calendar.{days_since_epoch-days_to_ymd}
use canboat_rs.Timestamp.UnixMs.{to_unix_ms-format_iso}
use canboat_rs.RequestEngine.{
  RequestKind, claim, product_info, Devices, DeviceState, next_due, first_due, is_due,
  note_device_seen, stamp,
}
use canboat_rs.RequestEngine
use canboat_rs.RequestEngine.Fairness.{
  Call, IsAsked, asked_by-IsAsked, ask, ask_other, seen, asked_by, asked_by_spacing,
}
use canboat_rs.Frame.{Text}
use canboat_rs.NmeaFilter.{NmeaFilter, set, sentence_formatter}
use canboat_rs.NmeaFilter.Rules.{rule_of, IsChanged, set-rule_of}
use canboat_rs.NmeaFilter.Lines.{ended, lines_where, passes}
use canboat_rs.Supervisor.{sleep_interruptible}
use canboat_rs.Supervisor.Backoff.{sleep_interruptible-ends}

-- The last day of 1969.
days_since_epoch-days_to_ymd_example :
    let date = days_to_ymd (negsuc 0) in
    (1 ≤ date.1)
    × (date.1 ≤ 12)
    × (1 ≤ date.2)
    × (date.2 ≤ 31)
    × (days_since_epoch date.0 (pos date.1) (pos date.2) ≡ some (negsuc 0))
days_since_epoch-days_to_ymd_example =
    days_since_epoch-days_to_ymd (negsuc 0) (omega arith, omega arith)

to_unix_ms-format_iso_example :
    to_unix_ms (format_iso 1_745_600_721_993) ≡ some (pos 1_745_600_721_993)
to_unix_ms-format_iso_example = to_unix_ms-format_iso 1_745_600_721_993 (omega arith)

-- Traffic of the sources 7 and 9.
abbrev devices : Devices
devices = note_device_seen (note_device_seen RequestEngine.new 1000 129025 7) 1000 129025 9

-- The two requests, and what is seen and asked between them.
abbrev calls : List Call
calls = ask 2000 ∷ seen 2500 126996 7 ∷ ask_other 2600 0 ∷ ask 3000 ∷ []

asked_by-IsAsked_example : IsAsked 7 (asked_by devices 6 claim calls)
unfolding note_device_seen RequestEngine.received
asked_by-IsAsked_example =
    asked_by-IsAsked claim 2000 calls devices 6 7 (omega arith) (omega arith) refl
      (omega arith, tt, (omega arith, inr (omega arith), (omega arith, tt, (omega arith, tt, tt))))
      (omega arith)

abbrev later_calls : List Call
later_calls = ask 3000 ∷ seen 4000 60928 7 ∷ ask_other 5000 3 ∷ ask 301999 ∷ []

asked_by_spacing_example :
    let r = next_due devices 6 claim 2000 in ¬ IsAsked 7 (asked_by r.0 r.1 claim later_calls)
unfolding note_device_seen RequestEngine.received next_due first_due
asked_by_spacing_example = asked_by_spacing claim 2000 later_calls devices 6 7 (omega arith) refl (
  omega arith,
  omega arith,
  (omega arith, omega arith, (omega arith, omega arith, (omega arith, omega arith, tt))),
)

-- One source, 7, has claimed the NAME 0xabc.
abbrev filter : NmeaFilter
filter = record {
  src_name = λ a. if a == 7 then some 0xabc else none;
  rules = [];
  observed = λ _. [];
}

abbrev vhw : List ℕ
vhw = 86 ∷ 72 ∷ 87 ∷ []

set-rule_of_example :
    let r = set filter 7 vhw true in
    ((name : ℕ) × (filter.src_name 7 ≡ some name)
      × (r.1 ≡ true)
      × IsChanged (rule_of filter name) vhw true (rule_of r.0 name)
      × ((other : ℕ) → other ≢ name → rule_of r.0 other ≡ rule_of filter other))
    ⊎ ((filter.src_name 7 ≡ none) × (r ≡ (filter, false)))
set-rule_of_example = set-rule_of filter 7 vhw true

-- A filter that mutes this sentence of the source, and two lines of it, `$IIVHW,1` and `$IIHDG,2`.
abbrev no_vhw : NmeaFilter
no_vhw = record filter {
  rules = (0xabc, record { muted = false; muted_sentences = vhw ∷ [] }) ∷ [];
}

abbrev bodies : List Text
bodies =
    (36 ∷ 73 ∷ 73 ∷ 86 ∷ 72 ∷ 87 ∷ 44 ∷ 49 ∷ []) ∷ (36 ∷ 73 ∷ 73 ∷ 72 ∷ 68 ∷ 71 ∷ 44 ∷ 50 ∷ []) ∷ []

-- Only the second line passes.
second_line_passes :
    lines_where (passes no_vhw 7) (map ended bodies)
    ≡ (36 ∷ 73 ∷ 73 ∷ 72 ∷ 68 ∷ 71 ∷ 44 ∷ 50 ∷ 10 ∷ []) ∷ []
unfolding sentence_formatter
second_line_passes = refl

sleep_interruptible-ends_example :
    let t = sleep_interruptible 500 (λ e. leb 120 e) 0 500 in
    (sleep_interruptible (500 + 3) (λ e. leb 120 e) 0 500 ≡ t)
    × (t ≤ 500)
    × (((e : ℕ) → leb 120 e ≡ false) → t ≡ 500)
    × ((at : ℕ) → ((e : ℕ) → at ≤ e → leb 120 e ≡ true) → t < at + 50)
sleep_interruptible-ends_example = sleep_interruptible-ends 500 3 (λ e. leb 120 e)
