-- ===== src/FieldBits/Sentinel.antt =====
-- The tests of crates/canboat-core/src/bits.rs for values that stand for no value.
use canboat_rs.Prelude.{
  ℕ, ◌≡◌, refl, Option, none, some, Bool, false, ◌&&◌, ◌==◌, ltb, if◌then◌else◌,
}
use canboat_rs.Int.{ℤ, pos, ltb_ℤ, ◌-ℤ◌}
use canboat_rs.FieldBits.{Extracted}

-- By the width alone: the top value, or the top two of three bits and more.
abbrev pub reserved_values : ℤ → ℕ
reserved_values most = if ltb_ℤ (pos 6) most then 2 else if ltb_ℤ (pos 1) most then 1 else 0

unfoldable pub is_unavailable : Extracted → Bool
is_unavailable e =
    let reserved = reserved_values e.max in ltb 0 reserved && ltb_ℤ (e.max -ℤ pos reserved) e.value

-- By the hints of the schema.
pub data Sentinel : Type 0 where
  legitimate unknown out_of_range reserved : Sentinel

abbrev pub is_hint : Option ℕ → ℕ → Bool
is_hint none raw = false
is_hint (some v) raw = v == raw

unfoldable pub classify_sentinel : Extracted → Option ℕ → Option ℕ → Option ℕ → Sentinel
classify_sentinel e unknown_value out_of_range_value reserved_value =
    if is_hint unknown_value e.raw
    then unknown
    else if is_hint out_of_range_value e.raw
    then out_of_range
    else if is_hint reserved_value e.raw
    then reserved
    else legitimate

-- No hint names this raw value.
pub classify_sentinel-none :
    (e : Extracted) (u o r : Option ℕ)
    → is_hint u e.raw ≡ false
    → is_hint o e.raw ≡ false
    → is_hint r e.raw ≡ false
    → classify_sentinel e u o r ≡ legitimate
unfolding classify_sentinel
classify_sentinel-none e u o r hu ho hr = rw (hu, ho, hr) refl
