-- ===== src/Decode/Access.antt =====
-- What a decoded message and its fields are asked for.
use canboat_rs.Prelude.{
  ℕ, ◌+◌, ◌-◌, ◌*◌, ◌^◌, ◌%◌, List, [], ◌∷◌, Option, none, some, Bool, true, false, ◌&&◌, ltb, ◌==◌,
  if◌then◌else◌, get_elem?, ◌>>=◌,
}
use canboat_rs.Frame.{Text}
use canboat_rs.Int.{ℤ, pos}
use canboat_rs.FieldBits.{as_i64, as_u64}
use canboat_rs.Utf8.{codes, text_eq}
use canboat_rs.Schema.{Floats, FieldInfo}
use canboat_rs.Decode.{
  FieldValue, number, float, integer, lookup, bit_field, text, date, mmsi, time, pgn_value,
  not_available, out_of_range_value, reserved_value, DecodedField, decoded, FieldOverrides, info_of,
  value_of, repeat_set_of,
}
use canboat_rs.Decode.Walk.{DecodedPgn}

-- An override wins, if it has an entry.
abbrev overridden : {A : Type 0} → Option A → Option A → Option A
overridden (some a) own = some a
overridden none own = own

module _ {N : Type 0} where
  abbrev overrides_of : DecodedField N → Option (FieldOverrides N)
  overrides_of (decoded f v off len index s over) = over

  unfoldable pub unit : DecodedField N → Option Text
  unit d = overridden (overrides_of d >>= λ o. o.unit) (info_of d).unit

  unfoldable pub resolution : DecodedField N → Option N
  resolution d = overridden (overrides_of d >>= λ o. o.resolution) (info_of d).resolution

  unfoldable pub precision : DecodedField N → ℕ
  precision d = elim (overrides_of d) as (λ _. ℕ) [
    | none ↦ (info_of d).precision
    | some o ↦ if ltb 0 o.precision then o.precision else (info_of d).precision
  ]

  unfoldable pub lookup_value : FieldValue N → Option ℕ
  lookup_value v = elim v [ lookup n name ↦ some n | bit_field n bits ↦ some n | _ ↦ none ]

  unfoldable pub as_str : FieldValue N → Option Text
  as_str v = elim v [ text s ↦ some s | lookup n name ↦ name | _ ↦ none ]

  unfoldable pub is_not_available : FieldValue N → Bool
  is_not_available v = elim v [ not_available ↦ true | _ ↦ false ]

  unfoldable pub is_sentinel : FieldValue N → Bool
  is_sentinel v = elim v [
    | not_available ↦ true
    | out_of_range_value n ↦ true
    | reserved_value n ↦ true
    | _ ↦ false
  ]

  -- The place that the index gives.
  abbrev pub at_place : List (DecodedField N) → Option (Option ℕ) → Option (DecodedField N)
  at_place ds none = none
  at_place ds (some none) = none
  at_place ds (some (some i)) = get_elem? ds i

  unfoldable pub field : DecodedPgn N → FieldInfo N → Option (DecodedField N)
  field p f =
      if f.order == 0 then none else at_place p.fields (get_elem? p.index_by_order (f.order - 1))

  unfoldable pub named : Text → List (DecodedField N) → Option (DecodedField N)
  named name [] = none
  named name (d ∷ ds) =
      let later = named name ds in
      if repeat_set_of d == 0 && text_eq (info_of d).name name then some d else later

  unfoldable pub field_by_name : DecodedPgn N → Text → Option (DecodedField N)
  field_by_name p name = named name p.fields

module _ (fl : Floats) where
  unfoldable pub as_f64 : FieldValue fl.Num → Option fl.Num
  as_f64 v = elim v [
    | number x ↦ some x
    | float x ↦ some x
    | integer n ↦ some (fl.of_int n)
    | time raw seconds ↦ some seconds
    | date n ↦ some (fl.of_int (pos n))
    | mmsi n ↦ some (fl.of_int (pos n))
    | _ ↦ none
  ]

  unfoldable pub value_as_i64 : FieldValue fl.Num → Option ℤ
  value_as_i64 v = elim v [
    | integer n ↦ some n
    | number x ↦ some (fl.to_int x)
    | lookup n name ↦ some (as_i64 n)
    | bit_field n bits ↦ some (as_i64 n)
    | time raw seconds ↦ some raw
    | date n ↦ some (pos n)
    | mmsi n ↦ some (pos n)
    | pgn_value n name ↦ some (pos n)
    | _ ↦ none
  ]

  -- The low bits of the field of a name; a field that is not there counts as 0.
  abbrev name_part : DecodedPgn fl.Num → Text → ℕ → ℕ
  name_part p name bits =
      elim (field_by_name p name >>= λ d. value_as_i64 (value_of d)) as (λ _. ℕ) [
        | none ↦ 0
        | some n ↦ as_u64 n % 2 ^ bits
      ]

  -- The parts do not overlap, so they are added.
  unfoldable pub iso_name : DecodedPgn fl.Num → Option ℕ
  iso_name p =
      if p.pgn == 60928
      then some (
          name_part p (codes "Unique Number") 21
          + name_part p (codes "Manufacturer Code") 11 * 2 ^ 21
          + name_part p (codes "Device Instance Lower") 3 * 2 ^ 32
          + name_part p (codes "Device Instance Upper") 5 * 2 ^ 35
          + name_part p (codes "Device Function") 8 * 2 ^ 40
          + name_part p (codes "Device Class") 7 * 2 ^ 49
          + name_part p (codes "System Instance") 4 * 2 ^ 56
          + name_part p (codes "Industry Group") 3 * 2 ^ 60
          + name_part p (codes "Arbitrary address capable") 1 * 2 ^ 63)
      else none
