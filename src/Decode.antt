-- ===== src/Decode.antt =====
-- crates/canboat-core/src/decode.rs: from the payload of a message to the values of its fields. The
-- tables of the build are in `PgnDatabase`, the arithmetic of `f64` is in `Floats`. A text is the
-- list of its UTF-8 bytes, a `usize` or `u32` that counts bits does not wrap around.
pub mod Scalars
pub mod Strings
pub mod Dynamic
pub mod Field
pub mod Walk
pub mod OwnBits
pub mod Access
pub mod Index
pub mod Outside
pub mod Sets
pub mod Shallow
pub mod Depth
use canboat_rs.Prelude.{ℕ, List, [], ◌∷◌, ◌++◌, Option, none, some, Bool, false}
use canboat_rs.Frame.{Text}
use canboat_rs.Int.{ℤ}
use canboat_rs.FieldBits.{Extracted}
use canboat_rs.FieldBits.Sentinel.{classify_sentinel, legitimate, unknown, out_of_range, reserved}
use canboat_rs.Schema.{FieldInfo, LookupFieldTypeValue}

pub record FieldOverrides (N : Type 0) : Type 0 where
  pub unit : Option Text
  pub resolution : Option N
  pub precision : ℕ

-- An ISO NAME holds the fields that it decodes to, so the lists of fields are a type of their own.
-- The label of an unsupported type is left out.
mutual
  pub data FieldValue (N : Type 0) : Type 0 where
    number float : N → FieldValue N
    integer : ℤ → FieldValue N
    binary : List ℕ → FieldValue N
    lookup : ℕ → Option Text → FieldValue N
    bit_field : ℕ → List (ℕ × Text) → FieldValue N
    text : Text → FieldValue N
    date mmsi : ℕ → FieldValue N
    time : ℤ → N → FieldValue N
    pgn_value : ℕ → Option Text → FieldValue N
    iso_name : ℕ → DecodedFields N → FieldValue N
    reserved_bits spare_bits : ℕ → List ℕ → ℕ → FieldValue N
    not_available : FieldValue N
    out_of_range_value reserved_value : ℕ → FieldValue N
    unsupported : FieldValue N

  -- `info`, `value`, `bit_offset`, `bit_length`, `repeat_index`, `repeat_set` and `overrides`.
  pub data DecodedField (N : Type 0) : Type 0 where
    decoded :
        FieldInfo N
        → FieldValue N
        → Option ℕ
        → Option ℕ
        → Option ℕ
        → ℕ
        → Option (FieldOverrides N)
        → DecodedField N

  pub data DecodedFields (N : Type 0) : Type 0 where
    nil : DecodedFields N
    cons : DecodedField N → DecodedFields N → DecodedFields N

module _ {N : Type 0} where
  abbrev pub info_of : DecodedField N → FieldInfo N
  info_of (decoded f v off len index set over) = f

  abbrev pub value_of : DecodedField N → FieldValue N
  value_of (decoded f v off len index set over) = v

  abbrev pub repeat_set_of : DecodedField N → ℕ
  repeat_set_of (decoded f v off len index set over) = set

  -- A field outside of repeating sets.
  abbrev pub plain_field : FieldInfo N → FieldValue N → ℕ → ℕ → DecodedField N
  plain_field f v off len = decoded f v (some off) (some len) none 0 none

  abbrev pub fields_of : List (DecodedField N) → DecodedFields N
  fields_of [] = nil
  fields_of (d ∷ ds) = cons d (fields_of ds)

  -- What a hint of the schema makes of a value.
  unfoldable pub sentinel_field_value : FieldInfo N → Extracted → Option (FieldValue N)
  sentinel_field_value f e =
      elim (classify_sentinel e f.unknown_value f.out_of_range_value f.reserved_value) [
        | unknown ↦ some not_available
        | out_of_range ↦ some (out_of_range_value e.raw)
        | reserved ↦ some (reserved_value e.raw)
        | legitimate ↦ none
      ]

-- What the fields decoded so far leave for those after them.
pub record DecodeContext (N : Type 0) : Type 0 where
  pub target_pgn : Option ℕ
  pub current_param_idx : Option ℕ
  pub dynamic_field_type : Option (LookupFieldTypeValue N)
  pub dynamic_length_bytes : Option ℕ

abbrev pub no_context : {N : Type 0} → DecodeContext N
no_context = record {
  target_pgn = none;
  current_param_idx = none;
  dynamic_field_type = none;
  dynamic_length_bytes = none;
}
