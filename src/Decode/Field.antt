-- ===== src/Decode/Field.antt =====
-- One field, by its type. A field of another PGN's type and the fields of an ISO NAME are decoded by
-- the whole decoder again, `Deeper`.
use canboat_rs.Prelude.{
  ℕ, ◌+◌, ◌-◌, ◌*◌, ◌/◌, ◌%◌, List, Option, none, some, Bool, true, false, if◌then◌else◌, length,
  ◌>>=◌, u32,
}
use canboat_rs.Int.{pos}
use canboat_rs.FieldBits.{as_u64}
use canboat_rs.Schema.{Floats, FieldInfo, PgnInfo, PgnDatabase, FieldType, first_pgn}
use canboat_rs.Schema as Kind
use canboat_rs.Decode.{
  FieldValue, number, integer, pgn_value, unsupported, DecodedField, decoded, DecodeContext,
  FieldOverrides, value_of, plain_field,
}
use canboat_rs.Decode.Scalars.{
  or_else, field_of_order, decode_number, decode_float, decode_lookup, decode_indirect_lookup,
  decode_bitlookup, decode_reserved, decode_binary, decode_mmsi, decode_pgn_field, decode_date,
  decode_time,
}
use canboat_rs.Decode.Strings.{decode_string_fix, decode_string_lau, decode_string_lz}
use canboat_rs.Decode.Dynamic.{
  decode_dynamic_field_key, decode_dynamic_field_length, decode_dynamic_field_value,
  decode_iso_name,
}

pub record Deeper (N : Type 0) : Type 0 where
  pub name_fields : List ℕ → List (DecodedField N)
  pub target_field : FieldInfo N → PgnInfo N → List ℕ → ℕ → Option (DecodedField N × ℕ)

module _ (fl : Floats) where
  -- The type of a field that no data tells, and a whole number of bytes of what it takes up.
  unfoldable pub decode_variable :
      Deeper fl.Num
      → FieldInfo fl.Num
      → List ℕ
      → PgnDatabase fl.Num
      → ℕ
      → DecodeContext fl.Num
      → Option (DecodedField fl.Num × ℕ)
  decode_variable deeper f bytes db bit_offset ctx = ctx.target_pgn >>= λ target_pgn.
      ctx.current_param_idx >>= λ target_idx. first_pgn db target_pgn >>= λ target_info.
      field_of_order target_idx target_info.fields >>= λ target.
      deeper.target_field target target_info bytes bit_offset >>= λ sub.
      let aligned = (sub.1 + 7) / 8 * 8 in
      let over : FieldOverrides fl.Num = record {
        unit = target.unit;
        resolution = target.resolution;
        precision = target.precision;
      } in
      let len = elim target.bit_length as (λ _. ℕ) [ none ↦ aligned | some n ↦ n ] in
      some (decoded f (value_of sub.0) (some bit_offset) (some len) none 0 (some over), aligned)

  -- The types whose width the schema gives. The three that are done before do not get here.
  unfoldable pub decode_fixed :
      Deeper fl.Num
      → FieldInfo fl.Num
      → PgnInfo fl.Num
      → List ℕ
      → PgnDatabase fl.Num
      → ℕ
      → ℕ
      → DecodeContext fl.Num
      → FieldType
      → FieldValue fl.Num × DecodeContext fl.Num
  decode_fixed deeper f info bytes db at len ctx type =
      let signed = or_else false f.signed in
      let offset = or_else (pos 0) f.offset in
      elim type [
        | Kind.number ↦ (decode_number fl f bytes at len signed, ctx)
        | Kind.decimal ↦ (decode_number fl f bytes at len signed, ctx)
        | Kind.float ↦ (decode_float fl bytes at len, ctx)
        | Kind.binary ↦ (decode_binary bytes at len, ctx)
        | Kind.lookup ↦ (decode_lookup f bytes at len db, ctx)
        | Kind.bit_lookup ↦ (decode_bitlookup f bytes at len db, ctx)
        | Kind.indirect_lookup ↦ (decode_indirect_lookup f info bytes at len db, ctx)
        | Kind.date ↦ (decode_date f bytes at len, ctx)
        | Kind.time ↦ (decode_time fl f bytes at len signed, ctx)
        | Kind.duration ↦ (decode_time fl f bytes at len signed, ctx)
        | Kind.string_fix ↦ (decode_string_fix bytes at len, ctx)
        | Kind.string_lz ↦ (decode_string_lz bytes at len, ctx)
        | Kind.string_lau ↦ (unsupported, ctx)
        | Kind.variable ↦ (unsupported, ctx)
        | Kind.mmsi ↦ (decode_mmsi bytes at len, ctx)
        | Kind.pgn_number ↦ (decode_pgn_field bytes at len db, ctx)
        | Kind.iso_name ↦ (decode_iso_name deeper.name_fields bytes at len, ctx)
        | Kind.reserved ↦ (decode_reserved bytes at len signed offset true, ctx)
        | Kind.spare ↦ (decode_reserved bytes at len signed offset false, ctx)
        | Kind.dynamic_field_key ↦ decode_dynamic_field_key f bytes db at len ctx
        | Kind.dynamic_field_length ↦ decode_dynamic_field_length f bytes at len ctx
        | Kind.dynamic_field_value ↦ (unsupported, ctx)
        | Kind.field_index ↦ (decode_number fl f bytes at len signed, ctx)
      ]

  -- The number of a value that is one and not negative.
  abbrev pub count_of : FieldValue fl.Num → Option ℕ
  count_of v = elim v [
    | integer (pos n) ↦ some (u32 n)
    | number x ↦ if fl.at_least x fl.zero_num then some (fl.to_u32 x) else none
    | _ ↦ none
  ]

  abbrev is_field_index : Option FieldType → Bool
  is_field_index t = elim t [ some Kind.field_index ↦ true | _ ↦ false ]

  -- What the value of a field says of the fields after it.
  unfoldable pub noted :
      FieldInfo fl.Num → FieldValue fl.Num → DecodeContext fl.Num → DecodeContext fl.Num
  noted f v ctx =
      let known : DecodeContext fl.Num = elim v [
        | pgn_value p name ↦ record ctx { target_pgn = some p }
        | integer n ↦
            if is_field_index f.field_type
            then record ctx { current_param_idx = some (u32 (as_u64 n)) }
            else ctx
        | _ ↦ ctx
      ] in
      if f.is_dynamic_length_marker
      then elim (count_of v) [
        | none ↦ known
        | some n ↦ record known { dynamic_length_bytes = some n }
      ]
      else known

  -- The value, the bits that it takes up, and what follows from it.
  unfoldable pub decode_by_width :
      Deeper fl.Num
      → FieldInfo fl.Num
      → PgnInfo fl.Num
      → List ℕ
      → PgnDatabase fl.Num
      → ℕ
      → DecodeContext fl.Num
      → ℕ
      → DecodedField fl.Num × ℕ × DecodeContext fl.Num
  decode_by_width deeper f info bytes db at ctx len =
      let out : FieldValue fl.Num × DecodeContext fl.Num = elim f.field_type [
        | none ↦ (unsupported, ctx)
        | some type ↦ decode_fixed deeper f info bytes db at len ctx type
      ] in
      (plain_field f out.0 at len, len, noted f out.0 out.1)

  -- The text or the bytes up to the end of the payload.
  abbrev rest_of_payload : List ℕ → ℕ → ℕ
  rest_of_payload bytes at = let avail = length bytes * 8 - at in avail - avail % 8

  unfoldable pub decode_one_field_at :
      Deeper fl.Num
      → FieldInfo fl.Num
      → PgnInfo fl.Num
      → List ℕ
      → PgnDatabase fl.Num
      → ℕ
      → DecodeContext fl.Num
      → Option (DecodedField fl.Num × ℕ × DecodeContext fl.Num)
  decode_one_field_at deeper f info bytes db at ctx =
      let fixed : Option (DecodedField fl.Num × ℕ × DecodeContext fl.Num) =
        f.bit_length >>= λ len. some (decode_by_width deeper f info bytes db at ctx len) in
      let avail = rest_of_payload bytes at in
      elim f.field_type [
        | some Kind.string_lau ↦
            let out : FieldValue fl.Num × ℕ = decode_string_lau bytes at in
            some (plain_field f out.0 at out.1, out.1, ctx)
        | some Kind.variable ↦
            decode_variable deeper f bytes db at ctx >>= λ out. some (out.0, out.1, ctx)
        | some Kind.dynamic_field_value ↦
            let over : Option (FieldOverrides fl.Num) = ctx.dynamic_field_type >>= λ v.
            some (record { unit = v.unit; resolution = v.resolution; precision = v.precision }) in
            let out = decode_dynamic_field_value fl deeper.name_fields bytes at db ctx in
            some (decoded f out.0 (some at) (some out.1) none 0 over, out.1, out.2)
        | some Kind.string_lz ↦ elim f.bit_length [
          | none ↦ some (plain_field f (decode_string_lz bytes at avail) at avail, avail, ctx)
          | some len ↦ fixed
        ]
        | some Kind.binary ↦ elim f.bit_length [
          | none ↦ some (plain_field f (decode_binary bytes at avail) at avail, avail, ctx)
          | some len ↦ fixed
        ]
        | _ ↦ fixed
      ]
