-- ===== src/Decode/Dynamic.antt =====
-- The fields of a key, a length and a value of the type that the key names. `name_fields` decodes
-- the fields of an ISO NAME, which go through the whole decoder again.
use canboat_rs.Prelude.{
  ℕ, ◌+◌, ◌*◌, ◌/◌, ◌%◌, ◌^◌, List, none, some, Bool, true, false, not, ◌&&◌, ◌||◌, ltb, ◌==◌,
  if◌then◌else◌, length, take, drop, u32, ◌>>=◌,
}
use canboat_rs.Frame.{Text}
use canboat_rs.Int.{pos}
use canboat_rs.Utf8.{codes, text_eq, starts_with}
use canboat_rs.FieldBits.{extract_bits, as_u64}
use canboat_rs.FieldBits.Sentinel.{is_unavailable}
use canboat_rs.Ngt1.{from_le_bytes}
use canboat_rs.Schema.{
  Floats, FieldInfo, PgnDatabase, LookupFieldTypeValue, lookup_name, field_type_lookup,
}
use canboat_rs.Decode.{
  FieldValue, number, integer, lookup, date, time, iso_name, not_available, unsupported,
  DecodedField, DecodeContext, fields_of, sentinel_field_value,
}
use canboat_rs.Decode.Scalars.{or_else, is_some, if_extracted, named_value, decode_binary}

module _ {N : Type 0} where
  -- Keeps the entry of the key for the value.
  unfoldable pub decode_dynamic_field_key :
      FieldInfo N
      → List ℕ
      → PgnDatabase N
      → ℕ
      → ℕ
      → DecodeContext N
      → FieldValue N × DecodeContext N
  decode_dynamic_field_key f bytes db bit_offset bit_length ctx =
      elim (extract_bits bytes bit_offset bit_length false (pos 0)) [
        | none ↦ (not_available, ctx)
        | some e ↦
            let entry =
              f.lookup_field_type_enumeration >>= λ name. field_type_lookup db name e.raw in
            (
              named_value f e (entry >>= λ v. some v.name),
              record ctx { dynamic_field_type = entry },
            )
      ]

  unfoldable pub decode_dynamic_field_length :
      FieldInfo N → List ℕ → ℕ → ℕ → DecodeContext N → FieldValue N × DecodeContext N
  decode_dynamic_field_length f bytes bit_offset bit_length ctx =
      elim (extract_bits bytes bit_offset bit_length false (pos 0)) [
        | none ↦ (not_available, ctx)
        | some e ↦ elim (sentinel_field_value f e) [
          | some s ↦ (s, ctx)
          | none ↦ (integer e.value, record ctx { dynamic_length_bytes = some (u32 e.raw) })
        ]
      ]

  unfoldable pub decode_iso_name : (List ℕ → List (DecodedField N)) → List ℕ → ℕ → ℕ → FieldValue N
  decode_iso_name name_fields bytes bit_offset bit_length =
      let start = bit_offset / 8 in
      let name = take 8 (drop start bytes) in
      if not (bit_length == 64) || not (bit_offset % 8 == 0)
      then unsupported
      else if ltb (length bytes) (start + 8)
      then not_available
      else iso_name (from_le_bytes name) (fields_of (name_fields name))

module _ (fl : Floats) where
  unfoldable pub decode_dynamic_number :
      List ℕ → ℕ → ℕ → Bool → LookupFieldTypeValue fl.Num → FieldValue fl.Num
  decode_dynamic_number bytes bit_offset bit_length signed entry =
      let res = or_else fl.one_num entry.resolution in
      if_extracted (extract_bits bytes bit_offset bit_length signed (pos 0)) (λ e.
        if is_unavailable e
        then not_available
        else if fl.equal res fl.one_num && not (is_some entry.unit)
        then integer e.value
        else number (fl.mul (fl.of_int e.value) res))

  -- A duration is read without a sign to see if there is one, and then with the sign it has.
  unfoldable pub decode_dynamic_time :
      List ℕ → ℕ → ℕ → Bool → LookupFieldTypeValue fl.Num → FieldValue fl.Num
  decode_dynamic_time bytes bit_offset bit_length signed entry =
      let known_signed_duration =
        text_eq entry.name (codes "Race Timer") || text_eq entry.name (codes "Timezone offset") in
      if_extracted (extract_bits bytes bit_offset bit_length false (pos 0)) (λ unsigned.
        let shown =
          if signed || known_signed_duration
          then extract_bits bytes bit_offset bit_length true (pos 0)
          else some unsigned in
        if is_unavailable unsigned
        then not_available
        else if_extracted shown
            (λ e. time e.value (fl.mul (fl.of_int e.value) (or_else fl.one_num entry.resolution))))

  unfoldable pub decode_dynamic_date : List ℕ → ℕ → ℕ → FieldValue fl.Num
  decode_dynamic_date bytes bit_offset bit_length =
      if_extracted (extract_bits bytes bit_offset bit_length false (pos 0))
        (λ e. if is_unavailable e then not_available else date (as_u64 e.value % 2 ^ 16))

  -- By the name of the type.
  unfoldable pub decode_dynamic_entry :
      (List ℕ → List (DecodedField fl.Num))
      → List ℕ
      → ℕ
      → PgnDatabase fl.Num
      → ℕ
      → LookupFieldTypeValue fl.Num
      → Text
      → FieldValue fl.Num
  decode_dynamic_entry name_fields bytes bit_offset db bits entry type =
      let signed = entry.signed || starts_with type (codes "FIX") in
      if starts_with type (codes "NUMBER")
        || starts_with type (codes "FIX")
        || starts_with type (codes "UFIX")
      then decode_dynamic_number bytes bit_offset bits signed entry
      else if text_eq type (codes "LOOKUP")
      then elim entry.lookup_enumeration [
        | none ↦ decode_binary bytes bit_offset bits
        | some name ↦
            if_extracted (extract_bits bytes bit_offset bits false (pos 0))
              (λ e. lookup (as_u64 e.value) (lookup_name db name (as_u64 e.value)))
      ]
      else if text_eq type (codes "DURATION") || text_eq type (codes "TIME")
      then decode_dynamic_time bytes bit_offset bits signed entry
      else if text_eq type (codes "DATE")
      then decode_dynamic_date bytes bit_offset bits
      else if text_eq type (codes "ISO_NAME")
      then decode_iso_name name_fields bytes bit_offset bits
      else decode_binary bytes bit_offset bits

  -- The length is the one that was given, or that of the entry. Both are used up.
  unfoldable pub decode_dynamic_field_value :
      (List ℕ → List (DecodedField fl.Num))
      → List ℕ
      → ℕ
      → PgnDatabase fl.Num
      → DecodeContext fl.Num
      → FieldValue fl.Num × ℕ × DecodeContext fl.Num
  decode_dynamic_field_value name_fields bytes bit_offset db ctx =
      let rest : DecodeContext fl.Num = record ctx {
        dynamic_field_type = none;
        dynamic_length_bytes = none;
      } in
      let bits = elim ctx.dynamic_length_bytes as (λ _. ℕ) [
        | some n ↦ n * 8
        | none ↦ or_else 0 (ctx.dynamic_field_type >>= λ entry. entry.bits)
      ] in
      elim ctx.dynamic_field_type [
        | none ↦ (decode_binary bytes bit_offset bits, bits, rest)
        | some entry ↦ (
          elim entry.field_type [
            | none ↦ decode_binary bytes bit_offset bits
            | some type ↦ decode_dynamic_entry name_fields bytes bit_offset db bits entry type
          ],
          bits,
          rest,
        )
      ]
