-- ===== src/Decode/Scalars.antt =====
-- The fields of a fixed number of bits.
use canboat_rs.Prelude.{
  ℕ, zero, suc, ◌+◌, ◌-◌, ◌/◌, ◌%◌, ◌^◌, List, [], ◌∷◌, Option, none, some, Bool, true, false, not,
  ◌&&◌, ◌||◌, ltb, leb, ◌==◌, if◌then◌else◌, length, take, drop, min, bit_and, u8, u32, ◌>>>◌,
  ◌>>=◌,
}
use canboat_rs.Frame.{Text}
use canboat_rs.Int.{ℤ, pos, pos_part, neg_part}
use canboat_rs.FieldBits.{Extracted, extract_bits, as_u64}
use canboat_rs.Schema.{
  Floats, FieldInfo, PgnInfo, PgnDatabase, BitLookupValue, lookup_name, bit_lookup_values,
  indirect_lookup_name, pgn_variants,
}
use canboat_rs.Decode.{
  FieldValue, number, float, integer, binary, lookup, bit_field, date, mmsi, time, pgn_value,
  reserved_bits, spare_bits, not_available, unsupported, sentinel_field_value,
}

abbrev pub or_else : {A : Type 0} → A → Option A → A
or_else d none = d
or_else d (some a) = a

abbrev pub is_some : {A : Type 0} → Option A → Bool
is_some none = false
is_some (some a) = true

abbrev pub is_zero_int : ℤ → Bool
is_zero_int a = pos_part a + neg_part a == 0

abbrev pub int_eq : ℤ → ℤ → Bool
int_eq a b = pos_part a == pos_part b && neg_part a == neg_part b

unfoldable pub set_bits : ℕ → List BitLookupValue → List (ℕ × Text)
set_bits raw [] = []
set_bits raw (v ∷ vs) =
    let rest = set_bits raw vs in
    if bit_and raw (2 ^ v.bit_number) == 0 then rest else (2 ^ v.bit_number, v.name) ∷ rest

-- So many bytes of a number, the lowest first.
unfoldable pub bytes_of : ℕ → ℕ → List ℕ
bytes_of zero raw = []
bytes_of (suc n) raw = bit_and raw 0xff ∷ bytes_of n (raw >>> 8)

-- Bytes of eight bits and a last one of what remains, as many as the fuel allows: one each.
unfoldable pub packed : ℕ → List ℕ → ℕ → ℕ → Option (List ℕ)
packed zero bytes bit_offset remaining = some []
packed (suc fuel) bytes bit_offset remaining =
    let chunk = min remaining 8 in
    let rest = packed fuel bytes (bit_offset + chunk) (remaining - chunk) in
    if remaining == 0
    then some []
    else (extract_bits bytes bit_offset chunk false (pos 0) >>= λ e.
        rest >>= λ out. some (u8 (as_u64 e.value) ∷ out))

-- Without its destination.
abbrev pub masked_pgn : ℕ → ℕ
masked_pgn raw =
    if ltb (bit_and (raw >>> 8) 0xff) 240 then bit_and raw 0xffff00 else bit_and raw 0xffffff

module _ {N : Type 0} where
  -- A value that a hint names is that; any other is what `value` makes of it.
  abbrev pub unless_sentinel : FieldInfo N → Extracted → FieldValue N → FieldValue N
  unless_sentinel f e value = elim (sentinel_field_value f e) [ none ↦ value | some s ↦ s ]

  -- Nothing is there to read past the end.
  abbrev pub if_extracted : Option Extracted → (Extracted → FieldValue N) → FieldValue N
  if_extracted none value = not_available
  if_extracted (some e) value = value e

  -- A name wins over a hint.
  abbrev pub named_value : FieldInfo N → Extracted → Option Text → FieldValue N
  named_value f e none = unless_sentinel f e (lookup e.raw none)
  named_value f e (some name) = lookup e.raw (some name)

  unfoldable pub decode_lookup : FieldInfo N → List ℕ → ℕ → ℕ → PgnDatabase N → FieldValue N
  decode_lookup f bytes bit_offset bit_length db =
      if_extracted (extract_bits bytes bit_offset bit_length false (pos 0))
        (λ e. named_value f e (f.lookup_enumeration >>= λ name. lookup_name db name e.raw))

  unfoldable pub field_of_order : ℕ → List (FieldInfo N) → Option (FieldInfo N)
  field_of_order order [] = none
  field_of_order order (f ∷ fs) =
      let later = field_of_order order fs in if f.order == order then some f else later

  -- The first of the two values comes from another field of the same PGN.
  unfoldable pub decode_indirect_lookup :
      FieldInfo N → PgnInfo N → List ℕ → ℕ → ℕ → PgnDatabase N → FieldValue N
  decode_indirect_lookup f info bytes bit_offset bit_length db =
      if_extracted (extract_bits bytes bit_offset bit_length false (pos 0)) (λ e. named_value f e (
        f.lookup_indirect_enumeration >>= λ name.
        f.lookup_indirect_enumeration_field_order >>= λ order.
        field_of_order order info.fields >>= λ other. other.bit_offset >>= λ off.
        other.bit_length >>= λ len. extract_bits bytes off len false (pos 0) >>= λ first.
        indirect_lookup_name db name first.raw e.raw))

  unfoldable pub decode_bitlookup : FieldInfo N → List ℕ → ℕ → ℕ → PgnDatabase N → FieldValue N
  decode_bitlookup f bytes bit_offset bit_length db =
      if_extracted (extract_bits bytes bit_offset bit_length false (pos 0)) (λ e.
        let raw = as_u64 e.value in
        bit_field raw (elim f.lookup_bit_enumeration [
          | none ↦ []
          | some name ↦ set_bits raw (bit_lookup_values db name)
        ]))

  unfoldable pub decode_reserved : List ℕ → ℕ → ℕ → Bool → ℤ → Bool → FieldValue N
  decode_reserved bytes bit_offset bit_length signed offset is_reserved =
      if_extracted (extract_bits bytes bit_offset bit_length signed offset) (λ e.
        let raw = as_u64 e.value in
        let n_bytes = if bit_length == 0 then 1 else (bit_length + 7) / 8 in
        if is_reserved && int_eq e.value e.max
        then reserved_bits raw [] bit_length
        else if is_reserved
        then reserved_bits raw (bytes_of n_bytes raw) bit_length
        else spare_bits raw (bytes_of n_bytes raw) bit_length)

  unfoldable pub decode_binary : List ℕ → ℕ → ℕ → FieldValue N
  decode_binary bytes bit_offset bit_length =
      if bit_offset % 8 == 0 && bit_length % 8 == 0
      then (if leb (length bytes) (bit_offset / 8)
          then not_available
          else binary (take (bit_length / 8) (drop (bit_offset / 8) bytes)))
      else elim (packed ((bit_length + 7) / 8) bytes bit_offset bit_length) [
        | none ↦ not_available
        | some out ↦ binary out
      ]

  unfoldable pub decode_mmsi : List ℕ → ℕ → ℕ → FieldValue N
  decode_mmsi bytes bit_offset bit_length =
      if bit_length == 32
      then if_extracted (extract_bits bytes bit_offset 32 false (pos 0))
          (λ e. mmsi (u32 (as_u64 e.value)))
      else unsupported

  unfoldable pub any_match : List (FieldInfo N) → Bool
  any_match [] = false
  any_match (f ∷ fs) = is_some f.match_value || any_match fs

  -- The number alone tells what the message is.
  abbrev pub pgn_description : List (PgnInfo N) → Option Text
  pgn_description [] = none
  pgn_description (info ∷ []) = if any_match info.fields then none else some info.description
  pgn_description (info ∷ other ∷ more) = none

  unfoldable pub decode_pgn_field : List ℕ → ℕ → ℕ → PgnDatabase N → FieldValue N
  decode_pgn_field bytes bit_offset bit_length db =
      if bit_length == 24
      then if_extracted (extract_bits bytes bit_offset 24 false (pos 0)) (λ e.
        let pgn = masked_pgn (u32 (as_u64 e.value)) in
        pgn_value pgn (pgn_description (pgn_variants db pgn)))
      else unsupported

  unfoldable pub decode_date : FieldInfo N → List ℕ → ℕ → ℕ → FieldValue N
  decode_date f bytes bit_offset bit_length =
      if bit_length == 16
      then if_extracted (extract_bits bytes bit_offset 16 false (pos 0))
          (λ e. unless_sentinel f e (date (as_u64 e.value % 2 ^ 16)))
      else unsupported

module _ (fl : Floats) where
  abbrev pub display_offset_of : FieldInfo fl.Num → fl.Num
  display_offset_of f = elim f.offset [ none ↦ fl.zero_num | some o ↦ fl.of_int o ]

  -- A field with an offset for display is read without a sign.
  unfoldable pub decode_number : FieldInfo fl.Num → List ℕ → ℕ → ℕ → Bool → FieldValue fl.Num
  decode_number f bytes bit_offset bit_length signed =
      let offset = or_else (pos 0) f.offset in
      let display_offset = display_offset_of f in
      let effective_signed = if is_zero_int offset then signed else false in
      let resolution = or_else fl.one_num f.resolution in
      if_extracted (extract_bits bytes bit_offset bit_length effective_signed (pos 0)) (λ e.
        unless_sentinel f e (
          if fl.equal resolution fl.one_num
            && not (is_some f.unit)
            && not (is_some f.physical_quantity)
            && fl.equal f.unit_offset fl.zero_num
            && fl.equal display_offset fl.zero_num
          then integer e.value
          else number (
              fl.add (fl.add (fl.mul (fl.of_int e.value) resolution) display_offset)
                f.unit_offset)))

  unfoldable pub decode_float : List ℕ → ℕ → ℕ → FieldValue fl.Num
  decode_float bytes bit_offset bit_length =
      if bit_length == 32
      then if_extracted (extract_bits bytes bit_offset 32 false (pos 0))
          (λ e. float (fl.from_bits (u32 (as_u64 e.value))))
      else unsupported

  unfoldable pub decode_time : FieldInfo fl.Num → List ℕ → ℕ → ℕ → Bool → FieldValue fl.Num
  decode_time f bytes bit_offset bit_length signed =
      if_extracted (extract_bits bytes bit_offset bit_length signed (or_else (pos 0) f.offset))
        (λ e.
          unless_sentinel f e
            (time e.value (fl.mul (fl.of_int e.value) (or_else fl.one_num f.resolution))))
