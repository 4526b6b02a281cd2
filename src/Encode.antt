-- ===== src/Encode.antt =====
-- crates/canboat-core/src/encode.rs: from the values of the fields to the frame of a message.
pub mod Build
pub mod Layout
pub mod RoundTrip
pub mod Unscaled
pub mod Integers
pub mod Texts
use canboat_rs.Prelude.{
  ℕ, zero, suc, ◌+◌, ◌-◌, ◌*◌, ◌/◌, List, [], ◌∷◌, ◌++◌, Option, none, some, Bool, true, false,
  ◌||◌, ltb, ◌==◌, if◌then◌else◌, length, take, replicate, ◌⊎◌, inl, inr,
}
use canboat_rs.Frame.{Text}
use canboat_rs.Int.{ℤ, pos}
use canboat_rs.Utf8.{text_eq}
use canboat_rs.FieldBits.{as_i64, mask_to_width, all_ones}
use canboat_rs.Schema.{Floats, FieldInfo, PgnDatabase, LookupValue, FieldType, find_table}
use canboat_rs.Schema as Kind

pub data EncodeValue (N : Type 0) : Type 0 where
  number : N → EncodeValue N
  int : ℤ → EncodeValue N
  lookup text : Text → EncodeValue N
  bytes : List ℕ → EncodeValue N
  pgn_number : ℕ → EncodeValue N
  not_available : EncodeValue N

-- Less the texts that say what was expected.
pub data EncodeError (N : Type 0) : Type 0 where
  no_such_pgn_id : Text → EncodeError N
  no_such_pgn : ℕ → EncodeError N
  ambiguous_pgn : ℕ → ℕ → EncodeError N
  no_such_field unknown_lookup_label : Text → Text → EncodeError N
  value_out_of_range : Text → N → EncodeError N
  not_fixed_length type_mismatch : Text → EncodeError N
  length_mismatch : ℕ → ℕ → ℕ → EncodeError N

pub data Staged : Type 0 where
  scalar : ℕ → Staged
  verbatim : List ℕ → Staged

abbrev pub Result : Type 0 → Type 0 → Type 0
Result N A = EncodeError N ⊎ A

infixl 5 ◌>>>=◌
abbrev pub ◌>>>=◌ : {N A B : Type 0} → Result N A → (A → Result N B) → Result N B
inl e >>>= f = inl e
inr a >>>= f = f a

abbrev pub width_of : {N : Type 0} → FieldInfo N → Result N ℕ
width_of f = elim f.bit_length [ none ↦ inl (not_fixed_length f.name) | some n ↦ inr n ]

unfoldable pub value_of_label : Text → List LookupValue → Option ℕ
value_of_label label [] = none
value_of_label label (v ∷ vs) =
    let later = value_of_label label vs in
    let by_id = elim v.id as (λ _. Bool) [ none ↦ false | some id ↦ text_eq id label ] in
    if text_eq v.name label || by_id then some v.value else later

abbrev pub takes_labels : Option FieldType → Bool
takes_labels t = elim t [ some Kind.lookup ↦ true | some Kind.indirect_lookup ↦ true | _ ↦ false ]

abbrev pub is_float : Option FieldType → Bool
is_float t = elim t [ some Kind.float ↦ true | _ ↦ false ]

module _ {N : Type 0} where
  unfoldable pub default_raw : FieldInfo N → ℕ
  default_raw f =
      let width = elim f.bit_length as (λ _. ℕ) [ none ↦ 0 | some n ↦ n ] in
      elim f.match_value [
        | some v ↦ mask_to_width v width
        | none ↦ elim f.field_type [
          | some Kind.spare ↦ 0
          | _ ↦ elim f.unknown_value [ none ↦ all_ones width | some v ↦ v ]
        ]
      ]

  unfoldable pub resolve_lookup : PgnDatabase N → FieldInfo N → Text → Result N ℕ
  resolve_lookup db f label = elim f.lookup_enumeration [
    | none ↦ inl (type_mismatch f.name)
    | some name ↦ elim (find_table name db.lookups) [
      | none ↦ inl (unknown_lookup_label f.name label)
      | some t ↦ elim (value_of_label label t.values) [
        | none ↦ inl (unknown_lookup_label f.name label)
        | some v ↦ inr v
      ]
    ]
  ]

-- Zeros up to a width that the content does not exceed.
abbrev pub padded_to : ℕ → List ℕ → List ℕ
padded_to want content = content ++ replicate (want - length content) 0

module _ (fl : Floats) where
  -- The decoder's scale, inverted.
  unfoldable pub scaled_to_raw : FieldInfo fl.Num → fl.Num → Result fl.Num ℤ
  scaled_to_raw f scaled =
      let resolution = elim f.resolution as (λ _. fl.Num) [ none ↦ fl.one_num | some r ↦ r ] in
      let display_offset = elim f.offset as (λ _. fl.Num) [
        | none ↦ fl.zero_num
        | some o ↦ fl.of_int o
      ] in
      let rounded =
        fl.round (fl.div (fl.sub (fl.sub scaled f.unit_offset) display_offset) resolution) in
      if fl.is_finite rounded
      then inr (fl.to_int rounded)
      else inl (value_out_of_range f.name scaled)

  -- The bits of a value, in the width of its field. The 32 bits of a float are not cut.
  unfoldable pub value_to_raw :
      PgnDatabase fl.Num → FieldInfo fl.Num → EncodeValue fl.Num → Result fl.Num ℕ
  value_to_raw db f value = width_of f >>>= λ width.
      let masked : ℤ → ℕ = λ n. mask_to_width n width in
      elim value [
        | not_available ↦ inr (default_raw f)
        | lookup label ↦
            if takes_labels f.field_type
            then (resolve_lookup db f label >>>= λ v. inr (masked (as_i64 v)))
            else inl (type_mismatch f.name)
        | text s ↦ inl (type_mismatch f.name)
        | bytes bs ↦ inl (type_mismatch f.name)
        | pgn_number p ↦ inr (masked (pos p))
        | int n ↦ if is_float f.field_type then inr (fl.int_to_bits n) else inr (masked n)
        | number x ↦
            if is_float f.field_type
            then inr (fl.to_bits x)
            else (scaled_to_raw f x >>>= λ n. inr (masked n))
      ]

  abbrev length_error : FieldInfo fl.Num → List ℕ → EncodeError fl.Num
  length_error f content = value_out_of_range f.name (fl.of_int (pos (length content)))

  abbrev pub text_of : FieldInfo fl.Num → EncodeValue fl.Num → Result fl.Num Text
  text_of f value = elim value [
    | text s ↦ inr s
    | not_available ↦ inr []
    | _ ↦ inl (type_mismatch f.name)
  ]

  unfoldable pub stage_string_fix : FieldInfo fl.Num → EncodeValue fl.Num → Result fl.Num Staged
  stage_string_fix f value = text_of f value >>>= λ content. width_of f >>>= λ width.
      if ltb (width / 8) (length content)
      then inl (length_error f content)
      else inr (verbatim (padded_to (width / 8) content))

  unfoldable pub stage_string_lz : FieldInfo fl.Num → EncodeValue fl.Num → Result fl.Num Staged
  stage_string_lz f value = text_of f value >>>= λ content.
      let buf = length content ∷ content in
      if ltb 255 (length content) then inl (length_error f content) else elim f.bit_length [
        | none ↦ inr (verbatim buf)
        | some width ↦
            if ltb (width / 8) (length buf)
            then inl (length_error f content)
            else inr (verbatim (padded_to (width / 8) buf))
      ]

  unfoldable pub stage_string_lau : FieldInfo fl.Num → EncodeValue fl.Num → Result fl.Num Staged
  stage_string_lau f value = text_of f value >>>= λ content.
      if ltb 255 (length content + 2)
      then inl (length_error f content)
      else inr (verbatim ((length content + 2) ∷ 1 ∷ content))

  abbrev pub bytes_in : FieldInfo fl.Num → EncodeValue fl.Num → Result fl.Num (List ℕ)
  bytes_in f value = elim value [
    | bytes bs ↦ inr bs
    | not_available ↦ inr []
    | _ ↦ inl (type_mismatch f.name)
  ]

  unfoldable pub stage_binary : FieldInfo fl.Num → EncodeValue fl.Num → Result fl.Num Staged
  stage_binary f value = bytes_in f value >>>= λ content. elim f.bit_length [
    | none ↦ inr (verbatim content)
    | some width ↦
        if ltb (width / 8) (length content)
        then inl (length_error f content)
        else inr (verbatim (padded_to (width / 8) content))
  ]

  unfoldable pub stage_dynamic_value : FieldInfo fl.Num → EncodeValue fl.Num → Result fl.Num Staged
  stage_dynamic_value f value = bytes_in f value >>>= λ content. inr (verbatim content)

  unfoldable pub stage_value :
      PgnDatabase fl.Num → FieldInfo fl.Num → EncodeValue fl.Num → Result fl.Num Staged
  stage_value db f value = elim f.field_type [
    | some Kind.string_fix ↦ stage_string_fix f value
    | some Kind.string_lz ↦ stage_string_lz f value
    | some Kind.string_lau ↦ stage_string_lau f value
    | some Kind.binary ↦ stage_binary f value
    | some Kind.dynamic_field_value ↦ stage_dynamic_value f value
    | _ ↦ value_to_raw db f value >>>= λ raw. inr (scalar raw)
  ]
