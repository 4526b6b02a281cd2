-- ===== src/Encode/Build.antt =====
-- `PgnBuilder`: the staged values, and the frame that they are packed into.
use canboat_rs.Prelude.{
  ℕ, ◌+◌, ◌-◌, ◌/◌, ◌%◌, ◌^◌, List, [], ◌∷◌, Option, none, some, ◌==◌, if◌then◌else◌, length,
  replicate, set, get_elem?, inl, inr,
}
use canboat_rs.Frame.{RawFrame, Text}
use canboat_rs.Utf8.{text_eq}
use canboat_rs.FieldBits.{write_bits}
use canboat_rs.Schema.{Floats, FieldInfo, PgnInfo, PgnDatabase, pgn_variants}
use canboat_rs.Schema as Kind
use canboat_rs.Encode.{
  EncodeValue, no_such_field, no_such_pgn_id, no_such_pgn, ambiguous_pgn, not_fixed_length,
  length_mismatch, Staged, scalar, verbatim, Result, ◌>>>=◌, width_of, default_raw, stage_value,
}

pub record PgnBuilder (N : Type 0) : Type 0 where
  pub pgn : PgnInfo N
  pub prio : ℕ
  pub src : ℕ
  pub dst : ℕ
  pub timestamp : Option Text
  pub staged : List (Option Staged)

-- The buffer and its next bit.
unfoldable pub write_bytes : List ℕ × ℕ → List ℕ → List ℕ × ℕ
write_bytes to [] = to
write_bytes to (b ∷ bytes) = write_bytes (write_bits to.0 to.1 8 b) bytes

-- The rest of a byte is filled with ones.
unfoldable pub flushed : List ℕ × ℕ → List ℕ
flushed to = if to.1 % 8 == 0 then to.0 else (write_bits to.0 to.1 (8 - to.1 % 8) (2 ^ 64 - 1)).0

module _ {N : Type 0} where
  abbrev pub for_pgn : PgnInfo N → PgnBuilder N
  for_pgn pgn = record {
    pgn = pgn;
    prio = elim pgn.priority [ none ↦ 6 | some p ↦ p ];
    src = 0;
    dst = 255;
    timestamp = none;
    staged = replicate (length pgn.fields) none;
  }

  abbrev pub priority : PgnBuilder N → ℕ → PgnBuilder N
  priority b prio = record b { prio = prio }

  abbrev pub source : PgnBuilder N → ℕ → PgnBuilder N
  source b src = record b { src = src }

  abbrev pub destination : PgnBuilder N → ℕ → PgnBuilder N
  destination b dst = record b { dst = dst }

  abbrev pub stamped_with : PgnBuilder N → Text → PgnBuilder N
  stamped_with b ts = record b { timestamp = some ts }

  unfoldable pub pgn_of_id : Text → List (PgnInfo N) → Option (PgnInfo N)
  pgn_of_id id [] = none
  pgn_of_id id (info ∷ infos) =
      let later = pgn_of_id id infos in if text_eq info.id id then some info else later

  unfoldable pub pgn_by_id : PgnDatabase N → Text → Option (PgnInfo N)
  pgn_by_id db id = pgn_of_id id db.pgns

  unfoldable pub encode : PgnDatabase N → Text → Result N (PgnBuilder N)
  encode db pgn_id = elim (pgn_by_id db pgn_id) [
    | none ↦ inl (no_such_pgn_id pgn_id)
    | some pgn ↦ inr (for_pgn pgn)
  ]

  -- The definition of the same id in this database, if there is one.
  unfoldable pub encode_for : PgnDatabase N → PgnInfo N → PgnBuilder N
  encode_for db pgn = elim (pgn_by_id db pgn.id) [
    | none ↦ for_pgn pgn
    | some resolved ↦ for_pgn resolved
  ]

  -- Only a number with one definition will do.
  unfoldable pub encode_by_pgn : PgnDatabase N → ℕ → Result N (PgnBuilder N)
  encode_by_pgn db pgn = elim (pgn_variants db pgn) [
    | [] ↦ inl (no_such_pgn pgn)
    | first ∷ [] ↦ inr (for_pgn first)
    | first ∷ second ∷ more ↦ inl (ambiguous_pgn pgn (length more + 2))
  ]

  unfoldable pub write_default : List ℕ × ℕ → FieldInfo N → Result N (List ℕ × ℕ)
  write_default to f = width_of f >>>= λ width. inr (write_bits to.0 to.1 width (default_raw f))

  unfoldable pub write_unset : List ℕ × ℕ → FieldInfo N → Result N (List ℕ × ℕ)
  write_unset to f =
      let filler : Result N (List ℕ × ℕ) =
        width_of f >>>= λ width. inr (write_bytes to (replicate (width / 8) 0xff)) in
      elim f.field_type [
        | some Kind.string_fix ↦ filler
        | some Kind.binary ↦ elim f.bit_length [ none ↦ inr to | some width ↦ filler ]
        | some Kind.string_lz ↦ inr (write_bits to.0 to.1 8 0)
        | some Kind.string_lau ↦ inr (write_bytes to (2 ∷ 1 ∷ []))
        | some Kind.variable ↦ inl (not_fixed_length f.name)
        | some Kind.dynamic_field_key ↦ inl (not_fixed_length f.name)
        | some Kind.dynamic_field_length ↦ inl (not_fixed_length f.name)
        | some Kind.dynamic_field_value ↦ inl (not_fixed_length f.name)
        | _ ↦ write_default to f
      ]

  unfoldable pub write_field : List ℕ × ℕ → FieldInfo N → Option Staged → Result N (List ℕ × ℕ)
  write_field to f staged = elim staged [
    | some (verbatim bytes) ↦ inr (write_bytes to bytes)
    | some (scalar v) ↦ width_of f >>>= λ width. inr (write_bits to.0 to.1 width v)
    | none ↦ write_unset to f
  ]

  -- There are as many staged values as fields.
  unfoldable pub write_fields :
      List ℕ × ℕ → List (FieldInfo N) → List (Option Staged) → Result N (List ℕ × ℕ)
  write_fields to [] staged = inr to
  write_fields to (f ∷ fs) [] = inr to
  write_fields to (f ∷ fs) (s ∷ staged) =
      write_field to f s >>>= λ next. write_fields next fs staged

  abbrev pub packed_frame : PgnBuilder N → List ℕ → RawFrame
  packed_frame b payload = record {
    timestamp = b.timestamp;
    prio = b.prio;
    pgn = b.pgn.pgn;
    src = b.src;
    dst = b.dst;
    payload = payload;
  }

  unfoldable pub build : PgnBuilder N → Result N RawFrame
  build b = write_fields ([], 0) b.pgn.fields b.staged >>>= λ to.
      let payload = flushed to in
      let frame = packed_frame b payload in
      elim b.pgn.length [
        | none ↦ inr frame
        | some expected ↦
            if length payload == expected
            then inr frame
            else inl (length_mismatch b.pgn.pgn expected (length payload))
      ]

  unfoldable pub position : Text → List (FieldInfo N) → ℕ → Option ℕ
  position name [] at = none
  position name (f ∷ fs) at =
      let later = position name fs (at + 1) in if text_eq f.name name then some at else later

module _ (fl : Floats) where
  -- The value is staged for the field at a place, if there is one.
  unfoldable pub push_at :
      PgnDatabase fl.Num
      → PgnBuilder fl.Num
      → Text
      → ℕ
      → EncodeValue fl.Num
      → Result fl.Num (PgnBuilder fl.Num)
  push_at db b id place value = elim (get_elem? b.pgn.fields place) [
    | none ↦ inl (no_such_field b.pgn.id id)
    | some f ↦ stage_value fl db f value >>>= λ staged.
        inr (record b { staged = set b.staged place (some staged) })
  ]

  -- By the order of the field, from 1.
  unfoldable pub push :
      PgnDatabase fl.Num
      → PgnBuilder fl.Num
      → FieldInfo fl.Num
      → EncodeValue fl.Num
      → Result fl.Num (PgnBuilder fl.Num)
  push db b field value =
      if field.order == 0
      then inl (no_such_field b.pgn.id field.id)
      else push_at db b field.id (field.order - 1) value

  unfoldable pub push_by_name :
      PgnDatabase fl.Num
      → PgnBuilder fl.Num
      → Text
      → EncodeValue fl.Num
      → Result fl.Num (PgnBuilder fl.Num)
  push_by_name db b name value = elim (position name b.pgn.fields 0) [
    | none ↦ inl (no_such_field b.pgn.id name)
    | some place ↦ push_at db b name place value
  ]
