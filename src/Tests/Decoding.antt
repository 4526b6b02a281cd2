-- ===== src/Tests/Decoding.antt =====
-- The theorems on decoded messages at concrete inputs.
use canboat_rs.Prelude.{replicate, ◌≡◌, refl, ap, sym, inr, [], ◌∷◌, none, some, true, false, arith}
use canboat_rs.Frame.{RawFrame}
use canboat_rs.Int.{ℤ, pos}
use canboat_rs.Schema.{
  Floats, FieldType, FieldInfo, PgnInfo, PgnDatabase, first_pgn, index_of, find_table,
}
use canboat_rs.Schema as Kind
use canboat_rs.Decode.Walk.{decode, decode_fields}
use canboat_rs.Decode.Walk.{
  DecodedPgn, decode_with, pick_variant, walk_fields, set_at, build_index_by_order, indexed,
}
use canboat_rs.Decode.Field.{decode_one_field_at, decode_by_width, decode_fixed, noted}
use canboat_rs.Decode.Scalars.{decode_number}
use canboat_rs.Decode.{sentinel_field_value}
use canboat_rs.FieldBits.{extract_bits, extract_raw, read_loop, chunk_of, extracted_of, as_i64}
use canboat_rs.FieldBits.Sentinel.{classify_sentinel}
use canboat_rs.Decode.Access.{field}
use canboat_rs.Decode.Index.{last_of_order, field-decode}
use canboat_rs.Decode.Walk.{decode_repeating, decode_rounds, decode_round, counted}
use canboat_rs.Decode.{decoded, integer, plain_field}
use canboat_rs.Decode.Sets.{are_reached, are_reached-decode}
use canboat_rs.Decode.Shallow.{are_shallow}
use canboat_rs.Decode.Depth.{IsFlat, decode-depth}
use canboat_rs.Encode.Integers.{integer_fields}
use canboat_rs.Tests.Tables.{some_integers, whole, field_info, counts, tables, commanded_frame}

tables-IsFlat : IsFlat tables
unfolding first_pgn index_of
tables-IsFlat claim e = sym (ap (λ o. elim o [ none ↦ true | some c ↦ are_shallow c.fields ]) e)

decode-depth_example : decode whole 5 tables commanded_frame ≡ decode whole 2 tables commanded_frame
decode-depth_example = decode-depth whole tables commanded_frame 3 tables-IsFlat

abbrev counts_frame : RawFrame
counts_frame = record commanded_frame { pgn = 65280; payload = 0xbc ∷ 0xda ∷ 0xff ∷ [] }

abbrev counts_decoded : DecodedPgn ℤ
counts_decoded = record {
  timestamp = none;
  prio = 6;
  pgn = 65280;
  src = 1;
  dst = 255;
  description = [];
  id = [];
  id_is_pinned = false;
  payload = 0xbc ∷ 0xda ∷ 0xff ∷ [];
  fields = integer_fields whole 0 counts.fields some_integers;
  has_repeating_set = (false, false);
  index_by_order = some 0 ∷ some 1 ∷ some 2 ∷ replicate 29 none;
}

decode_test : decode whole 2 tables counts_frame ≡ inr counts_decoded
unfolding decode decode_with pick_variant decode_fields walk_fields set_at decode_one_field_at
    decode_by_width decode_fixed decode_number extract_bits extract_raw read_loop chunk_of
    extracted_of sentinel_field_value classify_sentinel noted build_index_by_order indexed as_i64
decode_test = refl

field-decode_example :
    field counts_decoded (field_info 2 Kind.number true 4 none)
    ≡ last_of_order 2 counts_decoded.fields none
field-decode_example =
    field-decode whole 2 tables counts_frame counts_decoded (field_info 2 Kind.number true 4 none)
      decode_test (omega arith) (omega arith) (omega arith)

abbrev listed_frame : RawFrame
listed_frame = record commanded_frame { pgn = 65281; payload = 2 ∷ 5 ∷ 6 ∷ 7 ∷ [] }

abbrev listed_decoded : DecodedPgn ℤ
listed_decoded = record counts_decoded {
  pgn = 65281;
  payload = 2 ∷ 5 ∷ 6 ∷ 7 ∷ [];
  fields =
      plain_field (field_info 1 Kind.number false 8 (some 0)) (integer (pos 2)) 0 8
      ∷ decoded (field_info 2 Kind.number false 8 (some 8)) (integer (pos 5)) (some 8) (some 8)
          (some 0) 1 none
      ∷ decoded (field_info 2 Kind.number false 8 (some 8)) (integer (pos 6)) (some 16) (some 8)
          (some 1) 1 none
      ∷ [];
  has_repeating_set = (true, false);
  index_by_order = some 0 ∷ replicate 31 none;
}

decode-sets_test : decode whole 2 tables listed_frame ≡ inr listed_decoded
unfolding decode decode_with pick_variant decode_fields walk_fields set_at decode_one_field_at
    decode_by_width decode_fixed decode_number extract_bits extract_raw read_loop chunk_of
    extracted_of sentinel_field_value classify_sentinel noted build_index_by_order indexed as_i64
    decode_repeating decode_rounds decode_round counted
decode-sets_test = refl

are_reached-decode_example : are_reached (true, false) listed_decoded.fields ≡ true
are_reached-decode_example =
    are_reached-decode whole 2 tables listed_frame listed_decoded decode-sets_test
