-- ===== src/Tests/Tables.antt =====
-- Small tables and messages to decode.
use canboat_rs.Prelude.{
  ℕ, ◌+◌, if◌then◌else◌, ◌/◌, List, [], ◌∷◌, Option, none, some, Bool, true, false, ◌&&◌, ◌==◌, leb,
}
use canboat_rs.Frame.{RawFrame}
use canboat_rs.Int.{negsuc, ℤ, pos, ◌+ℤ◌, ◌-ℤ◌, ◌*ℤ◌, pos_part, neg_part}
use canboat_rs.Schema.{
  Floats, FieldType, FieldInfo, PgnInfo, PgnDatabase, first_pgn, index_of, find_table,
}
use canboat_rs.Schema as Kind

-- Whole numbers in place of floating point.
abbrev pub whole : Floats
whole = record {
  Num = ℤ;
  zero_num = pos 0;
  one_num = pos 1;
  of_int = λ n. n;
  add = ◌+ℤ◌;
  sub = ◌-ℤ◌;
  mul = ◌*ℤ◌;
  div = λ a b. pos (pos_part a / pos_part b);
  round = λ a. a;
  is_finite = λ a. true;
  equal = λ a b. (pos_part a == pos_part b) && (neg_part a == neg_part b);
  at_least = λ a b. leb (pos_part b + neg_part a) (pos_part a + neg_part b);
  to_int = λ a. a;
  to_u32 = pos_part;
  from_bits = pos;
  to_bits = pos_part;
  int_to_bits = pos_part;
}

abbrev pub field_info : ℕ → FieldType → Bool → ℕ → Option ℕ → FieldInfo ℤ
field_info order type signed bits at = record {
  order = order;
  id = order ∷ [];
  name = order ∷ [];
  bit_length = some bits;
  bit_offset = at;
  resolution = none;
  signed = some signed;
  offset = none;
  unknown_value = none;
  out_of_range_value = none;
  reserved_value = none;
  unit = none;
  physical_quantity = none;
  field_type = some type;
  lookup_enumeration = none;
  lookup_bit_enumeration = none;
  lookup_indirect_enumeration = none;
  lookup_indirect_enumeration_field_order = none;
  lookup_field_type_enumeration = none;
  match_value = none;
  condition = none;
  unit_offset = pos 0;
  precision = 0;
  is_dynamic_length_marker = false;
}

abbrev pub message : ℕ → Option ℕ → List (FieldInfo ℤ) → PgnInfo ℤ
message pgn size fields = record {
  pgn = pgn;
  id = [];
  description = [];
  packet_type = Kind.single;
  priority = some 3;
  length = size;
  fields = fields;
  repeating_field_set1_size = none;
  repeating_field_set1_start_field = none;
  repeating_field_set1_count_field = none;
  repeating_field_set2_size = none;
  repeating_field_set2_start_field = none;
  repeating_field_set2_count_field = none;
  id_is_pinned = false;
}

-- A count of 12 bits, a signed number of 4 bits and a flag.
abbrev pub counts : PgnInfo ℤ
counts = message 65280 (some 3) (
    field_info 1 Kind.number false 12 (some 0)
    ∷ field_info 2 Kind.number true 4 none
    ∷ field_info 3 Kind.number false 1 (some 16)
    ∷ [])

-- A NAME with two of its fields, and a message with a NAME in it.
abbrev pub a_claim : PgnInfo ℤ
a_claim = message 60928 (some 8) (
    field_info 1 Kind.number false 21 (some 0) ∷ field_info 2 Kind.reserved false 43 (some 21) ∷ [])

abbrev pub commanded : PgnInfo ℤ
commanded =
    message 65240 (some 9) (
      field_info 1 Kind.iso_name false 64 (some 0)
      ∷ field_info 2 Kind.number false 8 (some 64)
      ∷ [])

-- A count, and then as many numbers.
abbrev pub listed : PgnInfo ℤ
listed =
    record (message 65281 none (
      field_info 1 Kind.number false 8 (some 0) ∷ field_info 2 Kind.number false 8 (some 8) ∷ [])) {
        repeating_field_set1_size = some 1;
        repeating_field_set1_start_field = some 2;
        repeating_field_set1_count_field = some 1;
      }

abbrev pub tables : PgnDatabase ℤ
tables = record {
  pgns = a_claim ∷ commanded ∷ counts ∷ listed ∷ [];
  pgn_index = (60928, 0 ∷ []) ∷ (65240, 1 ∷ []) ∷ (65280, 2 ∷ []) ∷ [];
  lookups = [];
  bit_lookups = [];
  indirect_lookups = [];
  field_type_lookups = [];
  dispatch = λ pgn bytes.
      if pgn == 60928
      then some 0
      else if pgn == 65240
      then some 1
      else if pgn == 65280
      then some 2
      else if pgn == 65281
      then some 3
      else none;
  find_catchall = λ pgn. none;
}

abbrev pub commanded_frame : RawFrame
commanded_frame = record {
  timestamp = none;
  prio = 6;
  pgn = 65240;
  src = 1;
  dst = 255;
  payload = 1 ∷ 2 ∷ 3 ∷ 4 ∷ 5 ∷ 6 ∷ 7 ∷ 8 ∷ 42 ∷ [];
}

abbrev pub some_integers : List ℤ
some_integers = pos 0xabc ∷ negsuc 2 ∷ pos 1 ∷ []
