-- ===== src/Tests/Fields.antt =====
-- The theorems on the fields of messages at concrete inputs.
use canboat_rs.Prelude.{
  ℕ, ◌*◌, ◌≤◌, ◌≡◌, ◌⊎◌, refl, inl, inr, List, [], ◌∷◌, ◌++◌, Option, none, some, Bool, true, false,
  arith, length, ◌<◌,
}
use canboat_rs.Frame.{RawFrame}
use canboat_rs.Int.{ℤ, pos, negsuc}
use canboat_rs.Utf8.{codes, from_utf8_lossy, lossy, tail_of, continuations, trim_string_padding}
use canboat_rs.Schema.{
  Floats, FieldType, FieldInfo, PgnInfo, PgnDatabase, first_pgn, index_of, find_table,
}
use canboat_rs.Schema as Kind
use canboat_rs.Decode.{text}
use canboat_rs.Decode.Strings.{decode_string_fix, decode_string_lau, decode_string_lz}
use canboat_rs.Decode.Walk.{decode_fields, deeper_at}
use canboat_rs.Encode as Value
use canboat_rs.Encode.{
  Staged, scalar, verbatim, stage_string_fix, stage_string_lz, stage_string_lau,
}
use canboat_rs.Encode.Build.{PgnBuilder, for_pgn, build}
use canboat_rs.Encode.Layout.{scalars, IsOrdinary, AreOrdinary}
use canboat_rs.Encode.RoundTrip.{each_alone, build-decode_fields}
use canboat_rs.Encode.Unscaled.{IsInRange, IsInteger}
use canboat_rs.Encode.Integers.{AreIntegers, staged_integers, integer_fields, build-decode_integers}
use canboat_rs.Encode.Texts.{decode-stage_text}
use canboat_rs.Tests.Tables.{some_integers, whole, field_info, counts, tables}

ordinary :
    (at order bits : ℕ) (signed : Bool) (place : Option ℕ)
    → 0 < bits
    → bits ≤ 64
    → (place ≡ some at) ⊎ (place ≡ none)
    → IsOrdinary at (field_info order Kind.number signed bits place)
ordinary at order bits signed place some_bits fits here = record {
  type = Kind.number;
  is_type = refl;
  own_bits = refl;
  wide = refl;
  not_empty = some_bits;
  fits = fits;
  unconditional = refl;
  in_place = here;
}

ordinary_counts : AreOrdinary 0 counts.fields
ordinary_counts = (
  ordinary 0 1 12 false (some 0) (omega arith) (omega arith) (inl refl),
  (
    ordinary 12 2 4 true none (omega arith) (omega arith) (inr refl),
    (ordinary 16 3 1 false (some 16) (omega arith) (omega arith) (inl refl), tt),
  ),
)

abbrev builder : List (Option Staged) → PgnBuilder ℤ
builder staged = record (for_pgn counts) { staged = staged }

build-decode_fields_example :
    let b = builder (scalars (0xabc ∷ 0xd ∷ 1 ∷ [])) in
    (frame : RawFrame) × (build b ≡ inr frame)
    × (length frame.payload ≡ 3)
    × (decode_fields whole (deeper_at whole tables 2) counts frame.payload tables ≡ (
      each_alone whole
          (deeper_at whole tables 2)
          counts
          tables
          0
          counts.fields
          (0xabc ∷ 0xd ∷ 1 ∷ []),
      (false, false),
    ))
build-decode_fields_example =
    build-decode_fields whole (deeper_at whole tables 2) tables
      (builder (scalars (0xabc ∷ 0xd ∷ 1 ∷ []))) (0xabc ∷ 0xd ∷ 1 ∷ []) ordinary_counts refl refl
      (inr refl) refl refl

fits_field :
    (order bits : ℕ) (signed : Bool) (place : Option ℕ) (n : ℤ)
    → IsInRange signed bits n
    → IsInteger whole (field_info order Kind.number signed bits place) n
fits_field order bits signed place n range = record {
  is_number = refl;
  unscaled = refl;
  unitless = refl;
  no_quantity = refl;
  no_unit_offset = refl;
  no_offset = refl;
  in_range = range;
  known = refl;
  within = refl;
  free = refl;
}

fitting_counts : AreIntegers whole counts.fields some_integers
fitting_counts = (
  fits_field 1 12 false (some 0) (pos 0xabc) (refl, omega arith, omega arith),
  (
    fits_field 2 4 true none (negsuc 2) (omega arith, omega arith),
    (fits_field 3 1 false (some 16) (pos 1) (refl, omega arith, omega arith), tt),
  ),
)

build-decode_integers_example :
    (staged : List (Option Staged)) × (staged_integers whole tables counts.fields some_integers
      ≡ inr staged)
    × ((frame : RawFrame) × (build (builder staged) ≡ inr frame)
        × (decode_fields whole (deeper_at whole tables 2) counts frame.payload tables
            ≡ (integer_fields whole 0 counts.fields some_integers, (false, false))))
build-decode_integers_example =
    build-decode_integers whole (deeper_at whole tables 2) tables (for_pgn counts) some_integers
      refl ordinary_counts fitting_counts (inr refl) refl refl

abbrev note : FieldInfo ℤ
note = field_info 1 Kind.string_fix false 64 (some 8)

sea_valid : from_utf8_lossy (codes "Sea") ≡ codes "Sea"
unfolding from_utf8_lossy lossy tail_of continuations
sea_valid = refl

decode-stage_text_example :
    ((w : List ℕ) × (stage_string_lau whole note (Value.text (codes "Sea")) ≡ inr (verbatim w))
      × (decode_string_lau {N = ℤ} ((7 ∷ []) ++ (w ++ 9 ∷ [])) 8
          ≡ (text (codes "Sea"), 8 * length w)))
    × ((w : List ℕ) × (stage_string_lz whole note (Value.text (codes "Sea")) ≡ inr (verbatim w))
        × (decode_string_lz {N = ℤ} ((7 ∷ []) ++ (w ++ 9 ∷ [])) 8 64 ≡ text (codes "Sea")))
    × ((w : List ℕ) × (stage_string_fix whole note (Value.text (codes "Sea")) ≡ inr (verbatim w))
        × (decode_string_fix {N = ℤ} ((7 ∷ []) ++ (w ++ 9 ∷ [])) 8 64 ≡ text (codes "Sea")))
decode-stage_text_example =
    decode-stage_text whole note (7 ∷ []) (codes "Sea") (9 ∷ []) 8 sea_valid refl refl (omega arith)
      (omega arith) refl

-- Filler of each kind: U+00FF, NUL and `@`.
trim_string_padding_test :
    trim_string_padding (codes "ab " ++ 0xc3 ∷ 0xbf ∷ 0 ∷ 0x40 ∷ []) ≡ codes "ab"
unfolding trim_string_padding
trim_string_padding_test = refl

-- A sequence that breaks off is replaced as a whole, and what follows is read.
from_utf8_lossy_test :
    from_utf8_lossy (0x61 ∷ 0xe2 ∷ 0x82 ∷ 0x62 ∷ 0xc3 ∷ 0xa9 ∷ [])
    ≡ 0x61 ∷ 0xef ∷ 0xbf ∷ 0xbd ∷ 0x62 ∷ 0xc3 ∷ 0xa9 ∷ []
unfolding from_utf8_lossy lossy tail_of continuations
from_utf8_lossy_test = refl
