-- ===== src/Encode/Integers.antt =====
-- The plain numbers of a message: counts, instances and the like, which are not scaled.
use canboat_rs.Prelude.{
  ℕ, suc, ◌+◌, ◌/◌, ◌≡◌, refl, ap, ap₂, ◌∙◌, List, [], ◌∷◌, Option, none, some, true, false, ◌⊎◌,
  inr, length,
}
use canboat_rs.Frame.{RawFrame}
use canboat_rs.Int.{ℤ}
use canboat_rs.FieldBits.{mask_to_width}
use canboat_rs.Schema.{Floats, FieldInfo, PgnInfo, PgnDatabase}
use canboat_rs.Schema as Kind
use canboat_rs.Decode.{integer, DecodedField, plain_field}
use canboat_rs.Decode.Field.{Deeper}
use canboat_rs.Decode.Walk.{decode_fields}
use canboat_rs.Encode.{int, Staged, scalar, value_to_raw, stage_value, Result, ◌>>>=◌}
use canboat_rs.Encode.Build.{PgnBuilder, build}
use canboat_rs.Encode.Layout.{width, total_width, AreOrdinary, scalars}
use canboat_rs.Encode.RoundTrip.{each_alone, build-decode_fields}
use canboat_rs.Encode.Unscaled.{IsInteger, alone-integer}

module _ (fl : Floats) where
  abbrev pub AreIntegers : List (FieldInfo fl.Num) → List ℤ → Type 0
  AreIntegers [] [] = Unit
  AreIntegers [] (n ∷ ns) = ⊥
  AreIntegers (f ∷ fs) [] = ⊥
  AreIntegers (f ∷ fs) (n ∷ ns) = IsInteger fl f n × AreIntegers fs ns

  -- What `stage_value` makes of the integers.
  abbrev pub staged_integers :
      PgnDatabase fl.Num → List (FieldInfo fl.Num) → List ℤ → Result fl.Num (List (Option Staged))
  staged_integers db [] ns = inr []
  staged_integers db (f ∷ fs) [] = inr []
  staged_integers db (f ∷ fs) (n ∷ ns) = stage_value fl db f (int n) >>>= λ s.
      staged_integers db fs ns >>>= λ staged. inr (some s ∷ staged)

  abbrev pub integer_fields : ℕ → List (FieldInfo fl.Num) → List ℤ → List (DecodedField fl.Num)
  integer_fields at [] ns = []
  integer_fields at (f ∷ fs) [] = []
  integer_fields at (f ∷ fs) (n ∷ ns) =
      plain_field f (integer n) at (width f) ∷ integer_fields (at + width f) fs ns

  abbrev masks : List (FieldInfo fl.Num) → List ℤ → List ℕ
  masks [] ns = []
  masks (f ∷ fs) [] = []
  masks (f ∷ fs) (n ∷ ns) = mask_to_width n (width f) ∷ masks fs ns

  length-masks :
      (fs : List (FieldInfo fl.Num)) (ns : List ℤ)
      → AreIntegers fs ns
      → length (masks fs ns) ≡ length fs
  length-masks [] ns are = refl
  length-masks (f ∷ fs) [] are = absurd are
  length-masks (f ∷ fs) (n ∷ ns) are = ap suc (length-masks fs ns are.1)

  stage_value-int :
      (db : PgnDatabase fl.Num) (f : FieldInfo fl.Num) (n : ℤ) (len : ℕ)
      → f.field_type ≡ some Kind.number
      → f.bit_length ≡ some len
      → stage_value fl db f (int n) ≡ inr (scalar (mask_to_width n len))
  unfolding stage_value value_to_raw
  stage_value-int db f n len is wide = rw (is, wide) refl

  staged-masks :
      (db : PgnDatabase fl.Num) (at : ℕ) (fs : List (FieldInfo fl.Num)) (ns : List ℤ)
      → AreOrdinary at fs
      → AreIntegers fs ns
      → staged_integers db fs ns ≡ inr (scalars (masks fs ns))
  staged-masks db at [] ns ord are = refl
  staged-masks db at (f ∷ fs) [] ord are = refl
  staged-masks db at (f ∷ fs) (n ∷ ns) ord are =
      rw
        (
          stage_value-int db f n (width f) are.0.is_number ord.0.wide,
          staged-masks db (at + width f) fs ns ord.1 are.1,
        )
        refl

  each_alone-integer :
      (deeper : Deeper fl.Num) (info : PgnInfo fl.Num) (db : PgnDatabase fl.Num) (at : ℕ)
      (fs : List (FieldInfo fl.Num)) (ns : List ℤ)
      → fl.equal fl.zero_num fl.zero_num ≡ true
      → AreOrdinary at fs
      → AreIntegers fs ns
      → each_alone fl deeper info db at fs (masks fs ns) ≡ integer_fields at fs ns
  each_alone-integer deeper info db at [] ns equal_zero ord are = refl
  each_alone-integer deeper info db at (f ∷ fs) [] equal_zero ord are = refl
  each_alone-integer deeper info db at (f ∷ fs) (n ∷ ns) equal_zero ord are =
      ap₂ (λ v rest. plain_field f v at (width f) ∷ rest)
        (alone-integer fl f n are.0 deeper info db equal_zero ord.0.not_empty ord.0.fits)
        (each_alone-integer deeper info db (at + width f) fs ns equal_zero ord.1 are.1)

-- A message of plain integers is decoded to them. Where each field of the message is an unscaled
-- number of 1 to 64 bits right after the one before, with no conditions and no repeating sets, and
-- each integer fits its field and is named by no hint of the schema, all of them can be staged, the
-- message is built, and its fields decode to the integers. Of `f64` it takes that 0 equals 0.
pub build-decode_integers :
    (fl : Floats) (deeper : Deeper fl.Num) (db : PgnDatabase fl.Num) (b : PgnBuilder fl.Num)
    (ns : List ℤ)
    → fl.equal fl.zero_num fl.zero_num ≡ true
    → AreOrdinary 0 b.pgn.fields
    → AreIntegers fl b.pgn.fields ns
    → (b.pgn.length ≡ none) ⊎ (b.pgn.length ≡ some ((total_width b.pgn.fields + 7) / 8))
    → b.pgn.repeating_field_set1_start_field ≡ none
    → b.pgn.repeating_field_set2_start_field ≡ none
    → (staged : List (Option Staged)) × (staged_integers fl db b.pgn.fields ns ≡ inr staged)
      × ((frame : RawFrame) × (build (record b { staged = staged }) ≡ inr frame)
          × (decode_fields fl deeper b.pgn frame.payload db
              ≡ (integer_fields fl 0 b.pgn.fields ns, (false, false))))
build-decode_integers fl deeper db b ns equal_zero ord are declared no1 no2 =
    let fs = b.pgn.fields in
    let vs = masks fl fs ns in
    let out =
      build-decode_fields fl deeper db (record b { staged = scalars vs }) vs ord refl
        (length-masks fl fs ns are) declared no1 no2 in
    let shown = each_alone-integer fl deeper b.pgn db 0 fs ns equal_zero ord are in
    (
      scalars vs,
      staged-masks fl db 0 fs ns ord are,
      (out.0, out.1, out.3 ∙ ap (λ x. (x, (false, false))) shown),
    )
