-- ===== src/Decode/Shallow.antt =====
-- The fields that do not go through the decoder again are decoded alike, whatever is below.
use canboat_rs.Prelude.{
  ℕ, zero, suc, ◌+◌, ◌*◌, ◌≡◌, refl, ap, List, [], ◌∷◌, ◌++◌, Option, none, some, Bool, true, false,
  ◌&&◌, ◌==◌, arith, length, take, drop, leb, ltb, if◌then◌else◌,
}
use canboat_rs.Schema.{Floats, FieldInfo, PgnInfo, PgnDatabase, FieldType, first_pgn}
use canboat_rs.Schema as Kind
use canboat_rs.Decode.{DecodeContext}
use canboat_rs.Decode.Scalars.{or_else, is_some}
use canboat_rs.Decode.Field.{Deeper, decode_fixed, decode_by_width, decode_one_field_at}
use canboat_rs.Decode.Walk.{
  Walk, RepeatingSet, with_repeat, decode_round, decode_rounds, decode_repeating, set_at,
  entered_by, walk_fields, decode_fields,
}

-- The types that do not go through the decoder again.
abbrev pub is_shallow : Option FieldType → Bool
is_shallow t = elim t [
  | some Kind.variable ↦ false
  | some Kind.iso_name ↦ false
  | some Kind.dynamic_field_value ↦ false
  | _ ↦ true
]

abbrev pub are_shallow : {N : Type 0} → List (FieldInfo N) → Bool
are_shallow [] = true
are_shallow (f ∷ fs) = is_shallow f.field_type && are_shallow fs

and_true : (a b : Bool) → (a && b) ≡ true → (a ≡ true) × (b ≡ true)
and_true true b h = (refl, h)
and_true false b h = absurd (ground arith)

take_shallow :
    {N : Type 0} (n : ℕ) (fs : List (FieldInfo N))
    → are_shallow fs ≡ true
    → are_shallow (take n fs) ≡ true
take_shallow zero fs h = refl
take_shallow (suc n) [] h = refl
take_shallow (suc n) (f ∷ fs) h =
    let both = and_true (is_shallow f.field_type) (are_shallow fs) h in
    rw (both.0, take_shallow n fs both.1) refl

drop_shallow :
    {N : Type 0} (n : ℕ) (fs : List (FieldInfo N))
    → are_shallow fs ≡ true
    → are_shallow (drop n fs) ≡ true
drop_shallow zero fs h = h
drop_shallow (suc n) [] h = refl
drop_shallow (suc n) (f ∷ fs) h =
    drop_shallow n fs (and_true (is_shallow f.field_type) (are_shallow fs) h).1

-- Two decoders for what lies deeper.
module _ (fl : Floats) (one two : Deeper fl.Num) (info : PgnInfo fl.Num) (bytes : List ℕ)
    (db : PgnDatabase fl.Num) where
  typed_same :
      (f : FieldInfo fl.Num) (at : ℕ) (ctx : DecodeContext fl.Num) (t : Option FieldType)
      → f.field_type ≡ t
      → is_shallow t ≡ true
      → decode_one_field_at fl one f info bytes db at ctx
        ≡ decode_one_field_at fl two f info bytes db at ctx
  unfolding decode_one_field_at decode_by_width decode_fixed
  typed_same f at ctx none is h = rw is refl
  typed_same f at ctx (some Kind.number) is h = rw is refl
  typed_same f at ctx (some Kind.decimal) is h = rw is refl
  typed_same f at ctx (some Kind.float) is h = rw is refl
  typed_same f at ctx (some Kind.binary) is h = rw is refl
  typed_same f at ctx (some Kind.lookup) is h = rw is refl
  typed_same f at ctx (some Kind.bit_lookup) is h = rw is refl
  typed_same f at ctx (some Kind.indirect_lookup) is h = rw is refl
  typed_same f at ctx (some Kind.date) is h = rw is refl
  typed_same f at ctx (some Kind.time) is h = rw is refl
  typed_same f at ctx (some Kind.duration) is h = rw is refl
  typed_same f at ctx (some Kind.string_fix) is h = rw is refl
  typed_same f at ctx (some Kind.string_lz) is h = rw is refl
  typed_same f at ctx (some Kind.string_lau) is h = rw is refl
  typed_same f at ctx (some Kind.variable) is h = absurd (ground arith)
  typed_same f at ctx (some Kind.mmsi) is h = rw is refl
  typed_same f at ctx (some Kind.pgn_number) is h = rw is refl
  typed_same f at ctx (some Kind.iso_name) is h = absurd (ground arith)
  typed_same f at ctx (some Kind.reserved) is h = rw is refl
  typed_same f at ctx (some Kind.spare) is h = rw is refl
  typed_same f at ctx (some Kind.dynamic_field_key) is h = rw is refl
  typed_same f at ctx (some Kind.dynamic_field_length) is h = rw is refl
  typed_same f at ctx (some Kind.dynamic_field_value) is h = absurd (ground arith)
  typed_same f at ctx (some Kind.field_index) is h = rw is refl

  pub field_same :
      (f : FieldInfo fl.Num) (at : ℕ) (ctx : DecodeContext fl.Num)
      → is_shallow f.field_type ≡ true
      → decode_one_field_at fl one f info bytes db at ctx
        ≡ decode_one_field_at fl two f info bytes db at ctx
  field_same f at ctx h = typed_same f at ctx f.field_type refl h

  round_same :
      (s : RepeatingSet) (iter : ℕ) (z : Bool) (fs : List (FieldInfo fl.Num)) (w : Walk fl.Num)
      (produced : Bool)
      → are_shallow fs ≡ true
      → decode_round fl one info bytes db s iter z fs w produced
        ≡ decode_round fl two info bytes db s iter z fs w produced
  unfolding decode_round
  round_same s iter z [] w produced h = refl
  round_same s iter z (f ∷ fs) w produced h =
      let both = and_true (is_shallow f.field_type) (are_shallow fs) h in
      let off = if iter == 0 then or_else w.cursor f.bit_offset else w.cursor in
      λ i. elim (is_some f.condition) [
        | true ↦ round_same s iter z fs w produced both.1 i
        | false ↦ elim (field_same f off w.ctx both.0 i) [
          | some (d, bits, ctx) ↦
              let index = if z && produced then none else some iter in
              let next : Walk fl.Num = record {
                out = w.out ++ with_repeat d s.number index ∷ [];
                ctx = ctx;
                cursor = off + bits;
              } in
              round_same s iter z fs next true both.1 i
          | none ↦
              let skipped : Walk fl.Num = record w {
                cursor = elim f.bit_length as (λ _. ℕ) [ none ↦ w.cursor | some n ↦ off + n ];
              } in
              round_same s iter z fs skipped produced both.1 i
        ]
      ]

  rounds_same :
      (rounds : ℕ) (s : RepeatingSet) (z : Bool) (fs : List (FieldInfo fl.Num)) (iter : ℕ)
      (w : Walk fl.Num)
      → are_shallow fs ≡ true
      → decode_rounds fl one info bytes db rounds s z fs iter w
        ≡ decode_rounds fl two info bytes db rounds s z fs iter w
  unfolding decode_rounds
  rounds_same zero s z fs iter w h = refl
  rounds_same (suc rounds) s z fs iter w h = λ i.
      let round = round_same s iter z fs w false h i in
      elim (leb (length bytes * 8) w.cursor) [
        | true ↦ w
        | false ↦ elim round.1 [
          | true ↦ rounds_same rounds s z fs (suc iter) round.0 h i
          | false ↦ record round.0 { cursor = w.cursor }
        ]
      ]

  repeating_same :
      (s : RepeatingSet) (fs : List (FieldInfo fl.Num)) (w : Walk fl.Num)
      → are_shallow fs ≡ true
      → decode_repeating fl one info bytes db s fs w ≡ decode_repeating fl two info bytes db s fs w
  unfolding decode_repeating
  repeating_same s [] w h = refl
  repeating_same s (f ∷ fs) w h = rounds_same _ s _ (f ∷ fs) 0 _ h

  walk_same :
      (n : ℕ) (fs : List (FieldInfo fl.Num)) (w : Walk fl.Num) (entered : Bool × Bool)
      → are_shallow fs ≡ true
      → walk_fields fl one info bytes db n fs w entered
        ≡ walk_fields fl two info bytes db n fs w entered
  unfolding walk_fields
  walk_same zero fs w entered h = refl
  walk_same (suc n) [] w entered h = refl
  walk_same (suc n) (f ∷ fs) w entered h =
      let both = and_true (is_shallow f.field_type) (are_shallow fs) h in
      let at = or_else w.cursor f.bit_offset in
      λ i. elim (set_at info f) [
        | some s ↦
            let entered' =
              if ltb at (length bytes * 8) then entered_by entered s.number else entered in
            walk_same n (drop s.size (f ∷ fs))
              (repeating_same s (take s.size (f ∷ fs)) w (take_shallow s.size (f ∷ fs) h) i)
              entered' (drop_shallow s.size (f ∷ fs) h) i
        | none ↦ elim (is_some f.condition) [
          | true ↦ walk_same n fs w entered both.1 i
          | false ↦ elim (field_same f at w.ctx both.0 i) [
            | none ↦ walk_same n fs w entered both.1 i
            | some (d, bits, ctx) ↦
                walk_same n fs (record { out = w.out ++ d ∷ []; ctx = ctx; cursor = at + bits })
                  entered both.1 i
          ]
        ]
      ]

  pub fields_same :
      are_shallow info.fields ≡ true
      → decode_fields fl one info bytes db ≡ decode_fields fl two info bytes db
  unfolding decode_fields
  fields_same h =
      ap (λ end. (end.0.out, end.1)) (walk_same (length info.fields) info.fields _ (false, false) h)
