-- ===== src/Decode/Walk.antt =====
-- The fields of a PGN one after the other, with its repeating sets, and the whole message.
use canboat_rs.Prelude.{
  ℕ, zero, suc, ◌+◌, ◌-◌, ◌*◌, ◌^◌, List, [], ◌∷◌, ◌++◌, Option, none, some, Bool, true, false, not,
  ◌&&◌, ◌||◌, ltb, leb, ◌==◌, if◌then◌else◌, length, take, drop, max, set, replicate, get_elem?,
  ◌⊎◌, inl, inr,
}
use canboat_rs.Frame.{RawFrame, Text}
use canboat_rs.Schema.{Floats, FieldInfo, PgnInfo, PgnDatabase, first_pgn}
use canboat_rs.Decode.{
  DecodedField, decoded, DecodeContext, info_of, value_of, repeat_set_of, no_context,
}
use canboat_rs.Decode.Scalars.{or_else, is_some}
use canboat_rs.Decode.Field.{Deeper, decode_one_field_at, count_of}

-- What the walk hands on: the fields so far, the context and the bit after the last field.
pub record Walk (N : Type 0) : Type 0 where
  pub out : List (DecodedField N)
  pub ctx : DecodeContext N
  pub cursor : ℕ

-- A repeating set: its first field, its size, the field that counts it, and its number.
pub record RepeatingSet : Type 0 where
  pub start : ℕ
  pub size : ℕ
  pub count_field : Option ℕ
  pub number : ℕ

abbrev pub with_repeat : {N : Type 0} → DecodedField N → ℕ → Option ℕ → DecodedField N
with_repeat (decoded f v off len index s over) set_number index' =
    decoded f v off len index' set_number over

-- The count that a field gives.
unfoldable pub counted : (fl : Floats) → ℕ → List (DecodedField fl.Num) → Option ℕ
counted fl order [] = none
counted fl order (d ∷ ds) =
    let later = counted fl order ds in
    if (info_of d).order == order then count_of fl (value_of d) else later

abbrev set_of : Option ℕ → Option ℕ → Option ℕ → ℕ → Option RepeatingSet
set_of (some start) (some size) count_field set_number =
    some (record { start = start; size = size; count_field = count_field; number = set_number })
set_of none size count_field set_number = none
set_of (some start) none count_field set_number = none

-- The set that begins with this field.
unfoldable pub set_at : {N : Type 0} → PgnInfo N → FieldInfo N → Option RepeatingSet
set_at info f =
    let starts : Option RepeatingSet → Bool =
      λ s. elim s [ none ↦ false | some s ↦ f.order == s.start ] in
    let one =
      set_of info.repeating_field_set1_start_field info.repeating_field_set1_size
        info.repeating_field_set1_count_field 1 in
    let two =
      set_of info.repeating_field_set2_start_field info.repeating_field_set2_size
        info.repeating_field_set2_count_field 2 in
    if starts one then one else if starts two then two else none

-- The sets that were reached, by number.
abbrev pub entered_by : Bool × Bool → ℕ → Bool × Bool
entered_by (one, two) set_number = if set_number == 1 then (true, two) else (one, true)

module _ (fl : Floats) (deeper : Deeper fl.Num) (info : PgnInfo fl.Num) (bytes : List ℕ)
    (db : PgnDatabase fl.Num) where
  -- One round over the fields of a set. Also whether any field was decoded.
  unfoldable pub decode_round :
      RepeatingSet → ℕ → Bool → List (FieldInfo fl.Num) → Walk fl.Num → Bool → Walk fl.Num × Bool
  decode_round s iter count_was_zero [] w produced = (w, produced)
  decode_round s iter count_was_zero (f ∷ fs) w produced =
      let off = if iter == 0 then or_else w.cursor f.bit_offset else w.cursor in
      elim (is_some f.condition) [
        | true ↦ decode_round s iter count_was_zero fs w produced
        | false ↦ elim (decode_one_field_at fl deeper f info bytes db off w.ctx) [
          | some (d, bits, ctx) ↦
              let index = if count_was_zero && produced then none else some iter in
              let next : Walk fl.Num = record {
                out = w.out ++ with_repeat d s.number index ∷ [];
                ctx = ctx;
                cursor = off + bits;
              } in
              decode_round s iter count_was_zero fs next true
          | none ↦
              let skipped : Walk fl.Num = record w {
                cursor = elim f.bit_length as (λ _. ℕ) [ none ↦ w.cursor | some n ↦ off + n ];
              } in
              decode_round s iter count_was_zero fs skipped produced
        ]
      ]

  -- At most `rounds` more, until the payload ends or a round gives nothing.
  unfoldable pub decode_rounds :
      ℕ → RepeatingSet → Bool → List (FieldInfo fl.Num) → ℕ → Walk fl.Num → Walk fl.Num
  decode_rounds zero s count_was_zero fs iter w = w
  decode_rounds (suc rounds) s count_was_zero fs iter w = elim (leb (length bytes * 8) w.cursor) [
    | true ↦ w
    | false ↦
        let round = decode_round s iter count_was_zero fs w false in
        elim round.1 [
          | true ↦ decode_rounds rounds s count_was_zero fs (suc iter) round.0
          | false ↦ record round.0 { cursor = w.cursor }
        ]
  ]

  -- A count of zero still gives one round.
  unfoldable pub decode_repeating :
      RepeatingSet → List (FieldInfo fl.Num) → Walk fl.Num → Walk fl.Num
  decode_repeating s [] w = w
  decode_repeating s (f ∷ fs) w =
      let raw_count = elim s.count_field as (λ _. Option ℕ) [
        | none ↦ none
        | some order ↦ counted fl order w.out
      ] in
      let max_iters = elim raw_count as (λ _. ℕ) [ none ↦ 2 ^ 32 - 1 | some n ↦ max n 1 ] in
      let count_was_zero = elim raw_count as (λ _. Bool) [ none ↦ false | some n ↦ n == 0 ] in
      decode_rounds max_iters s count_was_zero (f ∷ fs) 0
        (record w { cursor = or_else w.cursor f.bit_offset })

  -- Each pass takes one field or a whole set; a set of no fields, which the tables do not have, would
  -- be passed for ever.
  unfoldable pub walk_fields :
      ℕ → List (FieldInfo fl.Num) → Walk fl.Num → Bool × Bool → Walk fl.Num × (Bool × Bool)
  walk_fields zero fs w entered = (w, entered)
  walk_fields (suc n) [] w entered = (w, entered)
  walk_fields (suc n) (f ∷ fs) w entered =
      let at = or_else w.cursor f.bit_offset in
      elim (set_at info f) [
        | some s ↦
            let entered' =
              if ltb at (length bytes * 8) then entered_by entered s.number else entered in
            walk_fields n (drop s.size (f ∷ fs)) (decode_repeating s (take s.size (f ∷ fs)) w)
              entered'
        | none ↦ elim (is_some f.condition) [
          | true ↦ walk_fields n fs w entered
          | false ↦ elim (decode_one_field_at fl deeper f info bytes db at w.ctx) [
            | none ↦ walk_fields n fs w entered
            | some (d, bits, ctx) ↦
                walk_fields n fs (record { out = w.out ++ d ∷ []; ctx = ctx; cursor = at + bits })
                  entered
          ]
        ]
      ]

  unfoldable pub decode_fields : List (DecodedField fl.Num) × (Bool × Bool)
  decode_fields =
      let end =
        walk_fields (length info.fields) info.fields
          (record { out = []; ctx = no_context; cursor = 0 }) (false, false) in
      (end.0.out, end.1)

-- The decoder for what a field holds of other PGNs, so many levels deep.
unfoldable pub deeper_at : (fl : Floats) → PgnDatabase fl.Num → ℕ → Deeper fl.Num
deeper_at fl db zero = record { name_fields = λ bytes. []; target_field = λ f info bytes at. none }
deeper_at fl db (suc depth) =
    let below = deeper_at fl db depth in
    record {
      name_fields = λ bytes. elim (first_pgn db 60928) [
        | none ↦ []
        | some claim ↦ (decode_fields fl below claim bytes db).0
      ];
      target_field = λ f info bytes at.
          elim (decode_one_field_at fl below f info bytes db at no_context) [
            | none ↦ none
            | some out ↦ some (out.0, out.1)
          ];
    }

-- The place of each field outside of the sets, by its order. The first of several is overwritten.
unfoldable pub indexed :
    {N : Type 0} → ℕ → List (DecodedField N) → List (Option ℕ) → List (Option ℕ)
indexed place [] index = index
indexed place (d ∷ ds) index =
    let order = (info_of d).order in
    let next =
      if not (repeat_set_of d == 0) || order == 0 || leb 127 place
      then index
      else set index (order - 1) (some place) in
    indexed (place + 1) ds next

unfoldable pub build_index_by_order : {N : Type 0} → List (DecodedField N) → List (Option ℕ)
build_index_by_order ds = indexed 0 ds (replicate 32 none)

pub record DecodedPgn (N : Type 0) : Type 0 where
  pub timestamp : Option Text
  pub prio : ℕ
  pub pgn : ℕ
  pub src : ℕ
  pub dst : ℕ
  pub description : Text
  pub id : Text
  pub id_is_pinned : Bool
  pub payload : List ℕ
  pub fields : List (DecodedField N)
  pub has_repeating_set : Bool × Bool
  pub index_by_order : List (Option ℕ)

unfoldable pub pick_variant : {N : Type 0} → PgnDatabase N → RawFrame → Option (PgnInfo N)
pick_variant db frame = elim (db.dispatch frame.pgn frame.payload) [
  | some i ↦ get_elem? db.pgns i
  | none ↦ elim (db.find_catchall frame.pgn) [ none ↦ none | some i ↦ get_elem? db.pgns i ]
]

-- The error is the number of the unknown PGN.
unfoldable pub decode_with :
    (fl : Floats) → Deeper fl.Num → PgnDatabase fl.Num → RawFrame → ℕ ⊎ DecodedPgn fl.Num
decode_with fl deeper db frame = elim (pick_variant db frame) [
  | none ↦ inl frame.pgn
  | some info ↦
      let out = decode_fields fl deeper info frame.payload db in
      inr (record {
        timestamp = frame.timestamp;
        prio = frame.prio;
        pgn = frame.pgn;
        src = frame.src;
        dst = frame.dst;
        description = info.description;
        id = info.id;
        id_is_pinned = info.id_is_pinned;
        payload = frame.payload;
        fields = out.0;
        has_repeating_set = out.1;
        index_by_order = build_index_by_order out.0;
      })
]

unfoldable pub decode : (fl : Floats) → ℕ → PgnDatabase fl.Num → RawFrame → ℕ ⊎ DecodedPgn fl.Num
decode fl depth db frame = decode_with fl (deeper_at fl db depth) db frame
