-- ===== src/Decode/Sets.antt =====
-- The fields of repeating sets, and the flags that tell that a set was reached.
use canboat_rs.Prelude.{
  ℕ, zero, suc, ◌*◌, ◌≡◌, refl, ap, ◌∙◌, subst, List, [], ◌∷◌, ◌++◌, Option, Bool, true, false,
  ◌&&◌, ◌||◌, ltb, leb, ◌==◌, if◌then◌else◌, length, take, drop, arith, Bool-cases, Option-cases,
  ◌⊎◌, inl, inr,
}
use canboat_rs.Frame.{RawFrame}
use canboat_rs.Schema.{Floats, FieldInfo, PgnInfo, PgnDatabase}
use canboat_rs.Decode.{DecodedField, decoded, no_context, repeat_set_of}
use canboat_rs.Decode.Scalars.{or_else, is_some}
use canboat_rs.Decode.Field.{Deeper, decode_one_field_at}
use canboat_rs.Decode.Outside.{IsOutside, decode_one_field_at-IsOutside}
use canboat_rs.Decode.Walk.{
  Walk, RepeatingSet, with_repeat, decode_round, decode_rounds, decode_repeating, set_at,
  entered_by, walk_fields, decode_fields, deeper_at, DecodedPgn, pick_variant, decode_with, decode,
}

-- The flag of a set; what stands outside of sets needs none.
abbrev pub is_reached : Bool × Bool → ℕ → Bool
is_reached (one, two) set_number = set_number == 0 || (if set_number == 1 then one else two)

abbrev pub are_reached : {N : Type 0} → Bool × Bool → List (DecodedField N) → Bool
are_reached entered [] = true
are_reached entered (d ∷ ds) = is_reached entered (repeat_set_of d) && are_reached entered ds

and_true : {a b : Bool} → a ≡ true → b ≡ true → (a && b) ≡ true
and_true {b = b} ha hb = rw ha hb

both_true : (a b : Bool) → (a && b) ≡ true → (a ≡ true) × (b ≡ true)
both_true true b h = (refl, h)
both_true false b h = absurd (ground arith)

are_reached-snoc :
    {N : Type 0} (entered : Bool × Bool) (ds : List (DecodedField N)) (d : DecodedField N)
    → are_reached entered ds ≡ true
    → is_reached entered (repeat_set_of d) ≡ true
    → are_reached entered (ds ++ d ∷ []) ≡ true
are_reached-snoc entered [] d all one = and_true one refl
are_reached-snoc entered (x ∷ ds) d all one =
    let both = both_true (is_reached entered (repeat_set_of x)) (are_reached entered ds) all in
    and_true both.0 (are_reached-snoc entered ds d both.1 one)

-- A flag more does not take one away.
first_more :
    (a b one two : Bool)
    → (a || (if b then one else two)) ≡ true
    → (a || (if b then true else two)) ≡ true
first_more true b one two h = refl
first_more false true one two h = refl
first_more false false one two h = h

second_more :
    (a b one two : Bool)
    → (a || (if b then one else two)) ≡ true
    → (a || (if b then one else true)) ≡ true
second_more true b one two h = refl
second_more false true one two h = h
second_more false false one two h = refl

is_reached-more :
    (entered : Bool × Bool) (set_number k : ℕ)
    → is_reached entered k ≡ true
    → is_reached (entered_by entered set_number) k ≡ true
is_reached-more (one, two) set_number k h = elim (Bool-cases (set_number == 1)) [
  | inl first ↦ rw first (first_more (k == 0) (k == 1) one two h)
  | inr second ↦ rw second (second_more (k == 0) (k == 1) one two h)
]

are_reached-entered_by :
    {N : Type 0} (entered : Bool × Bool) (set_number : ℕ) (ds : List (DecodedField N))
    → are_reached entered ds ≡ true
    → are_reached (entered_by entered set_number) ds ≡ true
are_reached-entered_by entered set_number [] all = refl
are_reached-entered_by entered set_number (d ∷ ds) all =
    let both = both_true (is_reached entered (repeat_set_of d)) (are_reached entered ds) all in
    and_true (is_reached-more entered set_number (repeat_set_of d) both.0)
      (are_reached-entered_by entered set_number ds both.1)

is_reached-entered_by :
    (entered : Bool × Bool) (set_number : ℕ)
    → is_reached (entered_by entered set_number) set_number ≡ true
is_reached-entered_by (one, two) set_number = elim (Bool-cases (set_number == 0)) [
  | inl outside ↦ rw outside refl
  | inr inside ↦ elim (Bool-cases (set_number == 1)) [
    | inl first ↦ rw (inside, first) refl
    | inr second ↦ rw (inside, second) refl
  ]
]

repeat_set_of-with_repeat :
    {N : Type 0} (d : DecodedField N) (set_number : ℕ) (index : Option ℕ)
    → repeat_set_of (with_repeat d set_number index) ≡ set_number
repeat_set_of-with_repeat (decoded f v off len i s over) set_number index = refl

ℕ-cases : (n : ℕ) → (n ≡ 0) ⊎ ((m : ℕ) × (n ≡ suc m))
ℕ-cases zero = inl refl
ℕ-cases (suc m) = inr (m, refl)

module _ (fl : Floats) (deeper : Deeper fl.Num) (info : PgnInfo fl.Num) (bytes : List ℕ)
    (db : PgnDatabase fl.Num) where
  decode_round-are_reached :
      (s : RepeatingSet) (iter : ℕ) (zero_count : Bool) (fs : List (FieldInfo fl.Num))
      (w : Walk fl.Num) (produced : Bool) (entered : Bool × Bool)
      → are_reached entered w.out ≡ true
      → is_reached entered s.number ≡ true
      → are_reached entered
          (decode_round fl deeper info bytes db s iter zero_count fs w produced).0.out
        ≡ true
  unfolding decode_round
  decode_round-are_reached s iter zero_count [] w produced entered all here = all
  decode_round-are_reached s iter zero_count (f ∷ fs) w produced entered all here =
      let off = if iter == 0 then or_else w.cursor f.bit_offset else w.cursor in
      elim (Bool-cases (is_some f.condition)) [
        | inl conditional ↦
            rw (conditional, decode_round)
              (decode_round-are_reached s iter zero_count fs w produced entered all here)
        | inr always ↦
            elim (Option-cases (decode_one_field_at fl deeper f info bytes db off w.ctx)) [
              | inl e ↦
                  rw (always, e, decode_round)
                    (decode_round-are_reached s iter zero_count fs _ produced entered all here)
              | inr ((d, bits, ctx), e) ↦
                  rw (always, e, decode_round)
                    (decode_round-are_reached s iter zero_count fs _ true entered
                      (are_reached-snoc entered w.out _ all
                        (ap (is_reached entered) (repeat_set_of-with_repeat d s.number _) ∙ here))
                      here)
            ]
      ]

  decode_rounds-are_reached :
      (rounds : ℕ) (s : RepeatingSet) (zero_count : Bool) (fs : List (FieldInfo fl.Num)) (iter : ℕ)
      (w : Walk fl.Num) (entered : Bool × Bool)
      → are_reached entered w.out ≡ true
      → (leb (length bytes * 8) w.cursor ≡ false → is_reached entered s.number ≡ true)
      → are_reached entered
          (decode_rounds fl deeper info bytes db rounds s zero_count fs iter w).out
        ≡ true
  unfolding decode_rounds
  decode_rounds-are_reached zero s zero_count fs iter w entered all here = all
  decode_rounds-are_reached (suc rounds) s zero_count fs iter w entered all here =
      elim (Bool-cases (leb (length bytes * 8) w.cursor)) [
        | inl over ↦ rw (over, decode_rounds) all
        | inr inside ↦
            let round = decode_round fl deeper info bytes db s iter zero_count fs w false in
            let kept =
              decode_round-are_reached s iter zero_count fs w false entered all (here inside) in
            elim (Bool-cases round.1) [
              | inl some_field ↦
                  rw (inside, some_field, decode_rounds)
                    (decode_rounds-are_reached rounds s zero_count fs (suc iter) round.0 entered
                      kept (λ _. here inside))
              | inr no_field ↦ rw (inside, no_field, decode_rounds) kept
            ]
      ]

  decode_repeating-are_reached :
      (s : RepeatingSet) (f : FieldInfo fl.Num) (fs : List (FieldInfo fl.Num)) (w : Walk fl.Num)
      (entered : Bool × Bool)
      → are_reached entered w.out ≡ true
      → (leb (length bytes * 8) (or_else w.cursor f.bit_offset) ≡ false
          → is_reached entered s.number ≡ true)
      → are_reached entered
          (decode_repeating fl deeper info bytes db s (take s.size (f ∷ fs)) w).out
        ≡ true
  unfolding decode_repeating
  decode_repeating-are_reached s f fs w entered all here = elim (ℕ-cases s.size) [
    | inl e ↦ rw (e, decode_repeating) all
    | inr (n, e) ↦
        rw (e, decode_repeating)
          (decode_rounds-are_reached _ s _ (f ∷ take n fs) 0 _ entered all here)
  ]

  walk_fields-are_reached :
      (n : ℕ) (fs : List (FieldInfo fl.Num)) (w : Walk fl.Num) (entered : Bool × Bool)
      → are_reached entered w.out ≡ true
      → let end = walk_fields fl deeper info bytes db n fs w entered in
        are_reached end.1 end.0.out ≡ true
  unfolding walk_fields
  walk_fields-are_reached zero fs w entered all = all
  walk_fields-are_reached (suc n) [] w entered all = all
  walk_fields-are_reached (suc n) (f ∷ fs) w entered all =
      let at = or_else w.cursor f.bit_offset in
      elim (Option-cases (set_at info f)) [
        | inr (s, e) ↦ elim (Bool-cases (ltb at (length bytes * 8))) [
          | inl within ↦
              rw (e, within, walk_fields)
                (walk_fields-are_reached n (drop s.size (f ∷ fs)) _ (entered_by entered s.number) (
                  decode_repeating-are_reached s f fs w (entered_by entered s.number)
                    (are_reached-entered_by entered s.number w.out all)
                    (λ _. is_reached-entered_by entered s.number)))
          | inr beyond ↦
              rw (e, beyond, walk_fields)
                (walk_fields-are_reached n (drop s.size (f ∷ fs)) _ entered
                  (decode_repeating-are_reached s f fs w entered all (λ h. absurd (ground arith))))
        ]
        | inl alone ↦ elim (Bool-cases (is_some f.condition)) [
          | inl conditional ↦
              rw (alone, conditional, walk_fields) (walk_fields-are_reached n fs w entered all)
          | inr always ↦
              elim (Option-cases (decode_one_field_at fl deeper f info bytes db at w.ctx)) [
                | inl e ↦
                    rw (alone, always, e, walk_fields) (walk_fields-are_reached n fs w entered all)
                | inr ((d, bits, ctx), e) ↦
                    let outside : repeat_set_of d ≡ 0 =
                      subst (IsOutside (λ out. out.0)) e
                        (decode_one_field_at-IsOutside fl deeper info bytes db f at w.ctx) in
                    rw (alone, always, e, walk_fields)
                      (walk_fields-are_reached n fs _ entered
                        (are_reached-snoc entered w.out d all (ap (is_reached entered) outside)))
              ]
        ]
      ]

  decode_fields-are_reached :
      let out = decode_fields fl deeper info bytes db in are_reached out.1 out.0 ≡ true
  unfolding decode_fields
  decode_fields-are_reached =
      walk_fields-are_reached (length info.fields) info.fields
        (record { out = []; ctx = no_context; cursor = 0 }) (false, false) refl

abbrev Flags : {N : Type 0} → ℕ ⊎ DecodedPgn N → Type 0
Flags (inl pgn) = Unit
Flags (inr p) = are_reached p.has_repeating_set p.fields ≡ true

decode-Flags :
    (fl : Floats) (depth : ℕ) (db : PgnDatabase fl.Num) (frame : RawFrame)
    → Flags (decode fl depth db frame)
unfolding decode decode_with
decode-Flags fl depth db frame = elim (Option-cases (pick_variant db frame)) [
  | inl e ↦ rw (e, Flags, decode_with) tt
  | inr (info, e) ↦
      rw (e, Flags, decode_with)
        (decode_fields-are_reached fl (deeper_at fl db depth) info frame.payload db)
]

-- Whatever a message holds, a decoded field that belongs to the first repeating set is there only if
-- the message is flagged to have reached that set, and one of another set only if it is flagged for
-- the second.
pub are_reached-decode :
    (fl : Floats) (depth : ℕ) (db : PgnDatabase fl.Num) (frame : RawFrame) (p : DecodedPgn fl.Num)
    → decode fl depth db frame ≡ inr p
    → are_reached p.has_repeating_set p.fields ≡ true
are_reached-decode fl depth db frame p is = subst Flags is (decode-Flags fl depth db frame)
