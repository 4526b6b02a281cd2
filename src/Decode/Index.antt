-- ===== src/Decode/Index.antt =====
-- The index of a decoded message against a search through all of its fields.
use canboat_rs.Prelude.{
  ℕ, ◌+◌, ◌-◌, ◌≤◌, ◌<◌, ◌≡◌, ◌≢◌, refl, ap, ◌∙◌, sym, subst, List, [], ◌∷◌, ◌++◌, Option, none,
  some, Bool, false, not, ◌&&◌, ◌||◌, leb, ◌==◌, if◌then◌else◌, length, set, replicate, get_elem?,
  length-set, get_elem?-replicate, get_elem?-set_self, get_elem?-set_ne, length-append, arith,
  Bool-cases, Option-cases, ◌⊎◌, inl, inr,
}
use mathlib.Core.List.{append_assoc}
use canboat_rs.Frame.{RawFrame}
use canboat_rs.Schema.{Floats, FieldInfo, PgnDatabase}
use canboat_rs.Decode.{DecodedField, info_of, repeat_set_of}
use canboat_rs.Decode.Walk.{
  DecodedPgn, indexed, build_index_by_order, pick_variant, decode_with, decode,
}
use canboat_rs.Decode.Access.{at_place, field}

module _ {N : Type 0} where
  abbrev pub is_of_order : ℕ → DecodedField N → Bool
  is_of_order order d = repeat_set_of d == 0 && (info_of d).order == order

  -- The last field of this order outside of the sets, or else the one found before.
  abbrev pub last_of_order :
      ℕ → List (DecodedField N) → Option (DecodedField N) → Option (DecodedField N)
  last_of_order order [] found = found
  last_of_order order (d ∷ ds) found =
      last_of_order order ds (if is_of_order order d then some d else found)

  get_elem?-middle :
      (before : List (DecodedField N)) (d : DecodedField N) (ds : List (DecodedField N))
      → get_elem? (before ++ d ∷ ds) (length before) ≡ some d
  get_elem?-middle [] d ds = refl
  get_elem?-middle (x ∷ before) d ds = get_elem?-middle before d ds

  -- The index after one field.
  abbrev entered : ℕ → DecodedField N → List (Option ℕ) → List (Option ℕ)
  entered place d index =
      if not (repeat_set_of d == 0) || (info_of d).order == 0 || leb 127 place
      then index
      else set index ((info_of d).order - 1) (some place)

  entered_lem :
      (all : List (DecodedField N)) (place : ℕ) (d : DecodedField N) (index : List (Option ℕ))
      (order : ℕ)
      → get_elem? all place ≡ some d
      → length index ≡ 32
      → 0 < order
      → order ≤ 32
      → place < 127
      → at_place all (get_elem? (entered place d index) (order - 1))
        ≡ (if is_of_order order d then some d else at_place all (get_elem? index (order - 1)))
  entered_lem all place d index order here long some_order low short =
      let o = (info_of d).order in
      let in_time : leb 127 place ≡ false = ground arith in
      elim (Bool-cases (repeat_set_of d == 0)) [
        | inr set ↦ rw set refl
        | inl outside ↦ elim (Bool-cases (o == 0)) [
          | inl none_given ↦
              let other : (o == order) ≡ false = ground arith in
              rw (outside, none_given, other) refl
          | inr given ↦ elim (Bool-cases (o == order)) [
            | inl same ↦
                let e : o ≡ order = ground arith in
                let slot : o - 1 ≡ order - 1 = omega arith in
                let got : get_elem? (set index (o - 1) (some place)) (order - 1)
                    ≡ some (some place) =
                  subst
                    (λ (k : ℕ). get_elem? (set index (o - 1) (some place)) k ≡ some (some place))
                    slot (get_elem?-set_self index (o - 1) (some place) (omega (arith, e, long))) in
                rw (outside, given, in_time, same) (ap (at_place all) got ∙ here)
            | inr differs ↦
                let ne : o - 1 ≢ order - 1 = λ e. absurd (ground arith) in
                rw (outside, given, in_time, differs)
                  (ap (at_place all) (get_elem?-set_ne index (some place) ne))
          ]
        ]
      ]

  length-entered :
      (place : ℕ) (d : DecodedField N) (index : List (Option ℕ))
      → length (entered place d index) ≡ length index
  length-entered place d index =
      elim (Bool-cases (not (repeat_set_of d == 0) || (info_of d).order == 0 || leb 127 place)) [
        | inl skipped ↦ rw skipped refl
        | inr kept ↦ rw kept (length-set index ((info_of d).order - 1) (some place))
      ]

  indexed-last_of_order :
      (all before ds : List (DecodedField N)) (place : ℕ) (index : List (Option ℕ)) (order : ℕ)
      → all ≡ before ++ ds
      → length before ≡ place
      → place + length ds ≤ 127
      → length index ≡ 32
      → 0 < order
      → order ≤ 32
      → at_place all (get_elem? (indexed place ds index) (order - 1))
        ≡ last_of_order order ds (at_place all (get_elem? index (order - 1)))
  unfolding indexed
  indexed-last_of_order all before [] place index order e at short long some_order low = refl
  indexed-last_of_order all before (d ∷ ds) place index order e at short long some_order low =
      let here : get_elem? all place ≡ some d =
        subst (λ (k : ℕ). get_elem? all k ≡ some d) at
          (ap (λ xs. get_elem? xs (length before)) e ∙ get_elem?-middle before d ds) in
      let next = entered place d index in
      let rest =
        indexed-last_of_order all (before ++ d ∷ []) ds (place + 1) next order
          (e ∙ sym (append_assoc before (d ∷ []) ds))
          (length-append before (d ∷ []) ∙ ap (λ (k : ℕ). k + 1) at) (omega arith)
          (length-entered place d index ∙ long) some_order low in
      rest
      ∙ ap (last_of_order order ds)
          (entered_lem all place d index order here long some_order low (omega arith))

  at_place-build_index_by_order :
      (ds : List (DecodedField N)) (order : ℕ)
      → length ds ≤ 127
      → 0 < order
      → order ≤ 32
      → at_place ds (get_elem? (build_index_by_order ds) (order - 1)) ≡ last_of_order order ds none
  unfolding build_index_by_order
  at_place-build_index_by_order ds order short some_order low =
      indexed-last_of_order ds [] ds 0 (replicate 32 none) order refl refl (omega arith) refl
        some_order low
      ∙ ap (λ o. last_of_order order ds (at_place ds o))
          (get_elem?-replicate 32 (order - 1) none (omega arith))

module _ {N : Type 0} (f : FieldInfo N) where
  field_lem :
      (p : DecodedPgn N)
      → p.index_by_order ≡ build_index_by_order p.fields
      → length p.fields ≤ 127
      → 0 < f.order
      → f.order ≤ 32
      → field p f ≡ last_of_order f.order p.fields none
  unfolding field
  field_lem p indexed short some_order low =
      let given : (f.order == 0) ≡ false = ground arith in
      rw (given, indexed) (at_place-build_index_by_order p.fields f.order short some_order low)

abbrev Indexes : {N : Type 0} → ℕ ⊎ DecodedPgn N → Type 0
Indexes (inl pgn) = Unit
Indexes (inr p) = p.index_by_order ≡ build_index_by_order p.fields

decode-Indexes :
    (fl : Floats) (depth : ℕ) (db : PgnDatabase fl.Num) (frame : RawFrame)
    → Indexes (decode fl depth db frame)
unfolding decode decode_with
decode-Indexes fl depth db frame = elim (Option-cases (pick_variant db frame)) [
  | inl e ↦ rw (e, Indexes, decode_with) tt
  | inr (info, e) ↦ rw (e, Indexes, decode_with) refl
]

-- The field of an order from 1 to 32 that is found by the index of a decoded message of at most 127
-- fields is the last one of this order outside of repeating sets, which a search through all fields
-- gives, and none if there is none.
pub field-decode :
    (fl : Floats) (depth : ℕ) (db : PgnDatabase fl.Num) (frame : RawFrame) (p : DecodedPgn fl.Num)
    (f : FieldInfo fl.Num)
    → decode fl depth db frame ≡ inr p
    → length p.fields ≤ 127
    → 0 < f.order
    → f.order ≤ 32
    → field p f ≡ last_of_order f.order p.fields none
field-decode fl depth db frame p f is short some_order low =
    field_lem f p (subst Indexes is (decode-Indexes fl depth db frame)) short some_order low
