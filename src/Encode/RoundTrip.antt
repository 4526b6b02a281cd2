-- ===== src/Encode/RoundTrip.antt =====
-- A message that is built from the bits of its fields, and decoded.
use canboat_rs.Prelude.{
  ℕ, zero, suc, ◌+◌, ◌-◌, ◌*◌, ◌/◌, ◌%◌, ◌^◌, ◌≤◌, ◌≡◌, refl, ap, ◌∙◌, sym, subst, List, [], ◌∷◌,
  ◌++◌, none, some, Bool, false, ◌⊎◌, inl, inr, arith, length, if_cases, ◌==◌, eq→==,
}
use mathlib.Core.List.{append-nil, append_assoc}
use canboat_rs.Frame.{RawFrame}
use canboat_rs.FieldBits.{write_bits}
use canboat_rs.FieldBits.Chunks.{little_endian, AreBytes}
use canboat_rs.FieldBits.RoundTrip.{IsFilled, write_bits_lem}
use canboat_rs.Schema.{Floats, FieldInfo, PgnInfo, PgnDatabase}
use canboat_rs.Decode.{FieldValue, DecodedField, value_of, plain_field, no_context, DecodeContext}
use canboat_rs.Decode.Field.{Deeper, decode_by_width, decode_one_field_at}
use canboat_rs.Decode.OwnBits.{AreSame-slice, decode_one_field_at-own, decode_by_width-own}
use canboat_rs.Decode.Walk.{Walk, walk_fields, decode_fields, set_at}
use canboat_rs.Decode.Scalars.{or_else, is_some}
use canboat_rs.Encode.Build.{PgnBuilder, build, packed_frame, write_fields, flushed}
use canboat_rs.Encode.Layout.{
  width, total_width, AreOrdinary, Holds, scalars, Holds-kept, write_fields-scalars,
}

module _ (fl : Floats) (deeper : Deeper fl.Num) (info : PgnInfo fl.Num)
    (db : PgnDatabase fl.Num) where
  -- A field's value, decoded from a payload that holds nothing but its bits.
  abbrev pub alone : FieldInfo fl.Num → ℕ → FieldValue fl.Num
  alone f v =
      let own = (write_bits [] 0 (width f) v).0 in
      value_of (decode_by_width fl deeper f info own db 0 no_context (width f)).0

  -- Each field at its place, with that value.
  abbrev pub each_alone : ℕ → List (FieldInfo fl.Num) → List ℕ → List (DecodedField fl.Num)
  each_alone at [] vs = []
  each_alone at (f ∷ fs) [] = []
  each_alone at (f ∷ fs) (v ∷ vs) =
      plain_field f (alone f v) at (width f) ∷ each_alone (at + width f) fs vs

  no_set :
      (f : FieldInfo fl.Num)
      → info.repeating_field_set1_start_field ≡ none
      → info.repeating_field_set2_start_field ≡ none
      → set_at info f ≡ none
  unfolding set_at
  no_set f no1 no2 = rw (no1, no2) refl

  module _ (bytes : List ℕ) (n : ℕ) (f : FieldInfo fl.Num) (fs : List (FieldInfo fl.Num))
      (w : Walk fl.Num) (entered : Bool × Bool)
      (one : DecodedField fl.Num × ℕ × DecodeContext fl.Num) (alone_here : set_at info f ≡ none)
      (always : is_some f.condition ≡ false) where
    abbrev Takes : ℕ → Type 0
    Takes at =
        decode_one_field_at fl deeper f info bytes db at w.ctx ≡ some one
        → walk_fields fl deeper info bytes db (suc n) (f ∷ fs) w entered
          ≡ walk_fields fl deeper info bytes db n fs
              (record { out = w.out ++ one.0 ∷ []; ctx = one.2; cursor = at + one.1 }) entered

    walk_next : Takes (or_else w.cursor f.bit_offset)
    unfolding walk_fields
    walk_next got = rw (alone_here, always, got, walk_fields) refl

    walk_step : (at : ℕ) → or_else w.cursor f.bit_offset ≡ at → Takes at
    walk_step at here = subst Takes here walk_next

  walk_fields-Holds :
      (bytes : List ℕ) (n at : ℕ) (fs : List (FieldInfo fl.Num)) (vs : List ℕ) (w : Walk fl.Num)
      (entered : Bool × Bool)
      → info.repeating_field_set1_start_field ≡ none
      → info.repeating_field_set2_start_field ≡ none
      → AreBytes bytes
      → AreOrdinary at fs
      → Holds (little_endian bytes) at fs vs
      → at + total_width fs ≤ 8 * length bytes
      → length fs ≤ n
      → w.cursor ≡ at
      → let out = walk_fields fl deeper info bytes db n fs w entered in
        (out.0.out ≡ w.out ++ each_alone at fs vs) × (out.1 ≡ entered)
  unfolding walk_fields decode_by_width
  walk_fields-Holds bytes zero at [] vs w entered no1 no2 hs are holds fits h hc =
      (sym (append-nil w.out), refl)
  walk_fields-Holds bytes zero at (f ∷ fs) vs w entered no1 no2 hs are holds fits h hc =
      absurd (omega arith)
  walk_fields-Holds bytes (suc n) at [] vs w entered no1 no2 hs are holds fits h hc =
      (sym (append-nil w.out), refl)
  walk_fields-Holds bytes (suc n) at (f ∷ fs) [] w entered no1 no2 hs are holds fits h hc =
      absurd holds
  walk_fields-Holds bytes (suc n) at (f ∷ fs) (v ∷ vs) w entered no1 no2 hs are holds fits h hc =
      let is = are.0 in
      let same = AreSame-slice bytes at (width f) v hs is.not_empty is.fits (omega arith) holds.0 in
      let one =
        decode_one_field_at-own fl deeper f info bytes db at (width f) w.ctx is.type is.own_bits
          is.is_type is.wide in
      let by_width = decode_by_width fl deeper f info bytes db at w.ctx (width f) in
      let own = (write_bits [] 0 (width f) v).0 in
      let d =
        decode_by_width-own fl deeper f info bytes own db at (width f) w.ctx is.type is.own_bits
          is.is_type same in
      let here : or_else w.cursor f.bit_offset ≡ at = elim is.in_place [
        | inl e ↦ rw e refl
        | inr e ↦ rw e hc
      ] in
      let step =
        walk_step bytes n f fs w entered by_width (no_set f no1 no2) (ap is_some is.unconditional)
          at here one in
      let next : Walk fl.Num = record {
        out = w.out ++ by_width.0 ∷ [];
        ctx = by_width.2;
        cursor = at + by_width.1;
      } in
      let rest =
        walk_fields-Holds bytes n (at + width f) fs vs next entered no1 no2 hs are.1 holds.1
          (omega arith) (omega arith) refl in
      (
        ap (λ o. o.0.out) step
            ∙ rest.0
            ∙ append_assoc w.out (by_width.0 ∷ []) (each_alone (at + width f) fs vs)
            ∙ ap (λ x. w.out ++ x ∷ each_alone (at + width f) fs vs) d,
        ap (λ o. o.1) step ∙ rest.1,
      )

flushed_lem :
    (to : List ℕ × ℕ)
    → IsFilled to.0 to.1
    → AreBytes (flushed to)
      × (length (flushed to) ≡ (to.1 + 7) / 8)
      × ((above : ℕ) × (little_endian (flushed to) ≡ little_endian to.0 + above * 2 ^ to.1))
unfolding flushed
flushed_lem to h =
    if_cases
      (λ (out : List ℕ).
        AreBytes out
        × (length out ≡ (to.1 + 7) / 8)
        × ((above : ℕ) × (little_endian out ≡ little_endian to.0 + above * 2 ^ to.1)))
      (to.1 % 8 == 0) (λ full. (h.bytes, h.size, (0, omega arith)))
      (λ part.
        let pad = 8 - to.1 % 8 in
        let written = write_bits_lem to.0 to.1 pad (2 ^ 64 - 1) h in
        (written.1.bytes, written.1.size ∙ ground arith, ((2 ^ 64 - 1) % 2 ^ pad, written.2)))

build_lem :
    {N : Type 0} (b : PgnBuilder N) (to : List ℕ × ℕ)
    → write_fields ([], 0) b.pgn.fields b.staged ≡ inr to
    → (b.pgn.length ≡ none) ⊎ (b.pgn.length ≡ some (length (flushed to)))
    → build b ≡ inr (packed_frame b (flushed to))
unfolding build
build_lem b to got (inl free) = rw (got, free) refl
build_lem b to got (inr declared) =
    rw (got, declared, eq→== (length (flushed to)) (length (flushed to)) refl) refl

-- The message that is built from scalar values of fields of 1 to 64 bits, of types that read nothing
-- but their own bits, with no conditions, no repeating sets and no gaps between them, has the length
-- that the schema declares, if it is the one that the fields add up to. Decoded, it gives all
-- fields, in their order and at their places, each with the value that its bits have by themselves.
pub build-decode_fields :
    (fl : Floats) (deeper : Deeper fl.Num) (db : PgnDatabase fl.Num) (b : PgnBuilder fl.Num)
    (vs : List ℕ)
    → AreOrdinary 0 b.pgn.fields
    → b.staged ≡ scalars vs
    → length vs ≡ length b.pgn.fields
    → (b.pgn.length ≡ none) ⊎ (b.pgn.length ≡ some ((total_width b.pgn.fields + 7) / 8))
    → b.pgn.repeating_field_set1_start_field ≡ none
    → b.pgn.repeating_field_set2_start_field ≡ none
    → (frame : RawFrame) × (build b ≡ inr frame)
      × (length frame.payload ≡ (total_width b.pgn.fields + 7) / 8)
      × (decode_fields fl deeper b.pgn frame.payload db
          ≡ (each_alone fl deeper b.pgn db 0 b.pgn.fields vs, (false, false)))
unfolding decode_fields
build-decode_fields fl deeper db b vs are staged same declared no1 no2 =
    let fs = b.pgn.fields in
    let start : IsFilled [] 0 = record { bytes = tt; size = omega arith; no_more = omega arith } in
    let written = write_fields-scalars [] 0 fs vs start are same in
    let to = written.0 in
    let is = written.2 in
    let flush = flushed_lem to is.filled in
    let size : length (flushed to) ≡ (total_width fs + 7) / 8 =
      flush.1 ∙ ap (λ (t : ℕ). (t + 7) / 8) (is.next ∙ omega arith) in
    let got = ap (write_fields ([], 0) fs) staged ∙ written.1 in
    let built =
      build_lem b to got (elim declared [ inl e ↦ inl e | inr e ↦ inr (e ∙ ap some (sym size)) ]) in
    let kept =
      Holds-kept (little_endian to.0) flush.2.0 0 to.1 fs vs (omega (arith, is.next)) is.holds in
    let holds : Holds (little_endian (flushed to)) 0 fs vs =
      subst (λ (n : ℕ). Holds n 0 fs vs) (sym flush.2.1) kept in
    let walked =
      walk_fields-Holds fl deeper b.pgn db (flushed to) (length fs) 0 fs vs
        (record { out = []; ctx = no_context; cursor = 0 }) (false, false) no1 no2 flush.0 are holds
        (omega (arith, size)) (omega arith) refl in
    (packed_frame b (flushed to), built, size, λ i. (walked.0 i, walked.1 i))
