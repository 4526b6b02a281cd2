-- ===== src/Decode/OwnBits.antt =====
-- The field types that read nothing but their own bits.
use canboat_rs.Prelude.{
  ℕ, ◌+◌, ◌-◌, ◌*◌, ◌/◌, ◌%◌, ◌^◌, ◌≤◌, ◌<◌, ◌≡◌, refl, ap, ◌∙◌, sym, subst, List, [], some, Bool,
  true, false, Bool-cases, inl, inr, arith, length, ◌==◌, ==_iff, if◌then◌else◌,
}
use canboat_rs.Int.{ℤ, pos}
use native.Mathlib.Nat.{div-one, mod-mod}
use canboat_rs.FieldBits.{Read, Extracted, extract_raw, extract_bits, write_bits}
use canboat_rs.FieldBits.Bounds.{extract_raw_cases}
use canboat_rs.FieldBits.Chunks.{little_endian, AreBytes}
use canboat_rs.FieldBits.LittleEndian.{extract_raw-part}
use canboat_rs.FieldBits.RoundTrip.{IsFilled, write_bits_lem}
use canboat_rs.FieldBits.Signed.{extract_bits_lem}
use canboat_rs.Schema.{Floats, FieldInfo, PgnInfo, PgnDatabase, FieldType}
use canboat_rs.Schema as Kind
use canboat_rs.Decode.{FieldValue, DecodeContext, plain_field, value_of, no_context}
use canboat_rs.Decode.Scalars.{
  if_extracted, decode_number, decode_float, decode_lookup, decode_bitlookup, decode_reserved,
  decode_mmsi, decode_pgn_field, decode_date, decode_time,
}
use canboat_rs.Decode.Field.{Deeper, decode_fixed, decode_by_width, decode_one_field_at}

-- A field that is all there.
abbrev field_read : ℕ → ℕ → Read
field_read len x = record { value = x; max_v = 2 ^ len - 1; magnitude = len }

Read_eq :
    (r : Read) (len x : ℕ)
    → r.value ≡ x
    → r.max_v ≡ 2 ^ r.magnitude - 1
    → r.magnitude ≡ len
    → r ≡ field_read len x
Read_eq r len x hv hm hl =
    let most = hm ∙ ap (λ (t : ℕ). 2 ^ t - 1) hl in
    λ i. record { value = hv i; max_v = most i; magnitude = hl i }

extract_raw-slice :
    (bytes : List ℕ) (at len : ℕ)
    → AreBytes bytes
    → 0 < len
    → len ≤ 64
    → at + len ≤ 8 * length bytes
    → extract_raw bytes at len ≡ some (field_read len (little_endian bytes / 2 ^ at % 2 ^ len))
extract_raw-slice bytes at len hs some_bits fits there = elim (extract_raw_cases bytes at len) [
  | inl (r, got, _, _, _, size, most, _) ↦
      let whole : r.magnitude ≡ len = size ∙ omega arith in
      let value =
        extract_raw-part bytes at len r hs got
        ∙ ap (λ (t : ℕ). little_endian bytes / 2 ^ at % 2 ^ t) whole in
      got ∙ ap some (Read_eq r len _ value most whole)
  | inr (_, why) ↦ absurd (omega arith)
]

-- The bits of one payload at a place are those of another at its start.
abbrev pub AreSame : List ℕ → ℕ → List ℕ → ℕ → Type 0
AreSame bytes at own len =
    (signed : Bool) (offset : ℤ)
    → extract_bits bytes at len signed offset ≡ extract_bits own 0 len signed offset

pub AreSame-slice :
    (bytes : List ℕ) (at len v : ℕ)
    → AreBytes bytes
    → 0 < len
    → len ≤ 64
    → at + len ≤ 8 * length bytes
    → little_endian bytes / 2 ^ at % 2 ^ len ≡ v % 2 ^ len
    → AreSame bytes at (write_bits [] 0 len v).0 len
AreSame-slice bytes at len v hs some_bits fits there slice signed offset =
    let own = (write_bits [] 0 len v).0 in
    let start : IsFilled [] 0 = record { bytes = tt; size = omega arith; no_more = omega arith } in
    let written = write_bits_lem [] 0 len v start in
    let alone : little_endian own / 2 ^ 0 % 2 ^ len ≡ v % 2 ^ len =
      ap (λ (t : ℕ). t / 1 % 2 ^ len) (written.2 ∙ omega arith)
      ∙ ap (λ (t : ℕ). t % 2 ^ len) (div-one (v % 2 ^ len))
      ∙ mod-mod v (2 ^ len) in
    let size : 0 + len ≤ 8 * length own = omega (arith, written.1.size) in
    let here =
      extract_raw-slice bytes at len hs some_bits fits there
      ∙ ap (λ (x : ℕ). some (field_read len x)) (slice ∙ sym alone) in
    let there' = extract_raw-slice own 0 len written.1.bytes some_bits fits size in
    let some_read : (len == 0) ≡ false = ground (arith, some_bits) in
    let x = little_endian own / 2 ^ 0 % 2 ^ len in
    extract_bits_lem bytes at len signed offset (field_read len x) here some_read
    ∙ sym (extract_bits_lem own 0 len signed offset (field_read len x) there' some_read)

abbrev pub reads_own_bits : FieldType → Bool
reads_own_bits t = elim t [
  | Kind.binary ↦ false
  | Kind.indirect_lookup ↦ false
  | Kind.string_fix ↦ false
  | Kind.string_lz ↦ false
  | Kind.string_lau ↦ false
  | Kind.variable ↦ false
  | Kind.iso_name ↦ false
  | Kind.dynamic_field_key ↦ false
  | Kind.dynamic_field_length ↦ false
  | Kind.dynamic_field_value ↦ false
  | _ ↦ true
]

-- A type of one width only.
of_width :
    {N : Type 0} (bytes own : List ℕ) (at len w : ℕ) (value : Extracted → FieldValue N)
    (other : FieldValue N)
    → AreSame bytes at own len
    → (if len == w then if_extracted (extract_bits bytes at w false (pos 0)) value else other)
      ≡ (if len == w then if_extracted (extract_bits own 0 w false (pos 0)) value else other)
of_width bytes own at len w value other same = elim (Bool-cases (len == w)) [
  | inl is ↦
      let e : len ≡ w = (==_iff len w).0 is in
      rw is (
        ap (λ o. if_extracted o value)
          (subst
            (λ (t : ℕ). extract_bits bytes at t false (pos 0) ≡ extract_bits own 0 t false (pos 0))
            e (same false (pos 0))))
  | inr is_not ↦ rw is_not refl
]

module _ (fl : Floats) (deeper : Deeper fl.Num) (f : FieldInfo fl.Num) (info : PgnInfo fl.Num)
    (bytes own : List ℕ) (db : PgnDatabase fl.Num) (at len : ℕ) (ctx : DecodeContext fl.Num)
    (same : AreSame bytes at own len) where
  -- The value is the same, and so is what is handed on.
  decode_fixed-own :
      (t : FieldType)
      → reads_own_bits t ≡ true
      → ((ctx' : DecodeContext fl.Num)
          → (decode_fixed fl deeper f info bytes db at len ctx t).0
            ≡ (decode_fixed fl deeper f info own db 0 len ctx' t).0)
  unfolding decode_fixed decode_number decode_float decode_lookup decode_bitlookup decode_reserved
      decode_mmsi decode_pgn_field decode_date decode_time
  decode_fixed-own Kind.number own_bits ctx' = rw (same _ _) refl
  decode_fixed-own Kind.decimal own_bits ctx' = rw (same _ _) refl
  decode_fixed-own Kind.float own_bits ctx' = of_width bytes own at len 32 _ _ same
  decode_fixed-own Kind.binary own_bits ctx' = absurd (ground arith)
  decode_fixed-own Kind.lookup own_bits ctx' = rw (same _ _) refl
  decode_fixed-own Kind.bit_lookup own_bits ctx' = rw (same _ _) refl
  decode_fixed-own Kind.indirect_lookup own_bits ctx' = absurd (ground arith)
  decode_fixed-own Kind.date own_bits ctx' = of_width bytes own at len 16 _ _ same
  decode_fixed-own Kind.time own_bits ctx' = rw (same _ _) refl
  decode_fixed-own Kind.duration own_bits ctx' = rw (same _ _) refl
  decode_fixed-own Kind.string_fix own_bits ctx' = absurd (ground arith)
  decode_fixed-own Kind.string_lz own_bits ctx' = absurd (ground arith)
  decode_fixed-own Kind.string_lau own_bits ctx' = absurd (ground arith)
  decode_fixed-own Kind.variable own_bits ctx' = absurd (ground arith)
  decode_fixed-own Kind.mmsi own_bits ctx' = of_width bytes own at len 32 _ _ same
  decode_fixed-own Kind.pgn_number own_bits ctx' = of_width bytes own at len 24 _ _ same
  decode_fixed-own Kind.iso_name own_bits ctx' = absurd (ground arith)
  decode_fixed-own Kind.reserved own_bits ctx' = rw (same _ _) refl
  decode_fixed-own Kind.spare own_bits ctx' = rw (same _ _) refl
  decode_fixed-own Kind.dynamic_field_key own_bits ctx' = absurd (ground arith)
  decode_fixed-own Kind.dynamic_field_length own_bits ctx' = absurd (ground arith)
  decode_fixed-own Kind.dynamic_field_value own_bits ctx' = absurd (ground arith)
  decode_fixed-own Kind.field_index own_bits ctx' = rw (same _ _) refl

module _ (fl : Floats) (deeper : Deeper fl.Num) (f : FieldInfo fl.Num) (info : PgnInfo fl.Num)
    (bytes : List ℕ) (db : PgnDatabase fl.Num) (at len : ℕ) (ctx : DecodeContext fl.Num) where
  pub decode_one_field_at-own :
      (t : FieldType)
      → reads_own_bits t ≡ true
      → f.field_type ≡ some t
      → f.bit_length ≡ some len
      → decode_one_field_at fl deeper f info bytes db at ctx
        ≡ some (decode_by_width fl deeper f info bytes db at ctx len)
  unfolding decode_one_field_at
  decode_one_field_at-own Kind.number own_bits is wide = rw (is, wide) refl
  decode_one_field_at-own Kind.decimal own_bits is wide = rw (is, wide) refl
  decode_one_field_at-own Kind.float own_bits is wide = rw (is, wide) refl
  decode_one_field_at-own Kind.binary own_bits is wide = absurd (ground arith)
  decode_one_field_at-own Kind.lookup own_bits is wide = rw (is, wide) refl
  decode_one_field_at-own Kind.bit_lookup own_bits is wide = rw (is, wide) refl
  decode_one_field_at-own Kind.indirect_lookup own_bits is wide = absurd (ground arith)
  decode_one_field_at-own Kind.date own_bits is wide = rw (is, wide) refl
  decode_one_field_at-own Kind.time own_bits is wide = rw (is, wide) refl
  decode_one_field_at-own Kind.duration own_bits is wide = rw (is, wide) refl
  decode_one_field_at-own Kind.string_fix own_bits is wide = absurd (ground arith)
  decode_one_field_at-own Kind.string_lz own_bits is wide = absurd (ground arith)
  decode_one_field_at-own Kind.string_lau own_bits is wide = absurd (ground arith)
  decode_one_field_at-own Kind.variable own_bits is wide = absurd (ground arith)
  decode_one_field_at-own Kind.mmsi own_bits is wide = rw (is, wide) refl
  decode_one_field_at-own Kind.pgn_number own_bits is wide = rw (is, wide) refl
  decode_one_field_at-own Kind.iso_name own_bits is wide = absurd (ground arith)
  decode_one_field_at-own Kind.reserved own_bits is wide = rw (is, wide) refl
  decode_one_field_at-own Kind.spare own_bits is wide = rw (is, wide) refl
  decode_one_field_at-own Kind.dynamic_field_key own_bits is wide = absurd (ground arith)
  decode_one_field_at-own Kind.dynamic_field_length own_bits is wide = absurd (ground arith)
  decode_one_field_at-own Kind.dynamic_field_value own_bits is wide = absurd (ground arith)
  decode_one_field_at-own Kind.field_index own_bits is wide = rw (is, wide) refl

module _ (fl : Floats) (deeper : Deeper fl.Num) (f : FieldInfo fl.Num) (info : PgnInfo fl.Num)
    (bytes own : List ℕ) (db : PgnDatabase fl.Num) (at len : ℕ) (ctx : DecodeContext fl.Num) where
  -- The decoded field, but for its place in the payload.
  pub decode_by_width-own :
      (t : FieldType)
      → reads_own_bits t ≡ true
      → f.field_type ≡ some t
      → AreSame bytes at own len
      → (decode_by_width fl deeper f info bytes db at ctx len).0
        ≡ plain_field f
            (value_of (decode_by_width fl deeper f info own db 0 no_context len).0)
            at
            len
  unfolding decode_by_width
  decode_by_width-own t own_bits is same =
      ap (λ (v : FieldValue fl.Num). plain_field f v at len) value
    where
      value :
          value_of (decode_by_width fl deeper f info bytes db at ctx len).0
          ≡ value_of (decode_by_width fl deeper f info own db 0 no_context len).0
      value =
          rw is
            (decode_fixed-own fl deeper f info bytes own db at len ctx same t own_bits no_context)
