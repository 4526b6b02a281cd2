-- ===== src/Encode/Unscaled.antt =====
-- One field that is shown as the integer in its bits.
use canboat_rs.Prelude.{
  ℕ, zero, suc, ◌-◌, ◌%◌, ◌^◌, ◌≤◌, ◌<◌, ◌≡◌, refl, ap, ◌∙◌, sym, subst, List, [], Option, none,
  some, Bool, true, false, arith, not, ◌&&◌, ◌==◌, if◌then◌else◌,
}
use native.Mathlib.Nat.{mod-eq_of_lt}
use canboat_rs.Int.{ℤ, pos, negsuc, pos_part, neg_part}
use canboat_rs.FieldBits.{
  Extracted, extract_bits, extracted_of, as_i64, as_u64, mask_to_width, write_bits,
}
use canboat_rs.FieldBits.Sentinel.{is_hint, classify_sentinel-none}
use canboat_rs.FieldBits.RoundTrip.{IsFilled, extract_raw-write_bits}
use canboat_rs.FieldBits.Signed.{
  extract_bits-write_bits, extract_bits_lem, as_i64-pos, mask_to_width_lem,
}
use canboat_rs.Schema.{Floats, FieldInfo, PgnInfo, PgnDatabase}
use canboat_rs.Schema as Kind
use canboat_rs.Decode.{
  FieldValue, integer, number, no_context, sentinel_field_value, DecodeContext, unsupported,
}
use canboat_rs.Decode.Scalars.{
  or_else, is_some, if_extracted, unless_sentinel, decode_number, is_zero_int, display_offset_of,
}
use canboat_rs.Decode.Field.{Deeper, decode_by_width, decode_fixed}
use canboat_rs.Encode.Layout.{width}
use canboat_rs.Encode.RoundTrip.{alone}

-- What a field of so many bits can hold and an `i64` too.
abbrev pub IsInRange : Bool → ℕ → ℤ → Type 0
IsInRange true len n = (pos_part n < 2 ^ (len - 1)) × (neg_part n ≤ 2 ^ (len - 1))
IsInRange false len n = (neg_part n ≡ 0) × (pos_part n < 2 ^ len) × (pos_part n < 2 ^ 63)

-- A field that is shown as the integer that it holds, and an integer for it which no hint of the
-- schema names.
pub record IsInteger (fl : Floats) (f : FieldInfo fl.Num) (n : ℤ) : Type 0 where
  pub is_number : f.field_type ≡ some Kind.number
  pub unscaled : fl.equal (or_else fl.one_num f.resolution) fl.one_num ≡ true
  pub unitless : f.unit ≡ none
  pub no_quantity : f.physical_quantity ≡ none
  pub no_unit_offset : fl.equal f.unit_offset fl.zero_num ≡ true
  pub no_offset : f.offset ≡ none
  pub in_range : IsInRange (or_else false f.signed) (width f) n
  pub known : is_hint f.unknown_value (mask_to_width n (width f)) ≡ false
  pub within : is_hint f.out_of_range_value (mask_to_width n (width f)) ≡ false
  pub free : is_hint f.reserved_value (mask_to_width n (width f)) ≡ false

extract_unsigned :
    (len m : ℕ)
    → 0 < len
    → len ≤ 64
    → m < 2 ^ len
    → m < 2 ^ 63
    → (e : Extracted) × (extract_bits
          (write_bits [] 0 len (mask_to_width (pos m) len)).0
          0
          len
          false
          (pos 0)
        ≡ some e)
      × (e.value ≡ pos m)
      × (e.raw ≡ mask_to_width (pos m) len)
unfolding extracted_of as_u64
extract_unsigned len m some_bits fits hm h63 =
    let mask = mask_to_width (pos m) len in
    let start : IsFilled [] 0 = record { bytes = tt; size = omega arith; no_more = omega arith } in
    let read = extract_raw-write_bits [] 0 len mask start some_bits fits in
    let r = read.0.0 in
    let masked : mask ≡ m =
      mask_to_width_lem (pos m) len fits
      ∙ (let small : m % 2 ^ 64 ≡ m = omega arith in rw small (mod-eq_of_lt hm)) in
    let same : r.value ≡ m = read.0.3 ∙ ap (λ (t : ℕ). t % 2 ^ len) masked ∙ mod-eq_of_lt hm in
    let some_read : (r.magnitude == 0) ≡ false = ground (arith, read.0.2) in
    (
      extracted_of r false (pos 0),
      extract_bits_lem _ 0 len false (pos 0) r read.0.1 some_read,
      ap as_i64 same ∙ as_i64-pos m h63,
      same ∙ sym masked,
    )

extract_in_range :
    (signed : Bool) (len : ℕ) (n : ℤ)
    → 0 < len
    → len ≤ 64
    → IsInRange signed len n
    → (e : Extracted) × (extract_bits
          (write_bits [] 0 len (mask_to_width n len)).0
          0
          len
          signed
          (pos 0)
        ≡ some e)
      × (e.value ≡ n)
      × (e.raw ≡ mask_to_width n len)
extract_in_range signed zero n some_bits fits range = absurd (omega arith)
extract_in_range false (suc len) (pos m) some_bits fits range =
    extract_unsigned (suc len) m some_bits fits range.1 range.2
extract_in_range false (suc len) (negsuc m) some_bits fits range = absurd (omega (arith, range.0))
extract_in_range true (suc len) n some_bits fits range =
    let start : IsFilled [] 0 = record { bytes = tt; size = omega arith; no_more = omega arith } in
    let e : suc len - 1 ≡ len = omega arith in
    let upper : pos_part n < 2 ^ len = subst (λ (t : ℕ). pos_part n < 2 ^ t) e range.0 in
    let lower : neg_part n ≤ 2 ^ len = subst (λ (t : ℕ). neg_part n ≤ 2 ^ t) e range.1 in
    let out = extract_bits-write_bits [] 0 len n start (omega arith) upper lower in
    (out.0, out.1, out.2, out.4)

module _ (fl : Floats) (f : FieldInfo fl.Num) (n : ℤ) (is : IsInteger fl f n) where
  unless_sentinel-none :
      (e : Extracted) (v : FieldValue fl.Num)
      → e.raw ≡ mask_to_width n (width f)
      → unless_sentinel f e v ≡ v
  unfolding sentinel_field_value
  unless_sentinel-none e v raw =
      let hint : (o : Option ℕ)
          → is_hint o (mask_to_width n (width f)) ≡ false
          → is_hint o e.raw ≡ false =
        λ o h. ap (is_hint o) raw ∙ h in
      rw
        (
          classify_sentinel-none e f.unknown_value f.out_of_range_value f.reserved_value
              (hint f.unknown_value is.known) (hint f.out_of_range_value is.within)
              (hint f.reserved_value is.free),
          unless_sentinel,
        )
        refl

  decode_number-integer :
      (equal_zero : fl.equal fl.zero_num fl.zero_num ≡ true) (own : List ℕ) (e : Extracted)
      → extract_bits own 0 (width f) (or_else false f.signed) (pos 0) ≡ some e
      → e.value ≡ n
      → e.raw ≡ mask_to_width n (width f)
      → decode_number fl f own 0 (width f) (or_else false f.signed) ≡ integer n
  unfolding decode_number
  decode_number-integer equal_zero own e got value raw =
      let no_offset : is_zero_int (or_else (pos 0) f.offset) ≡ true =
        ap (λ o. is_zero_int (or_else (pos 0) o)) is.no_offset in
      let no_display : fl.equal (display_offset_of fl f) fl.zero_num ≡ true =
        ap
          (λ o.
            fl.equal (elim o as (λ _. fl.Num) [ none ↦ fl.zero_num | some o ↦ fl.of_int o ])
              fl.zero_num)
          is.no_offset
        ∙ equal_zero in
      let no_unit : is_some f.unit ≡ false = ap is_some is.unitless in
      let no_quantity : is_some f.physical_quantity ≡ false = ap is_some is.no_quantity in
      let scaled : Extracted → FieldValue fl.Num = λ x. number (
        fl.add
          (fl.add (fl.mul (fl.of_int x.value) (or_else fl.one_num f.resolution))
            (display_offset_of fl f))
          f.unit_offset) in
      let cond : Bool =
        (fl.equal (or_else fl.one_num f.resolution) fl.one_num
          && not (is_some f.unit)
          && not (is_some f.physical_quantity)
          && fl.equal f.unit_offset fl.zero_num
          && fl.equal (display_offset_of fl f) fl.zero_num) in
      let shown : Extracted → FieldValue fl.Num =
        λ x. unless_sentinel f x (if cond then integer x.value else scaled x) in
      let plain : cond ≡ true =
        rw (is.unscaled, no_unit, no_quantity, is.no_unit_offset, no_display) refl in
      ap
        (λ b.
          if_extracted
            (extract_bits own 0 (width f) (if b then or_else false f.signed else false) (pos 0))
            shown)
        no_offset
      ∙ ap (λ o. if_extracted o shown) got
      ∙ unless_sentinel-none e (if cond then integer e.value else scaled e) raw
      ∙ ap (λ b. if b then integer e.value else scaled e) plain
      ∙ ap integer value

  pub alone-integer :
      (deeper : Deeper fl.Num) (info : PgnInfo fl.Num) (db : PgnDatabase fl.Num)
      → fl.equal fl.zero_num fl.zero_num ≡ true
      → 0 < width f
      → width f ≤ 64
      → alone fl deeper info db f (mask_to_width n (width f)) ≡ integer n
  unfolding decode_by_width decode_fixed
  alone-integer deeper info db equal_zero not_empty fits =
      let own = (write_bits [] 0 (width f) (mask_to_width n (width f))).0 in
      let out = extract_in_range (or_else false f.signed) (width f) n not_empty fits is.in_range in
      ap
        (λ t.
          (elim t as (λ _. FieldValue fl.Num × DecodeContext fl.Num) [
            | none ↦ (unsupported, no_context)
            | some type ↦ decode_fixed fl deeper f info own db 0 (width f) no_context type
          ]).0)
        is.is_number
      ∙ decode_number-integer equal_zero own out.0 out.1 out.2 out.3
