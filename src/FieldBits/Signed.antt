-- ===== src/FieldBits/Signed.antt =====
-- `mask_to_width`, `write_bits` and `extract_bits`, one after the other, for signed values.
use canboat_rs.Prelude.{
  ℕ, suc, ◌+◌, ◌-◌, ◌*◌, ◌/◌, ◌%◌, ◌^◌, ◌≤◌, ◌<◌, ◌≡◌, refl, ap, ap₂, ◌∙◌, sym, subst, List, arith,
  bit_and, bit_or, bit_and_mask, bit_and-two_pow, bit_or_fields', some, none, Option, Bool, true,
  false, u64, if_cases, leb, ltb, if◌then◌else◌, ◌==◌,
}
use canboat_rs.Int.{ℤ, pos, negsuc, pos_part, neg_part}
use native.Mathlib.Nat.{
  pow-suc, pow-le-pow_right, mod-eq_of_lt, div-eq_of_lt, div-eq_of_lt-le, mod-mod,
  add-mul-mod_self_right,
}
use canboat_rs.FieldBits.{
  Read, Extracted, as_i64, as_u64, extracted_of, extract_bits, extract_raw, write_bits,
  mask_to_width, all_ones,
}
use canboat_rs.FieldBits.Bounds.{last_block, positive}
use canboat_rs.FieldBits.RoundTrip.{IsFilled, extract_raw-write_bits}

pub mask_to_width_lem :
    (value : ℤ) (bits : ℕ) → bits ≤ 64 → mask_to_width value bits ≡ as_u64 value % 2 ^ bits
unfolding mask_to_width all_ones
mask_to_width_lem value bits h =
    if_cases (λ (t : ℕ). bit_and (as_u64 value) t ≡ as_u64 value % 2 ^ bits) (leb 64 bits)
      (λ whole.
        let e : bits ≡ 64 = ground arith in
        subst (λ (t : ℕ). bit_and (as_u64 value) (2 ^ 64 - 1) ≡ as_u64 value % 2 ^ t) (sym e)
          (bit_and_mask 64 (as_u64 value)))
      (λ part. bit_and_mask bits (as_u64 value))

pub as_i64-pos : (n : ℕ) → n < 2 ^ 63 → as_i64 n ≡ pos n
unfolding as_i64
as_i64-pos n h =
    let e : u64 n ≡ n = omega arith in
    rw e
      (if_cases (λ (t : ℤ). t ≡ pos n) (ltb n (2 ^ 63)) (λ _. refl) (λ no. absurd (ground arith)))

as_i64-neg : (n : ℕ) → n < 2 ^ 63 → as_i64 (2 ^ 64 - 1 - n) ≡ negsuc n
unfolding as_i64
as_i64-neg n h =
    let w = 2 ^ 64 - 1 - n in
    let e : u64 w ≡ w = omega arith in
    let back : 2 ^ 64 - 1 - w ≡ n = omega arith in
    rw e (
      if_cases (λ (t : ℤ). t ≡ negsuc n) (ltb w (2 ^ 63)) (λ no. absurd (ground arith))
        (λ _. ap negsuc back))

within_63 : (k : ℕ) → k < 64 → 2 ^ k ≤ 2 ^ 63
within_63 k h = pow-le-pow_right {n = 2} (omega arith) {i = k} {j = 63} (omega arith)

-- Without an offset, by the sign bit.
extracted_of-low :
    (r : Read)
    → bit_and r.value (2 ^ (r.magnitude - 1)) ≡ 0
    → extracted_of r true (pos 0)
      ≡ record { value = as_i64 r.value; max = as_i64 (r.max_v / 2); raw = r.value }
unfolding extracted_of
extracted_of-low r h = rw h refl

extracted_of-high :
    (r : Read)
    → 0 < bit_and r.value (2 ^ (r.magnitude - 1))
    → extracted_of r true (pos 0) ≡ record {
      value = as_i64 (bit_or r.value (2 ^ 64 - 1 - r.max_v));
      max = as_i64 (r.max_v / 2);
      raw = r.value;
    }
unfolding extracted_of
extracted_of-high r h =
    let test : (bit_and r.value (2 ^ (r.magnitude - 1)) == 0) ≡ false = ground arith in rw test refl

-- The bits from `w` on.
upper_bits : (w : ℕ) → w ≤ 64 → (2 ^ (64 - w) - 1) * 2 ^ w ≡ 2 ^ 64 - 2 ^ w
upper_bits w h =
    let e : w + (64 - w) ≡ 64 = omega arith in
    let all = last_block (64 - w) w ∙ ap (λ (t : ℕ). 2 ^ t) e in omega (arith, all)

-- The pattern of a negative number, with all bits above it set.
extended :
    (w n : ℕ)
    → n < 2 ^ w
    → w ≤ 64
    → bit_or (2 ^ w - 1 - n) (2 ^ 64 - 1 - (2 ^ w - 1)) ≡ 2 ^ 64 - 1 - n
extended w n h hw =
    let upper = upper_bits w hw in
    let width : 2 ^ w ≤ 2 ^ 64 = pow-le-pow_right {n = 2} (omega arith) {i = w} {j = 64} hw in
    let high : 2 ^ 64 - 1 - (2 ^ w - 1) ≡ (2 ^ (64 - w) - 1) * 2 ^ w = omega (arith, upper, h) in
    ap (λ (t : ℕ). bit_or (2 ^ w - 1 - n) t) high
    ∙ bit_or_fields' w (2 ^ (64 - w) - 1) (2 ^ w - 1 - n) (omega (arith, h))
    ∙ omega (arith, upper, width, h)

as_u64-neg : (w n : ℕ) → n < 2 ^ w → w ≤ 64 → as_u64 (negsuc n) % 2 ^ w ≡ 2 ^ w - 1 - n
unfolding as_u64
as_u64-neg w n h hw =
    let upper = upper_bits w hw in
    let width : 2 ^ w ≤ 2 ^ 64 = pow-le-pow_right {n = 2} (omega arith) {i = w} {j = 64} hw in
    let small : u64 n ≡ n = omega (arith, width, h) in
    let parts : 2 ^ 64 - 1 - u64 n ≡ 2 ^ w - 1 - n + (2 ^ (64 - w) - 1) * 2 ^ w =
      omega (arith, small, upper, width, h) in
    ap (λ (t : ℕ). t % 2 ^ w) parts
    ∙ add-mul-mod_self_right (2 ^ w - 1 - n) (2 ^ (64 - w) - 1) (2 ^ w)
    ∙ mod-eq_of_lt (omega (arith, h))

-- A pattern of `k + 1` bits, read as a signed number.
extracted_of_lem :
    (k : ℕ) (r : Read) (value : ℤ)
    → k < 64
    → pos_part value < 2 ^ k
    → neg_part value ≤ 2 ^ k
    → r.magnitude ≡ suc k
    → r.max_v ≡ 2 ^ suc k - 1
    → r.value ≡ as_u64 value % 2 ^ suc k
    → let e = extracted_of r true (pos 0) in
      (e.value ≡ value) × (e.max ≡ pos (2 ^ k - 1)) × (e.raw ≡ as_u64 value % 2 ^ suc k)
unfolding as_u64
extracted_of_lem k r (pos n) hk hp hn size most raw =
    let width : 2 ^ k ≤ 2 ^ 63 = within_63 k hk in
    let same : r.value ≡ n =
      (let small : u64 n ≡ n = omega (arith, width, hp) in
        raw ∙ rw small (mod-eq_of_lt (omega (arith, pow-suc 2 k, hp)))) in
    let half : r.max_v / 2 ≡ 2 ^ k - 1 = omega (arith, most, pow-suc 2 k) in
    let last : r.magnitude - 1 ≡ k = omega (arith, size) in
    let clear : n / 2 ^ k ≡ 0 = div-eq_of_lt hp in
    let off : bit_and r.value (2 ^ (r.magnitude - 1)) ≡ 0 =
      rw (last, same) (bit_and-two_pow k n ∙ rw clear (omega arith)) in
    rw (extracted_of-low r off) (
      ap as_i64 same ∙ as_i64-pos n (omega (arith, width, hp)),
      ap as_i64 half ∙ as_i64-pos (2 ^ k - 1) (omega (arith, width, positive k)),
      raw,
    )
extracted_of_lem k r (negsuc n) hk hp hn size most raw =
    let width : 2 ^ k ≤ 2 ^ 63 = within_63 k hk in
    let fits : n < 2 ^ suc k = omega (arith, pow-suc 2 k, hn) in
    let same : r.value ≡ 2 ^ suc k - 1 - n = raw ∙ as_u64-neg (suc k) n fits hk in
    let half : r.max_v / 2 ≡ 2 ^ k - 1 = omega (arith, most, pow-suc 2 k) in
    let last : r.magnitude - 1 ≡ k = omega (arith, size) in
    let set : r.value / 2 ^ k ≡ 1 =
      div-eq_of_lt-le (2 ^ k) (omega (arith, same, hn, pow-suc 2 k))
        (omega (arith, same, pow-suc 2 k, positive k)) in
    let on : bit_and r.value (2 ^ (r.magnitude - 1)) ≡ 2 ^ k =
      rw last (bit_and-two_pow k r.value ∙ rw set (omega arith)) in
    rw (extracted_of-high r (omega (arith, on, positive k))) (
      (ap₂ (λ (a b : ℕ). as_i64 (bit_or a (2 ^ 64 - 1 - b))) same most
          ∙ ap as_i64 (extended (suc k) n fits hk)
          ∙ as_i64-neg n (omega (arith, width, hn))),
      ap as_i64 half ∙ as_i64-pos (2 ^ k - 1) (omega (arith, width, positive k)),
      raw,
    )

pub extract_bits_lem :
    (bytes : List ℕ) (bit_offset bits : ℕ) (signed : Bool) (offset : ℤ) (r : Read)
    → extract_raw bytes bit_offset bits ≡ some r
    → (r.magnitude == 0) ≡ false
    → extract_bits bytes bit_offset bits signed offset ≡ some (extracted_of r signed offset)
unfolding extract_bits
extract_bits_lem bytes bit_offset bits signed offset r got some_read =
    ap
      (λ (o : Option Read). elim o [
        | none ↦ none
        | some r ↦ if r.magnitude == 0 then none else some (extracted_of r signed offset)
      ])
      got
    ∙ rw some_read refl

-- A signed value of 1 to 64 bits, masked to its width, written after the bits that a buffer holds,
-- and read back as a signed field without an offset, is that value. The largest value beside it is
-- the largest that such a field can hold.
pub extract_bits-write_bits :
    (buf : List ℕ) (next_bit bits : ℕ) (value : ℤ)
    → IsFilled buf next_bit
    → bits < 64
    → pos_part value < 2 ^ bits
    → neg_part value ≤ 2 ^ bits
    → let out = write_bits buf next_bit (suc bits) (mask_to_width value (suc bits)) in
      (e : Extracted) × (extract_bits out.0 next_bit (suc bits) true (pos 0) ≡ some e)
      × (e.value ≡ value)
      × (e.max ≡ pos (2 ^ bits - 1))
      × (e.raw ≡ mask_to_width value (suc bits))
extract_bits-write_bits buf next_bit bits value h width hp hn =
    let masked = mask_to_width_lem value (suc bits) width in
    let mask = mask_to_width value (suc bits) in
    let out = write_bits buf next_bit (suc bits) mask in
    let read = extract_raw-write_bits buf next_bit (suc bits) mask h (omega arith) width in
    let r = read.0.0 in
    let value' : r.value ≡ as_u64 value % 2 ^ suc bits =
      read.0.3 ∙ ap (λ (t : ℕ). t % 2 ^ suc bits) masked ∙ mod-mod (as_u64 value) (2 ^ suc bits) in
    let most : r.max_v ≡ 2 ^ suc bits - 1 = read.0.4 in
    let lem = extracted_of_lem bits r value width hp hn read.0.2 most value' in
    let some_read : (r.magnitude == 0) ≡ false = ground (arith, read.0.2) in
    (
      extracted_of r true (pos 0),
      extract_bits_lem out.0 next_bit (suc bits) true (pos 0) r read.0.1 some_read,
      lem.0,
      lem.1,
      lem.2 ∙ sym masked,
    )
