-- ===== src/FieldBits/Bounds.antt =====
-- The bounds of a field that was read.
use canboat_rs.Prelude.{
  ℕ, zero, suc, ◌+◌, ◌-◌, ◌*◌, ◌/◌, ◌%◌, ◌^◌, ◌≤◌, ◌<◌, ◌≡◌, refl, ap, ◌∙◌, sym, List, [], ◌∷◌,
  arith, bit_and, bit_or, u64, ◌<<<◌, min, length, some, drop, length-drop, bit_or_fields', ◌==◌,
  leb, ltb, ◌||◌, bit_and_high, bit_and_mask, Bool-cases, inl, inr, if_cases, ◌⊎◌, none,
}
use native.Mathlib.Nat.{
  pow-suc, one-le-pow, pow-le-pow_right, mul-div_cancel, mul-lt-mul_of_pos_right, mul_comm, mod-lt,
  mul-le-mul_right,
}
use canboat_rs.FieldBits.{Read, chunk_of, read_loop, extract_raw}

pub two_pow-add : (a b : ℕ) → 2 ^ (a + b) ≡ 2 ^ a * 2 ^ b
two_pow-add a zero = let e : a + 0 ≡ a = omega arith in rw e (omega arith)
two_pow-add a (suc b) =
    let e : a + suc b ≡ suc (a + b) = omega arith in
    rw (e, pow-suc 2 (a + b), pow-suc 2 b, two_pow-add a b) (grind arith)

pub positive : (k : ℕ) → 0 < 2 ^ k
positive k = omega (arith, one-le-pow k 2)

-- A number of `n` bits shifted up by `at` has `at + n` bits.
raised-lt : (n at c : ℕ) → c < 2 ^ n → c * 2 ^ at < 2 ^ (at + n)
raised-lt n at c h =
    rw (two_pow-add at n, mul_comm (2 ^ at) (2 ^ n)) (mul-lt-mul_of_pos_right h (positive at))

-- A mask shifted up, below a width.
shifted-lt : (n at w : ℕ) → at + n ≤ w → (2 ^ n - 1) * 2 ^ at < 2 ^ w
shifted-lt n at w h =
    let whole : 2 ^ (at + n) ≤ 2 ^ w = pow-le-pow_right {n = 2} (omega arith) h in
    omega (arith, raised-lt n at (2 ^ n - 1) (omega (arith, positive n)), whole)

pub chunk_of_lem :
    (byte first_bit n : ℕ)
    → first_bit + n ≤ 8
    → chunk_of byte first_bit n ≡ byte / 2 ^ first_bit % 2 ^ n
unfolding chunk_of
chunk_of_lem byte first_bit n hn =
    let fits : (2 ^ n - 1) * 2 ^ first_bit < 2 ^ 64 = shifted-lt n first_bit 64 (omega arith) in
    let mask : u64 ((2 ^ n - 1) <<< first_bit) ≡ (2 ^ n - 1) * 2 ^ first_bit = omega arith in
    let one = positive first_bit in
    let parts : byte ≡ byte / 2 ^ first_bit * 2 ^ first_bit + byte % 2 ^ first_bit = grind arith in
    let high =
      bit_and_high first_bit (byte / 2 ^ first_bit) (byte % 2 ^ first_bit) (2 ^ n - 1)
        (ground arith) in
    rw mask (
      ap (λ (t : ℕ). bit_and t ((2 ^ n - 1) * 2 ^ first_bit) / 2 ^ first_bit) parts
      ∙ ap (λ (t : ℕ). t / 2 ^ first_bit) high
      ∙ mul-div_cancel (bit_and (byte / 2 ^ first_bit) (2 ^ n - 1)) (positive first_bit)
      ∙ bit_and_mask n (byte / 2 ^ first_bit))

-- A value of so many bits, beside the largest one.
pub record IsRead (r : Read) : Type 0 where
  pub below : r.value < 2 ^ r.magnitude
  pub full : r.max_v ≡ 2 ^ r.magnitude - 1

pred-mul : (x y : ℕ) → 0 < x → (x - 1) * y + y ≡ y * x
pred-mul zero y h = elim h [ ]
pred-mul (suc x) y h = let e : suc x - 1 ≡ x = omega arith in rw e (grind arith)

-- The highest number of `n` bits, shifted up.
pub last_block : (n at : ℕ) → (2 ^ n - 1) * 2 ^ at + 2 ^ at ≡ 2 ^ (at + n)
last_block n at = pred-mul (2 ^ n) (2 ^ at) (positive n) ∙ sym (two_pow-add at n)

-- Some bits more.
pub grown :
    (v c n at : ℕ)
    → v < 2 ^ at
    → c < 2 ^ n
    → at + n ≤ 64
    → (bit_or v (u64 (c <<< at)) ≡ v + c * 2 ^ at) × (v + c * 2 ^ at < 2 ^ (at + n))
grown v c n at hv hc room =
    let whole : 2 ^ (at + n) ≤ 2 ^ 64 = pow-le-pow_right {n = 2} (omega arith) room in
    let up = raised-lt n at c hc in
    let keep : u64 (c <<< at) ≡ c * 2 ^ at = omega arith in
    let most : c * 2 ^ at ≤ (2 ^ n - 1) * 2 ^ at = mul-le-mul_right (2 ^ at) (omega arith) in
    (rw keep (bit_or_fields' at c v hv), omega (arith, most, last_block n at))

-- The chunk of a byte, below its width.
pub chunk_of-lt : (byte first_bit n : ℕ) → first_bit + n ≤ 8 → chunk_of byte first_bit n < 2 ^ n
chunk_of-lt byte first_bit n fits =
    rw (chunk_of_lem byte first_bit n fits) (mod-lt (byte / 2 ^ first_bit) (positive n))

-- One pass of the loop.
pub chunk-IsRead :
    (byte first_bit n : ℕ) (r : Read)
    → IsRead r
    → first_bit + n ≤ 8
    → r.magnitude + n ≤ 64
    → IsRead (record {
      value = bit_or r.value (u64 (chunk_of byte first_bit n <<< r.magnitude));
      max_v = bit_or r.max_v (u64 ((2 ^ n - 1) <<< r.magnitude));
      magnitude = r.magnitude + n;
    })
chunk-IsRead byte first_bit n r h fits room =
    let small = chunk_of-lt byte first_bit n fits in
    let value = grown r.value (chunk_of byte first_bit n) n r.magnitude h.below small room in
    let most =
      grown r.max_v (2 ^ n - 1) n r.magnitude (omega (arith, h.full, positive r.magnitude))
        (omega (arith, positive n)) room in
    record {
      below = omega (arith, value.0, value.1);
      full = omega (arith, most.0, h.full, last_block n r.magnitude, positive r.magnitude);
    }

pub read_loop-IsRead :
    (bytes : List ℕ) (first_bit remaining : ℕ) (r : Read)
    → IsRead r
    → first_bit < 8
    → r.magnitude + remaining ≤ 64
    → let out = read_loop bytes first_bit remaining r in
      IsRead out × (out.magnitude ≡ r.magnitude + min remaining (8 * length bytes - first_bit))
unfolding read_loop
read_loop-IsRead [] first_bit remaining r h hf room = (h, omega arith)
read_loop-IsRead (byte ∷ bytes) first_bit remaining r h hf room =
    let n = min (8 - first_bit) remaining in
    let is = chunk-IsRead byte first_bit n r h (omega arith) (omega arith) in
    let rest = read_loop-IsRead bytes 0 (remaining - n) _ is (omega arith) (omega arith) in
    if_cases
      (λ (out : Read).
        IsRead out
        × (out.magnitude ≡ r.magnitude + min remaining (8 * suc (length bytes) - first_bit)))
      (remaining == 0) (λ done. (h, ground arith)) (λ busy. (rest.0, rest.1 ∙ omega arith))

-- A field of at most 64 bits that starts within the payload is read as far as the payload goes: so
-- many bits, one or more, a value that these bits can hold, and the largest such value beside it.
-- Any other field is not read.
pub extract_raw_cases :
    (bytes : List ℕ) (bit_offset bits : ℕ)
    → ((r : Read) × (extract_raw bytes bit_offset bits ≡ some r)
        × (0 < bits)
        × (bits ≤ 64)
        × (bit_offset < 8 * length bytes)
        × (r.magnitude ≡ min bits (8 * length bytes - bit_offset))
        × (r.max_v ≡ 2 ^ r.magnitude - 1)
        × (r.value ≤ r.max_v))
      ⊎ ((extract_raw bytes bit_offset bits ≡ none)
          × ((bits ≡ 0) ⊎ (64 < bits) ⊎ (8 * length bytes ≤ bit_offset)))
unfolding extract_raw
extract_raw_cases bytes bit_offset bits = elim (Bool-cases (bits == 0 || ltb 64 bits)) [
  | inl bad ↦ inr (rw bad refl, ground arith)
  | inr good ↦ elim (Bool-cases (leb (length bytes) (bit_offset / 8))) [
    | inl past ↦ inr (rw (good, past) refl, inr (inr (ground arith)))
    | inr within ↦
        let start : Read = record { value = 0; max_v = 0; magnitude = 0 } in
        let out = read_loop (drop (bit_offset / 8) bytes) (bit_offset % 8) bits start in
        let read =
          read_loop-IsRead (drop (bit_offset / 8) bytes) (bit_offset % 8) bits start
            (record { below = omega arith; full = refl }) (omega arith) (ground arith) in
        let size = length-drop (bit_offset / 8) bytes in
        inl (
          out,
          rw (good, within) refl,
          ground arith,
          ground arith,
          ground arith,
          read.1 ∙ ground (arith, size),
          read.0.full,
          omega (arith, read.0.below, read.0.full),
        )
  ]
]
