-- ===== src/FieldBits/RoundTrip.antt =====
-- `write_bits`, and `extract_raw` after it.
use canboat_rs.Prelude.{
  ℕ, zero, suc, ◌+◌, ◌-◌, ◌*◌, ◌/◌, ◌%◌, ◌^◌, ◌≤◌, ◌<◌, ◌≡◌, refl, ap, ◌∙◌, sym, subst, List, [],
  ◌∷◌, ◌++◌, arith, bit_or, length, length-append, length-set, some, get_or, set, if_cases, ◌==◌,
  bit_or_fields', inl, inr, if◌then◌else◌,
}
use native.Mathlib.Nat.{
  pow-suc, mod-lt, add-mul-div_right, div-eq_of_lt, pow-le-pow_right, mod-eq_of_lt,
  add-mul-mod_self_right, lt_of_mul-lt-mul_left, mul_comm, mod-one, mod-mod, div-add-mod,
  add-mul-mod_self_left,
}
use canboat_rs.FieldBits.{Read, extract_raw, write_bit, write_bits}
use canboat_rs.FieldBits.Bounds.{two_pow-add, positive, extract_raw_cases}
use canboat_rs.FieldBits.Chunks.{little_endian, AreBytes}
use canboat_rs.FieldBits.LittleEndian.{extract_raw-part}

-- The buffer holds the first `next_bit` bits, in as few bytes as they need, and no bit beyond them.
pub record IsFilled (buf : List ℕ) (next_bit : ℕ) : Type 0 where
  pub bytes : AreBytes buf
  pub size : length buf ≡ (next_bit + 7) / 8
  pub no_more : little_endian buf < 2 ^ next_bit

append_zero : (buf : List ℕ) → little_endian (buf ++ 0 ∷ []) ≡ little_endian buf
append_zero [] = refl
append_zero (b ∷ buf) = ap (λ (t : ℕ). b + 256 * t) (append_zero buf)

append_zero-AreBytes : (buf : List ℕ) → AreBytes buf → AreBytes (buf ++ 0 ∷ [])
append_zero-AreBytes [] h = (omega arith, tt)
append_zero-AreBytes (b ∷ buf) h = (h.0, append_zero-AreBytes buf h.1)

set-AreBytes : (buf : List ℕ) (i v : ℕ) → AreBytes buf → v < 256 → AreBytes (set buf i v)
set-AreBytes [] i v h hv = tt
set-AreBytes (b ∷ buf) zero v h hv = (hv, h.1)
set-AreBytes (b ∷ buf) (suc i) v h hv = (h.0, set-AreBytes buf i v h.1 hv)

-- A byte takes its part of the number.
set-little_endian :
    (buf : List ℕ) (i d : ℕ)
    → i < length buf
    → little_endian (set buf i (get_or buf i 0 + d)) ≡ little_endian buf + d * 2 ^ (8 * i)
set-little_endian [] i d h = elim h [ ]
set-little_endian (b ∷ buf) zero d h = omega arith
set-little_endian (b ∷ buf) (suc i) d h =
    let power : 2 ^ (8 * suc i) ≡ 256 * 2 ^ (8 * i) =
      ap (λ (t : ℕ). 2 ^ t) (omega arith) ∙ two_pow-add 8 (8 * i) in
    rw (set-little_endian buf i d (omega arith), power) (grind arith)

get_or-le : (buf : List ℕ) (i : ℕ) → get_or buf i 0 * 2 ^ (8 * i) ≤ little_endian buf
get_or-le [] i = omega arith
get_or-le (b ∷ buf) zero = omega arith
get_or-le (b ∷ buf) (suc i) =
    let power : 2 ^ (8 * suc i) ≡ 256 * 2 ^ (8 * i) =
      ap (λ (t : ℕ). 2 ^ t) (omega arith) ∙ two_pow-add 8 (8 * i) in
    let rest = get_or-le buf i in rw power (grind arith)

-- The byte that the next bit goes to has only bits below it.
get_or-lt :
    (buf : List ℕ) (next_bit : ℕ)
    → little_endian buf < 2 ^ next_bit
    → get_or buf (next_bit / 8) 0 < 2 ^ (next_bit % 8)
get_or-lt buf next_bit h =
    let i = next_bit / 8 in
    let whole : 2 ^ next_bit ≡ 2 ^ (8 * i) * 2 ^ (next_bit % 8) =
      ap (λ (t : ℕ). 2 ^ t) (omega arith) ∙ two_pow-add (8 * i) (next_bit % 8) in
    let part = get_or-le buf i in
    lt_of_mul-lt-mul_left (2 ^ (8 * i))
      (omega (arith, whole, part, mul_comm (2 ^ (8 * i)) (get_or buf i 0)))

-- A byte more, where the last one is full.
record IsOpened (buf : List ℕ) (next_bit : ℕ) (buf' : List ℕ) : Type 0 where
  pub bytes : AreBytes buf'
  pub size : length buf' ≡ next_bit / 8 + 1
  pub same : little_endian buf' ≡ little_endian buf

opened_lem :
    (buf : List ℕ) (next_bit : ℕ)
    → IsFilled buf next_bit
    → IsOpened buf next_bit (if next_bit % 8 == 0 then buf ++ 0 ∷ [] else buf)
opened_lem buf next_bit h =
    if_cases (IsOpened buf next_bit) (next_bit % 8 == 0)
      (λ full. record {
        bytes = append_zero-AreBytes buf h.bytes;
        size = ground (arith, length-append buf (0 ∷ []), h.size);
        same = append_zero buf;
      })
      (λ room. record { bytes = h.bytes; size = ground (arith, h.size); same = refl })

-- The bit set in a byte that has only lower ones.
bit_lem :
    (buf : List ℕ) (next_bit : ℕ)
    → little_endian buf < 2 ^ next_bit
    → let k = next_bit % 8 in
      let g = get_or buf (next_bit / 8) 0 in
      (bit_or g (2 ^ k) ≡ g + 2 ^ k) × (bit_or g (2 ^ k) < 256)
bit_lem buf next_bit h =
    let k = next_bit % 8 in
    let g = get_or buf (next_bit / 8) 0 in
    let below = get_or-lt buf next_bit h in
    let one : 1 * 2 ^ k ≡ 2 ^ k = omega arith in
    let sum : bit_or g (2 ^ k) ≡ g + 2 ^ k =
      ap (λ (t : ℕ). bit_or g t) (sym one) ∙ bit_or_fields' k 1 g below ∙ omega arith in
    let most : 2 ^ suc k ≤ 2 ^ 8 =
      (let up : suc k ≤ 8 = omega arith in pow-le-pow_right {n = 2} (omega arith) up) in
    (sum, omega (arith, sum, below, most, pow-suc 2 k))

write_bit_lem :
    (buf : List ℕ) (next_bit value : ℕ)
    → IsFilled buf next_bit
    → IsFilled (write_bit buf next_bit value) (next_bit + 1)
      × (little_endian (write_bit buf next_bit value)
          ≡ little_endian buf + value % 2 * 2 ^ next_bit)
unfolding write_bit
write_bit_lem buf next_bit value h =
    let i = next_bit / 8 in
    let k = next_bit % 8 in
    let buf' = if next_bit % 8 == 0 then buf ++ 0 ∷ [] else buf in
    let o = opened_lem buf next_bit h in
    let low : little_endian buf' < 2 ^ next_bit = omega (arith, o.same, h.no_more) in
    let bit = bit_lem buf' next_bit low in
    let g = get_or buf' i 0 in
    let twice : 2 ^ (next_bit + 1) ≡ 2 ^ next_bit * 2 =
      ap (λ (t : ℕ). 2 ^ t) (omega arith) ∙ pow-suc 2 next_bit in
    let place : 2 ^ k * 2 ^ (8 * i) ≡ 2 ^ next_bit =
      sym (two_pow-add k (8 * i)) ∙ ap (λ (t : ℕ). 2 ^ t) (omega arith) in
    if_cases
      (λ (out : List ℕ).
        IsFilled out (next_bit + 1)
        × (little_endian out ≡ little_endian buf + value % 2 * 2 ^ next_bit))
      (value % 2 == 0)
      (λ off.
        let none_set : value % 2 * 2 ^ next_bit ≡ 0 =
          (let z : value % 2 ≡ 0 = ground arith in rw z (omega arith)) in
        (
          record {
            bytes = o.bytes;
            size = omega (arith, o.size);
            no_more = omega (arith, low, twice);
          },
          omega (arith, o.same, none_set),
        ))
      (λ on.
        let one_set : value % 2 * 2 ^ next_bit ≡ 2 ^ next_bit =
          (let z : value % 2 ≡ 1 = ground arith in rw z (omega arith)) in
        let out : little_endian (set buf' i (bit_or g (2 ^ k))) ≡ little_endian buf + 2 ^ next_bit =
          ap (λ (t : ℕ). little_endian (set buf' i t)) bit.0
          ∙ set-little_endian buf' i (2 ^ k) (omega (arith, o.size))
          ∙ omega (arith, o.same, place) in
        (
          record {
            bytes = set-AreBytes buf' i (bit_or g (2 ^ k)) o.bytes bit.1;
            size = length-set buf' i (bit_or g (2 ^ k)) ∙ omega (arith, o.size);
            no_more = omega (arith, out, h.no_more, twice);
          },
          omega (arith, out, one_set),
        ))

-- The low bits of a number: the lowest, and those of its half.
low_bits : (bits value : ℕ) → value % 2 ^ suc bits ≡ value % 2 + 2 * (value / 2 % 2 ^ bits)
low_bits bits value =
    let half = value / 2 in
    let upper = half / 2 ^ bits in
    let parts : value ≡ value % 2 + 2 * (half % 2 ^ bits) + 2 ^ suc bits * upper =
      joined (value % 2) half (2 ^ bits) upper (half % 2 ^ bits) (omega arith)
        (sym (div-add-mod half (2 ^ bits)))
      ∙ ap (λ (t : ℕ). value % 2 + 2 * (half % 2 ^ bits) + t * upper) (sym (pow-suc 2 bits)) in
    let fits : value % 2 + 2 * (half % 2 ^ bits) < 2 ^ suc bits =
      omega (arith, mod-lt half (positive bits), pow-suc 2 bits) in
    ap (λ (t : ℕ). t % 2 ^ suc bits) parts
    ∙ add-mul-mod_self_left (value % 2 + 2 * (half % 2 ^ bits)) (2 ^ suc bits) upper
    ∙ mod-eq_of_lt fits
  where
    joined : (a h N Q R : ℕ) {v : ℕ} → v ≡ a + 2 * h → h ≡ N * Q + R → v ≡ a + 2 * R + N * 2 * Q
    joined a h N Q R ev eh = ev ∙ ap (λ (t : ℕ). a + 2 * t) eh ∙ grind arith

pub write_bits_lem :
    (buf : List ℕ) (next_bit bits value : ℕ)
    → IsFilled buf next_bit
    → let out = write_bits buf next_bit bits value in
      (out.1 ≡ next_bit + bits)
      × IsFilled out.0 (next_bit + bits)
      × (little_endian out.0 ≡ little_endian buf + value % 2 ^ bits * 2 ^ next_bit)
unfolding write_bits
write_bits_lem buf next_bit zero value h =
    let e : next_bit ≡ next_bit + 0 = omega arith in
    (e, subst (IsFilled buf) e h, rw (mod-one value) (omega arith))
write_bits_lem buf next_bit (suc bits) value h =
    let bit = write_bit_lem buf next_bit value h in
    let rest =
      write_bits_lem (write_bit buf next_bit value) (next_bit + 1) bits (value / 2) bit.0 in
    let e : next_bit + 1 + bits ≡ next_bit + suc bits = omega arith in
    let power : 2 ^ (next_bit + 1) ≡ 2 ^ next_bit * 2 = two_pow-add next_bit 1 in
    (
      rest.0 ∙ e,
      subst (IsFilled _) e rest.1,
      rest.2
          ∙ rw (bit.1, power, low_bits bits value)
              (two_parts (little_endian buf) (value % 2) (2 ^ next_bit) (value / 2 % 2 ^ bits)),
    )
  where
    two_parts : (L a M b : ℕ) → L + a * M + b * (M * 2) ≡ L + (a + 2 * b) * M
    two_parts L a M b = grind arith

-- A field of 1 to 64 bits, written after the bits that a buffer holds, is read back from there as
-- the low bits of the value, and all bits of it are there, with the largest value of such a field.
-- The bits before it are the ones that the buffer held, and the buffer then holds just these and the
-- field, in as few bytes as they need.
pub extract_raw-write_bits :
    (buf : List ℕ) (next_bit bits value : ℕ)
    → IsFilled buf next_bit
    → 0 < bits
    → bits ≤ 64
    → let out = write_bits buf next_bit bits value in
      ((r : Read) × (extract_raw out.0 next_bit bits ≡ some r)
        × (r.magnitude ≡ bits)
        × (r.value ≡ value % 2 ^ bits)
        × (r.max_v ≡ 2 ^ bits - 1))
      × (little_endian out.0 % 2 ^ next_bit ≡ little_endian buf)
      × (out.1 ≡ next_bit + bits)
      × IsFilled out.0 (next_bit + bits)
extract_raw-write_bits buf next_bit bits value h some_bits fits =
    let out = write_bits buf next_bit bits value in
    let written = write_bits_lem buf next_bit bits value h in
    let filled : IsFilled out.0 (next_bit + bits) = written.1 in
    let kept : little_endian out.0 % 2 ^ next_bit ≡ little_endian buf =
      ap (λ (t : ℕ). t % 2 ^ next_bit) written.2
      ∙ add-mul-mod_self_right (little_endian buf) (value % 2 ^ bits) (2 ^ next_bit)
      ∙ mod-eq_of_lt h.no_more in
    let field : little_endian out.0 / 2 ^ next_bit ≡ value % 2 ^ bits =
      ap (λ (t : ℕ). t / 2 ^ next_bit) written.2
      ∙ add-mul-div_right (little_endian buf) (value % 2 ^ bits) (positive next_bit)
      ∙ ap (λ (t : ℕ). t + value % 2 ^ bits) (div-eq_of_lt h.no_more)
      ∙ omega arith in
    elim (extract_raw_cases out.0 next_bit bits) [
      | inl (r, got, _, _, _, size, most, _) ↦
          let whole : r.magnitude ≡ bits = size ∙ omega (arith, filled.size) in
          let read : r.value ≡ value % 2 ^ bits =
            extract_raw-part out.0 next_bit bits r filled.bytes got
            ∙ ap (λ (t : ℕ). t % 2 ^ r.magnitude) field
            ∙ ap (λ (t : ℕ). value % 2 ^ bits % 2 ^ t) whole
            ∙ mod-mod value (2 ^ bits) in
          ((r, got, whole, read, most ∙ ap (λ (t : ℕ). 2 ^ t - 1) whole), kept, written.0, filled)
      | inr (_, why) ↦ absurd (omega (arith, filled.size))
    ]
