-- ===== src/Reassembly/Mask.antt =====
-- The frame masks of fast packets: which bits they hold, and when a slot is full.
use canboat_rs.Prelude.{
  ℕ, zero, suc, ◌+◌, ◌-◌, ◌*◌, ◌/◌, ◌^◌, ◌≤◌, ◌<◌, ◌≡◌, ◌≢◌, refl, ap, ◌∙◌, true, false, arith, leb,
  leb→le, Bool-cases, inl, inr, if◌then◌else◌, min, bit, bit_and, bit_or, bit_and-two_pow, bit-ones,
  ones_of_bits, bit-bit_or, bit-two_pow_self, bit-two_pow_ne,
}
use canboat_rs.Reassembly.{Slot, frame_mask, u32_max, is_duplicate}
use native.Mathlib.Nat.{one-le-pow, pow-suc}

-- A payload of `size` bytes takes so many frames.
abbrev pub frame_count : ℕ → ℕ
frame_count size = 1 + size / 7

capped :
    (n : ℕ)
    → n ≤ 32
    → (if leb 32 (min n (31 + 1)) then u32_max else 2 ^ min n (31 + 1) - 1) ≡ 2 ^ n - 1
capped n h = elim (Bool-cases (leb 32 n)) [
  | inl full ↦ let e : n ≡ 32 = omega (arith, leb→le 32 n full) in rw e refl
  | inr less ↦ let e : min n (31 + 1) ≡ n = omega arith in rw (e, less) refl
]

pub frame_mask_lem : (size : ℕ) → size ≤ 223 → frame_mask size ≡ 2 ^ frame_count size - 1
unfolding frame_mask
frame_mask_lem size h = capped (frame_count size) (omega arith)

pub is_duplicate-false : (s : Slot) (i : ℕ) → bit s.frames i ≡ 0 → is_duplicate s i ≡ false
unfolding is_duplicate
is_duplicate-false s i h =
    let e : bit_and s.frames (2 ^ i) ≡ 0 =
      bit_and-two_pow i s.frames ∙ ap (λ (t : ℕ). t * 2 ^ i) h ∙ omega arith in
    rw e refl

pub is_duplicate-true : (s : Slot) (i : ℕ) → bit s.frames i ≡ 1 → is_duplicate s i ≡ true
unfolding is_duplicate
is_duplicate-true s i h =
    let e : bit_and s.frames (2 ^ i) ≡ 2 ^ i =
      bit_and-two_pow i s.frames ∙ ap (λ (t : ℕ). t * 2 ^ i) h ∙ omega arith in
    rw e (ground (arith, one-le-pow i 2))

-- What a mask holds after frame `k`.
pub bit-mark_self : (x k : ℕ) → bit (bit_or x (2 ^ k)) k ≡ 1
bit-mark_self x k = omega (arith, bit-bit_or k x (2 ^ k), bit-two_pow_self k)

pub bit-mark_ne : (x k i : ℕ) → k ≢ i → bit (bit_or x (2 ^ k)) i ≡ bit x i
bit-mark_ne x k i h = omega (arith, bit-bit_or i x (2 ^ k), bit-two_pow_ne k i h)

-- A mask is full exactly when each of its bits is set.
pub full_mask : (n x : ℕ) → x < 2 ^ n → ((i : ℕ) → i < n → bit x i ≡ 1) → x ≡ 2 ^ n - 1
full_mask n x = ones_of_bits n x

pub missing_bit : (n x i : ℕ) → i < n → bit x i ≡ 0 → x ≢ 2 ^ n - 1
missing_bit n x i h z e = absurd (omega (arith, bit-ones n i h, ap (λ (t : ℕ). bit t i) e))

pub pow-lt : (i n : ℕ) → i < n → 2 ^ i < 2 ^ n
pow-lt i zero h = elim h [ ]
pow-lt zero (suc n) h = omega (arith, pow-suc 2 n, one-le-pow n 2)
pow-lt (suc i) (suc n) h = omega (arith, pow-suc 2 n, pow-suc 2 i, pow-lt i n (omega arith))

pub one-lt-two_pow : (size : ℕ) → 1 < 2 ^ frame_count size
one-lt-two_pow size = pow-lt 0 (frame_count size) (omega arith)
