-- ===== src/Prelude/Bits.antt =====
-- Machine words as native numbers: `|` of disjoint fields, `&` with a low mask, single bits.
use Prim.Native.Nat.{
  ℕ, zero, suc, ◌+◌, ◌-◌, ◌*◌, ◌/◌, ◌%◌, ◌^◌, ◌≤◌, ◌<◌, min, max, bit_and, bit_or, digits, bitwise,
  bit_and-bitwise, bit_or-bitwise,
}
use mathlib.Core.Path.{◌≡◌, refl, ap, ap₂, sym, ◌∙◌}
use mathlib.Core.Logic.{◌≢◌, ◌⊎◌, inl, inr}
use native.Mathlib.Nat.{le_refl, pow-suc, one-le-pow, mul_comm, div-div-eq-div-mul}
use native.Mathlib.Omega.{arith}

-- Wrap-around of the fixed widths, and the shifts.
abbrev pub u8 : ℕ → ℕ
u8 n = n % 256

abbrev pub u32 : ℕ → ℕ
u32 n = n % 2 ^ 32

abbrev pub u64 : ℕ → ℕ
u64 n = n % 2 ^ 64

infixl 75 ◌<<<◌ ◌>>>◌
abbrev pub ◌<<<◌ : ℕ → ℕ → ℕ
x <<< k = x * 2 ^ k

abbrev pub ◌>>>◌ : ℕ → ℕ → ℕ
x >>> k = x / 2 ^ k

-- The library's operations run on fuel. One unit more than the first number changes nothing, and so
-- no amount does.
module _ (z : ℕ → ℕ) (f : ℕ → ℕ → ℕ) where
  one_more : (k x y : ℕ) → x ≤ k → digits z f (suc k) x y ≡ digits z f k x y
  one_more zero zero y below = refl
  one_more (suc k) zero y below = refl
  one_more zero (suc x) y below = absurd (omega arith)
  one_more (suc k) (suc x) y below =
      let half = one_more k (suc x / 2) (y / 2) (omega arith) in rw half refl

  settled : (k x y : ℕ) → x ≤ k → digits z f k x y ≡ digits z f x x y
  settled zero zero y below = refl
  settled zero (suc x) y below = absurd (omega arith)
  settled (suc k) x y below = elim (last_step x k below) [
    | inl full ↦ rw full refl
    | inr room ↦ one_more k x y room ∙ settled k x y room
  ]
    where
      last_step : (i j : ℕ) → i ≤ suc j → (i ≡ suc j) ⊎ (i ≤ j)
      last_step i j le = omega arith

  lowest_digit :
      (x y : ℕ)
      → bitwise z f (suc x) y ≡ bitwise z f (suc x / 2) (y / 2) * 2 + f (suc x % 2) (y % 2)
  lowest_digit x y =
      ap (λ (t : ℕ). t * 2 + f (suc x % 2) (y % 2)) (settled x (suc x / 2) (y / 2) (omega arith))

-- Both operations by their lowest digit.
pub bit_or_step : (x y : ℕ) → bit_or x y ≡ max (x % 2) (y % 2) + 2 * bit_or (x / 2) (y / 2)
bit_or_step zero y = simp bit_or-bitwise (omega arith)
bit_or_step (suc x) y =
    let low = lowest_digit (λ t. t) max x y in simp bit_or-bitwise (omega (arith, low))

pub bit_and_step : (x y : ℕ) → bit_and x y ≡ min (x % 2) (y % 2) + 2 * bit_and (x / 2) (y / 2)
bit_and_step zero y = simp bit_and-bitwise (omega arith)
bit_and_step (suc x) y =
    let low = lowest_digit (λ _. 0) min x y in simp bit_and-bitwise (omega (arith, low))

-- Induction from the half of a number to the number.
module _ {ℓ} (P : ℕ → Type ℓ) (base : P 0) (double : (x : ℕ) → P (x / 2) → P x) where
  halving_within : (bound x : ℕ) → x ≤ bound → P x
  halving_within bound zero within = base
  halving_within zero (suc x) within = absurd (omega arith)
  halving_within (suc bound) (suc x) within =
      double (suc x) (halving_within bound (suc x / 2) (omega arith))

  halving : (x : ℕ) → P x
  halving x = halving_within x x (le_refl x)

pub bit_or-zero : (x : ℕ) → bit_or x 0 ≡ x
bit_or-zero = halving (λ x. bit_or x 0 ≡ x) refl (λ x half. omega (arith, bit_or_step x 0, half))

pub bit_and-zero : (x : ℕ) → bit_and x 0 ≡ 0
bit_and-zero = halving (λ x. bit_and x 0 ≡ 0) refl (λ x half. omega (arith, bit_and_step x 0, half))

zero-bit_or : (y : ℕ) → bit_or 0 y ≡ y
zero-bit_or = halving (λ y. bit_or 0 y ≡ y) refl (λ y half. omega (arith, bit_or_step 0 y, half))

pub bit_or_comm : (x y : ℕ) → bit_or x y ≡ bit_or y x
bit_or_comm =
    halving (λ x. (y : ℕ) → bit_or x y ≡ bit_or y x) (λ y. zero-bit_or y ∙ sym (bit_or-zero y))
      (λ x half y. omega (arith, bit_or_step x y, bit_or_step y x, half (y / 2)))

pub mul-two_pow-suc : (q k : ℕ) → q * 2 ^ suc k ≡ q * 2 ^ k * 2
mul-two_pow-suc q k = ap (λ (t : ℕ). q * t) (pow-suc 2 k) ∙ grind arith

-- The operations on numbers given by a half and a lowest digit.
bit_or-double :
    (x y c d : ℕ) → c < 2 → d < 2 → bit_or (x * 2 + c) (y * 2 + d) ≡ bit_or x y * 2 + max c d
bit_or-double x y c d hc hd =
    let hx : (x * 2 + c) / 2 ≡ x = omega arith in
    let hy : (y * 2 + d) / 2 ≡ y = omega arith in
    let lx : (x * 2 + c) % 2 ≡ c = omega arith in
    let ly : (y * 2 + d) % 2 ≡ d = omega arith in
    bit_or_step (x * 2 + c) (y * 2 + d) ∙ rw (hx, hy, lx, ly) (omega arith)

bit_and-double :
    (x y c d : ℕ) → c < 2 → d < 2 → bit_and (x * 2 + c) (y * 2 + d) ≡ bit_and x y * 2 + min c d
bit_and-double x y c d hc hd =
    let hx : (x * 2 + c) / 2 ≡ x = omega arith in
    let hy : (y * 2 + d) / 2 ≡ y = omega arith in
    let lx : (x * 2 + c) % 2 ≡ c = omega arith in
    let ly : (y * 2 + d) % 2 ≡ d = omega arith in
    bit_and_step (x * 2 + c) (y * 2 + d) ∙ rw (hx, hy, lx, ly) (omega arith)

-- A field above others that fit below it is added.
pub bit_or_fields : (w high low : ℕ) → low < 2 ^ w → bit_or (high <<< w) low ≡ high * 2 ^ w + low
bit_or_fields zero high low below =
    let none_low : low ≡ 0 = omega arith in rw none_low (bit_or-zero (high * 2 ^ 0) ∙ omega arith)
bit_or_fields (suc w) high low below =
    let up = mul-two_pow-suc high w in
    let halves : low ≡ low / 2 * 2 + low % 2 = omega arith in
    let rest = bit_or_fields w high (low / 2) (omega (arith, pow-suc 2 w)) in
    ap₂ bit_or (up ∙ omega arith) halves
    ∙ bit_or-double (high * 2 ^ w) (low / 2) 0 (low % 2) (omega arith) (omega arith)
    ∙ omega (arith, rest, up)

-- The same with the low field on the left.
pub bit_or_fields' : (k q r : ℕ) → r < 2 ^ k → bit_or r (q <<< k) ≡ r + q * 2 ^ k
bit_or_fields' k q r fits = omega (arith, bit_or_comm r (q * 2 ^ k), bit_or_fields k q r fits)

-- Only the low field is left under its mask.
bit_and-low : (w high low : ℕ) → low < 2 ^ w → bit_and (high * 2 ^ w + low) (2 ^ w - 1) ≡ low
bit_and-low zero high low below = bit_and-zero (high * 2 ^ 0 + low) ∙ omega arith
bit_and-low (suc w) high low below =
    let up = mul-two_pow-suc high w in
    let rest = bit_and-low w high (low / 2) (omega (arith, pow-suc 2 w)) in
    ap₂ bit_and (omega (arith, up)) (omega (arith, pow-suc 2 w, one-le-pow w 2))
    ∙ bit_and-double (high * 2 ^ w + low / 2) (2 ^ w - 1) (low % 2) 1 (omega arith) (omega arith)
    ∙ omega (arith, rest)

-- A mask of low bits is a remainder.
pub bit_and_mask : (k a : ℕ) → bit_and a (2 ^ k - 1) ≡ a % 2 ^ k
bit_and_mask k a =
    let positive = one-le-pow k 2 in
    let parts : a ≡ a / 2 ^ k * 2 ^ k + a % 2 ^ k = grind arith in
    ap (λ (t : ℕ). bit_and t (2 ^ k - 1)) parts
    ∙ bit_and-low k (a / 2 ^ k) (a % 2 ^ k) (ground arith)

-- A mask that stands above the low field reads the high one.
pub bit_and_high :
    (w high low mask : ℕ)
    → low < 2 ^ w
    → bit_and (high * 2 ^ w + low) (mask * 2 ^ w) ≡ bit_and high mask * 2 ^ w
bit_and_high zero high low mask below =
    let e : high * 2 ^ 0 + low ≡ high = omega arith in
    let m : mask * 2 ^ 0 ≡ mask = omega arith in rw (e, m) (omega arith)
bit_and_high (suc w) high low mask below =
    let rest = bit_and_high w high (low / 2) mask (omega (arith, pow-suc 2 w)) in
    ap₂ bit_and (omega (arith, mul-two_pow-suc high w)) (omega (arith, mul-two_pow-suc mask w))
    ∙ bit_and-double (high * 2 ^ w + low / 2) (mask * 2 ^ w) (low % 2) 0 (omega arith) (omega arith)
    ∙ omega (arith, rest, mul-two_pow-suc (bit_and high mask) w)

-- Single bits.
abbrev pub bit : ℕ → ℕ → ℕ
bit x i = x / 2 ^ i % 2

pub bit-suc : (x i : ℕ) → bit x (suc i) ≡ bit (x / 2) i
bit-suc x i = ap (λ (t : ℕ). t % 2) (div-two_pow-suc x i)
  where
    div-two_pow-suc : (x i : ℕ) → x / 2 ^ suc i ≡ x / 2 / 2 ^ i
    div-two_pow-suc x i =
        ap (λ (t : ℕ). x / t) (pow-suc 2 i ∙ mul_comm (2 ^ i) 2)
        ∙ sym (div-div-eq-div-mul x 2 (2 ^ i))

pub bit_eq : (x y i j : ℕ) → x ≡ y → i ≡ j → bit x i ≡ bit y j
bit_eq x y i j p q = ap₂ bit p q

pub bit-bit_or : (i a b : ℕ) → bit (bit_or a b) i ≡ max (bit a i) (bit b i)
bit-bit_or zero a b = omega (arith, bit_or_step a b)
bit-bit_or (suc i) a b =
    let half : bit_or a b / 2 ≡ bit_or (a / 2) (b / 2) = omega (arith, bit_or_step a b) in
    rw (bit-suc (bit_or a b) i, bit-suc a i, bit-suc b i, half) (bit-bit_or i (a / 2) (b / 2))

pub bit_or-lt : (n a b : ℕ) → a < 2 ^ n → b < 2 ^ n → bit_or a b < 2 ^ n
bit_or-lt zero a b ha hb = ground (arith, bit_or_step a b, bit_or-zero 0)
bit_or-lt (suc n) a b ha hb = omega (
  arith,
  bit_or_step a b,
  pow-suc 2 n,
  bit_or-lt n (a / 2) (b / 2) (omega (arith, pow-suc 2 n)) (omega (arith, pow-suc 2 n)),
)

pub bit-zero : (i : ℕ) → bit 0 i ≡ 0
bit-zero i = omega arith

pub bit-two_pow_self : (k : ℕ) → bit (2 ^ k) k ≡ 1
bit-two_pow_self zero = refl
bit-two_pow_self (suc k) =
    bit-suc (2 ^ suc k) k
    ∙ ap (λ (t : ℕ). bit t k) (omega (arith, pow-suc 2 k))
    ∙ bit-two_pow_self k

pub bit-two_pow_ne : (k i : ℕ) → k ≢ i → bit (2 ^ k) i ≡ 0
bit-two_pow_ne zero zero h = absurd (h refl)
bit-two_pow_ne zero (suc i) h = bit-suc 1 i ∙ bit-zero i
bit-two_pow_ne (suc k) zero h = omega (arith, pow-suc 2 k)
bit-two_pow_ne (suc k) (suc i) h =
    bit-suc (2 ^ suc k) i
    ∙ ap (λ (t : ℕ). bit t i) (omega (arith, pow-suc 2 k))
    ∙ bit-two_pow_ne k i (λ e. h (ap suc e))

pub bit_and-two_pow : (k x : ℕ) → bit_and x (2 ^ k) ≡ bit x k * 2 ^ k
bit_and-two_pow zero x = ground (arith, bit_and_step x 1, bit_and-zero (x / 2))
bit_and-two_pow (suc k) x = ground (
  arith,
  bit_and_step x (2 ^ suc k),
  pow-suc 2 k,
  bit-suc x k,
  bit_and-two_pow k (x / 2),
  mul-two_pow-suc (bit x (suc k)) k,
)

pub bit-ones : (n i : ℕ) → i < n → bit (2 ^ n - 1) i ≡ 1
bit-ones zero i h = elim h [ ]
bit-ones (suc n) zero h = omega (arith, pow-suc 2 n, one-le-pow n 2)
bit-ones (suc n) (suc i) h =
    bit-suc (2 ^ suc n - 1) i
    ∙ ap (λ (t : ℕ). bit t i) (omega (arith, pow-suc 2 n, one-le-pow n 2))
    ∙ bit-ones n i (omega arith)

pub ones_of_bits : (n x : ℕ) → x < 2 ^ n → ((i : ℕ) → i < n → bit x i ≡ 1) → x ≡ 2 ^ n - 1
ones_of_bits zero x h b = omega arith
ones_of_bits (suc n) x h b =
    let half =
      ones_of_bits n (x / 2) (omega (arith, pow-suc 2 n))
        (λ i hi. sym (bit-suc x i) ∙ b (suc i) (omega arith)) in
    omega (arith, half, b 0 (omega arith), pow-suc 2 n, one-le-pow n 2)
