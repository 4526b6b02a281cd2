-- ===== src/Timestamp/Digits.antt =====
-- Numbers printed with a fixed width, and read again.
use canboat_rs.Prelude.{
  ℕ, suc, ◌+◌, ◌-◌, ◌*◌, ◌/◌, ◌%◌, ◌≤◌, ◌<◌, ◌≡◌, ◌⊎◌, inl, inr, refl, ap, ◌∙◌, arith, [], ◌∷◌,
  ◌++◌, some, true, false, ltb, ◌==◌, length, replicate, lt→ltb, le→ltb-false,
}
use canboat_rs.Int.{pos}
use canboat_rs.Frame.{Text, to_string, decimal_digits}
use canboat_rs.Timestamp.{pad, is_digit, parse_digits, parse_unsigned, parse_i64}

abbrev pub digit : ℕ → ℕ
digit n = 48 + n % 10

lt_or_le : (a b : ℕ) → (a < b) ⊎ (b ≤ a)
lt_or_le a b = omega arith

-- One round of the printing loop.
decimal_digits-last : (f n : ℕ) (acc : Text) → n < 10 → decimal_digits (suc f) n acc ≡ digit n ∷ acc
unfolding decimal_digits
decimal_digits-last f n acc h = let one : ltb n 10 ≡ true = lt→ltb n 10 h in rw one refl

decimal_digits-more :
    (f n : ℕ) (acc : Text)
    → 10 ≤ n
    → decimal_digits (suc f) n acc ≡ decimal_digits f (n / 10) (digit n ∷ acc)
unfolding decimal_digits
decimal_digits-more f n acc h = let more : ltb n 10 ≡ false = le→ltb-false 10 n h in rw more refl

two_digits :
    (f n : ℕ) (acc : Text)
    → 10 ≤ n
    → n < 100
    → decimal_digits (suc (suc f)) n acc ≡ digit (n / 10) ∷ digit n ∷ acc
two_digits f n acc h k =
    decimal_digits-more (suc f) n acc h
    ∙ decimal_digits-last f (n / 10) (digit n ∷ acc) (omega arith)

three_digits :
    (f n : ℕ) (acc : Text)
    → 100 ≤ n
    → n < 1000
    → decimal_digits (suc (suc (suc f))) n acc
      ≡ digit (n / 10 / 10) ∷ digit (n / 10) ∷ digit n ∷ acc
three_digits f n acc h k =
    decimal_digits-more (suc (suc f)) n acc (omega arith)
    ∙ two_digits f (n / 10) (digit n ∷ acc) (omega arith) (omega arith)

four_digits :
    (f n : ℕ) (acc : Text)
    → 1000 ≤ n
    → n < 10000
    → decimal_digits (suc (suc (suc (suc f)))) n acc
      ≡ digit (n / 10 / 10 / 10) ∷ digit (n / 10 / 10) ∷ digit (n / 10) ∷ digit n ∷ acc
four_digits f n acc h k =
    decimal_digits-more (suc (suc (suc f))) n acc (omega arith)
    ∙ three_digits f (n / 10) (digit n ∷ acc) (omega arith) (omega arith)

-- The fuel of `to_string` is more than there are digits.
to_string-fuel : (f n : ℕ) (s : Text) → suc n ≡ f → decimal_digits f n [] ≡ s → to_string n ≡ s
unfolding to_string
to_string-fuel f n s e h = ap (λ (k : ℕ). decimal_digits k n []) e ∙ h

padded : (w n : ℕ) (s : Text) → to_string n ≡ s → pad w n ≡ replicate (w - length s) 48 ++ s
unfolding pad
padded w n s h = ap (λ (t : Text). replicate (w - length t) 48 ++ t) h

pub pad_two : (n : ℕ) → n < 100 → pad 2 n ≡ digit (n / 10) ∷ digit n ∷ []
pad_two n h = elim (lt_or_le n 10) [
  | inl small ↦
      let zero_digit : digit (n / 10) ≡ 48 = omega arith in
      rw zero_digit
        (padded 2 n (digit n ∷ []) (to_string-fuel _ n _ refl (decimal_digits-last n n [] small)))
  | inr big ↦
      padded 2 n (digit (n / 10) ∷ digit n ∷ [])
        (to_string-fuel (suc (suc (n - 1))) n _ (omega arith) (two_digits (n - 1) n [] big h))
]

three_padded : (n : ℕ) → n < 100 → pad 3 n ≡ digit (n / 10 / 10) ∷ digit (n / 10) ∷ digit n ∷ []
three_padded n h =
    let hundreds : digit (n / 10 / 10) ≡ 48 = omega arith in
    elim (lt_or_le n 10) [
      | inl small ↦
          let tens : digit (n / 10) ≡ 48 = omega arith in
          rw (hundreds, tens)
            (padded 3 n (digit n ∷ [])
              (to_string-fuel _ n _ refl (decimal_digits-last n n [] small)))
      | inr big ↦ rw hundreds (
          padded 3 n (digit (n / 10) ∷ digit n ∷ [])
            (to_string-fuel (suc (suc (n - 1))) n _ (omega arith) (two_digits (n - 1) n [] big h)))
    ]

pub pad_three : (n : ℕ) → n < 1000 → pad 3 n ≡ digit (n / 10 / 10) ∷ digit (n / 10) ∷ digit n ∷ []
pad_three n h = elim (lt_or_le n 100) [
  | inr big ↦
      padded 3 n (digit (n / 10 / 10) ∷ digit (n / 10) ∷ digit n ∷ []) (
        to_string-fuel (suc (suc (suc (n - 2)))) n _ (omega arith)
          (three_digits (n - 2) n [] big h))
  | inl less ↦ three_padded n less
]

pub pad_four :
    (n : ℕ)
    → 1000 ≤ n
    → n < 10000
    → pad 4 n ≡ digit (n / 10 / 10 / 10) ∷ digit (n / 10 / 10) ∷ digit (n / 10) ∷ digit n ∷ []
pad_four n h k =
    padded 4 n (digit (n / 10 / 10 / 10) ∷ digit (n / 10 / 10) ∷ digit (n / 10) ∷ digit n ∷ []) (
      to_string-fuel (suc (suc (suc (suc (n - 3))))) n _ (omega arith)
        (four_digits (n - 3) n [] h k))

-- Digits are read as what they stand for.
parse_digits-digit :
    (acc n : ℕ) (cs : Text) → parse_digits acc (digit n ∷ cs) ≡ parse_digits (acc * 10 + n % 10) cs
unfolding parse_digits
parse_digits-digit acc n cs =
    let is : is_digit (digit n) ≡ true = ground arith in
    let value : digit n - 48 ≡ n % 10 = omega arith in rw (is, value) refl

parse_i64-digit :
    (n : ℕ) (cs : Text) (v : ℕ)
    → parse_digits 0 (digit n ∷ cs) ≡ some v
    → parse_i64 (digit n ∷ cs) ≡ some (pos v)
unfolding parse_i64 parse_unsigned
parse_i64-digit n cs v h =
    let minus : digit n == 45 ≡ false = ground arith in
    let plus : digit n == 43 ≡ false = ground arith in rw (minus, plus, h) refl

parse_digits-nil : (acc : ℕ) → parse_digits acc [] ≡ some acc
unfolding parse_digits
parse_digits-nil acc = refl

pub parse_two : (n : ℕ) → n < 100 → parse_i64 (digit (n / 10) ∷ digit n ∷ []) ≡ some (pos n)
parse_two n h =
    let value : (0 * 10 + n / 10 % 10) * 10 + n % 10 ≡ n = omega arith in
    parse_i64-digit (n / 10) _ n (
      parse_digits-digit 0 (n / 10) _
      ∙ parse_digits-digit _ n []
      ∙ parse_digits-nil _
      ∙ ap some value)

pub parse_three :
    (n : ℕ)
    → n < 1000
    → parse_i64 (digit (n / 10 / 10) ∷ digit (n / 10) ∷ digit n ∷ []) ≡ some (pos n)
parse_three n h =
    let value : ((0 * 10 + n / 10 / 10 % 10) * 10 + n / 10 % 10) * 10 + n % 10 ≡ n = omega arith in
    parse_i64-digit (n / 10 / 10) _ n (
      parse_digits-digit 0 (n / 10 / 10) _
      ∙ parse_digits-digit _ (n / 10) _
      ∙ parse_digits-digit _ n []
      ∙ parse_digits-nil _
      ∙ ap some value)

pub parse_four :
    (n : ℕ)
    → n < 10000
    → parse_i64 (digit (n / 10 / 10 / 10) ∷ digit (n / 10 / 10) ∷ digit (n / 10) ∷ digit n ∷ [])
      ≡ some (pos n)
parse_four n h =
    let value : (((0 * 10 + n / 10 / 10 / 10 % 10) * 10 + n / 10 / 10 % 10) * 10 + n / 10 % 10) * 10
          + n % 10
        ≡ n =
      omega arith in
    parse_i64-digit (n / 10 / 10 / 10) _ n (
      parse_digits-digit 0 (n / 10 / 10 / 10) _
      ∙ parse_digits-digit _ (n / 10 / 10) _
      ∙ parse_digits-digit _ (n / 10) _
      ∙ parse_digits-digit _ n []
      ∙ parse_digits-nil _
      ∙ ap some value)
