-- ===== src/Supervisor/Backoff.antt =====
-- The sleeps of the supervisor: how they grow, that they end, and how soon a stop ends them.
use canboat_rs.Prelude.{
  ℕ, zero, suc, ◌+◌, ◌-◌, ◌*◌, ◌^◌, ◌≤◌, ◌<◌, ◌≡◌, refl, sym, ap, ◌∙◌, inl, inr, arith, List, ◌∷◌,
  ◌++◌, Bool, true, false, ◌==◌, leb, if◌then◌else◌, min, replicate, get_or, Bool-cases, if_cases,
}
use mathlib.Core.Bool.{true≢false}
use native.Mathlib.Nat.{pow-suc}
use canboat_rs.Supervisor.{next_backoff, sleeps, sleep_interruptible}

-- The backoff after so many failures.
abbrev pub backoff_after : ℕ → ℕ
backoff_after k = min (500 * 2 ^ k) 30000

next_backoff-failure : (k : ℕ) → next_backoff (backoff_after k) false ≡ backoff_after (suc k)
unfolding next_backoff
next_backoff-failure k = omega (arith, pow-suc 2 k)

-- After any number of failures in a row, the next one is followed by a sleep of 500 ms doubled that
-- many times, or of 30 s if that is less; whatever was attempted before that, if it ended with a
-- session.
sleeps-failures :
    (k n : ℕ) (attempts : List Bool)
    → get_or (sleeps (backoff_after n) (replicate k false ++ false ∷ attempts)) k 0
      ≡ backoff_after (n + k)
unfolding sleeps
sleeps-failures zero n attempts = ap backoff_after (omega arith)
sleeps-failures (suc k) n attempts =
    let shift : n + suc k ≡ suc n + k = omega arith in
    rw (next_backoff-failure n, shift) (sleeps-failures k (suc n) attempts)

sleep_interruptible-over :
    (fuel : ℕ) (stop : ℕ → Bool) (slept : ℕ) → sleep_interruptible fuel stop slept 0 ≡ slept
unfolding sleep_interruptible
sleep_interruptible-over zero stop slept = refl
sleep_interruptible-over (suc fuel) stop slept = refl

-- With as much fuel as there are milliseconds, more fuel changes nothing.
sleep_interruptible-fuel :
    (fuel more : ℕ) (stop : ℕ → Bool) (slept remaining : ℕ)
    → remaining ≤ fuel
    → sleep_interruptible (fuel + more) stop slept remaining
      ≡ sleep_interruptible fuel stop slept remaining
unfolding sleep_interruptible
sleep_interruptible-fuel zero more stop slept remaining h =
    let over : remaining ≡ 0 = omega arith in
    rw over (sleep_interruptible-over (0 + more) stop slept)
sleep_interruptible-fuel (suc fuel) more stop slept remaining h =
    let next : suc fuel + more ≡ suc (fuel + more) = omega arith in
    elim (Bool-cases (remaining == 0)) [
      | inl over ↦ rw (next, over) refl
      | inr left ↦
          rw (next, left)
            (ap (λ (t : ℕ). if stop slept then slept else t)
              (sleep_interruptible-fuel fuel more stop (slept + min 50 remaining)
                (remaining - min 50 remaining) (ground arith)))
    ]

-- By the length of the sleep.
abbrev IsSleep : (ℕ → Bool) → ℕ → ℕ → ℕ → Type 0
IsSleep stop slept remaining t =
    (t ≤ slept + remaining)
    × (((e : ℕ) → stop e ≡ false) → t ≡ slept + remaining)
    × ((at : ℕ) → slept < at + 50 → ((e : ℕ) → at ≤ e → stop e ≡ true) → t < at + 50)

step-IsSleep :
    (stop : ℕ → Bool) (slept remaining t : ℕ)
    → stop slept ≡ false
    → IsSleep stop (slept + min 50 remaining) (remaining - min 50 remaining) t
    → IsSleep stop slept remaining t
step-IsSleep stop slept remaining t go (short, full, soon) = (
  omega (arith, short),
  λ never. full never ∙ omega arith,
  λ at h stops. elim (Bool-cases (leb at slept)) [
    | inl late ↦ absurd (true≢false (sym (stops slept (ground arith)) ∙ go))
    | inr early ↦ soon at (ground arith) stops
  ],
)

sleep_interruptible-IsSleep :
    (fuel : ℕ) (stop : ℕ → Bool) (slept remaining : ℕ)
    → remaining ≤ fuel
    → IsSleep stop slept remaining (sleep_interruptible fuel stop slept remaining)
unfolding sleep_interruptible
sleep_interruptible-IsSleep zero stop slept remaining h =
    (omega arith, λ never. omega arith, λ at k stops. k)
sleep_interruptible-IsSleep (suc fuel) stop slept remaining h =
    if_cases (IsSleep stop slept remaining) (remaining == 0)
      (λ over. (omega arith, λ never. ground arith, λ at k stops. k))
      (λ left.
        if_cases (IsSleep stop slept remaining) (stop slept)
          (λ now.
            (omega arith, λ never. absurd (true≢false (sym now ∙ never slept)), λ at k stops. k))
          (λ go. step-IsSleep stop slept remaining _ go (
            sleep_interruptible-IsSleep fuel stop (slept + min 50 remaining)
              (remaining - min 50 remaining) (ground arith))))

-- However the stop flag behaves, the sleep ends: with as much fuel as there are milliseconds, more
-- fuel changes nothing. It is not longer than asked for, it is as long if nobody asks to stop, and it
-- ends less than 50 ms after the time from which a stop is asked for.
pub sleep_interruptible-ends :
    (duration more : ℕ) (stop : ℕ → Bool)
    → let t = sleep_interruptible duration stop 0 duration in
      (sleep_interruptible (duration + more) stop 0 duration ≡ t)
      × (t ≤ duration)
      × (((e : ℕ) → stop e ≡ false) → t ≡ duration)
      × ((at : ℕ) → ((e : ℕ) → at ≤ e → stop e ≡ true) → t < at + 50)
sleep_interruptible-ends duration more stop =
    let (short, full, soon) = sleep_interruptible-IsSleep duration stop 0 duration (omega arith) in
    (
      sleep_interruptible-fuel duration more stop 0 duration (omega arith),
      omega (arith, short),
      λ never. full never ∙ omega arith,
      λ at stops. soon at (omega arith) stops,
    )
