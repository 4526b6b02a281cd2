-- ===== src/RequestEngine/Due.antt =====
-- What `next_due` finds.
use canboat_rs.Prelude.{
  ℕ, zero, suc, ◌+◌, ◌-◌, ◌%◌, ◌≤◌, ◌<◌, ◌≡◌, ◌⊎◌, refl, subst, inl, inr, arith, none, some, Bool,
  true, false, Bool-cases, u8,
}
use canboat_rs.RequestEngine.{RequestKind, Devices, is_due, first_due, next_due, stamp}

first_or_later : (i j : ℕ) → i ≤ j → (j ≡ i) ⊎ (suc i ≤ j)
first_or_later i j h = omega arith

-- How far an address is ahead of the cursor.
abbrev pub ahead : ℕ → ℕ → ℕ
ahead cursor a = (a + 256 - cursor) % 256

u8-ahead : (cursor a : ℕ) → cursor < 256 → a < 256 → u8 (cursor + ahead cursor a) ≡ a
u8-ahead cursor a h k = omega arith

module _ (kind : RequestKind) (now cursor : ℕ) (devs : Devices) where
  abbrev due_at : ℕ → Bool
  due_at offset = is_due kind now (devs (u8 (cursor + offset)))

  later :
      (offset j : ℕ)
      → due_at offset ≡ false
      → (suc offset ≤ j → due_at j ≡ false)
      → offset ≤ j
      → due_at j ≡ false
  later offset j idle after h = elim (first_or_later offset j h) [
    | inl same ↦ rw same idle
    | inr more ↦ after more
  ]

  -- A search from an offset finds the first due address from there on, or there is none.
  first_due_cases :
      (n offset : ℕ)
      → ((k : ℕ) × (first_due n offset cursor kind now devs ≡ some (u8 (cursor + k)))
          × (offset ≤ k)
          × (k < offset + n)
          × (due_at k ≡ true)
          × ((j : ℕ) → offset ≤ j → j < k → due_at j ≡ false))
        ⊎ ((first_due n offset cursor kind now devs ≡ none)
            × ((j : ℕ) → offset ≤ j → j < offset + n → due_at j ≡ false))
  unfolding first_due
  first_due_cases zero offset = inr (refl, λ j h k. absurd (omega arith))
  first_due_cases (suc n) offset = elim (Bool-cases (due_at offset)) [
    | inl due ↦
        inl (offset, rw due refl, omega arith, omega arith, due, λ j h k. absurd (omega arith))
    | inr idle ↦ elim (first_due_cases n (suc offset)) [
      | inl (k, e, low, high, due, least) ↦ inl (
        k,
        rw idle e,
        omega arith,
        omega arith,
        due,
        λ j h l. later offset j idle (λ g. least j g l) h,
      )
      | inr (e, all) ↦ inr (rw idle e, λ j h l. later offset j idle (λ g. all j g (omega arith)) h)
    ]
  ]

-- `next_due` asks the first due address from the cursor on, round the 256 addresses: it stamps that
-- one as asked now and sets the cursor after it. It asks none, and changes nothing, only if no
-- address is due.
pub next_due_cases :
    (kind : RequestKind) (now cursor : ℕ) (devs : Devices)
    → cursor < 256
    → ((a : ℕ) × (next_due devs cursor kind now ≡ (stamp kind now a devs, u8 (a + 1), some a))
        × (a < 256)
        × (is_due kind now (devs a) ≡ true)
        × ((b : ℕ) → b < 256 → ahead cursor b < ahead cursor a → is_due kind now (devs b) ≡ false))
      ⊎ ((next_due devs cursor kind now ≡ (devs, cursor, none))
          × ((b : ℕ) → b < 256 → is_due kind now (devs b) ≡ false))
unfolding next_due
next_due_cases kind now cursor devs h = elim (first_due_cases kind now cursor devs 256 0) [
  | inl (k, e, low, high, due, least) ↦ inl (
    u8 (cursor + k),
    rw (next_due, e) refl,
    omega arith,
    due,
    λ b hb closer.
        subst (λ (x : ℕ). is_due kind now (devs x) ≡ false) (u8-ahead cursor b h hb)
          (least (ahead cursor b) (omega arith) (omega arith)),
  )
  | inr (e, all) ↦ inr (
    rw (next_due, e) refl,
    λ b hb.
        subst (λ (x : ℕ). is_due kind now (devs x) ≡ false) (u8-ahead cursor b h hb)
          (all (ahead cursor b) (omega arith) (omega arith)),
  )
]
