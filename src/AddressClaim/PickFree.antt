-- ===== src/AddressClaim/PickFree.antt =====
-- The search for a free address.
use canboat_rs.Prelude.{
  ℕ, zero, suc, ◌+◌, ◌≤◌, ◌<◌, ◌≡◌, ap, ◌∙◌, Option, none, some, Bool, true, false, arith, ◌⊎◌, inl,
  inr, Bool-cases, Option-cases, subst,
}
use canboat_rs.AddressClaim.{first_free, pick_free, addr_max}

-- What a search from `a` on, over `n` addresses, can end with.
abbrev Outcome : ℕ → ℕ → (ℕ → Bool) → Option ℕ → Type 0
Outcome n a used none = (i : ℕ) → a ≤ i → i < a + n → used i ≡ true
Outcome n a used (some x) =
    (a ≤ x) × (x < a + n) × (used x ≡ false) × ((i : ℕ) → a ≤ i → i < x → used i ≡ true)

extend :
    (n a : ℕ) (used : ℕ → Bool) (o : Option ℕ)
    → used a ≡ true
    → Outcome n (suc a) used o
    → Outcome (suc n) a used o
extend n a used none h all =
    λ i lo hi. elim (split i lo) [ inl e ↦ ap used e ∙ h | inr more ↦ all i more (omega arith) ]
  where
    split : (i : ℕ) → a ≤ i → (i ≡ a) ⊎ (suc a ≤ i)
    split i lo = omega arith
extend n a used (some x) h (lo, hi, free, least) = (
  omega arith,
  omega arith,
  free,
  λ i from to. elim (split i from) [ inl e ↦ ap used e ∙ h | inr more ↦ least i more to ],
)
  where
    split : (i : ℕ) → a ≤ i → (i ≡ a) ⊎ (suc a ≤ i)
    split i from = omega arith

first_free_lem : (n a : ℕ) (used : ℕ → Bool) → Outcome n a used (first_free n a used)
unfolding first_free
first_free_lem zero a used = λ i lo hi. absurd (omega arith)
first_free_lem (suc n) a used = elim (Bool-cases (used a)) [
  | inl taken ↦
      rw taken (extend n a used (first_free n (suc a) used) taken (first_free_lem n (suc a) used))
  | inr free ↦ rw free (omega arith, omega arith, free, λ i lo hi. absurd (omega arith))
]

pub pick_free-some :
    (used : ℕ → Bool) (a : ℕ)
    → pick_free used ≡ some a
    → (a ≤ addr_max) × (used a ≡ false) × ((i : ℕ) → i < a → used i ≡ true)
unfolding pick_free
pick_free-some used a e =
    let (lo, hi, free, least) = subst (Outcome 254 0 used) e (first_free_lem 254 0 used) in
    (omega arith, free, λ i h. least i (omega arith) h)

pub pick_free-none :
    (used : ℕ → Bool) → pick_free used ≡ none → (i : ℕ) → i ≤ addr_max → used i ≡ true
unfolding pick_free
pick_free-none used e i h =
    subst (Outcome 254 0 used) e (first_free_lem 254 0 used) i (omega arith) (omega arith)

-- The search returns the lowest free address of 0 to 253, or none, and then all of these are in use.
pub pick_free_cases :
    (used : ℕ → Bool)
    → ((a : ℕ) × (pick_free used ≡ some a)
        × (a ≤ addr_max)
        × (used a ≡ false)
        × ((i : ℕ) → i < a → used i ≡ true))
      ⊎ ((pick_free used ≡ none) × ((i : ℕ) → i ≤ addr_max → used i ≡ true))
pick_free_cases used = elim (Option-cases (pick_free used)) [
  | inl e ↦ inr (e, pick_free-none used e)
  | inr (a, e) ↦ let found = pick_free-some used a e in inl (a, e, found.0, found.1, found.2)
]
