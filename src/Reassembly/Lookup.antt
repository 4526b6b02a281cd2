-- ===== src/Reassembly/Lookup.antt =====
-- The slot table: which slot a search finds, and which slot a new message gets.
use canboat_rs.Prelude.{
  ℕ, zero, suc, ◌+◌, ◌<◌, ◌≡◌, refl, inl, inr, List, [], ◌∷◌, Bool, true, arith, none, some, length,
  get_or, set, Bool-cases, Option-cases,
}
use canboat_rs.Reassembly.{Slot, Reassembler}
use canboat_rs.Reassembly.Slots.{position, least_from, min_by_key, slot_to_claim, is_free}

module _ {ℓ} {A : Type ℓ} (p : A → Bool) where
  pub position-lt : (xs : List A) (i : ℕ) → position p xs ≡ some i → i < length xs
  unfolding position
  position-lt [] i h = cc
  position-lt (x ∷ xs) i h = elim (Option-cases (position p xs)) [
    | inl e ↦ ground (arith, e)
    | inr (j, e) ↦ ground (arith, e, position-lt xs j e)
  ]

  pub position-holds :
      (xs : List A) (i : ℕ) (d : A) → position p xs ≡ some i → p (get_or xs i d) ≡ true
  unfolding position
  position-holds [] i d h = cc
  position-holds (x ∷ xs) zero d h = elim (Bool-cases (p x)) [
    | inl e ↦ e
    | inr e ↦ ground (arith, e)
  ]
  position-holds (x ∷ xs) (suc i) d h = position-holds xs i d (ground arith)

  pub position-set :
      (xs : List A) (i : ℕ) (v : A)
      → position p xs ≡ some i
      → p v ≡ true
      → position p (set xs i v) ≡ some i
  unfolding position
  position-set [] i v h hv = cc
  position-set (x ∷ xs) zero v h hv = rw hv refl
  position-set (x ∷ xs) (suc i) v h hv = elim (Bool-cases (p x)) [
    | inl e ↦ ground (arith, e)
    | inr e ↦ rw (e, position-set xs i v (ground (arith, e)) hv) refl
  ]

  pub position-set_new :
      (xs : List A) (i : ℕ) (v : A)
      → position p xs ≡ none
      → i < length xs
      → p v ≡ true
      → position p (set xs i v) ≡ some i
  unfolding position
  position-set_new [] i v h hi hv = elim hi [ ]
  position-set_new (x ∷ xs) zero v h hi hv = rw hv refl
  position-set_new (x ∷ xs) (suc i) v h hi hv = elim (Bool-cases (p x)) [
    | inl e ↦ ground (arith, e)
    | inr e ↦ rw (e, position-set_new xs i v (ground (arith, e)) (omega arith) hv) refl
  ]

module _ {ℓ} {A : Type ℓ} (key : A → ℕ) where
  least_from-lt :
      (best k i : ℕ) (xs : List A) → best < i → least_from key best k i xs < i + length xs
  unfolding least_from
  least_from-lt best k i [] h = omega arith
  least_from-lt best k i (x ∷ xs) h =
      ground (arith, least_from-lt i (key x) (suc i) xs, least_from-lt best k (suc i) xs)

  pub min_by_key-lt :
      (xs : List A) → 0 < length xs → (i : ℕ) × (min_by_key key xs ≡ some i) × (i < length xs)
  unfolding min_by_key
  min_by_key-lt [] h = elim h [ ]
  min_by_key-lt (x ∷ xs) h = (
    least_from key 0 (key x) 1 xs,
    refl,
    omega (arith, least_from-lt 0 (key x) 1 xs (omega arith)),
  )

-- A table with slots always has one to give.
pub slot_to_claim-lt :
    (r : Reassembler)
    → 0 < length r.slots
    → (i : ℕ) × (slot_to_claim r ≡ some i) × (i < length r.slots)
unfolding slot_to_claim
slot_to_claim-lt r h = elim (Option-cases (position is_free r.slots)) [
  | inl e ↦
      let found = min_by_key-lt (λ (s : Slot). s.age) r.slots h in
      (found.0, rw (e, slot_to_claim) found.1, found.2)
  | inr (i, e) ↦ (i, rw (e, slot_to_claim) refl, position-lt is_free r.slots i e)
]
