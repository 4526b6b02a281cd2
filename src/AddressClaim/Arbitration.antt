-- ===== src/AddressClaim/Arbitration.antt =====
-- Two nodes on one address: the lower NAME keeps it and the other one leaves.
use canboat_rs.Prelude.{
  ℕ, ◌+◌, ◌≤◌, ◌<◌, ◌≡◌, ◌≢◌, refl, ap, sym, List, [], ◌∷◌, Bool, false, not, ◌||◌, arith, ◌⊎◌, inl,
  inr, if◌then◌else◌, ltb, ◌==◌, u64, if_both, lt→ltb, le→ltb-false, ne→==,
}
use canboat_rs.Frame.{RawFrame, addr_null}
use canboat_rs.AddressClaim.{
  AddressClaim, ClaimState, pending, claimed, failed, addr_max, mark_used, claim_at, claim_free,
  give_up, yield_address, on_address_claim, claim_frame, is_disabled, is_scanning,
}
use canboat_rs.AddressClaim.PickFree.{pick_free_cases}

-- The states in which a node sends its claim.
abbrev pub IsClaiming : AddressClaim → Type 0
IsClaiming c = (c.state ≡ pending) ⊎ (c.state ≡ claimed)

-- The node has left the address: it claims another one that it has not marked as used, or it has
-- given up and has the null address.
abbrev pub HasLeft : AddressClaim → ℕ → AddressClaim → Type 0
HasLeft before a after =
    ((after.state ≡ pending)
      × (after.address ≤ addr_max)
      × (after.address ≢ a)
      × (before.used after.address ≡ false))
    ⊎ ((after.state ≡ failed) × (after.address ≡ addr_null))

-- What a node that claims the address `src` does with a claim of that address.
contested :
    (c : AddressClaim) (now src their_name : ℕ)
    → IsClaiming c
    → src ≡ c.address
    → c.address ≤ addr_max
    → their_name ≢ c.name
    → on_address_claim c now src their_name ≡ (
        if ltb c.name their_name
        then claim_at c now c.address
        else yield_address (record c { used = mark_used c.used src }) now)
unfolding on_address_claim
contested c now src their_name h same range ne =
    let quiet = not_quiet c.state h in
    let a : ltb addr_max src || is_disabled c.state ≡ false = ground (arith, quiet.0) in
    let b : their_name == c.name ≡ false = ne→== their_name c.name ne in
    let d : is_scanning c.state || not (src == c.address) ≡ false = ground (arith, quiet.1) in
    rw (a, b, d) refl
  where
    not_quiet :
        (s : ClaimState)
        → (s ≡ pending) ⊎ (s ≡ claimed)
        → (is_disabled s ≡ false) × (is_scanning s ≡ false)
    not_quiet s (inl e) = (ap is_disabled e, ap is_scanning e)
    not_quiet s (inr e) = (ap is_disabled e, ap is_scanning e)

-- With the claim that says so.
abbrev pub Leaves : AddressClaim → ℕ → AddressClaim × List RawFrame → Type 0
Leaves before a r = HasLeft before a r.0 × (r.1 ≡ claim_frame r.0 ∷ [])

give_up-Leaves : (before c : AddressClaim) (a : ℕ) → Leaves before a (give_up c)
unfolding give_up
give_up-Leaves before c a = (inr (refl, refl), refl)

-- An address that is free once `a` is marked is another one, and was free before.
free-unmarked :
    (used : ℕ → Bool) (a x : ℕ) → mark_used used a x ≡ false → (x ≢ a) × (used x ≡ false)
free-unmarked used a x free = ground arith

claim_free-Leaves :
    (c : AddressClaim) (now a : ℕ)
    → Leaves c a (claim_free (record c { used = mark_used c.used a }) now)
unfolding claim_free claim_at
claim_free-Leaves c now a = elim (pick_free_cases (mark_used c.used a)) [
  | inl (x, e, most, free, least) ↦
      let was = free-unmarked c.used a x free in
      rw (claim_free, e) (inl (refl, most, was.0, was.1), refl)
  | inr (e, all) ↦ rw (claim_free, e) (give_up-Leaves c (record c { used = mark_used c.used a }) a)
]

yield_address-Leaves :
    (c : AddressClaim) (now a : ℕ)
    → Leaves c a (yield_address (record c { used = mark_used c.used a }) now)
unfolding yield_address
yield_address-Leaves c now a =
    if_both (Leaves c a) c.arbitrary (claim_free-Leaves c now a)
      (give_up-Leaves c (record c { used = mark_used c.used a }) a)

-- Two nodes that claim or own the same address, and hear each other's claim of it, at whatever
-- times: the one with the lower NAME keeps the address and answers with its claim, as a claim that
-- can be contested again; the other one leaves it and says so, with a claim of an address that it
-- has not marked as used, or from the null address.
pub on_address_claim-contested :
    (a b : AddressClaim) (t u : ℕ)
    → IsClaiming a
    → IsClaiming b
    → a.address ≡ b.address
    → a.address ≤ addr_max
    → a.name < b.name
    → (on_address_claim a t b.address b.name
        ≡ (record a { state = pending; deadline = u64 (t + 250) }, claim_frame a ∷ []))
      × Leaves b a.address (on_address_claim b u a.address a.name)
unfolding claim_at
on_address_claim-contested a b t u ha hb same range lower = (
  rw
      (
        contested a t b.address b.name ha (sym same) range (λ e. absurd (omega arith)),
        lt→ltb a.name b.name lower,
      )
      refl,
  rw
      (
        contested b u a.address a.name hb same (omega arith) (λ e. absurd (omega arith)),
        le→ltb-false a.name b.name (omega arith),
      )
      (yield_address-Leaves b u a.address),
)
