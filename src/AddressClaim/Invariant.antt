-- ===== src/AddressClaim/Invariant.antt =====
-- What holds of a node after every sequence of events: the address that it claims is one that it
-- may have and that is not marked as used.
use canboat_rs.Prelude.{
  ℕ, ◌≤◌, ◌≡◌, refl, List, [], ◌∷◌, Bool, true, false, not, ◌||◌, arith, inl, inr, ltb, leb, ◌==◌,
  if_both, if_cases,
}
use mathlib.Core.Bool.{true≢false}
use canboat_rs.Frame.{RawFrame, addr_null}
use canboat_rs.AddressClaim.{
  AddressClaim, ClaimState, disabled, scanning, pending, claimed, failed, new, addr_max, mark_used,
  claim_at, give_up, yield_address, on_address_claim, claim_free, begin_claim, tick_in, start, step,
  Event, started, claim_heard, ticked, run, is_disabled, is_scanning,
}
use canboat_rs.AddressClaim.PickFree.{pick_free_cases}

-- By the state: an address is claimed only if it may be and is not in use, and after a failure the
-- node has the null address. Only addresses that may be claimed are ever in use.
abbrev pub HasAddress : AddressClaim → Type 0
HasAddress c = (c.address ≤ addr_max) × (c.used c.address ≡ false)

abbrev pub Settled : AddressClaim → ClaimState → Type 0
Settled c pending = HasAddress c
Settled c claimed = HasAddress c
Settled c failed = c.address ≡ addr_null
Settled c scanning = Unit
Settled c disabled = Unit

pub record IsSound (c : AddressClaim) : Type 0 where
  pub settled : Settled c c.state
  pub prefers : c.preferred ≤ addr_max

claim_at-IsSound :
    (c : AddressClaim) (now a : ℕ)
    → c.preferred ≤ addr_max
    → a ≤ addr_max
    → c.used a ≡ false
    → IsSound (claim_at c now a).0
unfolding claim_at
claim_at-IsSound c now a p h free = record { settled = (h, free); prefers = p }

give_up-IsSound : (c : AddressClaim) → c.preferred ≤ addr_max → IsSound (give_up c).0
unfolding give_up
give_up-IsSound c p = record { settled = refl; prefers = p }

claim_free-IsSound :
    (c : AddressClaim) (now : ℕ) → c.preferred ≤ addr_max → IsSound (claim_free c now).0
unfolding claim_free
claim_free-IsSound c now p = elim (pick_free_cases c.used) [
  | inl (a, e, most, free, least) ↦ rw (claim_free, e) (claim_at-IsSound c now a p most free)
  | inr (e, all) ↦ rw (claim_free, e) (give_up-IsSound c p)
]

abbrev After : AddressClaim × List RawFrame → Type 0
After r = IsSound r.0

yield_address-IsSound :
    (c : AddressClaim) (now : ℕ) → c.preferred ≤ addr_max → IsSound (yield_address c now).0
unfolding yield_address
yield_address-IsSound c now p =
    if_both After c.arbitrary (claim_free-IsSound c now p) (give_up-IsSound c p)

begin_claim-IsSound :
    (c : AddressClaim) (now : ℕ) → c.preferred ≤ addr_max → IsSound (begin_claim c now).0
unfolding begin_claim
begin_claim-IsSound c now p =
    if_cases After (c.used c.preferred) (λ _. claim_free-IsSound c now p)
      (λ free. claim_at-IsSound c now c.preferred p p free)

-- Hearing of another address changes nothing about one's own.
other_address :
    (c : AddressClaim) (src : ℕ)
    → not (src == c.address) ≡ true
    → HasAddress c
    → HasAddress (record c { used = mark_used c.used src })
other_address c src other h = (h.0, ground arith)

learned-Settled :
    (c : AddressClaim) (src : ℕ) (s : ClaimState)
    → is_scanning s || not (src == c.address) ≡ true
    → Settled c s
    → Settled (record c { used = mark_used c.used src }) s
learned-Settled c src pending other h = other_address c src other h
learned-Settled c src claimed other h = other_address c src other h
learned-Settled c src failed other h = h
learned-Settled c src scanning other h = h
learned-Settled c src disabled other h = h

-- A node that is contested has the address.
contested-HasAddress :
    (c : AddressClaim) (s : ClaimState) (src : ℕ)
    → Settled c s
    → ltb addr_max src || is_disabled s ≡ false
    → is_scanning s || not (src == c.address) ≡ false
    → HasAddress c
contested-HasAddress c pending src h range same = h
contested-HasAddress c claimed src h range same = h
contested-HasAddress c failed src h range same = absurd (ground arith)
contested-HasAddress c scanning src h range same = absurd (true≢false same)
contested-HasAddress c disabled src h range same = absurd (ground arith)

learned-IsSound :
    (c : AddressClaim) (src : ℕ)
    → IsSound c
    → is_scanning c.state || not (src == c.address) ≡ true
    → IsSound (record c { used = mark_used c.used src })
learned-IsSound c src h other = record {
  settled = learned-Settled c src c.state other h.settled;
  prefers = h.prefers;
}

on_address_claim-IsSound :
    (c : AddressClaim) (now src their_name : ℕ)
    → IsSound c
    → IsSound (on_address_claim c now src their_name).0
unfolding on_address_claim
on_address_claim-IsSound c now src their_name h =
    if_cases After (ltb addr_max src || is_disabled c.state) (λ _. h)
      (λ range. if_both After (their_name == c.name) h (
        if_cases After (is_scanning c.state || not (src == c.address)) (learned-IsSound c src h)
          (λ same.
            let has = contested-HasAddress c c.state src h.settled range same in
            if_both After (ltb c.name their_name)
              (claim_at-IsSound c now c.address h.prefers has.0 has.1)
              (yield_address-IsSound (record c { used = mark_used c.used src }) now h.prefers))))

tick_in-IsSound :
    (c : AddressClaim) (now : ℕ) (s : ClaimState)
    → Settled c s
    → IsSound c
    → IsSound (tick_in s c now).0
unfolding tick_in
tick_in-IsSound c now scanning own h =
    if_both After (leb c.deadline now) (begin_claim-IsSound c now h.prefers) h
tick_in-IsSound c now pending own h =
    if_both After (leb c.deadline now) (record { settled = own; prefers = h.prefers }) h
tick_in-IsSound c now disabled own h = h
tick_in-IsSound c now claimed own h = h
tick_in-IsSound c now failed own h = h

start-IsSound : (c : AddressClaim) (now : ℕ) → IsSound c → IsSound (start c now).0
unfolding start
start-IsSound c now h =
    if_both After (is_disabled c.state) h (record { settled = tt; prefers = h.prefers })

pub step-IsSound : (c : AddressClaim) (e : Event) → IsSound c → IsSound (step c e).0
unfolding step
step-IsSound c (started now) h = start-IsSound c now h
step-IsSound c (claim_heard now src name) h = on_address_claim-IsSound c now src name h
step-IsSound c (ticked now) h = tick_in-IsSound c now c.state h.settled h

run-IsSound_from : (c : AddressClaim) (es : List Event) → IsSound c → IsSound (run c es).0
unfolding run
run-IsSound_from c [] h = h
run-IsSound_from c (e ∷ es) h = run-IsSound_from (step c e).0 es (step-IsSound c e h)

-- After every sequence of events on a node that prefers an address of 0 to 253: while it claims an
-- address and once it owns it, that address is one of 0 to 253 that is not marked as used by
-- another node; after a failure its address is the null address.
pub run-IsSound :
    (name preferred : ℕ) (arbitrary : Bool) (es : List Event)
    → preferred ≤ addr_max
    → IsSound (run (new name preferred arbitrary) es).0
run-IsSound name preferred arbitrary es h =
    run-IsSound_from (new name preferred arbitrary) es (record { settled = (h, refl); prefers = h })
