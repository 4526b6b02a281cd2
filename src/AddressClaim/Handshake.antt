-- ===== src/AddressClaim/Handshake.antt =====
-- The handshake without a contest: a scan, a claim, an address.
use canboat_rs.Prelude.{
  ℕ, ◌+◌, ◌^◌, ◌≤◌, ◌<◌, ◌≡◌, ◌≢◌, refl, ap, ◌∙◌, sym, List, [], ◌∷◌, ◌++◌, map, Option, none, some,
  Bool, true, false, not, ◌||◌, arith, ◌⊎◌, inl, inr, ltb, leb, ◌==◌, u64, if_cases, le→leb, ne→==,
  subst,
}
use mathlib.Core.Bool.{true≢false}
use canboat_rs.Frame.{RawFrame}
use canboat_rs.AddressClaim.{
  AddressClaim, scanning, new, addr_max, mark_used, claim_at, claim_free, give_up, begin_claim,
  tick_in, start, step, on_address_claim, Event, started, claim_heard, ticked, run, owned_address,
  is_disabled, is_scanning,
}
use canboat_rs.AddressClaim.PickFree.{pick_free_cases}

-- A claim of another node: when it comes, from which address, and its NAME.
pub record Heard : Type 0 where
  pub time : ℕ
  pub src : ℕ
  pub name : ℕ

abbrev pub event_of : Heard → Event
event_of h = claim_heard h.time h.src h.name

-- Some claim came from this address.
abbrev pub is_taken : List Heard → ℕ → Bool
is_taken [] a = false
is_taken (h ∷ hs) a = a == h.src || is_taken hs a

abbrev pub AreForeign : ℕ → List Heard → Type 0
AreForeign name [] = Unit
AreForeign name (h ∷ hs) = (h.src ≤ addr_max) × (h.name ≢ name) × AreForeign name hs

abbrev marks : (ℕ → Bool) → List Heard → ℕ → Bool
marks used [] = used
marks used (h ∷ hs) = marks (mark_used used h.src) hs

marks_lem : (used : ℕ → Bool) (hs : List Heard) (a : ℕ) → marks used hs a ≡ used a || is_taken hs a
marks_lem used [] a = ground arith
marks_lem used (h ∷ hs) a = marks_lem (mark_used used h.src) hs a ∙ ground arith

-- While scanning, a node only learns.
on_address_claim-scanning :
    (c : AddressClaim) (t src name : ℕ)
    → c.state ≡ scanning
    → src ≤ addr_max
    → name ≢ c.name
    → on_address_claim c t src name ≡ (record c { used = mark_used c.used src }, [])
unfolding on_address_claim
on_address_claim-scanning c t src name e range ne =
    let scan : is_scanning c.state ≡ true = ap is_scanning e in
    let on : is_disabled c.state ≡ false = ap is_disabled e in
    let a : ltb addr_max src || is_disabled c.state ≡ false = ground arith in
    let b : name == c.name ≡ false = ne→== name c.name ne in
    let d : is_scanning c.state || not (src == c.address) ≡ true = ground arith in rw (a, b, d) refl

run-scanning :
    (c : AddressClaim) (hs : List Heard) (rest : List Event)
    → c.state ≡ scanning
    → AreForeign c.name hs
    → (run c (map event_of hs ++ rest)).0 ≡ (run (record c { used = marks c.used hs }) rest).0
unfolding run step
run-scanning c [] rest e foreign = refl
run-scanning c (h ∷ hs) rest e (range, ne, foreign) =
    ap (λ (r : AddressClaim × List RawFrame). (run r.0 (map event_of hs ++ rest)).0)
      (on_address_claim-scanning c h.time h.src h.name e range ne)
    ∙ run-scanning (record c { used = mark_used c.used h.src }) hs rest e foreign

-- The address that a node ends up with, given the claims that it heard: its preferred one if nobody
-- claimed it, else the lowest that nobody claimed, and none only if all 254 were claimed.
abbrev pub IsChoice : List Heard → ℕ → Option ℕ → Type 0
IsChoice hs preferred o =
    ((a : ℕ) × (o ≡ some a)
      × (a ≤ addr_max)
      × (is_taken hs a ≡ false)
      × (is_taken hs preferred ≡ false → a ≡ preferred)
      × (is_taken hs preferred ≡ true → (i : ℕ) → i < a → is_taken hs i ≡ true))
    ⊎ ((o ≡ none) × ((i : ℕ) → i ≤ addr_max → is_taken hs i ≡ true))

-- A claim that nobody contests is owned when its time is over.
claim_at-owned :
    (c : AddressClaim) (t u a : ℕ)
    → t + 250 ≤ u
    → t + 250 < 2 ^ 64
    → owned_address (run (claim_at c t a).0 (ticked u ∷ [])).0 ≡ some a
unfolding claim_at run step tick_in owned_address
claim_at-owned c t u a late fits =
    let time : u64 (t + 250) ≡ t + 250 = omega arith in
    let due : leb (t + 250) u ≡ true = le→leb (t + 250) u late in rw (time, due) refl

give_up-owned :
    (c : AddressClaim) (u : ℕ) → owned_address (run (give_up c).0 (ticked u ∷ [])).0 ≡ none
unfolding give_up run step tick_in owned_address
give_up-owned c u = refl

module _ (hs : List Heard) (c : AddressClaim) (t u : ℕ) (late : t + 250 ≤ u)
    (fits : t + 250 < 2 ^ 64) where
  abbrev Knows : Type 0
  Knows = (a : ℕ) → c.used a ≡ is_taken hs a

  abbrev Ends : AddressClaim × List RawFrame → Type 0
  Ends r = IsChoice hs c.preferred (owned_address (run r.0 (ticked u ∷ [])).0)

  claim_free-Ends : Knows → is_taken hs c.preferred ≡ true → Ends (claim_free c t)
  unfolding claim_free
  claim_free-Ends knows taken = elim (pick_free_cases c.used) [
    | inl (a, e, most, free, least) ↦
        rw (claim_free, e)
          (inl (
            a,
            claim_at-owned c t u a late fits,
            most,
            sym (knows a) ∙ free,
            λ untaken. absurd (true≢false (sym taken ∙ untaken)),
            λ _ i h. sym (knows i) ∙ least i h,
          ))
    | inr (e, all) ↦ rw (claim_free, e) (inr (give_up-owned c u, λ i h. sym (knows i) ∙ all i h))
  ]

  begin_claim-Ends : Knows → c.preferred ≤ addr_max → Ends (begin_claim c t)
  unfolding begin_claim
  begin_claim-Ends knows range =
      if_cases Ends (c.used c.preferred)
        (λ taken. claim_free-Ends knows (sym (knows c.preferred) ∙ taken))
        (λ free.
          let untaken = sym (knows c.preferred) ∙ free in
          inl (
            c.preferred,
            claim_at-owned c t u c.preferred late fits,
            range,
            untaken,
            λ _. refl,
            λ taken. absurd (true≢false (sym taken ∙ untaken)),
          ))

-- A node that starts at the time `s`, hears claims of others, is given the time 1000 ms or more
-- later and again 250 ms or more after that, and is not contested, owns an address that nobody
-- claimed: the preferred one if nobody claimed it, else the lowest that nobody claimed. It owns none
-- only if others claimed all of 0 to 253.
pub run-IsChoice :
    (name preferred : ℕ) (arbitrary : Bool) (hs : List Heard) (s t u : ℕ)
    → preferred ≤ addr_max
    → AreForeign name hs
    → s + 1000 ≤ t
    → t + 250 ≤ u
    → u < 2 ^ 64
    → IsChoice hs preferred (
        owned_address
          (run
            (new name preferred arbitrary)
            (started s ∷ (map event_of hs ++ ticked t ∷ ticked u ∷ []))).0)
unfolding run step start tick_in
run-IsChoice name preferred arbitrary hs s t u range foreign first second fits =
    let c : AddressClaim = record (new name preferred arbitrary) {
      state = scanning;
      deadline = u64 (s + 1000);
    } in
    let d : AddressClaim = record c { used = marks c.used hs } in
    let time : u64 (s + 1000) ≡ s + 1000 = omega arith in
    let due : leb (u64 (s + 1000)) t ≡ true = rw time (le→leb (s + 1000) t first) in
    let all = run-scanning c hs (ticked t ∷ ticked u ∷ []) refl foreign in
    let knows = λ (a : ℕ). marks_lem (λ _. false) hs a in
    let ends : IsChoice hs preferred (owned_address (run d (ticked t ∷ ticked u ∷ [])).0) =
      rw due (begin_claim-Ends hs d t u second (omega arith) knows range) in
    subst (λ (r : AddressClaim). IsChoice hs preferred (owned_address r)) (sym all) ends
