-- ===== src/Gateway/Speech.antt =====
-- What the gateway says on the bus of its own accord, and under which address.
use canboat_rs.Prelude.{
  ℕ, ◌≡◌, ◌⊎◌, refl, inl, inr, Option-cases, List, [], ◌∷◌, ◌++◌, true, ◌||◌, ltb, leb, ◌==◌,
  if_both,
}
use canboat_rs.Frame.{RawFrame}
use canboat_rs.AddressClaim.{
  AddressClaim, ClaimState, disabled, scanning, pending, claimed, failed, pgn_iso_request,
  pgn_iso_address_claim, is_claimed, is_disabled, is_scanning, owned_address,
  respond_to_claim_request, claim_at, give_up, claim_free, yield_address, on_address_claim,
  begin_claim, tick_in, pick_free,
}
use canboat_rs.AddressClaim
use canboat_rs.Gateway.{Effect, sent, commanded, shown, emit}
use canboat_rs.Gateway.Requests.{option_list}

-- A frame of the address-claim protocol.
abbrev IsClaiming : RawFrame → Type 0
IsClaiming f = (f.pgn ≡ pgn_iso_request) ⊎ (f.pgn ≡ pgn_iso_address_claim)

abbrev AreClaiming : List RawFrame → Type 0
AreClaiming [] = Unit
AreClaiming (f ∷ fs) = IsClaiming f × AreClaiming fs

-- All else comes from the address that the node owns. What the user sends and what only the consumer
-- sees is not the node's own.
abbrev pub Speaks : AddressClaim → Effect → Type 0
Speaks c (sent f) =
    (f.pgn ≡ pgn_iso_request)
    ⊎ (f.pgn ≡ pgn_iso_address_claim)
    ⊎ ((is_claimed c ≡ true) × (f.src ≡ c.address))
Speaks c (commanded f) = Unit
Speaks c (shown f) = Unit

abbrev pub AllSpeak : AddressClaim → List Effect → Type 0
AllSpeak c [] = Unit
AllSpeak c (e ∷ es) = Speaks c e × AllSpeak c es

pub AllSpeak-append :
    (c : AddressClaim) (xs ys : List Effect) → AllSpeak c xs → AllSpeak c ys → AllSpeak c (xs ++ ys)
AllSpeak-append c [] ys h k = k
AllSpeak-append c (x ∷ xs) ys h k = (h.0, AllSpeak-append c xs ys h.1 k)

pub AreClaiming-AllSpeak :
    (c : AddressClaim) (fs : List RawFrame) → AreClaiming fs → AllSpeak c (emit fs)
AreClaiming-AllSpeak c [] h = tt
AreClaiming-AllSpeak c (f ∷ fs) (inl e, k) = (inl e, AreClaiming-AllSpeak c fs k)
AreClaiming-AllSpeak c (f ∷ fs) (inr e, k) = (inr (inl e), AreClaiming-AllSpeak c fs k)

-- The claim state machine sends nothing but requests and claims.
abbrev pub Claims : AddressClaim × List RawFrame → Type 0
Claims r = AreClaiming r.1

claim_at-Claims : (c : AddressClaim) (now a : ℕ) → Claims (claim_at c now a)
unfolding claim_at
claim_at-Claims c now a = (inr refl, tt)

give_up-Claims : (c : AddressClaim) → Claims (give_up c)
unfolding give_up
give_up-Claims c = (inr refl, tt)

claim_free-Claims : (c : AddressClaim) (now : ℕ) → Claims (claim_free c now)
unfolding claim_free
claim_free-Claims c now = elim (Option-cases (pick_free c.used)) [
  | inl e ↦ rw (claim_free, e) (give_up-Claims c)
  | inr (a, e) ↦ rw (claim_free, e) (claim_at-Claims c now a)
]

pub on_address_claim-Claims :
    (c : AddressClaim) (now src name : ℕ) → Claims (on_address_claim c now src name)
unfolding on_address_claim yield_address
on_address_claim-Claims c now src name = if_both Claims (ltb _ src || is_disabled c.state) tt (
    if_both Claims (name == c.name) tt (
      if_both Claims (is_scanning c.state || _) tt (
        if_both Claims (ltb c.name name) (claim_at-Claims c now c.address)
          (if_both Claims c.arbitrary (claim_free-Claims _ now) (give_up-Claims _)))))

pub tick_in-Claims : (s : ClaimState) (c : AddressClaim) (now : ℕ) → Claims (tick_in s c now)
unfolding tick_in begin_claim
tick_in-Claims scanning c now =
    if_both Claims (leb c.deadline now)
      (if_both Claims (c.used c.preferred) (claim_free-Claims c now)
        (claim_at-Claims c now c.preferred))
      tt
tick_in-Claims pending c now = if_both Claims (leb c.deadline now) tt tt
tick_in-Claims disabled c now = tt
tick_in-Claims claimed c now = tt
tick_in-Claims failed c now = tt

pub start-Claims : (c : AddressClaim) (now : ℕ) → Claims (AddressClaim.start c now)
unfolding AddressClaim.start
start-Claims c now = if_both Claims (is_disabled c.state) tt (inl refl, tt)

pub respond-Claims :
    (s : ClaimState) (c : AddressClaim)
    → AreClaiming (option_list (respond_to_claim_request (record c { state = s })))
unfolding option_list respond_to_claim_request
respond-Claims claimed c = (inr refl, tt)
respond-Claims pending c = (inr refl, tt)
respond-Claims scanning c = tt
respond-Claims disabled c = tt
respond-Claims failed c = tt
