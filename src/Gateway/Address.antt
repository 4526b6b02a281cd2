-- ===== src/Gateway/Address.antt =====
-- The address of the gateway, as the worker publishes it.
use canboat_rs.Prelude.{
  ℕ, ◌≤◌, ◌≡◌, ◌⊎◌, refl, sym, subst, inl, inr, List, true, false, arith, if_both,
}
use canboat_rs.AddressClaim.{
  AddressClaim, ClaimState, disabled, scanning, pending, claimed, failed, addr_max, is_claimed,
  owned_address,
}
use canboat_rs.AddressClaim.Invariant.{IsSound, Settled, step-IsSound}
use canboat_rs.SocketCan.{CanApi}
use canboat_rs.Gateway.{NmeaDevice, Host, Config}
use canboat_rs.Gateway
use canboat_rs.Gateway.Worker.{Node, Event, run, live_address, claim_unclaimed}
use canboat_rs.Gateway.Kept.{IsKept}
use canboat_rs.Gateway.Invariant.{run-kept}

abbrev HasSoundClaim : NmeaDevice → Type 0
HasSoundClaim d = IsSound d.claim

-- No handler touches the claim but through its state machine.
HasSoundClaim-IsKept : IsKept HasSoundClaim
HasSoundClaim-IsKept = record {
  product = λ d t h. h;
  beat = λ d h. h;
  off = λ d h. h;
  every = λ d i t low high h. h;
  timer = λ d t h. h;
  status = λ d t h. h;
  seen = λ d f h. h;
  sample = λ d x h. h;
}

-- What other threads may rely on.
abbrev pub IsLive : NmeaDevice → Type 0
IsLive d =
    ((is_claimed d.claim ≡ false) × (live_address d ≡ claim_unclaimed))
    ⊎ ((is_claimed d.claim ≡ true)
        × (live_address d ≤ addr_max)
        × (d.claim.used (live_address d) ≡ false))

Settled-claimed :
    (c : AddressClaim) (s : ClaimState)
    → c.state ≡ s
    → Settled c s
    → (is_claimed c ≡ false)
      ⊎ ((is_claimed c ≡ true) × (c.address ≤ addr_max) × (c.used c.address ≡ false))
Settled-claimed c disabled e h = inl (rw e refl)
Settled-claimed c scanning e h = inl (rw e refl)
Settled-claimed c pending e h = inl (rw e refl)
Settled-claimed c failed e h = inl (rw e refl)
Settled-claimed c claimed e h = inr (rw e refl, h.0, h.1)

IsSound-IsLive : (d : NmeaDevice) → HasSoundClaim d → IsLive d
unfolding live_address owned_address
IsSound-IsLive d h = elim (Settled-claimed d.claim d.claim.state refl h.settled) [
  | inl unowned ↦ inl (unowned, rw (live_address, owned_address, unowned) refl)
  | inr (owned, low, free) ↦ inr (
    owned,
    rw (live_address, owned_address, owned) low,
    rw (live_address, owned_address, owned) free,
  )
]

-- Whatever a gateway that prefers an address of 0 to 253 meets after it was set up: the address that
-- it publishes is 254 while it owns none, and else one of 0 to 253 that the state machine of its
-- claim has not marked as used.
pub run-IsLive :
    (can : CanApi) (host : Host) (config : Config) (now bitrate : ℕ) (n : Node can)
    (es : List Event)
    → config.address ≤ addr_max
    → n.device ≡ Gateway.new host config now bitrate
    → IsLive (run can host n es).device
unfolding Gateway.new
run-IsLive can host config now bitrate n es range e = IsSound-IsLive (run can host n es).device (
    run-kept can HasSoundClaim HasSoundClaim-IsKept (λ d c h. step-IsSound d.claim c h) host n es
      (subst HasSoundClaim (sym e) (
        if_both IsSound config.no_claim (record { settled = tt; prefers = omega arith })
          (record { settled = (range, refl); prefers = range }))))
