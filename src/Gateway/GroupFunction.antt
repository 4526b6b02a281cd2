-- ===== src/Gateway/GroupFunction.antt =====
-- Group function requests (PGN 126208) to the gateway, on every branch.
use canboat_rs.Prelude.{
  ℕ, ◌+◌, ◌*◌, ◌^◌, ◌≤◌, ◌<◌, ◌≡◌, ◌⊎◌, refl, sym, List, [], ◌∷◌, ◌++◌, true, false, ◌&&◌, arith,
  ltb, leb, ◌==◌, if_cases, length, u64, none, le→ltb-false,
}
use canboat_rs.Frame.{le_bytes}
use canboat_rs.Frame
use canboat_rs.AddressClaim.{is_claimed}
use canboat_rs.Responder.{pgn_heartbeat}
use canboat_rs.Gateway.{NmeaDevice, Effect, sent, addr, pgn_at, from_le_bytes, pgn_group_function}
use canboat_rs.Gateway.Requests.{
  apply_interval, set_interval, handle_group_function, ack_group_function, tx_interval_no_change,
  tx_interval_restore_default,
}

-- What a request for an interval does, with the error that it is answered with.
pub data Applies (d : NmeaDevice) (now : ℕ) : ℕ → NmeaDevice → ℕ → Type 0 where
  unchanged : Applies d now 0xffff_ffff d 0
  restored :
      Applies d now 0xffff_fffe
        (record d { heartbeat_interval = 60000; next_heartbeat = u64 (now + 60000) })
        0
  stopped : Applies d now 0 (record d { heartbeat_interval = 0 }) 0
  changed :
      (i : ℕ)
      → 1000 ≤ i
      → i ≤ 60000
      → Applies d now i (record d { heartbeat_interval = i; next_heartbeat = u64 (now + i) }) 0
  refused : (i : ℕ) → (0 < i) × (i < 1000) ⊎ (60000 < i) × (i < 0xffff_fffe) → Applies d now i d 2

apply_interval-Applies :
    (d : NmeaDevice) (now i : ℕ)
    → i < 2 ^ 32
    → Applies d now i (apply_interval d now i).0 (apply_interval d now i).1
unfolding apply_interval set_interval
apply_interval-Applies d now i h =
    let Q = λ (r : NmeaDevice × ℕ). Applies d now i r.0 r.1 in
    if_cases Q (i == tx_interval_no_change)
      (λ e. let same : i ≡ 0xffff_ffff = ground arith in rw same unchanged)
      (λ a.
        if_cases Q (i == tx_interval_restore_default)
          (λ e. let same : i ≡ 0xffff_fffe = ground arith in rw same restored)
          (λ b.
            if_cases Q (i == 0) (λ e. let same : i ≡ 0 = ground arith in rw same stopped)
              (λ c.
                if_cases Q (leb 1000 i && leb i 60000)
                  (λ e. changed i (ground arith) (ground arith)) (λ e. refused i (ground arith)))))

-- The acknowledgement, which names the heartbeat and carries the error in its upper four bits.
abbrev pub ack : NmeaDevice → ℕ → ℕ → List Effect
ack d dst err =
    sent (
      Frame.new none 6 pgn_group_function (addr d) dst (2 ∷ 0x11 ∷ 0xf0 ∷ 0x01 ∷ err * 16 ∷ 0 ∷ []))
    ∷ []

Applies-ack :
    (d : NmeaDevice) (now i : ℕ) (e : NmeaDevice) (err src : ℕ)
    → Applies d now i e err
    → ack_group_function e src pgn_heartbeat 0 err ≡ ack e src err
unfolding ack_group_function
Applies-ack d now i e err src unchanged = refl
Applies-ack d now i e err src restored = refl
Applies-ack d now i e err src stopped = refl
Applies-ack d now i e err src (changed j low high) = refl
Applies-ack d now i e err src (refused j out) = refl

from_le_bytes-le_bytes : (i : ℕ) → i < 2 ^ 32 → from_le_bytes (le_bytes 4 i) ≡ i
unfolding from_le_bytes
from_le_bytes-le_bytes i h = omega arith

-- A request to a node that owns an address for its heartbeat, at any interval: the interval and the
-- timer change as `Applies` says, the rest of the device stays as it is, and the one answer is an
-- acknowledgement with error 2 if the interval is refused and with none otherwise.
pub handle_group_function-Applies :
    (d : NmeaDevice) (now src i : ℕ) (rest : List ℕ)
    → is_claimed d.claim ≡ true
    → i < 2 ^ 32
    → (e : NmeaDevice) × (err : ℕ) × Applies d now i e err
      × (handle_group_function d now src (0 ∷ 0x11 ∷ 0xf0 ∷ 0x01 ∷ (le_bytes 4 i ++ rest))
          ≡ (e, ack e src err))
unfolding handle_group_function pgn_at
handle_group_function-Applies d now src i rest owned h =
    let value = from_le_bytes-le_bytes i h in
    let r = apply_interval d now i in
    let applies = apply_interval-Applies d now i h in
    let long : ltb (length (0 ∷ 0x11 ∷ 0xf0 ∷ 0x01 ∷ (le_bytes 4 i ++ rest))) 8 ≡ false =
      le→ltb-false 8 _ (omega arith) in
    (r.0, r.1, applies, rw (long, owned, value, sym (Applies-ack d now i r.0 r.1 src applies)) refl)
