-- ===== src/Gateway/Load.antt =====
-- The load percentage that the gateway reports.
use canboat_rs.Prelude.{
  ℕ, ◌+◌, ◌-◌, ◌*◌, ◌/◌, ◌^◌, ◌≤◌, ◌<◌, ◌≡◌, ◌⊎◌, refl, ◌∙◌, none, some, true, false, ◌||◌, arith,
  ◌==◌, min,
}
use native.Mathlib.Nat.{le-div_iff_mul-le}
use canboat_rs.Gateway.{LoadSample}
use canboat_rs.Gateway.Status.{compute_load_pct, bits_between, saturate}

-- Counters as they are read: numbers of 32 bits.
pub record IsU32 (s : LoadSample) : Type 0 where
  pub rx_bytes : s.rx_bytes < 2 ^ 32
  pub tx_bytes : s.tx_bytes < 2 ^ 32
  pub rx_packets : s.rx_packets < 2 ^ 32
  pub tx_packets : s.tx_packets < 2 ^ 32

-- No counter went back.
pub record IsAfter (p c : LoadSample) : Type 0 where
  pub rx_bytes : p.rx_bytes ≤ c.rx_bytes
  pub tx_bytes : p.tx_bytes ≤ c.tx_bytes
  pub rx_packets : p.rx_packets ≤ c.rx_packets
  pub tx_packets : p.tx_packets ≤ c.tx_packets

-- The bits on the wire, with no bound on the numbers.
abbrev pub wire_bits : LoadSample → LoadSample → ℕ
wire_bits p c =
    let bytes = (c.rx_bytes - p.rx_bytes) + (c.tx_bytes - p.tx_bytes) in
    let packets = (c.rx_packets - p.rx_packets) + (c.tx_packets - p.tx_packets) in
    (bytes * 8 + packets * 67) * 120 / 100

bits_between_exact : (p c : LoadSample) → IsU32 c → IsAfter p c → bits_between p c ≡ wire_bits p c
unfolding bits_between
bits_between_exact p c u a =
    let h1 = u.rx_bytes in
    let h2 = u.tx_bytes in
    let h3 = u.rx_packets in
    let h4 = u.tx_packets in
    let k1 = a.rx_bytes in
    let k2 = a.tx_bytes in let k3 = a.rx_packets in let k4 = a.tx_packets in omega arith

product_positive : (a b : ℕ) → 0 < a → 0 < b → 0 < a * b
product_positive a b h k = grind arith

-- None is reported only for samples at the same time, or the later first, or with no bitrate, and
-- then for all of these.
compute_load_pct-none :
    (p c : LoadSample) (bitrate : ℕ)
    → (c.at_ms ≤ p.at_ms) ⊎ (bitrate ≡ 0)
    → compute_load_pct p c bitrate ≡ none
unfolding compute_load_pct
compute_load_pct-none p c bitrate h =
    let b : c.at_ms - p.at_ms == 0 || bitrate == 0 ≡ true = ground arith in rw b refl

compute_load_pct-some :
    (p c : LoadSample) (bitrate : ℕ)
    → p.at_ms < c.at_ms
    → 0 < bitrate
    → compute_load_pct p c bitrate
      ≡ some (
          min (saturate (bits_between p c * 100000) / saturate (bitrate * (c.at_ms - p.at_ms))) 100)
unfolding compute_load_pct
compute_load_pct-some p c bitrate h k =
    let some_time = product_positive bitrate (c.at_ms - p.at_ms) k (omega arith) in
    let a : c.at_ms - p.at_ms == 0 || bitrate == 0 ≡ false = ground arith in
    let b : saturate (bitrate * (c.at_ms - p.at_ms)) == 0 ≡ false = ground arith in rw (a, b) refl

-- For counters of 32 bits none of which went back, with a bitrate and a time between the samples
-- whose product is below 2 ^ 64: the load is the bits on the wire, 20 percent added for stuffing,
-- as a percentage of what the bus can carry in that time, rounded down and at most 100. No
-- saturation of the code's arithmetic shows.
pub compute_load_pct-exact :
    (p c : LoadSample) (bitrate : ℕ)
    → IsU32 c
    → IsAfter p c
    → p.at_ms < c.at_ms
    → 0 < bitrate
    → bitrate * (c.at_ms - p.at_ms) < 2 ^ 64
    → compute_load_pct p c bitrate
      ≡ some (min (wire_bits p c * 100000 / (bitrate * (c.at_ms - p.at_ms))) 100)
compute_load_pct-exact p c bitrate u a h k fits =
    let bits = bits_between_exact p c u a in
    let h1 = u.rx_bytes in
    let h2 = u.tx_bytes in
    let h3 = u.rx_packets in
    let h4 = u.tx_packets in
    let top : saturate (bits_between p c * 100000) ≡ wire_bits p c * 100000 =
      rw bits (omega arith) in
    let bottom : saturate (bitrate * (c.at_ms - p.at_ms)) ≡ bitrate * (c.at_ms - p.at_ms) =
      omega arith in
    compute_load_pct-some p c bitrate h k ∙ rw (top, bottom) refl

bits_between_wrapped :
    (p c : LoadSample)
    → p.rx_bytes < 2 ^ 32
    → c.rx_bytes < p.rx_bytes
    → bits_between p c ≡ (2 ^ 64 - 1) / 100
unfolding bits_between
bits_between_wrapped p c h k = omega arith

-- When the 32-bit counter of received bytes starts again between the samples, the reported load is
-- 100 percent, however little was received, for a bitrate and a time between the samples whose
-- product is at most a hundredth of 2 ^ 64 - 1.
pub compute_load_pct-wrapped :
    (p c : LoadSample) (bitrate : ℕ)
    → p.rx_bytes < 2 ^ 32
    → c.rx_bytes < p.rx_bytes
    → p.at_ms < c.at_ms
    → 0 < bitrate
    → bitrate * (c.at_ms - p.at_ms) ≤ (2 ^ 64 - 1) / 100
    → compute_load_pct p c bitrate ≡ some 100
compute_load_pct-wrapped p c bitrate h wrapped later k fits =
    let d = bitrate * (c.at_ms - p.at_ms) in
    let some_time = product_positive bitrate (c.at_ms - p.at_ms) k (omega arith) in
    let bits = bits_between_wrapped p c h wrapped in
    let top : saturate (bits_between p c * 100000) ≡ 2 ^ 64 - 1 = rw bits (omega arith) in
    let bottom : saturate d ≡ d = omega arith in
    let full : 100 ≤ (2 ^ 64 - 1) / d = (le-div_iff_mul-le some_time).1 (omega arith) in
    let most : min ((2 ^ 64 - 1) / d) 100 ≡ 100 = omega arith in
    compute_load_pct-some p c bitrate later k ∙ rw (top, bottom, most) refl
