-- ===== src/Gateway/Status.antt =====
-- The network status of the gateway: `note_seen`, `compute_load_pct`, `read_load_sample` and
-- `emit_network_status`. Counters of the kernel are values of `Counters`, read when the status is made.
use canboat_rs.Prelude.{
  ℕ, zero, suc, ◌+◌, ◌-◌, ◌*◌, ◌/◌, ◌^◌, List, [], ◌∷◌, Option, none, some, Bool, true, ◌||◌, ◌==◌,
  ◌>>=◌, if◌then◌else◌, min, u32, u64,
}
use canboat_rs.Timestamp.{format_iso}
use canboat_rs.Responder.{NetworkStatus, build_network_status}
use canboat_rs.Gateway.{NmeaDevice, LoadSample, Effect, shown, addr}

abbrev pub can_eff_overhead_bits : ℕ
can_eff_overhead_bits = 67

abbrev pub stuffing_numer : ℕ
stuffing_numer = 120

abbrev pub stuffing_denom : ℕ
stuffing_denom = 100

-- What `read_sysfs_counter` gives for each counter.
pub record Counters : Type 0 where
  pub rx_errors : Option ℕ
  pub tx_dropped : Option ℕ
  pub rx_bytes : Option ℕ
  pub tx_bytes : Option ℕ
  pub rx_packets : Option ℕ
  pub tx_packets : Option ℕ

abbrev pub saturate : ℕ → ℕ
saturate n = min n (2 ^ 64 - 1)

abbrev pub wrapping_sub : ℕ → ℕ → ℕ
wrapping_sub a b = u64 (a + 2 ^ 64 - b)

unfoldable pub read_load_sample : Counters → ℕ → Option LoadSample
read_load_sample k now = do
  a ← k.rx_bytes
  b ← k.tx_bytes
  c ← k.rx_packets
  e ← k.tx_packets
  some (record { rx_bytes = a; tx_bytes = b; rx_packets = c; tx_packets = e; at_ms = now })

-- The bits on the wire between two samples.
unfoldable pub bits_between : LoadSample → LoadSample → ℕ
bits_between prev curr =
    let rx_bytes = wrapping_sub curr.rx_bytes prev.rx_bytes in
    let tx_bytes = wrapping_sub curr.tx_bytes prev.tx_bytes in
    let rx_packets = wrapping_sub curr.rx_packets prev.rx_packets in
    let tx_packets = wrapping_sub curr.tx_packets prev.tx_packets in
    let d_bytes = saturate (rx_bytes + tx_bytes) in
    let d_packets = saturate (rx_packets + tx_packets) in
    let overhead = saturate (d_packets * can_eff_overhead_bits) in
    let bits_raw = saturate (saturate (d_bytes * 8) + overhead) in
    saturate (bits_raw * stuffing_numer) / stuffing_denom

unfoldable pub compute_load_pct : LoadSample → LoadSample → ℕ → Option ℕ
compute_load_pct prev curr bitrate_bps =
    let dt_ms = curr.at_ms - prev.at_ms in
    let denom = saturate (bitrate_bps * dt_ms) in
    let pct = saturate (bits_between prev curr * 100000) / denom in
    if dt_ms == 0 || bitrate_bps == 0 then none else if denom == 0 then none else some (min pct 100)

-- The addresses below `n` that are marked.
unfoldable pub count_seen : ℕ → (ℕ → Bool) → ℕ
count_seen zero seen = 0
count_seen (suc n) seen = if seen n then suc (count_seen n seen) else count_seen n seen

unfoldable pub note_seen : NmeaDevice → ℕ → NmeaDevice
note_seen d src = record d { seen_addrs = λ a. if a == src then true else d.seen_addrs a }

unfoldable pub load_since : NmeaDevice → Option LoadSample → Option ℕ
load_since d curr = do
  prev ← d.prev_load_sample
  sample ← curr
  compute_load_pct prev sample d.bitrate_bps

unfoldable pub keep_sample : NmeaDevice → Option LoadSample → NmeaDevice
keep_sample d none = d
keep_sample d (some c) = record d { prev_load_sample = some c }

unfoldable pub emit_network_status : NmeaDevice → ℕ → Counters → NmeaDevice × List Effect
emit_network_status d now k =
    let curr = read_load_sample k now in
    let status : NetworkStatus = record {
      load_pct = load_since d curr;
      errors = k.rx_errors;
      device_count = some (min (count_seen 256 d.seen_addrs) 255);
      uptime_s = some (u32 (wrapping_sub now d.start_ms / 1000));
      gateway_addr = addr d;
      rejected_tx = k.tx_dropped;
    } in
    (keep_sample d curr, shown (build_network_status status (some (format_iso now))) ∷ [])
