-- ===== src/Gateway/Heartbeat.antt =====
-- The heartbeat of the gateway: the interval that it is sent at, and the sequence counter.
use canboat_rs.Prelude.{ℕ, ◌≤◌, ◌≡◌, ◌⊎◌, refl, sym, subst, inl, inr, List, arith}
use canboat_rs.SocketCan.{CanApi}
use canboat_rs.Gateway.{NmeaDevice, Host, Config}
use canboat_rs.Gateway
use canboat_rs.Gateway.Requests.{next_seq}
use canboat_rs.Gateway.Worker.{Node, Event, run}
use canboat_rs.Gateway.Kept.{IsKept}
use canboat_rs.Gateway.Invariant.{run-kept}

-- The interval is the configured one, none, or from a second to a minute.
abbrev pub IsInterval : ℕ → ℕ → Type 0
IsInterval configured i = (i ≡ configured) ⊎ (i ≡ 0) ⊎ ((1000 ≤ i) × (i ≤ 60000))

-- The sequence counter is a byte of which 253 to 255 are reserved.
pub record Beats (configured : ℕ) (d : NmeaDevice) : Type 0 where
  pub interval : IsInterval configured d.heartbeat_interval
  pub seq : d.heartbeat_seq ≤ 252

next_seq_le : (s : ℕ) → s ≤ 252 → next_seq s ≤ 252
unfolding next_seq
next_seq_le s h = ground arith

Beats-IsKept : (configured : ℕ) → IsKept (Beats configured)
Beats-IsKept configured = record {
  product = λ d t h. record { interval = h.interval; seq = h.seq };
  beat = λ d h. record { interval = h.interval; seq = next_seq_le d.heartbeat_seq h.seq };
  off = λ d h. record { interval = inr (inl refl); seq = h.seq };
  every = λ d i t low high h. record { interval = inr (inr (low, high)); seq = h.seq };
  timer = λ d t h. record { interval = h.interval; seq = h.seq };
  status = λ d t h. record { interval = h.interval; seq = h.seq };
  seen = λ d f h. record { interval = h.interval; seq = h.seq };
  sample = λ d x h. record { interval = h.interval; seq = h.seq };
}

-- Whatever a gateway meets after it was set up, its heartbeat interval is the configured one, 0, or
-- from 1000 to 60000 ms, and its heartbeat counter is at most 252.
pub run-Beats :
    (can : CanApi) (host : Host) (config : Config) (now bitrate : ℕ) (n : Node can)
    (es : List Event)
    → n.device ≡ Gateway.new host config now bitrate
    → Beats config.heartbeat_ms (run can host n es).device
unfolding Gateway.new
run-Beats can host config now bitrate n es e =
    run-kept can (Beats config.heartbeat_ms) (Beats-IsKept config.heartbeat_ms)
      (λ d c h. record { interval = h.interval; seq = h.seq }) host n es
      (subst (Beats config.heartbeat_ms) (sym e)
        (record { interval = inl refl; seq = omega arith }))
