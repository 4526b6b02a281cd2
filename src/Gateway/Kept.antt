-- ===== src/Gateway/Kept.antt =====
-- What every handler of the gateway keeps: a predicate of the device that the elementary changes keep
-- is kept by `start`, `tick`, `handle_frame` and all that they call.
use canboat_rs.Prelude.{
  ℕ, ◌≤◌, List, Option, none, some, Bool, not, ◌&&◌, ◌||◌, arith, ltb, leb, ◌==◌, if_both, if_cases,
  length,
}
use canboat_rs.Frame.{RawFrame}
use canboat_rs.AddressClaim.{
  AddressClaim, Event, started, claim_heard, ticked, is_claimed, is_disabled,
}
use canboat_rs.AddressClaim
use canboat_rs.Reassembly.{Reassembler, Reassembled, pass_through, complete, partial, error}
use canboat_rs.Gateway.{NmeaDevice, LoadSample, Host, Effect, claiming, addr, pgn_at}
use canboat_rs.Gateway.Status.{Counters, keep_sample, note_seen, emit_network_status}
use canboat_rs.Gateway.Requests.{
  on_claim, on_request, answer, send_product_info, send_heartbeat, next_seq, apply_interval,
  set_interval, handle_group_function, tx_interval_no_change, tx_interval_restore_default,
}
use canboat_rs.Gateway.Steps.{
  ◌then_do◌, start, arm_timers, on_owned, heartbeat_if_due, status_if_due, tick, dispatch,
  note_source, forward, deliver, handle_frame,
}

-- The changes that a handler makes, the claim apart.
pub record IsKept (P : NmeaDevice → Type 0) : Type 0 where
  pub product : (d : NmeaDevice) (t : ℕ) → P d → P (record d { last_product_info = t })
  pub beat : (d : NmeaDevice) → P d → P (record d { heartbeat_seq = next_seq d.heartbeat_seq })
  pub off : (d : NmeaDevice) → P d → P (record d { heartbeat_interval = 0 })
  pub every :
      (d : NmeaDevice) (i t : ℕ)
      → 1000 ≤ i
      → i ≤ 60000
      → P d
      → P (record d { heartbeat_interval = i; next_heartbeat = t })
  pub timer : (d : NmeaDevice) (t : ℕ) → P d → P (record d { next_heartbeat = t })
  pub status : (d : NmeaDevice) (t : ℕ) → P d → P (record d { next_network_status = t })
  pub seen : (d : NmeaDevice) (f : ℕ → Bool) → P d → P (record d { seen_addrs = f })
  pub sample :
      (d : NmeaDevice) (x : Option LoadSample) → P d → P (record d { prev_load_sample = x })

-- The change that the claim state machine makes.
abbrev pub IsClaimKept : (NmeaDevice → Type 0) → Type 0
IsClaimKept P =
    (d : NmeaDevice) (e : Event) → P d → P (record d { claim = (AddressClaim.step d.claim e).0 })

module _ (P : NmeaDevice → Type 0) (kept : IsKept P) where
  abbrev After : NmeaDevice × List Effect → Type 0
  After r = P r.0

  then_do-kept :
      (r : NmeaDevice × List Effect) (g : NmeaDevice → NmeaDevice × List Effect)
      → After r
      → ((d : NmeaDevice) → P d → After (g d))
      → After (r then_do g)
  unfolding ◌then_do◌
  then_do-kept (d, out) g h k = k d h

  send_product_info-kept :
      (host : Host) (d : NmeaDevice) (now : ℕ) → P d → After (send_product_info host d now)
  unfolding send_product_info
  send_product_info-kept host d now h = if_both After (ltb _ 1000) h (kept.product d _ h)

  send_heartbeat-kept : (d : NmeaDevice) → P d → After (send_heartbeat d)
  unfolding send_heartbeat
  send_heartbeat-kept d h = kept.beat d h

  answer-kept :
      (host : Host) (d : NmeaDevice) (now src : ℕ) (addressed : Bool) (requested : ℕ)
      → P d
      → After (answer host d now src addressed requested)
  unfolding answer
  answer-kept host d now src addressed requested h =
      if_both After (requested == _) (send_product_info-kept host d now h) (
        if_both After (requested == _) h
          (if_both After (requested == _) (send_heartbeat-kept d h) (if_both After addressed h h)))

  on_request-kept :
      (host : Host) (d : NmeaDevice) (now src dst : ℕ) (bytes : List ℕ)
      → P d
      → After (on_request host d now src dst bytes)
  unfolding on_request
  on_request-kept host d now src dst bytes h = if_both After (ltb (length bytes) 3) h (
      if_both After (not (dst == addr d) && _) h (
        if_both After (pgn_at 0 bytes == _) h (
          if_both After (not (is_claimed d.claim)) h
            (answer-kept host d now src (dst == addr d) (pgn_at 0 bytes) h))))

  apply_interval-kept :
      (d : NmeaDevice) (now interval : ℕ) → P d → P (apply_interval d now interval).0
  unfolding apply_interval set_interval
  apply_interval-kept d now i h =
      let Q = λ (r : NmeaDevice × ℕ). P r.0 in
      if_both Q (i == tx_interval_no_change) h (
        if_both Q (i == tx_interval_restore_default)
          (kept.every d _ _ (omega arith) (omega arith) h)
          (if_both Q (i == 0) (kept.off d h) (
            if_cases Q (leb 1000 i && leb i 60000)
              (λ ok. kept.every d i _ (ground arith) (ground arith) h) (λ _. h))))

  handle_group_function-kept :
      (d : NmeaDevice) (now src : ℕ) (bytes : List ℕ)
      → P d
      → After (handle_group_function d now src bytes)
  unfolding handle_group_function
  handle_group_function-kept d now src bytes h =
      if_both After (ltb (length bytes) 8 || _ || _) h
        (if_both After (not (pgn_at 1 bytes == _)) h (apply_interval-kept d now _ h))

  on_owned-kept :
      (host : Host) (was : Bool) (clock now : ℕ) (d : NmeaDevice)
      → P d
      → After (on_owned host was clock now d)
  unfolding on_owned arm_timers
  on_owned-kept host was clock now d h =
      if_both After (not was && is_claimed d.claim)
        (then_do-kept _ _ (send_product_info-kept host d clock h)
          (λ e k. kept.status _ _ (kept.timer e _ k)))
        h

  heartbeat_if_due-kept : (now : ℕ) (d : NmeaDevice) → P d → After (heartbeat_if_due now d)
  unfolding heartbeat_if_due
  heartbeat_if_due-kept now d h =
      if_both After (is_claimed d.claim && not (d.heartbeat_interval == 0) && _)
        (then_do-kept _ _ (send_heartbeat-kept d h) (λ e k. kept.timer e _ k)) h

  keep_sample-kept : (d : NmeaDevice) (x : Option LoadSample) → P d → P (keep_sample d x)
  unfolding keep_sample
  keep_sample-kept d none h = h
  keep_sample-kept d (some x) h = kept.sample d _ h

  status_if_due-kept :
      (k : Counters) (now : ℕ) (d : NmeaDevice) → P d → After (status_if_due k now d)
  unfolding status_if_due emit_network_status
  status_if_due-kept k now d h =
      if_both After (is_claimed d.claim && _)
        (then_do-kept _ _ (keep_sample-kept d _ h) (λ e i. kept.status e _ i)) h

  note_source-kept : (src : ℕ) (d : NmeaDevice) → P d → After (note_source src d)
  unfolding note_source note_seen
  note_source-kept src d h = if_both After (not (src == _) && not (src == _)) (kept.seen d _ h) h

  forward-kept : (now src : ℕ) (f : RawFrame) (d : NmeaDevice) → P d → After (forward now src f d)
  unfolding forward
  forward-kept now src f d h =
      then_do-kept _ _
        (if_both After (not (is_disabled d.claim.state) && _)
          (handle_group_function-kept d now src f.payload h) h)
        (λ e k. k)

  deliver-kept :
      (now src : ℕ) (out : Reassembled) (d : NmeaDevice) → P d → After (deliver now src out d)
  unfolding deliver
  deliver-kept now src (pass_through f) d h = forward-kept now src f d h
  deliver-kept now src (complete f) d h = forward-kept now src f d h
  deliver-kept now src partial d h = h
  deliver-kept now src (error e) d h = h

  module _ (claims : IsClaimKept P) where
    pub start-kept : (d : NmeaDevice) (now : ℕ) → P d → After (start d now)
    unfolding start claiming AddressClaim.step
    start-kept d now h = claims d (started now) h

    on_claim-kept :
        (d : NmeaDevice) (now src : ℕ) (bytes : List ℕ) → P d → After (on_claim d now src bytes)
    unfolding on_claim claiming AddressClaim.step
    on_claim-kept d now src bytes h =
        if_both After (ltb (length bytes) 8) h (claims d (claim_heard now src _) h)

    dispatch-kept :
        (host : Host) (d : NmeaDevice) (now : ℕ) (f : RawFrame) (bytes : List ℕ)
        → P d
        → After (dispatch host d now f bytes)
    unfolding dispatch
    dispatch-kept host d now f bytes h = if_both After (is_disabled d.claim.state) h (
        if_both After (f.pgn == _) (on_claim-kept d now f.src bytes h)
          (if_both After (f.pgn == _) (on_request-kept host d now f.src f.dst bytes h) h))

    pub tick-kept :
        (host : Host) (k : Counters) (d : NmeaDevice) (clock now : ℕ)
        → P d
        → After (tick host k d clock now)
    unfolding tick claiming AddressClaim.step
    tick-kept host k d clock now h =
        then_do-kept _ _
          (then_do-kept _ _
            (then_do-kept _ _ (claims d (ticked now) h) (on_owned-kept host _ clock now))
            (heartbeat_if_due-kept now))
          (status_if_due-kept k now)

    pub handle_frame-kept :
        (host : Host) (d : NmeaDevice) (r : Reassembler) (now can_id : ℕ) (bytes : List ℕ)
        (when : ℕ)
        → P d
        → P (handle_frame host d r now can_id bytes when).1
    unfolding handle_frame
    handle_frame-kept host d r now can_id bytes when h =
        then_do-kept _ _
          (then_do-kept _ _ (dispatch-kept host d now _ bytes h) (note_source-kept _))
          (deliver-kept now _ _)
