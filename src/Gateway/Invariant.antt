-- ===== src/Gateway/Invariant.antt =====
-- What holds of the gateway after every sequence of events: a predicate of the device that the
-- handlers keep, the bound of the outbound ring, and the claimed address.
use canboat_rs.Prelude.{ℕ, ◌≡◌, refl, sym, subst, List, [], ◌∷◌, true, false, arith, if_both}
use canboat_rs.Reassembly.{Reassembler}
use canboat_rs.SocketCan.{CanApi, TxBuffer, Bus}
use canboat_rs.SocketCan.Ring.{IsBounded, send_pgn-IsBounded}
use canboat_rs.Gateway.{NmeaDevice, Host, Effect, sent, commanded, shown}
use canboat_rs.Gateway.Worker.{
  Node, Event, started, received, told, ticked, writable, WriteResult, react, with_reasm, time_of,
  drain, step, run, settle, perform, perform_all, tx_drain_one, is_n2k,
}
use canboat_rs.Gateway.Kept.{IsKept, IsClaimKept, start-kept, tick-kept, handle_frame-kept}

module _ (can : CanApi) where
  module _ (P : NmeaDevice → Type 0) (kept : IsKept P) (claims : IsClaimKept P) (host : Host) where
    pub react-kept : (d : NmeaDevice) (r : Reassembler) (e : Event) → P d → P (react host d r e).1
    unfolding react with_reasm
    react-kept d r (started now) h = start-kept P kept claims d now h
    react-kept d r (received now id bytes when) h =
        if_both (λ (x : Reassembler × NmeaDevice × List Effect). P x.1) (is_n2k id)
          (handle_frame-kept P kept claims host d r now _ bytes _ h) h
    react-kept d r (told now cmd) h = h
    react-kept d r (ticked k clock now) h = tick-kept P kept claims host k d clock now h
    react-kept d r (writable result) h = h

    drain_device : (e : Event) (n : Node can) → (drain can e n).device ≡ n.device
    unfolding drain
    drain_device (started now) n = refl
    drain_device (received now id bytes when) n = refl
    drain_device (told now cmd) n = refl
    drain_device (ticked k clock now) n = refl
    drain_device (writable result) n = refl

    abbrev Holds : Node can → Type 0
    Holds n = P n.device

    step-kept : (n : Node can) (e : Event) → Holds n → Holds (step can host n e)
    unfolding step settle
    step-kept n e h = subst P (sym (drain_device e _)) (react-kept n.device n.reasm e h)

    pub run-kept : (n : Node can) (es : List Event) → Holds n → Holds (run can host n es)
    unfolding run
    run-kept n [] h = h
    run-kept n (e ∷ es) h = run-kept (step can host n e) es (step-kept n e h)

  abbrev IsBusBounded : Bus can → Type 0
  IsBusBounded bus = IsBounded can bus.tx_buf

  perform_all-IsBounded :
      (host : Host) (now : ℕ) (es : List Effect) (bus : Bus can)
      → IsBusBounded bus
      → IsBusBounded (perform_all can host now bus es)
  unfolding perform_all perform
  perform_all-IsBounded host now [] bus h = h
  perform_all-IsBounded host now (sent f ∷ es) bus h =
      perform_all-IsBounded host now es _ (send_pgn-IsBounded can host.table _ bus _ _ _ _ _ true h)
  perform_all-IsBounded host now (commanded f ∷ es) bus h =
      perform_all-IsBounded host now es _
        (send_pgn-IsBounded can host.table _ bus _ _ _ _ _ false h)
  perform_all-IsBounded host now (shown f ∷ es) bus h = perform_all-IsBounded host now es _ h

  tx_drain_one-IsBounded :
      (tx : TxBuffer (can.CanFrame)) (result : WriteResult)
      → IsBounded can tx
      → IsBounded can (tx_drain_one tx result).0
  unfolding tx_drain_one
  tx_drain_one-IsBounded tx result h = ground arith

  drain-IsBounded :
      (e : Event) (n : Node can) → IsBusBounded n.bus → IsBusBounded (drain can e n).bus
  unfolding drain
  drain-IsBounded (started now) n h = h
  drain-IsBounded (received now id bytes when) n h = h
  drain-IsBounded (told now cmd) n h = h
  drain-IsBounded (ticked k clock now) n h = h
  drain-IsBounded (writable result) n h = tx_drain_one-IsBounded n.bus.tx_buf result h

  step-IsBounded :
      (host : Host) (n : Node can) (e : Event)
      → IsBusBounded n.bus
      → IsBusBounded (step can host n e).bus
  unfolding step settle
  step-IsBounded host n e h = drain-IsBounded e _ (perform_all-IsBounded host (time_of e) _ n.bus h)

  -- Whatever the gateway meets, its outbound ring stays within its capacity.
  pub run-IsBounded :
      (host : Host) (n : Node can) (es : List Event)
      → IsBusBounded n.bus
      → IsBusBounded (run can host n es).bus
  unfolding run
  run-IsBounded host n [] h = h
  run-IsBounded host n (e ∷ es) h =
      run-IsBounded host (step can host n e) es (step-IsBounded host n e h)
