-- ===== src/Gateway/Steps.antt =====
-- `start`, `tick`, `handle_frame` and `dispatch_cmd`.
use canboat_rs.Prelude.{
  ℕ, ◌+◌, List, [], ◌∷◌, ◌++◌, Bool, not, ◌&&◌, ◌||◌, leb, ◌==◌, if◌then◌else◌, u64,
}
use canboat_rs.Frame.{RawFrame, addr_global, addr_null}
use canboat_rs.Timestamp.{format_iso}
use canboat_rs.FastPacket.{packet_type}
use canboat_rs.AddressClaim.{is_claimed, is_disabled, pgn_iso_request, pgn_iso_address_claim}
use canboat_rs.AddressClaim
use canboat_rs.Reassembly.{Reassembler, Reassembled, pass_through, complete, partial, error}
use canboat_rs.Reassembly.Push.{push}
use canboat_rs.SocketCan.{single_frame}
use canboat_rs.Gateway.{
  NmeaDevice, Host, Effect, shown, commanded, addr, claiming, pgn_group_function, canboat_pgn_start,
  network_status_interval_ms,
}
use canboat_rs.Gateway.Status.{Counters, note_seen, emit_network_status}
use canboat_rs.Gateway.Requests.{
  on_claim, on_request, send_product_info, send_heartbeat, handle_group_function,
}

-- A handler after another, with the effects of both in order.
infixl 45 ◌then_do◌
unfoldable pub ◌then_do◌ :
    NmeaDevice × List Effect → (NmeaDevice → NmeaDevice × List Effect) → NmeaDevice × List Effect
(d, out) then_do g = let (d', more) = g d in (d', out ++ more)

unfoldable pub start : NmeaDevice → ℕ → NmeaDevice × List Effect
start d now = claiming d (AddressClaim.start d.claim now)

unfoldable pub arm_timers : NmeaDevice → ℕ → NmeaDevice
arm_timers d now = record d {
  next_heartbeat =
      if d.heartbeat_interval == 0 then d.next_heartbeat else u64 (now + d.heartbeat_interval);
  next_network_status = u64 (now + network_status_interval_ms);
}

-- The announcement of a node that has just become the owner of an address; `clock` is the time that
-- `send_product_info` reads.
unfoldable pub on_owned : Host → Bool → ℕ → ℕ → NmeaDevice → NmeaDevice × List Effect
on_owned host was_claimed clock now d =
    if not was_claimed && is_claimed d.claim
    then send_product_info host d clock then_do (λ e. (arm_timers e now, []))
    else (d, [])

unfoldable pub heartbeat_if_due : ℕ → NmeaDevice → NmeaDevice × List Effect
heartbeat_if_due now d =
    if is_claimed d.claim && not (d.heartbeat_interval == 0) && leb d.next_heartbeat now
    then send_heartbeat d
      then_do (λ e. (record e { next_heartbeat = u64 (now + e.heartbeat_interval) }, []))
    else (d, [])

unfoldable pub status_if_due : Counters → ℕ → NmeaDevice → NmeaDevice × List Effect
status_if_due k now d =
    if is_claimed d.claim && leb d.next_network_status now
    then emit_network_status d now k
      then_do (λ e. (record e { next_network_status = u64 (now + network_status_interval_ms) }, []))
    else (d, [])

unfoldable pub tick : Host → Counters → NmeaDevice → ℕ → ℕ → NmeaDevice × List Effect
tick host k d clock now =
    claiming d (AddressClaim.tick d.claim now)
    then_do on_owned host (is_claimed d.claim) clock now
    then_do heartbeat_if_due now
    then_do status_if_due k now

-- What a single frame is to the claim state machine and the responders.
unfoldable pub dispatch : Host → NmeaDevice → ℕ → RawFrame → List ℕ → NmeaDevice × List Effect
dispatch host d now f bytes =
    if is_disabled d.claim.state
    then (d, [])
    else if f.pgn == pgn_iso_address_claim
    then on_claim d now f.src bytes
    else if f.pgn == pgn_iso_request
    then on_request host d now f.src f.dst bytes
    else (d, [])

unfoldable pub note_source : ℕ → NmeaDevice → NmeaDevice × List Effect
note_source src d =
    if not (src == addr_null) && not (src == addr_global) then (note_seen d src, []) else (d, [])

-- A whole message is handled if it is a group function, and is passed on.
unfoldable pub forward : ℕ → ℕ → RawFrame → NmeaDevice → NmeaDevice × List Effect
forward now src f d =
    (if not (is_disabled d.claim.state) && f.pgn == pgn_group_function
      then handle_group_function d now src f.payload
      else (d, []))
    then_do (λ e. (e, shown f ∷ []))

unfoldable pub deliver : ℕ → ℕ → Reassembled → NmeaDevice → NmeaDevice × List Effect
deliver now src (pass_through f) d = forward now src f d
deliver now src (complete f) d = forward now src f d
deliver now src partial d = (d, [])
deliver now src (error e) d = (d, [])

-- `handle_frame`, with the time that the handlers read and the time stamp of the frame.
unfoldable pub handle_frame :
    Host → NmeaDevice → Reassembler → ℕ → ℕ → List ℕ → ℕ → Reassembler × NmeaDevice × List Effect
handle_frame host d r now can_id bytes when =
    let f = single_frame (format_iso when) (can_id, bytes) in
    let (r', out) = push r f (packet_type host.table f.pgn) in
    let (d', effects) =
      dispatch host d now f bytes then_do note_source f.src then_do deliver now f.src out in
    (r', d', effects)

pub data WriterCmd : Type 0 where
  frame : RawFrame → WriterCmd
  raw_bytes : List ℕ → WriterCmd

-- A frame of the user goes out from the node's own address unless it names another one.
unfoldable pub outgoing_src : NmeaDevice → ℕ → ℕ
outgoing_src d src = if src == 0 || src == addr_global then addr d else src

unfoldable pub dispatch_cmd : NmeaDevice → WriterCmd → List Effect
dispatch_cmd d (frame f) =
    if leb canboat_pgn_start f.pgn
    then []
    else commanded (record f { src = outgoing_src d f.src }) ∷ []
dispatch_cmd d (raw_bytes b) = []
