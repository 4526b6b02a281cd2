-- ===== src/Gateway/Worker.antt =====
-- The worker thread of the SocketCAN gateway: what one turn of its loop does with a command, with
-- the oldest queued frame, with received frames and with the timers, as a step on the device, the
-- bus and the reassembler. The socket, the clock and the kernel's counters speak through `Event`.
use canboat_rs.Prelude.{
  ℕ, ◌-◌, ◌/◌, List, [], ◌∷◌, ◌++◌, none, some, Bool, true, false, not, ◌&&◌, ltb, ◌==◌,
  if◌then◌else◌, length, min, bit_and,
}
use canboat_rs.Timestamp.{format_iso}
use canboat_rs.AddressClaim.{ClaimState, scanning, pending, is_claimed, owned_address}
use canboat_rs.Reassembly.{Reassembler}
use canboat_rs.SocketCan.{CanApi, TxBuffer, Bus, send_pgn, tx_buffer_capacity, can_eff_mask}
use canboat_rs.Gateway.{NmeaDevice, Host, Effect, sent, commanded, shown}
use canboat_rs.Gateway.Status.{Counters}
use canboat_rs.Gateway.Steps.{start, tick, handle_frame, dispatch_cmd, WriterCmd}

abbrev pub max_poll_ms : ℕ
max_poll_ms = 100

abbrev pub claim_unclaimed : ℕ
claim_unclaimed = 254

abbrev pub can_err_flag : ℕ
can_err_flag = 0x2000_0000

abbrev pub can_eff_flag : ℕ
can_eff_flag = 0x8000_0000

-- What `write_frame` reports.
pub data WriteResult : Type 0 where
  written would_block failed : WriteResult

-- The count of dropped frames starts again once the ring is less than half full.
unfoldable pub popped {ℓ} : {F : Type ℓ} → List F → ℕ → ℕ
popped rest overflowed =
    if not (overflowed == 0) && ltb (length rest) (tx_buffer_capacity / 2) then 0 else overflowed

unfoldable pub tx_drain_one : {F : Type 0} → TxBuffer F → WriteResult → TxBuffer F × Bool
tx_drain_one tx result = elim tx.queue [
  | [] ↦ (tx, false)
  | f ∷ rest ↦ elim result [
    | written ↦ (record tx { queue = rest; overflowed = popped rest tx.overflowed }, true)
    | would_block ↦ (tx, false)
    | failed ↦ (record tx { queue = rest }, false)
  ]
]

abbrev pub is_timing : ClaimState → Bool
is_timing scanning = true
is_timing pending = true
is_timing _ = false

-- How long `poll` may sleep.
unfoldable pub poll_wait : NmeaDevice → Bool → ℕ → ℕ
poll_wait d tx_is_empty now =
    let timer =
      if is_timing d.claim.state && ltb now d.claim.deadline
      then d.claim.deadline - now
      else if is_claimed d.claim && not (d.heartbeat_interval == 0)
      then d.next_heartbeat - now
      else max_poll_ms in
    let wait = if not tx_is_empty && ltb 5 timer then 5 else timer in min wait max_poll_ms

-- Error frames and frames with an 11-bit identifier are skipped.
unfoldable pub is_n2k : ℕ → Bool
is_n2k id = bit_and id can_err_flag == 0 && not (bit_and id can_eff_flag == 0)

-- The address that other threads see.
unfoldable pub live_address : NmeaDevice → ℕ
live_address d = elim (owned_address d.claim) [ some a ↦ a | none ↦ claim_unclaimed ]

-- What the worker meets. `received` has the time, the identifier as the kernel gives it, the data
-- and the time stamp; `ticked` has the kernel's counters and two readings of the clock.
pub data Event : Type 0 where
  started : ℕ → Event
  received : ℕ → ℕ → List ℕ → ℕ → Event
  told : ℕ → WriterCmd → Event
  ticked : Counters → ℕ → ℕ → Event
  writable : WriteResult → Event

unfoldable pub with_reasm :
    Reassembler → NmeaDevice × List Effect → Reassembler × NmeaDevice × List Effect
with_reasm r (d, effects) = (r, d, effects)

-- What an event makes of the device and the reassembler, and what is to be done to the bus.
unfoldable pub react :
    Host → NmeaDevice → Reassembler → Event → Reassembler × NmeaDevice × List Effect
react host d r (started now) = with_reasm r (start d now)
react host d r (received now id bytes when) =
    if is_n2k id
    then handle_frame host d r now (bit_and id can_eff_mask) bytes (if when == 0 then now else when)
    else (r, d, [])
react host d r (told now cmd) = (r, d, dispatch_cmd d cmd)
react host d r (ticked k clock now) = with_reasm r (tick host k d clock now)
react host d r (writable result) = (r, d, [])

-- The time at which frames are echoed.
unfoldable pub time_of : Event → ℕ
time_of (started now) = now
time_of (received now id bytes when) = now
time_of (told now cmd) = now
time_of (ticked k clock now) = clock
time_of (writable result) = 0

module _ (can : CanApi) where
  open can use {CanFrame}

  pub record Node : Type 0 where
    pub device : NmeaDevice
    pub bus : Bus can
    pub reasm : Reassembler

  -- One effect on the bus, at the time `now`.
  unfoldable pub perform : Host → ℕ → Bus can → Effect → Bus can
  perform host now bus (sent f) =
      send_pgn can host.table (format_iso now) bus f.prio f.pgn f.src f.dst f.payload true
  perform host now bus (commanded f) =
      send_pgn can host.table (format_iso now) bus f.prio f.pgn f.src f.dst f.payload false
  perform host now bus (shown f) = record bus { frames_tx = bus.frames_tx ++ f ∷ [] }

  unfoldable pub perform_all : Host → ℕ → Bus can → List Effect → Bus can
  perform_all host now bus [] = bus
  perform_all host now bus (e ∷ es) = perform_all host now (perform host now bus e) es

  unfoldable pub settle : Host → ℕ → Node → Reassembler × NmeaDevice × List Effect → Node
  settle host now n (r, d, effects) = record {
    device = d;
    bus = perform_all host now n.bus effects;
    reasm = r;
  }

  unfoldable pub drain : Event → Node → Node
  drain (writable result) n = record n {
    bus = record n.bus { tx_buf = (tx_drain_one n.bus.tx_buf result).0 };
  }
  drain _ n = n

  unfoldable pub step : Host → Node → Event → Node
  step host n e = drain e (settle host (time_of e) n (react host n.device n.reasm e))

  unfoldable pub run : Host → Node → List Event → Node
  run host n [] = n
  run host n (e ∷ es) = run host (step host n e) es
