-- ===== src/Gateway.antt =====
-- crates/canboat-io/src/device/socketcan.rs: `NmeaDevice`, the bus participant of the SocketCAN
-- gateway: the address-claim state machine, the device responders and their timers. A handler is a
-- function of the device that gives the new device and, in order, what it does to the bus (`Effect`);
-- the time that `now_ms` reads is an argument. What the build and the host supply is in `Host`.
pub mod Status
pub mod Requests
pub mod Steps
pub mod Worker
pub mod Kept
pub mod Invariant
pub mod Address
pub mod Speech
pub mod Silence
pub mod GroupFunction
pub mod Load
pub mod Drain
pub mod Relay
pub mod Heartbeat
use canboat_rs.Prelude.{
  ℕ, zero, suc, ◌+◌, ◌*◌, ◌%◌, List, [], ◌∷◌, ◌++◌, Option, none, some, Bool, true, false, ◌==◌,
  if◌then◌else◌, map, bit_and, bit_or, ◌<<<◌, get_or, u32,
}
use canboat_rs.Frame.{RawFrame, Text, addr_null}
use canboat_rs.Name.{to_u64}
use canboat_rs.Name as Builder
use canboat_rs.AddressClaim.{
  AddressClaim, owned_address, new_disabled, pgn_iso_request, pgn_iso_address_claim,
}
use canboat_rs.AddressClaim
use canboat_rs.FastPacket.{MixedTable}
use canboat_rs.Schema.{Floats, PgnDatabase}
use canboat_rs.Responder.{pgn_iso_ack, pgn_pgn_list, pgn_heartbeat}
use canboat_rs.Responder.Product.{ProductFields}

abbrev pub network_status_interval_ms : ℕ
network_status_interval_ms = 5000

abbrev pub pgn_group_function : ℕ
pgn_group_function = 126208

abbrev pub pgn_product_info : ℕ
pgn_product_info = 126996

abbrev pub canboat_pgn_start : ℕ
canboat_pgn_start = 0x40000

abbrev pub n2k_db_version : ℕ
n2k_db_version = 2100

abbrev pub product_code : ℕ
product_code = 1

abbrev pub certification_level : ℕ
certification_level = 0

abbrev pub load_equivalency : ℕ
load_equivalency = 1

-- `"CANboat"`.
abbrev pub model_id : Text
model_id = 67 ∷ 65 ∷ 78 ∷ 98 ∷ 111 ∷ 97 ∷ 116 ∷ []

abbrev pub tx_pgn_list : List ℕ
tx_pgn_list =
    pgn_iso_ack ∷ pgn_iso_request ∷ pgn_iso_address_claim ∷ pgn_group_function ∷ pgn_pgn_list
    ∷ pgn_heartbeat ∷ pgn_product_info ∷ []

abbrev pub rx_pgn_list : List ℕ
rx_pgn_list = pgn_iso_request ∷ pgn_iso_address_claim ∷ pgn_group_function ∷ []

-- The generated table of packet types, floating point, the generated database and the constants of
-- product information, the version of the crate, and the identifier of the machine.
pub record Host : Type 1 where
  pub table : MixedTable
  pub fl : Floats
  pub db : PgnDatabase fl.Num
  pub product_fields : ProductFields fl.Num
  pub crate_version : Text
  pub machine_id : ℕ

pub record Config : Type 0 where
  pub address : ℕ
  pub unique : ℕ
  pub manufacturer : ℕ
  pub system_instance : ℕ
  pub heartbeat_ms : ℕ
  pub no_claim : Bool
  pub model_version : Text

pub record LoadSample : Type 0 where
  pub rx_bytes : ℕ
  pub tx_bytes : ℕ
  pub rx_packets : ℕ
  pub tx_packets : ℕ
  pub at_ms : ℕ

-- `seen_addrs: [bool; 256]` is a function of the address.
pub record NmeaDevice : Type 0 where
  pub claim : AddressClaim
  pub heartbeat_interval : ℕ
  pub heartbeat_seq : ℕ
  pub next_heartbeat : ℕ
  pub last_product_info : ℕ
  pub model_version : Text
  pub start_ms : ℕ
  pub next_network_status : ℕ
  pub seen_addrs : ℕ → Bool
  pub bitrate_bps : ℕ
  pub prev_load_sample : Option LoadSample

-- What a handler does to the bus: `send_pgn` with a local echo, `send_pgn` without one, or a frame
-- that only the consumer gets.
pub data Effect : Type 0 where
  sent : RawFrame → Effect
  commanded : RawFrame → Effect
  shown : RawFrame → Effect

abbrev pub emit : List RawFrame → List Effect
emit frames = map sent frames

unfoldable pub build_name : Host → Config → ℕ
build_name host config =
    let unique = if config.unique == 0 then u32 host.machine_id else config.unique in
    let base = Builder.new config.manufacturer unique in
    let device = Builder.device_class (Builder.device_function base 130) 25 in
    to_u64 (Builder.system_instance device config.system_instance)

-- `NmeaDevice::new`, with the time and the bitrate that are read there.
unfoldable pub new : Host → Config → ℕ → ℕ → NmeaDevice
new host config now bitrate = record {
  claim =
      if config.no_claim
      then new_disabled (build_name host config)
      else AddressClaim.new (build_name host config) config.address true;
  heartbeat_interval = config.heartbeat_ms;
  heartbeat_seq = 0;
  next_heartbeat = 0;
  last_product_info = 0;
  model_version = config.model_version;
  start_ms = now;
  next_network_status = 0;
  seen_addrs = λ _. false;
  bitrate_bps = bitrate;
  prev_load_sample = none;
}

-- The claimed address, or the null address.
unfoldable pub addr : NmeaDevice → ℕ
addr d = elim (owned_address d.claim) [ some a ↦ a | none ↦ addr_null ]

-- The claim state machine moves on, and its frames go out.
unfoldable pub claiming : NmeaDevice → AddressClaim × List RawFrame → NmeaDevice × List Effect
claiming d (c, frames) = (record d { claim = c }, emit frames)

-- Three bytes, the lowest first.
unfoldable pub pgn_at : ℕ → List ℕ → ℕ
pgn_at i bytes =
    let low = bit_or (get_or bytes i 0) (get_or bytes (i + 1) 0 <<< 8) in
    bit_or low (get_or bytes (i + 2) 0 <<< 16)

-- `from_le_bytes` of a slice.
unfoldable pub from_le_bytes : List ℕ → ℕ
from_le_bytes [] = 0
from_le_bytes (b ∷ bytes) = b + 256 * from_le_bytes bytes
