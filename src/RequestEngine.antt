-- ===== src/RequestEngine.antt =====
-- crates/canboat-bridge/src/n2kd/request_engine.rs: the engine that asks each device on the bus for its
-- address claim and its product information. The map of devices is a function of the address, an
-- `Instant` is a number of milliseconds, and the mutex is left out: one thread asks at a time.
pub mod Due
pub mod Fairness
use canboat_rs.Prelude.{
  ℕ, zero, suc, ◌+◌, ◌-◌, ◌/◌, ◌%◌, List, [], ◌∷◌, ◌++◌, Option, none, some, Bool, true, false, not,
  ◌&&◌, ltb, leb, ◌==◌, if◌then◌else◌, bit_and, ◌>>>◌, u8,
}
use canboat_rs.Frame.{RawFrame}
use canboat_rs.Frame

abbrev pub pgn_claim : ℕ
pgn_claim = 60928

abbrev pub pgn_prod_info : ℕ
pgn_prod_info = 126996

abbrev pub pgn_config_info : ℕ
pgn_config_info = 126998

abbrev pub pgn_iso_request : ℕ
pgn_iso_request = 59904

abbrev pub device_request_spacing : ℕ
device_request_spacing = 1000

abbrev pub device_request_interval : ℕ
device_request_interval = 300000

pub data RequestKind : Type 0 where
  claim product_info : RequestKind

pub record DeviceState : Type 0 where
  pub seen : Bool
  pub last_claim_received : Option ℕ
  pub last_claim_requested : Option ℕ
  pub last_prod_info_received : Option ℕ
  pub last_prod_info_requested : Option ℕ

abbrev pub unseen : DeviceState
unseen = record {
  seen = false;
  last_claim_received = none;
  last_claim_requested = none;
  last_prod_info_received = none;
  last_prod_info_requested = none;
}

abbrev pub Devices : Type 0
Devices = ℕ → Option DeviceState

abbrev pub new : Devices
new = λ _. none

abbrev pub or_default : Option DeviceState → DeviceState
or_default none = unseen
or_default (some s) = s

abbrev pub insert : Devices → ℕ → DeviceState → Devices
insert devs src s = λ a. if a == src then some s else devs a

unfoldable pub received : DeviceState → ℕ → ℕ → DeviceState
received s pgn now =
    if pgn == pgn_claim
    then record s { last_claim_received = some now }
    else if pgn == pgn_prod_info
    then record s { last_prod_info_received = some now }
    else s

unfoldable pub note_device_seen : Devices → ℕ → ℕ → ℕ → Devices
note_device_seen devs now pgn src =
    insert devs src (received (record (or_default (devs src)) { seen = true }) pgn now)

abbrev pub last_received : RequestKind → DeviceState → Option ℕ
last_received claim s = s.last_claim_received
last_received product_info s = s.last_prod_info_received

abbrev pub last_requested : RequestKind → DeviceState → Option ℕ
last_requested claim s = s.last_claim_requested
last_requested product_info s = s.last_prod_info_requested

-- `is_some_and(|t| now.duration_since(t) < DEVICE_REQUEST_INTERVAL)`.
abbrev pub is_recent : ℕ → Option ℕ → Bool
is_recent now none = false
is_recent now (some t) = ltb (now - t) device_request_interval

-- What `next_due` looks for.
abbrev pub is_due : RequestKind → ℕ → Option DeviceState → Bool
is_due kind now none = false
is_due kind now (some s) =
    s.seen
    && (not (is_recent now (last_received kind s)) && not (is_recent now (last_requested kind s)))

abbrev pub stamped : RequestKind → ℕ → DeviceState → DeviceState
stamped claim now s = record s { last_claim_requested = some now }
stamped product_info now s = record s { last_prod_info_requested = some now }

-- The first due address among `n`, at this offset from the cursor or further on.
unfoldable pub first_due : ℕ → ℕ → ℕ → RequestKind → ℕ → Devices → Option ℕ
first_due zero offset cursor kind now devs = none
first_due (suc n) offset cursor kind now devs =
    let idx = u8 (cursor + offset) in
    let rest = first_due n (suc offset) cursor kind now devs in
    if is_due kind now (devs idx) then some idx else rest

abbrev pub stamp : RequestKind → ℕ → ℕ → Devices → Devices
stamp kind now idx devs = insert devs idx (stamped kind now (or_default (devs idx)))

-- `next_due`: the devices, the cursor and the address to ask.
unfoldable pub next_due : Devices → ℕ → RequestKind → ℕ → Devices × ℕ × Option ℕ
next_due devs cursor kind now = elim (first_due 256 0 cursor kind now devs) [
  | none ↦ (devs, cursor, none)
  | some idx ↦ (stamp kind now idx devs, u8 (idx + 1), some idx)
]

unfoldable pub iso_request_payload : ℕ → List ℕ
iso_request_payload pgn =
    bit_and pgn 0xff ∷ bit_and (pgn >>> 8) 0xff ∷ bit_and (pgn >>> 16) 0xff ∷ []

unfoldable pub iso_request_frame : ℕ → ℕ → ℕ → RawFrame
iso_request_frame src dst pgn = Frame.new none 6 pgn_iso_request src dst (iso_request_payload pgn)

-- The state of the thread that `spawn` starts.
pub record Schedule : Type 0 where
  pub devices : Devices
  pub next_claim : ℕ
  pub next_prod : ℕ
  pub last_claim_emit : ℕ
  pub last_prod_emit : ℕ

-- The claim slot of one turn, with what it emits.
unfoldable pub claim_turn : Schedule → ℕ → Schedule × List (ℕ × ℕ)
claim_turn s now =
    let (devs, cursor, dst) = next_due s.devices s.next_claim claim now in
    if leb device_request_spacing (now - s.last_claim_emit)
    then elim dst [
      | none ↦ (record s { devices = devs; next_claim = cursor }, [])
      | some a ↦ (
        record s { devices = devs; next_claim = cursor; last_claim_emit = now },
        (a, pgn_claim) ∷ [],
      )
    ]
    else (s, [])

unfoldable pub prod_turn : Schedule → ℕ → Schedule × List (ℕ × ℕ)
prod_turn s now =
    let (devs, cursor, dst) = next_due s.devices s.next_prod product_info now in
    if leb device_request_spacing (now - s.last_prod_emit)
    then elim dst [
      | none ↦ (record s { devices = devs; next_prod = cursor }, [])
      | some a ↦ (
        record s { devices = devs; next_prod = cursor; last_prod_emit = now },
        (a, pgn_prod_info) ∷ (a, pgn_config_info) ∷ [],
      )
    ]
    else (s, [])

-- One turn of the loop.
unfoldable pub turn : Schedule → ℕ → Schedule × List (ℕ × ℕ)
turn s now =
    let (s', out) = claim_turn s now in let (s'', more) = prod_turn s' now in (s'', out ++ more)
