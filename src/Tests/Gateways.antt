-- ===== src/Tests/Gateways.antt =====
-- The theorems on the SocketCAN gateway and on the reassembler's bounds at concrete inputs.
use canboat_rs.Prelude.{
  ℕ, ◌-◌, ◌*◌, ◌/◌, ◌≡◌, refl, arith, List, [], ◌∷◌, ◌++◌, map, none, some, false, min,
}
use canboat_rs.Frame.{RawFrame, le_bytes}
use canboat_rs.Frame
use canboat_rs.AddressClaim.{claimed}
use canboat_rs.Reassembly.{Reassembler, fast}
use canboat_rs.Reassembly
use canboat_rs.Reassembly.Push.{push}
use canboat_rs.Reassembly.WellFormed.{IsWellFormed, IsWithin}
use canboat_rs.Reassembly.Bounds.{limit_of, push-IsWellFormed, new-IsWellFormed}
use canboat_rs.SocketCan.{TxBuffer}
use canboat_rs.SocketCan.Ring.{IsBounded}
use canboat_rs.Gateway.{NmeaDevice, LoadSample, Host, Config, Effect, addr}
use canboat_rs.Gateway
use canboat_rs.Gateway.Status.{Counters, compute_load_pct}
use canboat_rs.Gateway.Requests.{handle_group_function}
use canboat_rs.Gateway.Worker.{
  Event, started, received, ticked, writable, written, would_block, Node, run,
}
use canboat_rs.Gateway.Relay.{Rx, IsMerge, echoes, messages, frames_of, event_of, relay-messages}
use canboat_rs.Gateway.Address.{IsLive, run-IsLive}
use canboat_rs.Gateway.GroupFunction.{Applies, ack, handle_group_function-Applies}
use canboat_rs.Gateway.Drain.{drain_all, drain_all-delivers}
use canboat_rs.Gateway.Heartbeat.{Beats, run-Beats}
use canboat_rs.Gateway.Invariant.{run-IsBounded}
use canboat_rs.Gateway.Load.{wire_bits, compute_load_pct-exact, compute_load_pct-wrapped}
use canboat_rs.Int.{ℤ}
use canboat_rs.Schema.{FieldInfo, PgnInfo, number, string_fix}
use canboat_rs.Tests.Tables.{whole, tables, field_info, message}
use canboat_rs.Tests.FastPackets.{plain_can, no_table, empty_bus}

-- Product information with its own fields, of 134 bytes.
abbrev version : FieldInfo ℤ
version = field_info 1 number false 16 none

abbrev code : FieldInfo ℤ
code = field_info 2 number false 16 none

abbrev model : ℕ → FieldInfo ℤ
model order = field_info order string_fix false 256 none

abbrev level : ℕ → FieldInfo ℤ
level order = field_info order number false 8 none

abbrev product_pgn : PgnInfo ℤ
product_pgn =
    record (message 126996 (some 134)
      (version ∷ code ∷ model 3 ∷ model 4 ∷ model 5 ∷ model 6 ∷ level 7 ∷ level 8 ∷ [])) {
        id =
            112 ∷ 114 ∷ 111 ∷ 100 ∷ 117 ∷ 99 ∷ 116 ∷ 73 ∷ 110 ∷ 102 ∷ 111 ∷ 114 ∷ 109 ∷ 97 ∷ 116
            ∷ 105 ∷ 111 ∷ 110 ∷ [];
      }

abbrev host : Host
host = record {
  table = no_table;
  fl = whole;
  db = record tables { pgns = product_pgn ∷ [] };
  product_fields = record {
    nmea2000_version = version;
    product_code = code;
    model_id = model 3;
    software_version_code = model 4;
    model_version = model 5;
    model_serial_code = model 6;
    certification_level = level 7;
    load_equivalency = level 8;
  };
  crate_version = 49 ∷ [];
  machine_id = 77;
}

abbrev config : Config
config = record {
  address = 30;
  unique = 5;
  manufacturer = 999;
  system_instance = 15;
  heartbeat_ms = 60000;
  no_claim = false;
  model_version = [];
}

abbrev device : NmeaDevice
device = Gateway.new host config 0 250000

abbrev owner : NmeaDevice
owner = record device { claim = record device.claim { state = claimed } }

abbrev counters : Counters
counters = record {
  rx_errors = none;
  tx_dropped = none;
  rx_bytes = some 1;
  tx_bytes = some 2;
  rx_packets = some 3;
  tx_packets = some 4;
}

abbrev node : Node plain_can
node = record { device = device; bus = empty_bus; reasm = Reassembly.new }

-- The start, the ticks that win the address, a request for the PGN list, and a write.
abbrev events : List Event
events =
    started 0
    ∷ ticked counters 1000 1000
    ∷ ticked counters 1300 1300
    ∷ received 1400 0x98ea1e05 (0 ∷ 0xee ∷ 1 ∷ []) 0
    ∷ writable written
    ∷ []

-- A request for product information.
abbrev asks_product : Event
asks_product = received 90000 0x18ea1e05 (0x14 ∷ 0xf0 ∷ 1 ∷ []) 0

abbrev heard : List Rx
heard =
    record { now = 5; can_id = 0x89f1120f; bytes = 1 ∷ 2 ∷ []; when = 5 }
    ∷ record { now = 6; can_id = 0x98eaff0f; bytes = 0 ∷ 0xee ∷ 0 ∷ []; when = 6 }
    ∷ []

-- A gateway that owns its address.
abbrev owning : Node plain_can
owning = record node { device = owner }

relay-messages_example :
    (new : List RawFrame) × IsMerge
      (echoes plain_can host owning heard)
      (messages no_table Reassembly.new (frames_of heard))
      new
    × ((run plain_can host owning (map event_of heard)).bus.frames_tx ≡ [] ++ new)
relay-messages_example = relay-messages plain_can host heard owning

abbrev opening : RawFrame
opening = Frame.new none 7 60416 5 255 (32 ∷ 20 ∷ 0 ∷ 3 ∷ 255 ∷ 0x14 ∷ 0xf0 ∷ 1 ∷ [])

push-IsWellFormed_example :
    IsWellFormed (push Reassembly.new opening fast).0
    × IsWithin (limit_of opening) opening (push Reassembly.new opening fast).1
push-IsWellFormed_example = push-IsWellFormed Reassembly.new opening fast new-IsWellFormed

run-IsLive_example : IsLive (run plain_can host node events).device
run-IsLive_example = run-IsLive plain_can host config 0 250000 node events (omega arith) refl

handle_group_function-Applies_example :
    (e : NmeaDevice) × (err : ℕ) × Applies owner 700 500 e err
    × (handle_group_function owner 700 9 (0 ∷ 0x11 ∷ 0xf0 ∷ 1 ∷ (le_bytes 4 500 ++ 0xff ∷ []))
        ≡ (e, ack e 9 err))
handle_group_function-Applies_example =
    handle_group_function-Applies owner 700 9 500 (0xff ∷ []) refl (omega arith)

abbrev two_frames : TxBuffer ℕ
two_frames = record { queue = 11 ∷ 12 ∷ []; overflowed = 4; fast_seq = λ _ _. 0 }

drain_all-delivers_example :
    let r = drain_all two_frames (written ∷ would_block ∷ written ∷ []) in
    (r.1 ≡ 11 ∷ 12 ∷ []) × (r.0.queue ≡ []) × (r.0.overflowed ≡ 0)
drain_all-delivers_example =
    drain_all-delivers two_frames (written ∷ would_block ∷ written ∷ []) (omega arith) (omega arith)
      tt

run-Beats_example : Beats 60000 (run plain_can host node events).device
run-Beats_example = run-Beats plain_can host config 0 250000 node events refl

run-IsBounded_example : IsBounded plain_can (run plain_can host node events).bus.tx_buf
run-IsBounded_example = run-IsBounded plain_can host node events (omega arith)

abbrev before : LoadSample
before = record { rx_bytes = 4294967290; tx_bytes = 0; rx_packets = 10; tx_packets = 0; at_ms = 0 }

abbrev after : LoadSample
after = record {
  rx_bytes = 4294967295;
  tx_bytes = 800;
  rx_packets = 20;
  tx_packets = 100;
  at_ms = 5000;
}

compute_load_pct-exact_example :
    compute_load_pct before after 250000
    ≡ some (min (wire_bits before after * 100000 / (250000 * (5000 - 0))) 100)
compute_load_pct-exact_example =
    compute_load_pct-exact before after 250000
      (record {
        rx_bytes = omega arith;
        tx_bytes = omega arith;
        rx_packets = omega arith;
        tx_packets = omega arith;
      })
      (record {
        rx_bytes = omega arith;
        tx_bytes = omega arith;
        rx_packets = omega arith;
        tx_packets = omega arith;
      })
      (omega arith) (omega arith) (omega arith)

-- Sixteen bytes later the counter has started again.
abbrev again : LoadSample
again = record after { rx_bytes = 10 }

compute_load_pct-wrapped_example : compute_load_pct before again 250000 ≡ some 100
compute_load_pct-wrapped_example =
    compute_load_pct-wrapped before again 250000 (omega arith) (omega arith) (omega arith)
      (omega arith) (omega arith)
