-- ===== src/Lib.antt =====
-- canboat-rs, verified in part.
--
-- canboat-rs reads and writes the traffic of NMEA 2000 boat networks. A gateway or a CAN socket
-- delivers bytes or CAN frames; these become bus frames (`RawFrame`), several of which are put
-- together to messages of up to 223 bytes (fast packets) or 1785 bytes (the ISO transport
-- protocol), and messages are decoded, shown and served. In the other direction messages are cut
-- into frames again, and a node that sends has an address, which it claims on the bus. Above that
-- are the tools that serve the messages. Modelled are the lower half, up to whole messages and the
-- SocketCAN gateway as a node on the bus, the decoding and encoding of the fields of a message, and
-- some state machines of the tools; in this library
--
--   * Prelude: the names that the other modules share, tests, lists, machine words and bits.
--   * Frame: crates/canboat-core/src/frame.rs. The field `data` is `payload`.
--   * Ngt1: crates/canboat-core/src/format/ngt1.rs. `Ngt1Decoder::push_byte` is `push_byte`, by the
--     state in `on_state`; `encode_ngt_message` returns `none` where the source panics.
--     Ngt1/Message: `to_raw_frame`, `to_raw_frame_any_dir`, `encode_n2k_send_frame`.
--     Ngt1/Stuffing: what a framed byte string does to the decoder.
--   * CanId: crates/canboat-core/src/format/common.rs.
--   * FastPacket: crates/canboat-io/src/fastpacket.rs. The generated table is an argument.
--   * Reassembly: crates/canboat-core/src/reassembly.rs. `Reassembler::push` is
--     `Reassembly.Push.push`, and what it does with the slot of the frame is `accept`; the search
--     and eviction of slots are in Reassembly/Slots, the transport protocol in
--     Reassembly/Transport. Log messages are left out. Reassembly/Mask, Buffer, Assembly, Progress
--     and Lookup carry the proof of Reassembly/AnyOrder; Reassembly/WellFormed and Bounds are about
--     the sizes of the buffers.
--   * SocketCan: the sending half of crates/canboat-io/src/device/socketcan.rs, `TxBuffer` and
--     `Bus::send_pgn`, and the frame that `handle_frame` makes. The crate `socketcan` is the
--     interface `CanApi`; `Accepts` is what it documents.
--   * Responder: crates/canboat-io/src/nmea_responder.rs, and `build_network_status` of
--     crates/canboat-core/src/format/ikonvert.rs. Responder/Product has `ProductInfo::frame`, which
--     goes through Encode; the generated constants of its fields are `ProductFields`.
--   * Gateway: the rest of crates/canboat-io/src/device/socketcan.rs. `NmeaDevice` is the record of
--     this name; its handlers are functions that give the device and the effects on the bus, in
--     Gateway/Status (load and network status), Gateway/Requests (claims, ISO requests, group
--     functions) and Gateway/Steps (`start`, `tick`, `handle_frame`, `dispatch_cmd`). Gateway/Worker
--     has `tx_drain_one`, the time to poll and the loop of `worker` as steps on events. The clock,
--     the kernel's counters and the results of writes are part of the events; the generated tables,
--     the version and the machine's identifier are in `Host`. Gateway/Kept
--     and Gateway/Speech carry the theorems of the other files.
--   * Name: crates/canboat-io/src/name.rs.
--   * AddressClaim: crates/canboat-io/src/address_claim.rs, with sequences of events.
--   * Ebl: crates/canboat-core/src/format/ebl.rs, the encoder of logs. Its decoder is `Ngt1`.
--   * FieldBits: `extract_bits` of crates/canboat-core/src/bits.rs, `write_bits` and `mask_to_width`
--     of crates/canboat-core/src/encode.rs. `extract_raw` is the loop of `extract_bits` with its
--     guards, and `extracted_of` what it makes of the sign and the offset. FieldBits/Sentinel has
--     `is_unavailable` and `classify_sentinel`.
--   * Utf8: the parts of the standard library's strings that the decoder uses, and
--     `trim_string_padding` of crates/canboat-core/src/decode.rs. A text is the list of its bytes.
--   * Schema: the types of crates/canboat-schema/src/lib.rs and the lookups of
--     crates/canboat-core/src/db.rs. The arithmetic of `f64` is the interface `Floats`; the generated
--     tables, with the functions `dispatch` and `find_catchall`, are a `PgnDatabase`.
--   * Decode: crates/canboat-core/src/decode.rs. The types are in Decode, the functions for one kind
--     of field in Decode/Scalars, Decode/Strings and Decode/Dynamic; `decode_one_field_at` and
--     `decode_variable` are in Decode/Field, `decode_fields`, `decode_repeating`, `decode` and
--     `build_index_by_order` in Decode/Walk, the accessors of the results in Decode/Access. The mutable context is handed on. Decode/OwnBits has the
--     types of fields that read nothing but their own bits, Decode/Shallow those that do not go
--     through the decoder again; Decode/Outside is about fields that belong to no repeating set.
--   * Encode: crates/canboat-core/src/encode.rs, with `encode`, `encode_for` and `encode_by_pgn` of
--     db.rs. The staging of one value is in Encode, `PgnBuilder` in Encode/Build. Encode/Layout has
--     the places of the fields in a message, Encode/Unscaled the fields that hold integers.
--   * Wire: the handshake and the framing of crates/canboat-wire/src/lib.rs. The crate `postcard`
--     is the interface `Postcard`.
--
--   * Int: signed integers over the native numbers.
--   * Timestamp: the calendar and `to_unix_ms` of crates/canboat-core/src/format/timestamp.rs, and
--     `format_iso` of socketcan.rs.
--   * RequestEngine: crates/canboat-bridge/src/n2kd/request_engine.rs. An `Instant` is a number of
--     milliseconds, a turn of the thread is `turn`.
--   * NmeaFilter: crates/canboat-bridge/src/n2kd/nmea_filter.rs, without files and reports.
--     NmeaFilter/Rules is about the rules of the NAMEs, NmeaFilter/Lines about the lines that pass.
--   * Supervisor: the times of reopening in crates/canboat-io/src/device/supervisor.rs.
--
-- The parts meet in SocketCan/Delivery: `send_pgn` composes an identifier (CanId), classifies the
-- PGN (FastPacket) and cuts the message up; the frames that a receiver makes of that go through the
-- reassembler. They meet again in Gateway: a received frame goes to the claim state machine
-- (AddressClaim) and the responders (Responder), then through the reassembler, and what is to be
-- sent goes through `send_pgn`. The builder (Encode) and the decoder (Decode) meet in
-- Encode/RoundTrip, over the bits of FieldBits.
--
-- Numbers are the native ones, with the wrap-around of a machine word written out. A loop over a
-- byte string is recursion on it. The loop of `send_pgn` runs on fuel, as many rounds as there are
-- bytes, which is enough since each round takes one byte or more (SocketCan/Wire); the search for a
-- free address runs over the 254 addresses, that of `next_due` over the 256. The sleep of the
-- supervisor runs on fuel, as many rounds as there are milliseconds, each of which sleeps for one or
-- more (Supervisor/Backoff). The walk over the fields of a message takes a field or more a pass, so as
-- many passes as there are fields are enough, as are as many rounds as there are bytes for UTF-8 and
-- for bits that are packed to bytes. The decoder calls itself for the type of a field of another PGN
-- and for the fields of a NAME; how many levels it may go is an argument, and two are enough
-- (Decode/Depth). A repeating set without fields, with which the source would not end, is passed as
-- often as there are fields.
--
-- Not modelled: sockets, threads and files; the tables that the build generates and the build
-- itself; the conversion of units and the parsing of command line arguments (`push_arg`);
-- the text formats; `normalize_timestamp`; the snapshots, the servers, and the user interface.
mod Prelude
pub mod Frame
pub mod Ngt1
pub mod Reassembly
pub mod CanId
pub mod FastPacket
pub mod SocketCan
pub mod Name
pub mod AddressClaim
pub mod Ebl
pub mod Wire
pub mod Int
pub mod Timestamp
pub mod Responder
pub mod Gateway
pub mod RequestEngine
pub mod NmeaFilter
pub mod Supervisor
pub mod FieldBits
pub mod Utf8
pub mod Schema
pub mod Decode
pub mod Encode
mod Tests
