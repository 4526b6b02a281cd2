-- ===== src/Responder.antt =====
-- crates/canboat-io/src/nmea_responder.rs: the standard answers of an addressable node, and
-- `build_network_status` of crates/canboat-core/src/format/ikonvert.rs. `ProductInfo::frame`
-- is in Product.
pub mod Product
use canboat_rs.Prelude.{
  ℕ, ◌/◌, ◌%◌, ◌^◌, List, [], ◌∷◌, ◌++◌, Option, none, some, replicate, take, write_at, u8, ◌>>>◌,
}
use canboat_rs.Frame.{RawFrame, Text, addr_global, le_bytes}
use canboat_rs.Frame

abbrev pub pgn_iso_ack : ℕ
pgn_iso_ack = 59392

abbrev pub pgn_pgn_list : ℕ
pgn_pgn_list = 126464

abbrev pub pgn_heartbeat : ℕ
pgn_heartbeat = 126993

abbrev pub ikonvert_bem : ℕ
ikonvert_bem = 0x40100

pub record ProductInfo : Type 0 where
  pub db_version : ℕ
  pub product_code : ℕ
  pub model_id : Text
  pub software_version : Text
  pub model_version : Text
  pub model_serial : Text
  pub certification_level : ℕ
  pub load_equivalency : ℕ

-- Three bytes for each PGN.
unfoldable pub pgn_bytes : List ℕ → List ℕ
pgn_bytes [] = []
pgn_bytes (pgn ∷ pgns) = take 3 (le_bytes 4 pgn) ++ pgn_bytes pgns

unfoldable pub pgn_list_frames : ℕ → ℕ → List ℕ → List ℕ → List RawFrame
pgn_list_frames src dst tx rx =
    Frame.new none 6 pgn_pgn_list src dst (0 ∷ pgn_bytes tx)
    ∷ Frame.new none 6 pgn_pgn_list src dst (1 ∷ pgn_bytes rx)
    ∷ []

unfoldable pub iso_ack_frame : ℕ → ℕ → ℕ → ℕ → RawFrame
iso_ack_frame src dst control pgn =
    Frame.new none 6 pgn_iso_ack src dst
      (control ∷ 0xff ∷ 0xff ∷ 0xff ∷ 0xff ∷ take 3 (le_bytes 4 pgn))

unfoldable pub heartbeat_frame : ℕ → ℕ → ℕ → RawFrame
heartbeat_frame src seq interval_ms =
    let offset = interval_ms / 10 % 2 ^ 16 in
    Frame.new none 7 pgn_heartbeat src addr_global
      (u8 offset ∷ u8 (offset >>> 8) ∷ seq ∷ 0xcc ∷ 0xff ∷ 0xff ∷ 0xff ∷ 0xff ∷ [])

-- What a gateway can tell of the network; `none` where it cannot.
pub record NetworkStatus : Type 0 where
  pub load_pct : Option ℕ
  pub errors : Option ℕ
  pub device_count : Option ℕ
  pub uptime_s : Option ℕ
  pub gateway_addr : ℕ
  pub rejected_tx : Option ℕ

-- A field of so many bytes at an offset, left as it is where there is no value.
unfoldable pub put_field : ℕ → ℕ → Option ℕ → List ℕ → List ℕ
put_field width off none bytes = bytes
put_field width off (some v) bytes = write_at bytes off (le_bytes width v)

unfoldable pub build_network_status : NetworkStatus → Option Text → RawFrame
build_network_status status timestamp =
    let blank = replicate 15 0xff in
    let a = put_field 4 1 status.errors (put_field 1 0 status.load_pct blank) in
    let b = put_field 4 6 status.uptime_s (put_field 1 5 status.device_count a) in
    let c = put_field 4 11 status.rejected_tx (put_field 1 10 (some status.gateway_addr) b) in
    record {
      timestamp = timestamp;
      prio = 7;
      pgn = ikonvert_bem;
      src = status.gateway_addr;
      dst = 255;
      payload = c;
    }
