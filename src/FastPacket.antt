-- ===== src/FastPacket.antt =====
-- crates/canboat-io/src/fastpacket.rs. The table of the mixed range and its bounds are generated
-- from the PGN database when the crate is built: they are arguments here.
use canboat_rs.Prelude.{ℕ, ◌-◌, Bool, ◌&&◌, ltb, leb, if◌then◌else◌}
use canboat_rs.Reassembly.{FramePacketType, single, fast}

abbrev pub canboat_pgn_start : ℕ
canboat_pgn_start = 0x40000

-- `FASTPACKET_MIXED_START`, `FASTPACKET_MIXED_END` and `FASTPACKET_MIXED`.
pub record MixedTable : Type 0 where
  pub start : ℕ
  pub end : ℕ
  pub is_fast_at : ℕ → Bool

unfoldable pub packet_type : MixedTable → ℕ → FramePacketType
packet_type t pgn =
    if leb t.start pgn && ltb pgn t.end
    then if t.is_fast_at (pgn - t.start) then fast else single
    else if leb 0x10000 pgn && ltb pgn t.start
    then fast
    else if leb canboat_pgn_start pgn
    then fast
    else single
