-- ===== src/CanId.antt =====
-- crates/canboat-core/src/format/common.rs: the 29-bit ISO 11783 CAN identifier. A cast to u8 and a
-- shift on u32 drop the bits that do not fit.
pub mod RoundTrip
use canboat_rs.Prelude.{ℕ, ◌%◌, ltb, if◌then◌else◌, bit_and, bit_or, ◌<<<◌, ◌>>>◌, u8, u32}

-- The fields of an identifier.
pub record Iso11783 : Type 0 where
  pub prio : ℕ
  pub pgn : ℕ
  pub src : ℕ
  pub dst : ℕ

unfoldable pub iso11783_decompose : ℕ → Iso11783
iso11783_decompose id =
    let rdp = bit_and (id >>> 24) 0x3 in
    let pf = u8 (bit_and (id >>> 16) 0xff) in
    let ps = u8 (bit_and (id >>> 8) 0xff) in
    let head = bit_or (u32 (rdp <<< 16)) (u32 (pf <<< 8)) in
    record {
      prio = u8 (bit_and (id >>> 26) 0x7);
      pgn = if ltb pf 240 then head else bit_or head ps;
      src = u8 (bit_and id 0xff);
      dst = if ltb pf 240 then ps else 0xff;
    }

unfoldable pub iso11783_compose : ℕ → ℕ → ℕ → ℕ → ℕ
iso11783_compose prio pgn src dst =
    let pf = bit_and (pgn >>> 8) 0xff in
    let body =
      if ltb pf 240
      then bit_or (bit_or src (u32 (dst <<< 8))) (u32 (pgn <<< 8))
      else bit_or src (u32 (pgn <<< 8)) in
    bit_or body (u32 (prio <<< 26))
