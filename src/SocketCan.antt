-- ===== src/SocketCan.antt =====
-- crates/canboat-io/src/device/socketcan.rs: the outbound ring `TxBuffer`, `Bus::send_pgn`, which
-- splits a message into CAN frames, and the frame that `handle_frame` makes of a received one. The
-- frame type and its constructors belong to the `socketcan` crate: they are the interface `CanApi`.
pub mod Parts
pub mod Wire
pub mod Delivery
pub mod Ring
use canboat_rs.Prelude.{
  ℕ, zero, suc, ◌+◌, ◌-◌, ◌*◌, ◌/◌, ◌%◌, ◌^◌, ◌≤◌, ◌<◌, ◌≡◌, List, [], ◌∷◌, ◌++◌, Option, none,
  some, Bool, true, false, ltb, leb, ◌==◌, if◌then◌else◌, length, take, drop, set, replicate,
  write_at, min, bit_and, bit_or, ◌<<<◌, u8,
}
use canboat_rs.Frame.{RawFrame, Text}
use canboat_rs.Frame
use canboat_rs.CanId.{iso11783_compose, iso11783_decompose}
use canboat_rs.Reassembly.{FramePacketType, fast, is_fast}
use canboat_rs.FastPacket.{MixedTable, packet_type}

abbrev pub can_eff_mask : ℕ
can_eff_mask = 0x1fff_ffff

abbrev pub tx_buffer_capacity : ℕ
tx_buffer_capacity = 1024

-- `ExtendedId::new`, `CanFrame::new` and what a frame shows on the wire.
pub record CanApi : Type 1 where
  pub ExtendedId : Type 0
  pub CanFrame : Type 0
  pub extended_id : ℕ → Option ExtendedId
  pub can_frame : ExtendedId → List ℕ → Option CanFrame
  pub on_wire : CanFrame → ℕ × List ℕ

-- What the crate documents: an identifier of 29 bits and data of at most eight bytes are accepted,
-- and go out as they are.
pub record Accepts (can : CanApi) : Type 0 where
  pub valid_id : (id : ℕ) → id < 2 ^ 29 → (x : can.ExtendedId) × (can.extended_id id ≡ some x)
  pub valid_frame :
      (id : ℕ) (x : can.ExtendedId) (bytes : List ℕ)
      → can.extended_id id ≡ some x
      → length bytes ≤ 8
      → (f : can.CanFrame) × (can.can_frame x bytes ≡ some f) × (can.on_wire f ≡ (id, bytes))

-- `fast_seq` maps (pgn, src) to the next sequence number, 0 where nothing was sent yet.
pub record TxBuffer (F : Type 0) : Type 0 where
  pub queue : List F
  pub overflowed : ℕ
  pub fast_seq : ℕ → ℕ → ℕ

unfoldable pub next_fast_seq : (ℕ → ℕ → ℕ) → ℕ → ℕ → ℕ × (ℕ → ℕ → ℕ)
next_fast_seq m pgn src = (
  m pgn src,
  λ p s. if p == pgn then if s == src then bit_and (m pgn src + 1) 0x07 else m p s else m p s,
)

-- The CAN frame with this index, for the data from `offset` on.
unfoldable pub chunk_len : ℕ → ℕ → ℕ
chunk_len index remaining = if index == 0 then min remaining 6 else min remaining 7

unfoldable pub chunk_frame : ℕ → ℕ → List ℕ → ℕ → ℕ → List ℕ
unfolding chunk_len
chunk_frame seq index bytes offset remaining =
    let head = u8 (bit_or (u8 (seq <<< 5)) (bit_and index 0x1f)) in
    let chunk = take (chunk_len index remaining) (drop offset bytes) in
    let blank = set (replicate 8 0xff) 0 head in
    if index == 0
    then write_at (set blank 1 (u8 (length bytes))) 2 chunk
    else write_at blank 1 chunk

module _ (can : CanApi) where
  open can use {CanFrame, extended_id, can_frame, on_wire}

  enqueue : TxBuffer CanFrame → Option CanFrame → TxBuffer CanFrame
  enqueue tx none = tx
  enqueue tx (some f) = record tx { queue = tx.queue ++ f ∷ [] }

  frame_for : ℕ → List ℕ → Option CanFrame
  frame_for can_id bytes = elim (extended_id (bit_and can_id can_eff_mask)) [
    | none ↦ none
    | some x ↦ can_frame x bytes
  ]

  unfoldable pub push : TxBuffer CanFrame → ℕ → List ℕ → TxBuffer CanFrame
  unfolding enqueue frame_for
  push tx can_id bytes =
      if leb tx_buffer_capacity (length tx.queue)
      then record tx { overflowed = tx.overflowed + 1 }
      else enqueue tx (frame_for can_id bytes)

  -- The loop that cuts the data up. Each round takes at least one byte, so that as much fuel as
  -- there are bytes is enough.
  unfoldable pub send_chunks :
      ℕ → TxBuffer CanFrame → ℕ → ℕ → List ℕ → ℕ → ℕ → ℕ → TxBuffer CanFrame
  send_chunks zero tx can_id seq bytes index offset remaining = tx
  send_chunks (suc fuel) tx can_id seq bytes index offset remaining =
      let n = chunk_len index remaining in
      let tx' = push tx can_id (chunk_frame seq index bytes offset remaining) in
      let rest =
        send_chunks fuel tx' can_id seq bytes (u8 (index + 1)) (offset + n) (remaining - n) in
      if remaining == 0 then tx else rest

  -- The ring and the frames that the consumer sees.
  pub record Bus : Type 0 where
    pub tx_buf : TxBuffer CanFrame
    pub frames_tx : List RawFrame

  unfoldable pub send_pgn_tx :
      MixedTable → TxBuffer CanFrame → ℕ → ℕ → ℕ → ℕ → List ℕ → TxBuffer CanFrame
  send_pgn_tx table tx prio pgn src dst bytes =
      let can_id = iso11783_compose prio pgn src dst in
      let next = next_fast_seq tx.fast_seq pgn src in
      let size = length bytes in
      if is_fast (packet_type table pgn)
      then send_chunks size (record tx { fast_seq = next.1 }) can_id next.0 bytes 0 0 size
      else push tx can_id bytes

  -- `Bus::send_pgn`; `now` is the formatted time.
  unfoldable pub send_pgn : MixedTable → Text → Bus → ℕ → ℕ → ℕ → ℕ → List ℕ → Bool → Bus
  send_pgn table now bus prio pgn src dst bytes emit = record bus {
    tx_buf = send_pgn_tx table bus.tx_buf prio pgn src dst bytes;
    frames_tx =
        if emit
        then bus.frames_tx ++ Frame.new (some now) prio pgn src dst bytes ∷ []
        else bus.frames_tx;
  }

-- The frame that `handle_frame` builds from an identifier and its data.
unfoldable pub single_frame : Text → ℕ × List ℕ → RawFrame
single_frame when (can_id, bytes) =
    let h = iso11783_decompose can_id in Frame.new (some when) h.prio h.pgn h.src h.dst bytes
