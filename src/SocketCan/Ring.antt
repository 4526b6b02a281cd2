-- ===== src/SocketCan/Ring.antt =====
-- The bound of the outbound ring.
use canboat_rs.Prelude.{
  ℕ, zero, suc, ◌≤◌, ◌<◌, ◌==◌, List, [], ◌∷◌, Option, none, some, Bool, arith, leb, length,
  length-append, Bool-cases, inl, inr,
}
use canboat_rs.Frame.{Text}
use canboat_rs.FastPacket.{MixedTable, packet_type}
use canboat_rs.Reassembly.{is_fast}
use canboat_rs.SocketCan.{
  CanApi, TxBuffer, Bus, send_chunks, send_pgn_tx, send_pgn, tx_buffer_capacity, chunk_len,
  chunk_frame, next_fast_seq, can_eff_mask,
}
use canboat_rs.SocketCan

module _ (can : CanApi) where
  open can use {CanFrame}

  -- The ring is within its capacity.
  abbrev pub IsBounded : TxBuffer CanFrame → Type 0
  IsBounded tx = length tx.queue ≤ tx_buffer_capacity

  enqueue-IsBounded :
      (tx : TxBuffer CanFrame) (f : Option CanFrame)
      → length tx.queue < tx_buffer_capacity
      → IsBounded (SocketCan.enqueue can tx f)
  unfolding SocketCan.enqueue
  enqueue-IsBounded tx none room = omega arith
  enqueue-IsBounded tx (some f) room = omega (arith, length-append tx.queue (f ∷ []))

  push-IsBounded :
      (tx : TxBuffer CanFrame) (id : ℕ) (bytes : List ℕ)
      → IsBounded tx
      → IsBounded (SocketCan.push can tx id bytes)
  unfolding SocketCan.push
  push-IsBounded tx id bytes h = elim (Bool-cases (leb tx_buffer_capacity (length tx.queue))) [
    | inl full ↦ rw full h
    | inr room ↦ rw room (enqueue-IsBounded tx (SocketCan.frame_for can id bytes) (ground arith))
  ]

  send_chunks-IsBounded :
      (fuel : ℕ) (tx : TxBuffer CanFrame) (id seq : ℕ) (p : List ℕ) (i o l : ℕ)
      → IsBounded tx
      → IsBounded (send_chunks can fuel tx id seq p i o l)
  unfolding send_chunks
  send_chunks-IsBounded zero tx id seq p i o l h = h
  send_chunks-IsBounded (suc fuel) tx id seq p i o l h = elim (Bool-cases (l == 0)) [
    | inl done ↦ rw done h
    | inr more ↦ rw more (
        send_chunks-IsBounded fuel _ id seq p _ _ _
          (push-IsBounded tx id (chunk_frame seq i p o l) h))
  ]

  -- Whatever is handed over, of any PGN and size: a ring within its capacity stays within it, also
  -- when the message does not fit.
  pub send_pgn-IsBounded :
      (table : MixedTable) (now : Text) (bus : Bus can) (prio pgn src dst : ℕ) (p : List ℕ)
      (emit : Bool)
      → IsBounded bus.tx_buf
      → IsBounded (send_pgn can table now bus prio pgn src dst p emit).tx_buf
  unfolding send_pgn send_pgn_tx
  send_pgn-IsBounded table now bus prio pgn src dst p emit h =
      elim (Bool-cases (is_fast (packet_type table pgn))) [
        | inl is ↦ rw is (send_chunks-IsBounded (length p) _ _ _ p 0 0 (length p) h)
        | inr single ↦ rw single (push-IsBounded bus.tx_buf _ p h)
      ]
