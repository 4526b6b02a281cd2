-- ===== src/SocketCan/Wire.antt =====
-- What the loop of `send_pgn` puts into the ring: the frames of the message, in order.
use canboat_rs.Prelude.{
  ℕ, zero, suc, ◌+◌, ◌-◌, ◌^◌, ◌≤◌, ◌<◌, ◌≡◌, refl, ap, ◌∙◌, sym, List, [], ◌∷◌, ◌++◌, map, false,
  arith, leb, ◌==◌, length, min, u8, length-append, length-map, ap₂, ne→==, bit_and, bit_and_mask,
}
use mathlib.Core.List.{append_assoc, append-nil}
use canboat_rs.Reassembly.{dst_off}
use canboat_rs.Reassembly.Mask.{frame_count}
use canboat_rs.SocketCan.{
  CanApi, Accepts, TxBuffer, Bus, tx_buffer_capacity, can_eff_mask, chunk_len, send_chunks,
  send_pgn_tx, send_pgn, single_frame, next_fast_seq,
}
use canboat_rs.SocketCan
use canboat_rs.SocketCan.Parts.{part, parts, length-part}

module _ (can : CanApi) where
  open can use {CanFrame, on_wire}

  -- The ring, as it will go out.
  abbrev pub wire : TxBuffer CanFrame → List (ℕ × List ℕ)
  wire tx = map on_wire tx.queue

  append-on_wire :
      (xs ys : List CanFrame) → map on_wire (xs ++ ys) ≡ map on_wire xs ++ map on_wire ys
  append-on_wire [] ys = refl
  append-on_wire (x ∷ xs) ys = ap (◌∷◌ (on_wire x)) (append-on_wire xs ys)

  queue_grows :
      (tx tx' : TxBuffer CanFrame) (x : ℕ × List ℕ)
      → wire tx' ≡ wire tx ++ x ∷ []
      → length tx'.queue ≡ length tx.queue + 1
  queue_grows tx tx' x e =
      sym (length-map tx'.queue on_wire)
      ∙ ap length e
      ∙ length-append (wire tx) (x ∷ [])
      ∙ ap (λ (t : ℕ). t + 1) (length-map tx.queue on_wire)

module _ (can : CanApi) (ok : Accepts can) where
  open can use {CanFrame, on_wire}

  push-wire :
      (tx : TxBuffer CanFrame) (id : ℕ) (bytes : List ℕ)
      → id < 2 ^ 29
      → length bytes ≤ 8
      → length tx.queue < 1024
      → wire can (SocketCan.push can tx id bytes) ≡ wire can tx ++ (id, bytes) ∷ []
  unfolding SocketCan.push SocketCan.enqueue SocketCan.frame_for
  push-wire tx id bytes hid short room =
      let mask : bit_and id can_eff_mask ≡ id = bit_and_mask 29 id ∙ omega arith in
      let some_id = ok.valid_id id hid in
      let some_frame = ok.valid_frame id some_id.0 bytes some_id.1 short in
      let space : leb 1024 (length tx.queue) ≡ false = ground arith in
      rw (space, SocketCan.frame_for, mask, some_id.1, SocketCan.enqueue, some_frame.1)
        (append-on_wire can tx.queue (some_frame.0 ∷ [])
          ∙ ap (λ (t : ℕ × List ℕ). wire can tx ++ t ∷ []) some_frame.2)

  -- The frames that the loop appends, from the one with index i on, when there is room for them.
  module _ (p : List ℕ) (small : length p ≤ 223) (seq : ℕ) (seq_fits : seq < 8) (id : ℕ)
      (fits : id < 2 ^ 29) where
    abbrev pub frames : ℕ → ℕ → List (ℕ × List ℕ)
    frames n i = map (λ (b : List ℕ). (id, b)) (parts p small seq seq_fits n i)

    abbrev offset_of : ℕ → ℕ
    offset_of i = min (dst_off i) (length p)

    next_offset :
        (i : ℕ)
        → dst_off i < length p
        → dst_off i + chunk_len i (length p - dst_off i) ≡ offset_of (suc i)
    unfolding dst_off chunk_len
    next_offset i h = ground arith

    advances : (i : ℕ) → dst_off i < length p → dst_off i < offset_of (suc i)
    unfolding dst_off
    advances i h = ground arith

    start_lt : (n i : ℕ) → i + suc n ≡ frame_count (length p) → 0 < length p → dst_off i < length p
    unfolding dst_off
    start_lt n i h some_bytes = ground arith

    end_le : (i : ℕ) → i ≡ frame_count (length p) → length p ≤ dst_off i
    unfolding dst_off
    end_le i h = ground arith

    sent_all :
        (fuel : ℕ) (tx : TxBuffer CanFrame) (i offset : ℕ)
        → wire can (send_chunks can fuel tx id seq p i offset 0) ≡ wire can tx
    unfolding send_chunks
    sent_all zero tx i offset = refl
    sent_all (suc fuel) tx i offset = refl

    pub send_chunks-wire :
        (fuel n i : ℕ) (tx : TxBuffer CanFrame)
        → 0 < length p
        → i + n ≡ frame_count (length p)
        → length p - offset_of i ≤ fuel
        → length tx.queue + n ≤ 1024
        → wire can (send_chunks can fuel tx id seq p i (offset_of i) (length p - offset_of i))
          ≡ wire can tx ++ frames n i
    unfolding send_chunks
    send_chunks-wire fuel zero i tx some_bytes count enough room =
        let done : length p - offset_of i ≡ 0 = omega (arith, end_le i (omega arith)) in
        rw done (sent_all fuel tx i (offset_of i) ∙ sym (append-nil (wire can tx)))
    send_chunks-wire zero (suc n) i tx some_bytes count enough room =
        absurd (omega (arith, start_lt n i count some_bytes))
    send_chunks-wire (suc fuel) (suc n) i tx some_bytes count enough room =
        let here = start_lt n i count some_bytes in
        let at : offset_of i ≡ dst_off i = omega arith in
        let busy : length p - dst_off i == 0 ≡ false = ne→== _ 0 (λ e. absurd (omega arith)) in
        let small_index : u8 (i + 1) ≡ suc i = omega arith in
        let tx' = SocketCan.push can tx id (part p small seq seq_fits i) in
        let sent : wire can tx' ≡ wire can tx ++ (id, part p small seq seq_fits i) ∷ [] =
          push-wire tx id (part p small seq seq_fits i) fits
            (omega (arith, length-part p small seq seq_fits i)) (omega arith) in
        let left : length p - dst_off i - chunk_len i (length p - dst_off i)
            ≡ length p - offset_of (suc i) =
          omega (arith, next_offset i here) in
        rw (at, busy, small_index, next_offset i here, left)
          (send_chunks-wire fuel n (suc i) tx' some_bytes (omega arith)
              (omega (arith, advances i here)) (omega (arith, queue_grows can tx tx' _ sent))
            ∙ ap (λ (t : List (ℕ × List ℕ)). t ++ frames n (suc i)) sent
            ∙ append_assoc (wire can tx) ((id, part p small seq seq_fits i) ∷ [])
                (frames n (suc i)))

    -- As much fuel as there are bytes is enough for the whole message.
    pub send_chunks-wire_all :
        (tx : TxBuffer CanFrame)
        → 0 < length p
        → length tx.queue + frame_count (length p) ≤ 1024
        → wire can (send_chunks can (length p) tx id seq p 0 0 (length p))
          ≡ wire can tx ++ frames (frame_count (length p)) 0
    unfolding dst_off
    send_chunks-wire_all tx some_bytes room =
        let start : offset_of 0 ≡ 0 = omega arith in
        let whole : length p - 0 ≡ length p = omega arith in
        let all : wire can
              (send_chunks can (length p) tx id seq p 0 (offset_of 0) (length p - offset_of 0))
            ≡ wire can tx ++ frames (frame_count (length p)) 0 =
          send_chunks-wire (length p) (frame_count (length p)) 0 tx some_bytes (omega arith)
            (omega arith) room in
        ap₂ (λ (o l : ℕ). wire can (send_chunks can (length p) tx id seq p 0 o l)) (sym start)
          (omega arith)
        ∙ all
