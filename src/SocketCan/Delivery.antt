-- ===== src/SocketCan/Delivery.antt =====
-- From `send_pgn` to the receiving reassembler: what one node hands over is what the other gets.
use canboat_rs.Prelude.{
  ℕ, zero, suc, ◌+◌, ◌*◌, ◌/◌, ◌%◌, ◌^◌, ◌≤◌, ◌<◌, ◌≡◌, ◌≢◌, refl, ap, ◌∙◌, sym, List, [], ◌∷◌,
  ◌++◌, map, none, some, Bool, true, false, arith, ltb, if◌then◌else◌, length, drop, replicate,
  length-map, subst, ap₂,
}
use canboat_rs.Frame.{RawFrame, Text}
use canboat_rs.Frame
use canboat_rs.CanId.{Iso11783, iso11783_compose, iso11783_decompose}
use canboat_rs.CanId.RoundTrip.{pf_of, iso11783_compose-lt, iso11783_decompose-iso11783_compose}
use canboat_rs.FastPacket.{MixedTable, packet_type}
use canboat_rs.Reassembly.{Reassembler, Reassembled, fast, partial, complete, is_fast}
use canboat_rs.Reassembly.Slots.{find_slot}
use canboat_rs.Reassembly.Transport.{pgn_iso_tp_cm, pgn_iso_tp_dt}
use canboat_rs.Reassembly.Push.{push_all}
use canboat_rs.Reassembly.Mask.{frame_count}
use canboat_rs.Reassembly.Assembly.{add}
use canboat_rs.Reassembly.Message.{Key, Remaining, last, more, outcomes, IsBusKey}
use canboat_rs.Reassembly.AnyOrder.{push_all-Remaining}
use canboat_rs.SocketCan.{
  CanApi, Accepts, Bus, send_pgn_tx, send_pgn, single_frame, next_fast_seq, tx_buffer_capacity,
}
use canboat_rs.SocketCan.Parts.{parts, part-IsPart}
use canboat_rs.SocketCan.Wire.{wire, frames, send_chunks-wire_all}

abbrev upto : ℕ → ℕ → Bool
upto i j = ltb j i

upto-suc : (i : ℕ) → add (upto i) i ≡ upto (suc i)
upto-suc i = λ t j. next j t
  where
    next : (j : ℕ) → add (upto i) i j ≡ upto (suc i) j
    next j = ground arith

upto-zero : upto 0 ≡ (λ _. false)
upto-zero = λ t j. none_yet j t
  where
    none_yet : (j : ℕ) → upto 0 j ≡ false
    none_yet j = ground arith

module _ (p : List ℕ) (small : length p ≤ 223) (seq : ℕ) (seq_fits : seq < 8) (when : Text)
    (h : Iso11783) where
  abbrev key : Key
  key = record { pgn = h.pgn; src = h.src; seq = seq * 32 }

  abbrev received : List ℕ → RawFrame
  received b = Frame.new (some when) h.prio h.pgn h.src h.dst b

  parts-Remaining :
      (n i : ℕ)
      → i + suc n ≡ frame_count (length p)
      → Remaining p key (upto i) (map received (parts p small seq seq_fits (suc n) i))
  parts-Remaining zero i count =
      last i _ (part-IsPart p small seq seq_fits (some when) h i (omega arith)) (ground arith)
        (λ j hj. ground arith) (λ z. omega arith)
  parts-Remaining (suc n) i count =
      more i (suc i) _ (part-IsPart p small seq seq_fits (some when) h i (omega arith))
        (ground arith) (omega arith) (ground arith)
        (subst
          (λ (got : ℕ → Bool).
            Remaining p key got (map received (parts p small seq seq_fits (suc n) (suc i))))
          (sym (upto-suc i)) (parts-Remaining n (suc i) (omega arith)))

  outcomes-parts :
      (n i : ℕ)
      → outcomes p (map received (parts p small seq seq_fits (suc n) i))
        ≡ replicate n partial ++ complete (record (received []) { payload = p }) ∷ []
  outcomes-parts zero i = refl
  outcomes-parts (suc n) i = ap (λ (t : List Reassembled). partial ∷ t) (outcomes-parts n (suc i))

  push_all-parts :
      (r : Reassembler)
      → IsBusKey key
      → 0 < length p
      → 0 < length r.slots
      → find_slot r h.pgn h.src (seq * 32) ≡ none
      → (push_all r (map received (parts p small seq seq_fits (frame_count (length p)) 0)) fast).1
        ≡ replicate (length p / 7) partial ++ complete (record (received []) { payload = p }) ∷ []
  push_all-parts r bus some_bytes room e =
      let count : frame_count (length p) ≡ suc (length p / 7) = omega arith in
      let all =
        subst
          (λ (got : ℕ → Bool).
            Remaining p key got (map received (parts p small seq seq_fits (suc (length p / 7)) 0)))
          upto-zero (parts-Remaining (length p / 7) 0 (omega arith)) in
      rw count (push_all-Remaining p key bus small r _ e room all ∙ outcomes-parts (length p / 7) 0)

  -- The frames that the receiver builds of identifiers and data.
  single_frame-received :
      (id : ℕ) (bs : List (List ℕ))
      → iso11783_decompose id ≡ h
      → map (single_frame when) (map (λ (b : List ℕ). (id, b)) bs) ≡ map received bs
  unfolding single_frame
  single_frame-received id [] e = refl
  single_frame-received id (b ∷ bs) e =
      ap₂
        (λ (x : Iso11783) (t : List RawFrame). Frame.new (some when) x.prio x.pgn x.src x.dst b ∷ t)
        e (single_frame-received id bs e)

drop-append_lem : {A : Type 0} → (n : ℕ) (xs ys : List A) → length xs ≡ n → drop n (xs ++ ys) ≡ ys
drop-append_lem zero [] ys e = refl
drop-append_lem (suc n) [] ys e = absurd (omega arith)
drop-append_lem zero (x ∷ xs) ys e = absurd (omega arith)
drop-append_lem (suc n) (x ∷ xs) ys e = drop-append_lem n xs ys (omega arith)

module _ (can : CanApi) where
  -- The CAN frames that a call added to the ring.
  abbrev pub sent_by : Bus can → Bus can → List (ℕ × List ℕ)
  sent_by before after = drop (length before.tx_buf.queue) (wire can after.tx_buf)

module _ (can : CanApi) (ok : Accepts can) where
  sent_by-send_pgn :
      (table : MixedTable) (now : Text) (bus : Bus can) (prio pgn src dst : ℕ) (p : List ℕ)
      (emit : Bool) (small : length p ≤ 223) (seq_fits : bus.tx_buf.fast_seq pgn src < 8)
      (fits : iso11783_compose prio pgn src dst < 2 ^ 29)
      → is_fast (packet_type table pgn) ≡ true
      → 0 < length p
      → length bus.tx_buf.queue + frame_count (length p) ≤ 1024
      → sent_by can bus (send_pgn can table now bus prio pgn src dst p emit)
        ≡ frames can ok p small
            (bus.tx_buf.fast_seq pgn src)
            seq_fits
            (iso11783_compose prio pgn src dst)
            fits
            (frame_count (length p))
            0
  unfolding send_pgn send_pgn_tx next_fast_seq
  sent_by-send_pgn table now bus prio pgn src dst p emit small seq_fits fits is some_bytes room =
      let tx = record bus.tx_buf { fast_seq = (next_fast_seq bus.tx_buf.fast_seq pgn src).1 } in
      let id = iso11783_compose prio pgn src dst in
      let all =
        send_chunks-wire_all can ok p small (bus.tx_buf.fast_seq pgn src) seq_fits id fits tx
          some_bytes room in
      rw is (
        ap (drop (length bus.tx_buf.queue)) all
        ∙ drop-append_lem (length bus.tx_buf.queue) (wire can bus.tx_buf) _
            (length-map bus.tx_buf.queue can.on_wire))

  -- A message of 1 to 223 bytes of a fast-packet PGN other than the two of the transport protocol,
  -- with fields that fit the identifier, handed to `send_pgn` while the ring has room for its frames:
  -- the frames that this adds to the ring, received by a reassembler with a slot or more in which
  -- the key (PGN, source, sequence number) is not in flight, give `partial` for all but the last
  -- and then the whole message, from the same source with the same priority and PGN, to the same
  -- destination for a PDU1 PGN and to the global address otherwise.
  pub push_all-send_pgn :
      (table : MixedTable) (now when : Text) (bus : Bus can) (r : Reassembler)
      (prio pgn src dst : ℕ) (p : List ℕ) (emit : Bool)
      → is_fast (packet_type table pgn) ≡ true
      → (pgn ≢ pgn_iso_tp_cm) × (pgn ≢ pgn_iso_tp_dt)
      → prio < 8
      → pgn < 2 ^ 18
      → src < 256
      → dst < 256
      → (pf_of pgn < 240 → pgn % 256 ≡ 0)
      → 0 < length p
      → length p ≤ 223
      → bus.tx_buf.fast_seq pgn src < 8
      → length bus.tx_buf.queue + frame_count (length p) ≤ tx_buffer_capacity
      → 0 < length r.slots
      → find_slot r pgn src (bus.tx_buf.fast_seq pgn src * 32) ≡ none
      → (push_all r
          (map
            (single_frame when)
            (sent_by can bus (send_pgn can table now bus prio pgn src dst p emit)))
          fast).1
        ≡ replicate (length p / 7) partial
          ++ complete (record {
            timestamp = some when;
            prio = prio;
            pgn = pgn;
            src = src;
            dst = if ltb (pf_of pgn) 240 then dst else 255;
            payload = p;
          })
            ∷ []
  push_all-send_pgn table now when bus r prio pgn src dst p emit is tp hp hg hs hd pdu some_bytes
        small seq_fits room slots e =
      let seq = bus.tx_buf.fast_seq pgn src in
      let id = iso11783_compose prio pgn src dst in
      let fits = iso11783_compose-lt prio pgn src dst hp hg hs hd pdu in
      let h : Iso11783 = record {
        prio = prio;
        pgn = pgn;
        src = src;
        dst = if ltb (pf_of pgn) 240 then dst else 255;
      } in
      let sent =
        sent_by-send_pgn table now bus prio pgn src dst p emit small seq_fits fits is some_bytes
          room in
      let got =
        single_frame-received p small seq seq_fits when h id
          (parts p small seq seq_fits (frame_count (length p)) 0)
          (iso11783_decompose-iso11783_compose prio pgn src dst hp hg hs hd pdu) in
      ap (λ (t : List RawFrame). (push_all r t fast).1) (ap (map (single_frame when)) sent ∙ got)
      ∙ push_all-parts p small seq seq_fits when h r tp some_bytes slots e
