-- ===== src/Tests/FastPackets.antt =====
-- The theorems on fast packets and on the outbound ring at concrete inputs.
use canboat_rs.Prelude.{
  ℕ, ◌*◌, ap, sym, ◌∙◌, if_both, ◌^◌, ◌<◌, ◌≡◌, refl, List, [], ◌∷◌, map, Option, none, some, true,
  false, arith, ltb, leb, if◌then◌else◌, length, lt→ltb, le→leb,
}
use canboat_rs.Frame.{RawFrame}
use canboat_rs.Frame
use canboat_rs.FastPacket.{MixedTable, packet_type}
use canboat_rs.Reassembly.{Reassembler, Reassembled, fast, partial, complete}
use canboat_rs.Reassembly
use canboat_rs.Reassembly.Slots.{find_slot, position}
use canboat_rs.Reassembly.Push.{push_all}
use canboat_rs.Reassembly.Message.{Key, Remaining, last, more}
use canboat_rs.Reassembly.AnyOrder.{push_all-Remaining}
use canboat_rs.SocketCan.{CanApi, Accepts, Bus, send_pgn, single_frame}
use canboat_rs.SocketCan.Parts.{part, part-IsPart}
use canboat_rs.SocketCan.Delivery.{sent_by, push_all-send_pgn}

-- Fourteen bytes: three frames.
abbrev fourteen : List ℕ
fourteen = 1 ∷ 2 ∷ 3 ∷ 4 ∷ 5 ∷ 6 ∷ 7 ∷ 8 ∷ 9 ∷ 10 ∷ 11 ∷ 12 ∷ 13 ∷ 14 ∷ []

abbrev gnss : Key
gnss = record { pgn = 129029; src = 5; seq = 3 * 32 }

abbrev gnss_frame : ℕ → RawFrame
gnss_frame i = Frame.new none 3 129029 5 255 (part fourteen (omega arith) 3 (omega arith) i)

-- Frame 1 first, then frame 0, then frame 2.
abbrev out_of_order : List RawFrame
out_of_order = gnss_frame 1 ∷ gnss_frame 0 ∷ gnss_frame 2 ∷ []

out_of_order-Remaining : Remaining fourteen gnss (λ _. false) out_of_order
out_of_order-Remaining =
    let known = λ (i : ℕ) (h : i < 3).
      part-IsPart fourteen (omega arith) 3 (omega arith) none
        (record { prio = 3; pgn = 129029; src = 5; dst = 255 }) i h in
    more 1 0 (gnss_frame 1) (known 1 (omega arith)) refl (omega arith) refl (
      more 0 2 (gnss_frame 0) (known 0 (omega arith)) refl (omega arith) refl (
        last 2 (gnss_frame 2) (known 2 (omega arith)) refl (λ j h. ground arith)
          (λ e. absurd (omega arith))))

push_all-Remaining_example :
    (push_all Reassembly.new out_of_order fast).1
    ≡ partial ∷ partial ∷ complete (record (gnss_frame 2) { payload = fourteen }) ∷ []
unfolding find_slot position
push_all-Remaining_example =
    push_all-Remaining fourteen gnss ((λ e. absurd (omega arith)), (λ e. absurd (omega arith)))
      (omega arith) Reassembly.new out_of_order refl (omega arith) out_of_order-Remaining

-- A CAN interface that takes what the documented one takes.
abbrev pub plain_can : CanApi
plain_can = record {
  ExtendedId = ℕ;
  CanFrame = ℕ × List ℕ;
  extended_id = λ id. if ltb id (2 ^ 29) then some id else none;
  can_frame = λ id bytes. if leb (length bytes) 8 then some (id, bytes) else none;
  on_wire = λ f. f;
}

value_or : ℕ → Option ℕ → ℕ
value_or d none = d
value_or d (some x) = x

same_id : (id x : ℕ) → plain_can.extended_id id ≡ some x → x ≡ id
unfolding value_or
same_id id x e =
    sym (ap (value_or id) e)
    ∙ if_both (λ (o : Option ℕ). value_or id o ≡ id) (ltb id (2 ^ 29)) refl refl

plain_can-Accepts : Accepts plain_can
plain_can-Accepts = record {
  valid_id = λ id h. (id, rw (lt→ltb id (2 ^ 29) h) refl);
  valid_frame = λ id x bytes e h. (
    (x, bytes),
    rw (le→leb (length bytes) 8 h) refl,
    ap (λ (t : ℕ). (t, bytes)) (same_id id x e),
  );
}

abbrev pub no_table : MixedTable
no_table = record { start = 0x1f000; end = 0x20000; is_fast_at = λ _. true }

abbrev pub empty_bus : Bus plain_can
empty_bus = record {
  tx_buf = record { queue = []; overflowed = 0; fast_seq = λ _ _. 0 };
  frames_tx = [];
}

push_all-send_pgn_example :
    (push_all Reassembly.new
      (map (single_frame (7 ∷ [])) (
        sent_by plain_can empty_bus
          (send_pgn plain_can no_table [] empty_bus 3 129029 5 255 fourteen true)))
      fast).1
    ≡ partial
      ∷ partial
      ∷ complete (record {
        timestamp = some (7 ∷ []);
        prio = 3;
        pgn = 129029;
        src = 5;
        dst = 255;
        payload = fourteen;
      })
      ∷ []
unfolding packet_type find_slot position
push_all-send_pgn_example =
    push_all-send_pgn plain_can plain_can-Accepts no_table [] (7 ∷ []) empty_bus Reassembly.new 3
      129029 5 255 fourteen true refl ((λ e. absurd (omega arith)), (λ e. absurd (omega arith)))
      (omega arith) (omega arith) (omega arith) (omega arith) (λ h. absurd (omega arith))
      (omega arith) (omega arith) (omega arith) (omega arith) (omega arith) refl
