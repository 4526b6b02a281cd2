-- ===== src/Reassembly/Push.antt =====
-- `Reassembler::push`.
use canboat_rs.Prelude.{
  ℕ, List, [], ◌∷◌, Option, none, some, not, ◌||◌, ltb, ◌==◌, if◌then◌else◌, length, get_or, set,
  bit_and,
}
use canboat_rs.Frame.{RawFrame}
use canboat_rs.Reassembly.{
  Reassembler, Slot, Reassembled, FramePacketType, is_fast, pass_through, error, empty_data,
  out_of_slots, accept, default_slot,
}
use canboat_rs.Reassembly.Slots.{find_slot, claim_slot}
use canboat_rs.Reassembly.Transport.{pgn_iso_tp_cm, pgn_iso_tp_dt, handle_tp_cm, handle_tp_dt}

abbrev pub index_of : ℕ → ℕ
index_of header = bit_and header 0x1f

abbrev pub seq_of : ℕ → ℕ
seq_of header = bit_and header 0xe0

-- The slot of the message: the one in flight, or a new one.
unfoldable pub slot_for : Reassembler → ℕ → ℕ → ℕ → Option (Reassembler × ℕ)
slot_for r pgn src seq = elim (find_slot r pgn src seq) [
  | some i ↦ some (r, i)
  | none ↦ claim_slot r pgn src seq
]

unfoldable pub slot_at : Reassembler → ℕ → Slot
slot_at r i = get_or r.slots i default_slot

unfoldable pub accept_at : Reassembler → ℕ → ℕ → RawFrame → Reassembler × Reassembled
accept_at r i index f =
    let (s, out) = accept (slot_at r i) index f in (record r { slots = set r.slots i s }, out)

unfoldable pub push_fast : ℕ → Reassembler → RawFrame → Reassembler × Reassembled
push_fast header r f = elim (slot_for r f.pgn f.src (seq_of header)) [
  | none ↦ (r, error (out_of_slots f.pgn f.src))
  | some (r', i) ↦ accept_at r' i (index_of header) f
]

unfoldable pub push_payload : List ℕ → Reassembler → RawFrame → Reassembler × Reassembled
push_payload [] r f = (r, error empty_data)
push_payload (header ∷ _) r f = push_fast header r f

unfoldable pub push : Reassembler → RawFrame → FramePacketType → Reassembler × Reassembled
push r f packet_type =
    if f.pgn == pgn_iso_tp_cm
    then handle_tp_cm r f
    else if f.pgn == pgn_iso_tp_dt
    then handle_tp_dt r f
    else if ltb 8 (length f.payload) || not (is_fast packet_type)
    then (r, pass_through f)
    else push_payload f.payload r f

-- A sequence of frames, with what each gave.
unfoldable pub push_all :
    Reassembler → List RawFrame → FramePacketType → Reassembler × List Reassembled
push_all r [] t = (r, [])
push_all r (f ∷ fs) t =
    let (r', out) = push r f t in let (r'', outs) = push_all r' fs t in (r'', out ∷ outs)
