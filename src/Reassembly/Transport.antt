-- ===== src/Reassembly/Transport.antt =====
-- `handle_tp_cm` and `handle_tp_dt`: the ISO transport protocol (PGN 60416 and PGN 60160).
use canboat_rs.Prelude.{
  ℕ, zero, suc, ◌+◌, ◌-◌, ◌*◌, ◌/◌, ◌%◌, ◌^◌, List, [], ◌∷◌, none, some, Bool, true, false, not,
  ◌&&◌, ◌||◌, ltb, ◌==◌, if◌then◌else◌, length, get_or, set, take, drop, replicate, bit_and, bit_or,
  ◌<<<◌, min, write_at,
}
use canboat_rs.Frame.{RawFrame}
use canboat_rs.Reassembly.{
  Reassembler, TpSlot, Reassembled, partial, complete, error, empty_data, out_of_slots,
  bucket_n_size, default_tp_slot,
}
use canboat_rs.Reassembly.Slots.{find_tp_slot, claim_tp_slot}

abbrev pub pgn_iso_tp_cm : ℕ
pgn_iso_tp_cm = 60416

abbrev pub pgn_iso_tp_dt : ℕ
pgn_iso_tp_dt = 60160

abbrev pub tp_cm_bam : ℕ
tp_cm_bam = 32

abbrev pub tp_cm_rts : ℕ
tp_cm_rts = 16

abbrev pub tp_cm_abort : ℕ
tp_cm_abort = 255

abbrev pub iso_tp_max_size : ℕ
iso_tp_max_size = 255 * bucket_n_size

-- What the connection management frame declares.
unfoldable pub total_size_of : List ℕ → ℕ
total_size_of p = get_or p 1 0 + 256 * get_or p 2 0

unfoldable pub target_pgn_of : List ℕ → ℕ
target_pgn_of p = bit_or (bit_or (get_or p 5 0) (get_or p 6 0 <<< 8)) (get_or p 7 0 <<< 16)

unfoldable pub opened : TpSlot → RawFrame → TpSlot
opened s f = record s {
  dst = f.dst;
  prio = f.prio;
  target_pgn = target_pgn_of f.payload;
  total_size = total_size_of f.payload;
  packets = get_or f.payload 3 0;
  received = 0 ∷ 0 ∷ 0 ∷ 0 ∷ [];
  timestamp = f.timestamp;
  bytes = replicate (total_size_of f.payload) 0xff;
}

unfoldable pub update_tp : Reassembler → ℕ → TpSlot → Reassembler
update_tp r i s = record r { tp_slots = set r.tp_slots i s }

unfoldable pub tp_slot_at : Reassembler → ℕ → TpSlot
tp_slot_at r i = get_or r.tp_slots i default_tp_slot

unfoldable pub open_session : Reassembler → RawFrame → Reassembler × Reassembled
open_session r f = elim (claim_tp_slot r f.src) [
  | none ↦ (r, error (out_of_slots (target_pgn_of f.payload) f.src))
  | some (r', i) ↦ (update_tp r' i (opened (tp_slot_at r' i) f), partial)
]

unfoldable pub is_plausible : List ℕ → Bool
is_plausible p =
    not (get_or p 3 0 == 0 || total_size_of p == 0 || ltb iso_tp_max_size (total_size_of p))

unfoldable pub abort_session : Reassembler → ℕ → Reassembler
abort_session r src = elim (find_tp_slot r src) [
  | none ↦ r
  | some i ↦ update_tp r i (record (tp_slot_at r i) { used = false })
]

unfoldable pub handle_control : ℕ → Reassembler → RawFrame → Reassembler × Reassembled
handle_control control r f =
    if control == tp_cm_bam || control == tp_cm_rts
    then if ltb (length f.payload) 8
      then (r, partial)
      else if is_plausible f.payload
      then open_session r f
      else (r, partial)
    else if control == tp_cm_abort
    then (abort_session r f.src, partial)
    else (r, partial)

unfoldable pub handle_tp_cm : Reassembler → RawFrame → Reassembler × Reassembled
handle_tp_cm r f = elim f.payload [
  | [] ↦ (r, error empty_data)
  | control ∷ _ ↦ handle_control control r f
]

unfoldable pub mark_received : List ℕ → ℕ → List ℕ
mark_received received n =
    set received (n / 64) (bit_or (get_or received (n / 64) 0) (2 ^ (n % 64)))

-- The chunk goes to its offset, cut at the declared size.
unfoldable pub store_chunk : TpSlot → ℕ → List ℕ → List ℕ
store_chunk s n payload =
    let offset = n * bucket_n_size in
    let room = min (offset + bucket_n_size) s.total_size - offset in
    write_at s.bytes offset (take (min room (length payload - 1)) (drop 1 payload))

unfoldable pub all_full : ℕ → List ℕ → Bool
all_full zero ws = true
all_full (suc n) [] = true
all_full (suc n) (w ∷ ws) = w == 2 ^ 64 - 1 && all_full n ws

unfoldable pub last_ok : ℕ → List ℕ → Bool
last_ok packets received =
    if packets % 64 == 0
    then true
    else bit_and (get_or received (packets / 64) 0) (2 ^ (packets % 64) - 1)
      == 2 ^ (packets % 64) - 1

unfoldable pub is_complete : TpSlot → Bool
is_complete s = all_full (s.packets / 64) s.received && last_ok s.packets s.received

-- What a data frame with an acceptable sequence number does to its session.
unfoldable pub accept_chunk : TpSlot → ℕ → RawFrame → TpSlot × Reassembled
accept_chunk s sequence f =
    let n = sequence - 1 in
    let t = record s { received = mark_received s.received n; bytes = store_chunk s n f.payload } in
    if is_complete t
    then (
      record t { used = false; timestamp = none },
      complete (record {
        timestamp = t.timestamp;
        prio = t.prio;
        pgn = t.target_pgn;
        src = f.src;
        dst = t.dst;
        payload = take t.total_size t.bytes;
      }),
    )
    else (t, partial)

unfoldable pub deliver : Reassembler → ℕ → ℕ → RawFrame → Reassembler × Reassembled
deliver r i sequence f =
    let s = tp_slot_at r i in
    if sequence == 0 || ltb s.packets sequence
    then (r, partial)
    else let (t, out) = accept_chunk s sequence f in (update_tp r i t, out)

unfoldable pub handle_data : ℕ → Reassembler → RawFrame → Reassembler × Reassembled
handle_data sequence r f = elim (find_tp_slot r f.src) [
  | none ↦ (r, partial)
  | some i ↦ deliver r i sequence f
]

unfoldable pub handle_tp_dt : Reassembler → RawFrame → Reassembler × Reassembled
handle_tp_dt r f = elim f.payload [
  | [] ↦ (r, error empty_data)
  | sequence ∷ _ ↦ handle_data sequence r f
]
