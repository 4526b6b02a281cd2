-- ===== src/Reassembly/Bounds.antt =====
-- Whatever is pushed, the buffers of the reassembler keep their sizes, so that no copy leaves them, and
-- no message is larger than its protocol allows.
use canboat_rs.Prelude.{
  ℕ, ◌-◌, ◌≤◌, ◌≡◌, refl, ◌∙◌, subst, arith, List, [], ◌∷◌, true, not, ◌||◌, ltb, ◌==◌, if_both,
  if_cases, length, take, set, length-set, length-take, length-replicate, length-write_at,
  option_cases, min, drop, ◌*◌, ◌+◌, if◌then◌else◌,
}
use canboat_rs.Frame.{RawFrame, fastpacket_max_size}
use canboat_rs.Reassembly.{
  bucket_n_size, Slot, default_slot, TpSlot, default_tp_slot, Reassembler, Reassembled,
  pass_through, complete, partial, error, FramePacketType, is_fast, declared_size, new_all_frames,
  frame_mask, restart, declare, store, finish, accept, is_duplicate, completes_instantly,
}
use canboat_rs.Reassembly
use canboat_rs.Reassembly.Slots.{find_tp_slot, claim_tp_slot, tp_slot_to_claim}
use canboat_rs.Reassembly.Transport.{
  opened, update_tp, tp_slot_at, open_session, is_plausible, abort_session, handle_control,
  handle_tp_cm, mark_received, store_chunk, is_complete, accept_chunk, deliver, handle_data,
  handle_tp_dt, total_size_of, iso_tp_max_size, pgn_iso_tp_cm, pgn_iso_tp_dt, tp_cm_bam, tp_cm_rts,
  tp_cm_abort,
}
use canboat_rs.Reassembly.Push.{push_payload, push}
use canboat_rs.Reassembly.WellFormed.{
  IsSlot, IsSession, IsWellFormed, All-get_or, All-replicate, IsWithin, default_slot-IsSlot,
  default_tp_slot-IsSession, set_session, later, Safe, OnSome, push_fast-Safe,
}

-- Sessions.
opened-IsSession :
    (s : TpSlot) (f : RawFrame)
    → IsSession s
    → is_plausible f.payload ≡ true
    → IsSession (opened s f)
unfolding opened is_plausible
opened-IsSession s f h ok = record {
  buffer = length-replicate (total_size_of f.payload) 0xff;
  sized = ground arith;
  mask = refl;
}

-- The chunk fits behind its offset.
room :
    (s : TpSlot) (n : ℕ) (p : List ℕ)
    → length s.bytes ≡ s.total_size
    → let offset = n * bucket_n_size in
      let space = min (offset + bucket_n_size) s.total_size - offset in
      length (take (min space (length p - 1)) (drop 1 p)) ≤ length s.bytes - offset
room s n p size =
    let offset = n * bucket_n_size in
    let space = min (offset + bucket_n_size) s.total_size - offset in
    omega (arith, length-take (min space (length p - 1)) (drop 1 p))

chunk-IsSession :
    (s : TpSlot) (n : ℕ) (p : List ℕ)
    → IsSession s
    → IsSession (record s { received = mark_received s.received n; bytes = store_chunk s n p })
unfolding store_chunk mark_received
chunk-IsSession s n p h = record {
  buffer = length-write_at s.bytes _ (n * bucket_n_size) (room s n p h.buffer) ∙ h.buffer;
  sized = h.sized;
  mask = length-set s.received _ _ ∙ h.mask;
}

accept_chunk-Fits :
    (s : TpSlot) (n : ℕ) (f : RawFrame)
    → IsSession s
    → IsSession (accept_chunk s n f).0 × IsWithin iso_tp_max_size f (accept_chunk s n f).1
unfolding accept_chunk
accept_chunk-Fits s n f h =
    let t : TpSlot = record s {
      received = mark_received s.received (n - 1);
      bytes = store_chunk s (n - 1) f.payload;
    } in
    let k = chunk-IsSession s (n - 1) f.payload h in
    let short : length (take t.total_size t.bytes) ≤ iso_tp_max_size =
      omega (arith, length-take t.total_size t.bytes, h.sized) in
    if_both (λ (x : TpSlot × Reassembled). IsSession x.0 × IsWithin iso_tp_max_size f x.1)
      (is_complete t) (record { buffer = k.buffer; sized = k.sized; mask = k.mask }, short) (k, tt)

tp_slot_at-IsSession : (r : Reassembler) (i : ℕ) → IsWellFormed r → IsSession (tp_slot_at r i)
unfolding tp_slot_at
tp_slot_at-IsSession r i h =
    All-get_or IsSession r.tp_slots i _ h.sessions default_tp_slot-IsSession

deliver-Safe :
    (r : Reassembler) (i n : ℕ) (f : RawFrame)
    → IsWellFormed r
    → Safe iso_tp_max_size f (deliver r i n f)
unfolding deliver update_tp
deliver-Safe r i n f h =
    let (s, out) = accept_chunk-Fits (tp_slot_at r i) n f (tp_slot_at-IsSession r i h) in
    if_both (Safe iso_tp_max_size f) (n == 0 || _) (h, tt) (set_session r i _ h s, out)

handle_data-Safe :
    (n : ℕ) (r : Reassembler) (f : RawFrame)
    → IsWellFormed r
    → Safe iso_tp_max_size f (handle_data n r f)
unfolding handle_data
handle_data-Safe n r f h =
    option_cases (Safe iso_tp_max_size f) (find_tp_slot r f.src) (h, tt)
      (λ i e. deliver-Safe r i n f h)

aged :
    (s : TpSlot) (src age : ℕ)
    → IsSession s
    → IsSession (record s { used = true; src = src; age = age })
aged s src age h = record { buffer = h.buffer; sized = h.sized; mask = h.mask }

session_set-later :
    (r : Reassembler) (i : ℕ) (s : TpSlot) (age : ℕ)
    → IsWellFormed r
    → IsSession s
    → IsWellFormed (record r { tp_slots = set r.tp_slots i s; tp_next_age = age })
session_set-later r i s age h k = later _ r.next_age age (set_session r i s h k)

claim_tp_slot-OnSome : (r : Reassembler) (src : ℕ) → IsWellFormed r → OnSome (claim_tp_slot r src)
unfolding claim_tp_slot
claim_tp_slot-OnSome r src h =
    option_cases OnSome (find_tp_slot r src)
      (option_cases OnSome (tp_slot_to_claim r) tt
        (λ i e. session_set-later r i _ _ h (aged _ _ _ default_tp_slot-IsSession)))
      (λ i e.
        session_set-later r i _ _ h
          (aged _ _ _ (All-get_or IsSession r.tp_slots i _ h.sessions default_tp_slot-IsSession)))

open_session-Safe :
    (limit : ℕ) (r : Reassembler) (f : RawFrame)
    → IsWellFormed r
    → is_plausible f.payload ≡ true
    → Safe limit f (open_session r f)
unfolding open_session update_tp
open_session-Safe limit r f h ok =
    let found = claim_tp_slot-OnSome r f.src h in
    option_cases (Safe limit f) (claim_tp_slot r f.src) (h, tt)
      (λ x e.
        let k = subst OnSome e found in
        let s = opened-IsSession _ f (tp_slot_at-IsSession x.0 x.1 k) ok in
        (set_session x.0 x.1 _ k s, tt))

abort_session-IsWellFormed :
    (r : Reassembler) (src : ℕ) → IsWellFormed r → IsWellFormed (abort_session r src)
unfolding abort_session update_tp
abort_session-IsWellFormed r src h = option_cases IsWellFormed (find_tp_slot r src) h (λ i e.
    let s = tp_slot_at-IsSession r i h in
    set_session r i _ h (record { buffer = s.buffer; sized = s.sized; mask = s.mask }))

handle_control-Safe :
    (limit c : ℕ) (r : Reassembler) (f : RawFrame)
    → IsWellFormed r
    → Safe limit f (handle_control c r f)
unfolding handle_control
handle_control-Safe limit c r f h =
    if_both (Safe limit f) (c == tp_cm_bam || c == tp_cm_rts)
      (if_both (Safe limit f) (ltb (length f.payload) 8) (h, tt)
        (if_cases (Safe limit f) (is_plausible f.payload) (open_session-Safe limit r f h)
          (λ _. (h, tt))))
      (if_both (Safe limit f) (c == tp_cm_abort) (abort_session-IsWellFormed r f.src h, tt) (h, tt))

list_cases :
    {B : Type 0} (P : B → Type 0) (xs : List ℕ) {n : B} {c : ℕ → List ℕ → B}
    → P n
    → ((x : ℕ) (rest : List ℕ) → P (c x rest))
    → P (elim xs [ [] ↦ n | x ∷ rest ↦ c x rest ])
list_cases P [] pn pc = pn
list_cases P (x ∷ xs) pn pc = pc x xs

handle_tp_cm-Safe :
    (limit : ℕ) (r : Reassembler) (f : RawFrame) → IsWellFormed r → Safe limit f (handle_tp_cm r f)
unfolding handle_tp_cm
handle_tp_cm-Safe limit r f h =
    list_cases (Safe limit f) f.payload (h, tt) (λ c p. handle_control-Safe limit c r f h)

handle_tp_dt-Safe :
    (r : Reassembler) (f : RawFrame) → IsWellFormed r → Safe iso_tp_max_size f (handle_tp_dt r f)
unfolding handle_tp_dt
handle_tp_dt-Safe r f h =
    list_cases (Safe iso_tp_max_size f) f.payload (h, tt) (λ n p. handle_data-Safe n r f h)

push_payload-Safe :
    (p : List ℕ) (r : Reassembler) (f : RawFrame)
    → IsWellFormed r
    → Safe fastpacket_max_size f (push_payload p r f)
unfolding push_payload
push_payload-Safe [] r f h = (h, tt)
push_payload-Safe (b ∷ p) r f h = push_fast-Safe b r f h

-- What the largest message of a protocol is: the frames of data of the transport protocol give at
-- most 1785 bytes, all others are frames of fast packets, which give at most 223.
abbrev pub limit_of : RawFrame → ℕ
limit_of f = if f.pgn == pgn_iso_tp_dt then iso_tp_max_size else fastpacket_max_size

-- Whatever frame is pushed, with whatever bytes: the reassembler stays well-formed, that is it has 64
-- slots of 223 bytes and 16 sessions of their declared size, no write into one having gone past its
-- end; and what it gives is the frame as it is, or a message, or none. The message has at most
-- 1785 bytes if the frame is one of TP.DT, and at most 223 otherwise.
pub push-IsWellFormed :
    (r : Reassembler) (f : RawFrame) (t : FramePacketType)
    → IsWellFormed r
    → IsWellFormed (push r f t).0 × IsWithin (limit_of f) f (push r f t).1
unfolding push
push-IsWellFormed r f t h =
    if_both (Safe (limit_of f) f) (f.pgn == pgn_iso_tp_cm) (handle_tp_cm-Safe (limit_of f) r f h) (
      if_cases (Safe (limit_of f) f) (f.pgn == pgn_iso_tp_dt) (λ e. rw e (handle_tp_dt-Safe r f h))
        (λ e.
          if_both (Safe (limit_of f) f) (ltb 8 (length f.payload) || not (is_fast t)) (h, refl)
            (rw e (push_payload-Safe f.payload r f h))))

pub new-IsWellFormed : IsWellFormed Reassembly.new
new-IsWellFormed = record {
  slots = All-replicate IsSlot 64 default_slot default_slot-IsSlot;
  sessions = All-replicate IsSession 16 default_tp_slot default_tp_slot-IsSession;
  slot_count = refl;
  session_count = refl;
}
