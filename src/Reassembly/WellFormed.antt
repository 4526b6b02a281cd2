-- ===== src/Reassembly/WellFormed.antt =====
-- The well-formedness of the reassembler, and that the slots of fast packets keep it.
use canboat_rs.Prelude.{
  ℕ, zero, suc, ◌≤◌, ◌≡◌, refl, ◌∙◌, subst, arith, List, [], ◌∷◌, Option, none, some, not, ◌||◌,
  ◌&&◌, ◌==◌, if_both, length, take, set, get_or, replicate, length-set, length-take, option_cases,
}
use canboat_rs.Frame.{RawFrame, fastpacket_max_size}
use canboat_rs.Reassembly.{
  Slot, default_slot, TpSlot, default_tp_slot, Reassembler, Reassembled, pass_through, complete,
  partial, error, declared_size, new_all_frames, restart, declare, finish, accept, is_duplicate,
}
use canboat_rs.Reassembly.Slots.{find_slot, claim_slot, slot_to_claim, claimed_slot}
use canboat_rs.Reassembly.Buffer.{length-store}
use canboat_rs.Reassembly.Transport.{iso_tp_max_size}
use canboat_rs.Reassembly.Push.{slot_for, slot_at, accept_at, push_fast, index_of, seq_of}

-- A slot whose array has 223 bytes, of which its message takes no more.
pub record IsSlot (s : Slot) : Type 0 where
  pub array : length s.bytes ≡ fastpacket_max_size
  pub sized : s.size ≤ fastpacket_max_size

-- A session whose buffer has the declared size, of at most 1785 bytes, and whose mask has 256 bits.
pub record IsSession (s : TpSlot) : Type 0 where
  pub buffer : length s.bytes ≡ s.total_size
  pub sized : s.total_size ≤ iso_tp_max_size
  pub mask : length s.received ≡ 4

module _ {A : Type 0} (P : A → Type 0) where
  abbrev pub All : List A → Type 0
  All [] = Unit
  All (x ∷ xs) = P x × All xs

  pub All-set : (xs : List A) (i : ℕ) (x : A) → All xs → P x → All (set xs i x)
  All-set [] i x h p = tt
  All-set (y ∷ ys) zero x h p = (p, h.1)
  All-set (y ∷ ys) (suc i) x h p = (h.0, All-set ys i x h.1 p)

  pub All-get_or : (xs : List A) (i : ℕ) (d : A) → All xs → P d → P (get_or xs i d)
  All-get_or [] i d h p = p
  All-get_or (y ∷ ys) zero d h p = h.0
  All-get_or (y ∷ ys) (suc i) d h p = All-get_or ys i d h.1 p

  pub All-replicate : (n : ℕ) (x : A) → P x → All (replicate n x)
  All-replicate zero x p = tt
  All-replicate (suc n) x p = (p, All-replicate n x p)

pub record IsWellFormed (r : Reassembler) : Type 0 where
  pub slots : All IsSlot r.slots
  pub sessions : All IsSession r.tp_slots
  pub slot_count : length r.slots ≡ 64
  pub session_count : length r.tp_slots ≡ 16

-- What `push` gives: a message within this size, or the frame itself.
abbrev pub IsWithin : ℕ → RawFrame → Reassembled → Type 0
IsWithin limit f (pass_through g) = g ≡ f
IsWithin limit f (complete g) = length g.payload ≤ limit
IsWithin limit f partial = Unit
IsWithin limit f (error e) = Unit

pub default_slot-IsSlot : IsSlot default_slot
default_slot-IsSlot = record { array = refl; sized = omega arith }

pub default_tp_slot-IsSession : IsSession default_tp_slot
default_tp_slot-IsSession = record { buffer = refl; sized = omega arith; mask = refl }

pub restart-IsSlot : (s : Slot) (i : ℕ) (p : List ℕ) → IsSlot s → IsSlot (restart s i p)
unfolding restart
restart-IsSlot s i p h =
    if_both IsSlot (is_duplicate s i || _) (record { array = h.array; sized = h.sized }) h

pub declare-IsSlot :
    (s : Slot) (i : ℕ) (p : List ℕ) → IsSlot s → IsSlot (declare s (new_all_frames i p))
unfolding new_all_frames declare declared_size
declare-IsSlot s i p h =
    if_both (λ (o : Option (ℕ × ℕ)). IsSlot (declare s o)) (i == 0)
      (record { array = h.array; sized = omega arith }) h

abbrev pub Fits : RawFrame → Slot × Reassembled → Type 0
Fits f r = IsSlot r.0 × IsWithin fastpacket_max_size f r.1

pub finish-Fits : (s : Slot) (f : RawFrame) → IsSlot s → Fits f (finish s f)
unfolding finish
finish-Fits s f h =
    let none_left : 0 ≤ fastpacket_max_size = omega arith in
    let short : length (take s.size s.bytes) ≤ fastpacket_max_size =
      omega (arith, length-take s.size s.bytes, h.sized) in
    if_both (Fits f) (not (s.all_frames == 0) && s.frames == s.all_frames)
      (record { array = h.array; sized = none_left }, short) (h, tt)

pub accept-Fits : (s : Slot) (i : ℕ) (f : RawFrame) → IsSlot s → Fits f (accept s i f)
unfolding accept
accept-Fits s i f h =
    let t = declare-IsSlot (restart s i f.payload) i f.payload (restart-IsSlot s i f.payload h) in
    finish-Fits _ f
      (record { array = length-store i f.payload _ t.array ∙ t.array; sized = t.sized })

pub claimed_slot-IsSlot : (pgn src seq age : ℕ) → IsSlot (claimed_slot pgn src seq age)
claimed_slot-IsSlot pgn src seq age = record { array = refl; sized = omega arith }

-- A slot changed, or a session.
pub set_slot :
    (r : Reassembler) (i : ℕ) (s : Slot)
    → IsWellFormed r
    → IsSlot s
    → IsWellFormed (record r { slots = set r.slots i s })
set_slot r i s h k = record {
  slots = All-set IsSlot r.slots i s h.slots k;
  sessions = h.sessions;
  slot_count = length-set r.slots i s ∙ h.slot_count;
  session_count = h.session_count;
}

pub set_session :
    (r : Reassembler) (i : ℕ) (s : TpSlot)
    → IsWellFormed r
    → IsSession s
    → IsWellFormed (record r { tp_slots = set r.tp_slots i s })
set_session r i s h k = record {
  slots = h.slots;
  sessions = All-set IsSession r.tp_slots i s h.sessions k;
  slot_count = h.slot_count;
  session_count = length-set r.tp_slots i s ∙ h.session_count;
}

-- The clocks do not matter.
pub later :
    (r : Reassembler) (a b : ℕ)
    → IsWellFormed r
    → IsWellFormed (record r { next_age = a; tp_next_age = b })
later r a b h = record {
  slots = h.slots;
  sessions = h.sessions;
  slot_count = h.slot_count;
  session_count = h.session_count;
}

abbrev pub Safe : ℕ → RawFrame → Reassembler × Reassembled → Type 0
Safe limit f r = IsWellFormed r.0 × IsWithin limit f r.1

pub accept_at-Safe :
    (r : Reassembler) (i index : ℕ) (f : RawFrame)
    → IsWellFormed r
    → Safe fastpacket_max_size f (accept_at r i index f)
unfolding accept_at slot_at
accept_at-Safe r i index f h =
    let (s, out) =
      accept-Fits _ index f (All-get_or IsSlot r.slots i _ h.slots default_slot-IsSlot) in
    (set_slot r i _ h s, out)

abbrev pub OnSome : Option (Reassembler × ℕ) → Type 0
OnSome none = Unit
OnSome (some x) = IsWellFormed x.0

pub claim_slot-OnSome :
    (r : Reassembler) (pgn src seq : ℕ) → IsWellFormed r → OnSome (claim_slot r pgn src seq)
unfolding claim_slot
claim_slot-OnSome r pgn src seq h = option_cases OnSome (slot_to_claim r) tt (λ i e.
    let fresh = claimed_slot-IsSlot pgn src seq r.next_age in
    later _ _ r.tp_next_age (set_slot r i _ h fresh))

pub slot_for-OnSome :
    (r : Reassembler) (pgn src seq : ℕ) → IsWellFormed r → OnSome (slot_for r pgn src seq)
unfolding slot_for
slot_for-OnSome r pgn src seq h =
    option_cases OnSome (find_slot r pgn src seq) (claim_slot-OnSome r pgn src seq h) (λ i e. h)

pub push_fast-Safe :
    (header : ℕ) (r : Reassembler) (f : RawFrame)
    → IsWellFormed r
    → Safe fastpacket_max_size f (push_fast header r f)
unfolding push_fast
push_fast-Safe header r f h =
    let found = slot_for-OnSome r f.pgn f.src (seq_of header) h in
    option_cases (Safe fastpacket_max_size f) (slot_for r f.pgn f.src (seq_of header)) (h, tt)
      (λ x e. accept_at-Safe x.0 x.1 (index_of header) f (subst OnSome e found))
