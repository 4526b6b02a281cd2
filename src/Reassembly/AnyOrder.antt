-- ===== src/Reassembly/AnyOrder.antt =====
-- The frames of one message, in any order that does not keep frame 0 for last, give the message.
use canboat_rs.Prelude.{
  ℕ, ◌+◌, ◌≤◌, ◌<◌, ◌≡◌, refl, ap, ◌∙◌, sym, inl, inr, List, [], ◌∷◌, Bool, true, false, arith,
  none, some, length, set, get_or-set_self, ltb, bit-zero, le→ltb-false, subst, ne→==, u64,
}
use canboat_rs.Frame.{RawFrame}
use canboat_rs.Reassembly.{
  Slot, Reassembler, Reassembled, fast, partial, complete, accept, finish, default_slot, restart,
  declare,
}
use canboat_rs.Reassembly.Slots.{is_slot, find_slot, claim_slot, claimed_slot}
use canboat_rs.Reassembly.Transport.{pgn_iso_tp_cm, pgn_iso_tp_dt}
use canboat_rs.Reassembly.Push.{
  seq_of, slot_for, slot_at, accept_at, push_fast, push_payload, push, push_all,
}
use canboat_rs.Reassembly.Mask.{frame_count, one-lt-two_pow}
use canboat_rs.Reassembly.Assembly.{Holds, add, filled, ZeroNotLast, true-false}
use canboat_rs.Reassembly.Progress.{filled-Holds, finish-partial, finish-complete}
use canboat_rs.Reassembly.Lookup.{
  position-set, position-set_new, position-lt, position-holds, slot_to_claim-lt,
}
use canboat_rs.Reassembly.Message.{Key, IsPart, Remaining, last, more, outcomes, IsBusKey}

is_slot-key :
    (s : Slot) (k : Key)
    → s.used ≡ true
    → s.pgn ≡ k.pgn
    → s.src ≡ k.src
    → s.seq ≡ k.seq
    → is_slot k.pgn k.src k.seq s ≡ true
is_slot-key s k u a b c = ground arith

filled-key :
    (s : Slot) (i : ℕ) (f : RawFrame)
    → ((filled s i f).used ≡ s.used)
      × ((filled s i f).pgn ≡ s.pgn)
      × ((filled s i f).src ≡ s.src)
      × ((filled s i f).seq ≡ s.seq)
unfolding restart declare
filled-key s i f = ground arith

-- The key of the slot at the index that a search for the key found.
found-key :
    (s : Slot) (k : Key)
    → is_slot k.pgn k.src k.seq s ≡ true
    → (s.used ≡ true) × (s.pgn ≡ k.pgn) × (s.src ≡ k.src) × (s.seq ≡ k.seq)
found-key s k h = ground arith

claimed_slot-Holds :
    (p : List ℕ) (pgn src seq age : ℕ) → Holds p (claimed_slot pgn src seq age) (λ _. false)
claimed_slot-Holds p pgn src seq age = record {
  room = refl;
  below = omega (arith, one-lt-two_pow (length p));
  marked = λ i _. bit-zero i;
  declared = λ e. absurd (true-false (sym e));
  undeclared = λ _. inl refl;
  stored = λ j _ e. absurd (true-false (sym e));
}

accept-filled : (s : Slot) (i : ℕ) (f : RawFrame) → accept s i f ≡ finish (filled s i f) f
unfolding accept
accept-filled s i f = refl

outcomes-more :
    {p : List ℕ} {k : Key} {got : ℕ → Bool} {fs : List RawFrame} (f : RawFrame)
    → Remaining p k got fs
    → outcomes p (f ∷ fs) ≡ partial ∷ outcomes p fs
outcomes-more f (last i g part free all only) = refl
outcomes-more f (more i j g part free hj missing rest) = refl

module _ (p : List ℕ) (k : Key) (bus : IsBusKey k) (small : length p ≤ 223) where
  abbrev Found : Reassembler → ℕ → Type 0
  Found r i = find_slot r k.pgn k.src k.seq ≡ some i

  -- A part goes to the slot of its key.
  push-part :
      (r r' : Reassembler) (i n : ℕ) (f : RawFrame)
      → IsPart p k n f
      → slot_for r k.pgn k.src k.seq ≡ some (r', i)
      → push r f fast ≡ accept_at r' i n f
  unfolding push push_fast
  push-part r r' i n f h e =
      let cm = ne→== f.pgn pgn_iso_tp_cm (λ q. bus.0 (sym h.pgn ∙ q)) in
      let dt = ne→== f.pgn pgn_iso_tp_dt (λ q. bus.1 (sym h.pgn ∙ q)) in
      let short : ltb 8 (length f.payload) ≡ false = le→ltb-false (length f.payload) 8 h.short in
      let slot : slot_for r f.pgn f.src (seq_of h.header) ≡ some (r', i) =
        (λ j. slot_for r (h.pgn j) (h.src j) (h.seq j)) ∙ e in
      rw (push, cm, dt, short)
        (ap (λ (t : List ℕ). push_payload t r f) h.bytes
          ∙ unfold push_payload in
            rw (push_fast, slot) (ap (λ (t : ℕ). accept_at r' i t f) h.index))

  slot_for-Found :
      (r : Reassembler) (i : ℕ) → Found r i → slot_for r k.pgn k.src k.seq ≡ some (r, i)
  unfolding slot_for
  slot_for-Found r i e = rw (e, slot_for) refl

  later :
      (got : ℕ → Bool) (n j : ℕ)
      → j < frame_count (length p)
      → add got n j ≡ false
      → ZeroNotLast p small got n
  later got n j hj missing z = inr (j, hj, ground arith, ground arith)

  -- The step from one part to the next.
  push-partial :
      (r r' : Reassembler) (i n j : ℕ) (got : ℕ → Bool) (f : RawFrame)
      → IsPart p k n f
      → slot_for r k.pgn k.src k.seq ≡ some (r', i)
      → Found r' i
      → Holds p (slot_at r' i) got
      → got n ≡ false
      → j < frame_count (length p)
      → add got n j ≡ false
      → push r f fast ≡ (record r' { slots = set r'.slots i (filled (slot_at r' i) n f) }, partial)
  push-partial r r' i n j got f h e at holds free hj missing =
      let s = slot_at r' i in
      let done =
        finish-partial p small (filled s n f) f (add got n) j
          (filled-Holds p small s got n f holds h.carries free (later got n j hj missing)) hj
          missing in
      push-part r r' i n f h e ∙ unfold accept_at in rw (accept-filled s n f, done) refl

  push-complete :
      (r r' : Reassembler) (i n : ℕ) (got : ℕ → Bool) (f : RawFrame)
      → IsPart p k n f
      → slot_for r k.pgn k.src k.seq ≡ some (r', i)
      → Holds p (slot_at r' i) got
      → got n ≡ false
      → ((j : ℕ) → j < frame_count (length p) → add got n j ≡ true)
      → (n ≡ 0 → frame_count (length p) ≡ 1)
      → (push r f fast).1 ≡ complete (record f { payload = p })
  push-complete r r' i n got f h e holds free all only =
      let s = slot_at r' i in
      let done =
        finish-complete p small (filled s n f) f (add got n)
          (filled-Holds p small s got n f holds h.carries free (λ z. inl (only z))) all in
      ap (λ (x : Reassembler × Reassembled). x.1) (push-part r r' i n f h e)
      ∙ unfold accept_at in rw (accept-filled s n f, done) refl

  next-Found :
      (r : Reassembler) (i n : ℕ) (f : RawFrame)
      → Found r i
      → Found (record r { slots = set r.slots i (filled (slot_at r i) n f) }) i
  unfolding find_slot
  next-Found r i n f e =
      let s = slot_at r i in
      let old =
        found-key s k
          (unfold slot_at in position-holds (is_slot k.pgn k.src k.seq) r.slots i default_slot e) in
      let same = filled-key s n f in
      position-set (is_slot k.pgn k.src k.seq) r.slots i (filled s n f) e (
        is_slot-key (filled s n f) k (same.0 ∙ old.0) (same.1 ∙ old.1) (same.2 ∙ old.2)
          (same.3 ∙ old.3))

  next-slot :
      (r : Reassembler) (i : ℕ) (s : Slot)
      → Found r i
      → slot_at (record r { slots = set r.slots i s }) i ≡ s
  unfolding slot_at find_slot
  next-slot r i s e =
      get_or-set_self r.slots i s default_slot (position-lt (is_slot k.pgn k.src k.seq) r.slots i e)

  push_all-Found :
      (r : Reassembler) (i : ℕ) (got : ℕ → Bool) (fs : List RawFrame)
      → Found r i
      → Holds p (slot_at r i) got
      → Remaining p k got fs
      → (push_all r fs fast).1 ≡ outcomes p fs
  unfolding push_all
  push_all-Found r i got fs e holds (last n f part free all only) =
      ap (λ (x : Reassembled). x ∷ [])
        (push-complete r r i n got f part (slot_for-Found r i e) holds free all only)
  push_all-Found r i got fs e holds (more {fs = rest} n j f part free hj missing tail) =
      let s = filled (slot_at r i) n f in
      let r' : Reassembler = record r { slots = set r.slots i s } in
      let one = push-partial r r i n j got f part (slot_for-Found r i e) e holds free hj missing in
      let held =
        filled-Holds p small (slot_at r i) got n f holds part.carries free
          (later got n j hj missing) in
      let step =
        push_all-Found r' i (add got n) rest (next-Found r i n f e)
          (subst (λ (x : Slot). Holds p x (add got n)) (sym (next-slot r i s e)) held) tail in
      rw (outcomes-more f tail) (rw one (ap (◌∷◌ partial) step))

  -- A message that is not yet in flight gets a slot of its own.
  slot_for-new :
      (r : Reassembler)
      → find_slot r k.pgn k.src k.seq ≡ none
      → 0 < length r.slots
      → (r' : Reassembler) × (i : ℕ) × (slot_for r k.pgn k.src k.seq ≡ some (r', i))
        × (Found r' i)
        × Holds p (slot_at r' i) (λ _. false)
  unfolding find_slot slot_at slot_for claim_slot
  slot_for-new r e room =
      let c = slot_to_claim-lt r room in
      let s = claimed_slot k.pgn k.src k.seq r.next_age in
      let r' : Reassembler = record r {
        slots = set r.slots c.0 s;
        next_age = u64 (r.next_age + 1);
      } in
      (
        r',
        c.0,
        rw (e, slot_for) (rw (c.1, claim_slot) refl),
        position-set_new (is_slot k.pgn k.src k.seq) r.slots c.0 s e c.2
            (is_slot-key s k refl refl refl refl),
        subst (λ (x : Slot). Holds p x (λ _. false))
            (sym (get_or-set_self r.slots c.0 s default_slot c.2))
            (claimed_slot-Holds p k.pgn k.src k.seq r.next_age),
      )

  -- Pushed into a reassembler in which the message is not in flight, whatever else it holds, the
  -- frames of a message of at most 223 bytes give exactly that message with the last frame and
  -- nothing before, in every order in which frame 0 is not the last of several.
  pub push_all-Remaining :
      (r : Reassembler) (fs : List RawFrame)
      → find_slot r k.pgn k.src k.seq ≡ none
      → 0 < length r.slots
      → Remaining p k (λ _. false) fs
      → (push_all r fs fast).1 ≡ outcomes p fs
  unfolding push_all
  push_all-Remaining r fs e room (last n f part free all only) =
      let start = slot_for-new r e room in
      ap (λ (x : Reassembled). x ∷ [])
        (push-complete r start.0 start.1 n (λ _. false) f part start.2 start.4 free all only)
  push_all-Remaining r fs e room (more {fs = rest} n j f part free hj missing tail) =
      let start = slot_for-new r e room in
      let r' = start.0 in
      let i = start.1 in
      let s = filled (slot_at r' i) n f in
      let one =
        push-partial r r' i n j (λ _. false) f part start.2 start.3 start.4 free hj missing in
      let held =
        filled-Holds p small (slot_at r' i) (λ _. false) n f start.4 part.carries free
          (later (λ _. false) n j hj missing) in
      rw (outcomes-more f tail, one)
        (ap (◌∷◌ partial) (
          push_all-Found (record r' { slots = set r'.slots i s }) i (add (λ _. false) n) rest
            (next-Found r' i n f start.3)
            (subst (λ (x : Slot). Holds p x (add (λ _. false) n)) (sym (next-slot r' i s start.3))
              held)
            tail))
