-- ===== src/Reassembly/Slots.antt =====
-- `find_slot`, `claim_slot`, `find_tp_slot` and `claim_tp_slot`. `position` and `min_by_key` of the
-- iterators are written out; the ages are u64 counters that wrap.
use canboat_rs.Prelude.{
  ℕ, suc, ◌+◌, List, [], ◌∷◌, Option, none, some, Bool, true, not, ◌&&◌, ltb, ◌==◌, if◌then◌else◌,
  get_or, set, replicate, u64,
}
use mathlib.Core.Option
use canboat_rs.Frame.{fastpacket_max_size}
use canboat_rs.Reassembly.{Slot, TpSlot, Reassembler, default_tp_slot}

-- The first index whose entry passes the test.
unfoldable pub position {ℓ} : {A : Type ℓ} → (A → Bool) → List A → Option ℕ
position p [] = none
position p (x ∷ xs) = if p x then some 0 else Option.map suc (position p xs)

-- The first index of a least key, after an entry with the least key so far.
unfoldable pub least_from {ℓ} : {A : Type ℓ} → (A → ℕ) → ℕ → ℕ → ℕ → List A → ℕ
least_from key best k i [] = best
least_from key best k i (x ∷ xs) =
    if ltb (key x) k then least_from key i (key x) (suc i) xs else least_from key best k (suc i) xs

unfoldable pub min_by_key {ℓ} : {A : Type ℓ} → (A → ℕ) → List A → Option ℕ
min_by_key key [] = none
min_by_key key (x ∷ xs) = some (least_from key 0 (key x) 1 xs)

abbrev pub is_slot : ℕ → ℕ → ℕ → Slot → Bool
is_slot pgn src seq s = s.used && s.pgn == pgn && s.src == src && s.seq == seq

unfoldable pub find_slot : Reassembler → ℕ → ℕ → ℕ → Option ℕ
find_slot r pgn src seq = position (is_slot pgn src seq) r.slots

abbrev pub is_free : Slot → Bool
is_free s = not s.used

-- The index that a new message takes: a free slot, else the oldest one.
unfoldable pub slot_to_claim : Reassembler → Option ℕ
slot_to_claim r = elim (position is_free r.slots) [
  | some i ↦ some i
  | none ↦ min_by_key (λ s. s.age) r.slots
]

abbrev pub claimed_slot : ℕ → ℕ → ℕ → ℕ → Slot
claimed_slot pgn src seq age = record {
  used = true;
  pgn = pgn;
  src = src;
  seq = seq;
  frames = 0;
  all_frames = 0;
  size = 0;
  age = age;
  bytes = replicate fastpacket_max_size 0;
}

unfoldable pub claim_slot : Reassembler → ℕ → ℕ → ℕ → Option (Reassembler × ℕ)
claim_slot r pgn src seq = elim (slot_to_claim r) [
  | none ↦ none
  | some i ↦ some (
    record r {
      slots = set r.slots i (claimed_slot pgn src seq r.next_age);
      next_age = u64 (r.next_age + 1);
    },
    i,
  )
]

abbrev pub is_session : ℕ → TpSlot → Bool
is_session src s = s.used && s.src == src

unfoldable pub find_tp_slot : Reassembler → ℕ → Option ℕ
find_tp_slot r src = position (is_session src) r.tp_slots

abbrev pub is_free_tp : TpSlot → Bool
is_free_tp s = not s.used

unfoldable pub tp_slot_to_claim : Reassembler → Option ℕ
tp_slot_to_claim r = elim (position is_free_tp r.tp_slots) [
  | some i ↦ some i
  | none ↦ min_by_key (λ s. s.age) r.tp_slots
]

-- A session of the same source is reused as it is, with a new age; another slot starts afresh.
unfoldable pub claim_tp_slot : Reassembler → ℕ → Option (Reassembler × ℕ)
claim_tp_slot r src =
    let age = u64 (r.tp_next_age + 1) in
    elim (find_tp_slot r src) [
      | some i ↦
          let old = get_or r.tp_slots i default_tp_slot in
          some (
            record r {
              tp_slots = set r.tp_slots i (record old { src = src; age = age; used = true });
              tp_next_age = age;
            },
            i,
          )
      | none ↦ elim (tp_slot_to_claim r) [
        | none ↦ none
        | some i ↦ some (
          record r {
            tp_slots =
                set r.tp_slots i (record default_tp_slot { used = true; src = src; age = age });
            tp_next_age = age;
          },
          i,
        )
      ]
    ]
