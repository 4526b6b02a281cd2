-- ===== src/Reassembly/Assembly.antt =====
-- The life of a slot: what it holds of a message after each frame, in whatever order the frames
-- come, and the frame that completes it.
use canboat_rs.Prelude.{
  ℕ, zero, suc, ◌+◌, ◌-◌, ◌/◌, ◌%◌, ◌^◌, ◌≤◌, ◌<◌, ◌≡◌, ◌≢◌, refl, ap, ◌∙◌, ◌⊎◌, inl, inr, List,
  Bool, true, false, ◌||◌, arith, ◌==◌, length, get_or, min, bit, bit_and, bit_or, bit_or-lt,
  bit_and_mask, ne→==, none, some,
}
use canboat_rs.Frame.{RawFrame}
use native.Mathlib.Nat.{mod-eq_of_lt}
use canboat_rs.Reassembly.{
  Slot, restart, declare, store, new_all_frames, declared_size, completes_instantly, dst_off,
  src_off, bucket_len,
}
use canboat_rs.Reassembly.Mask.{
  frame_count, frame_mask_lem, is_duplicate-false, bit-mark_ne, missing_bit, one-lt-two_pow,
}

-- The CAN data `payload` is frame `i` of the message `p`: frame 0 declares the length, and the
-- bytes of the bucket are those of the message, as far as it goes.
pub record Carries (p : List ℕ) (i : ℕ) (payload : List ℕ) : Type 0 where
  pub in_range : i < frame_count (length p)
  pub declares : i ≡ 0 → get_or payload 1 0 ≡ length p
  pub long_enough :
      (k : ℕ) → k < bucket_len i → dst_off i + k < length p → src_off i + k < length payload
  pub content :
      (k : ℕ)
      → k < bucket_len i
      → dst_off i + k < length p
      → get_or payload (src_off i + k) 0 ≡ get_or p (dst_off i + k) 0

-- The frame that a byte of the message travels in.
abbrev pub bucket_of : ℕ → ℕ
bucket_of j = (j + 1) / 7

abbrev pub flag : Bool → ℕ
flag true = 1
flag false = 0

abbrev pub add : (ℕ → Bool) → ℕ → ℕ → Bool
add got i j = got j || j == i

-- The slot holds the frames `got` of the message `p`.
pub record Holds (p : List ℕ) (s : Slot) (got : ℕ → Bool) : Type 0 where
  pub room : length s.bytes ≡ 223
  pub below : s.frames < 2 ^ frame_count (length p)
  pub marked : (i : ℕ) → i < frame_count (length p) → bit s.frames i ≡ flag (got i)
  pub declared :
      got 0 ≡ true → (s.size ≡ length p) × (s.all_frames ≡ 2 ^ frame_count (length p) - 1)
  pub undeclared : got 0 ≡ false → (s.all_frames ≡ 0) ⊎ (s.all_frames % 2 ≡ 1)
  pub stored : (j : ℕ) → j < length p → got (bucket_of j) ≡ true → get_or s.bytes j 0 ≡ get_or p j 0

-- The byte `j` lies in its bucket, at this place.
pub add_here : (got : ℕ → Bool) (i j : ℕ) → i ≡ j → add got i j ≡ true
add_here got i j h = ground arith

pub add_other : (got : ℕ → Bool) (i j : ℕ) → i ≢ j → add got i j ≡ got j
add_other got i j h = ground arith

pub true-false : ¬ (true ≡ false)
true-false e = cc

pub in_bucket : (j : ℕ) (b : ℕ) → b ≡ bucket_of j → (dst_off b ≤ j) × (j < dst_off b + bucket_len b)
unfolding dst_off bucket_len
in_bucket j b h = ground arith

pub off_bucket : (j i : ℕ) → i ≢ bucket_of j → (j < dst_off i) ⊎ (dst_off i + bucket_len i ≤ j)
unfolding dst_off bucket_len
off_bucket j i h = ground arith

-- The slot just before the frame's bit and bytes go in.
abbrev pub prepared : Slot → ℕ → RawFrame → Slot
prepared s i f = declare (restart s i f.payload) (new_all_frames i f.payload)

abbrev pub filled : Slot → ℕ → RawFrame → Slot
filled s i f =
    let t = prepared s i f in
    record t { bytes = store i f.payload t.bytes; frames = bit_or t.frames (2 ^ i) }

module _ (p : List ℕ) (small : length p ≤ 223) where
  -- Frame 0 is not the last to come, or is the only one.
  abbrev pub ZeroNotLast : (ℕ → Bool) → ℕ → Type 0
  ZeroNotLast got i =
      i ≡ 0
      → (frame_count (length p) ≡ 1)
        ⊎ ((j : ℕ) × (j < frame_count (length p)) × (0 < j) × (got j ≡ false))

  declared_lem :
      (payload : List ℕ)
      → Carries p 0 payload
      → new_all_frames 0 payload ≡ some (length p, 2 ^ frame_count (length p) - 1)
  unfolding new_all_frames declared_size
  declared_lem payload c =
      let size : min (get_or payload 1 0) 223 ≡ length p = omega (arith, c.declares refl) in
      rw (size, frame_mask_lem (length p) small) refl

  -- Frame 0 restarts nothing while another frame is missing.
  instant-false :
      (s : Slot) (n mask : ℕ)
      → (mask ≡ 1) ⊎ ((bit_and (bit_or s.frames 1) mask == mask) ≡ false)
      → completes_instantly s 0 (some (n, mask)) ≡ false
  unfolding completes_instantly
  instant-false s n mask h = ground arith

  still_missing :
      (s : Slot) (got : ℕ → Bool) (j : ℕ)
      → Holds p s got
      → j < frame_count (length p)
      → 0 < j
      → got j ≡ false
      → bit_and (bit_or s.frames 1) (2 ^ frame_count (length p) - 1)
        ≢ 2 ^ frame_count (length p) - 1
  still_missing s got j h hj pos free =
      let n = frame_count (length p) in
      let gap : bit (bit_or s.frames 1) j ≡ 0 =
        bit-mark_ne s.frames 0 j (omega arith) ∙ h.marked j hj ∙ ap flag free in
      let kept : bit_and (bit_or s.frames 1) (2 ^ n - 1) ≡ bit_or s.frames 1 =
        bit_and_mask n (bit_or s.frames 1)
        ∙ mod-eq_of_lt (bit_or-lt n s.frames 1 h.below (one-lt-two_pow (length p))) in
      rw kept (missing_bit n (bit_or s.frames 1) j hj gap)

  no_instant :
      (s : Slot) (got : ℕ → Bool) (i : ℕ) (payload : List ℕ)
      → Holds p s got
      → Carries p i payload
      → ZeroNotLast got i
      → completes_instantly s i (new_all_frames i payload) ≡ false
  no_instant s got (suc i) payload h c z = unfold completes_instantly new_all_frames in ground arith
  no_instant s got zero payload h c z =
      rw (declared_lem payload c)
        (instant-false s (length p) (2 ^ frame_count (length p) - 1) (reason (z refl)))
    where
      reason :
          (frame_count (length p) ≡ 1)
            ⊎ ((j : ℕ) × (j < frame_count (length p)) × (0 < j) × (got j ≡ false))
          → (2 ^ frame_count (length p) - 1 ≡ 1)
            ⊎ ((bit_and (bit_or s.frames 1) (2 ^ frame_count (length p) - 1)
                  == 2 ^ frame_count (length p) - 1)
                ≡ false)
      reason (inl one) = inl (rw one refl)
      reason (inr (j, hj, pos, free)) = inr (ne→== _ _ (still_missing s got j h hj pos free))

  -- A frame that is new to the slot restarts nothing.
  pub prepared_lem :
      (s : Slot) (got : ℕ → Bool) (i : ℕ) (f : RawFrame)
      → Holds p s got
      → Carries p i f.payload
      → got i ≡ false
      → ZeroNotLast got i
      → prepared s i f ≡ declare s (new_all_frames i f.payload)
  unfolding restart
  prepared_lem s got i f h c fresh z =
      rw
        (
          is_duplicate-false s i (h.marked i c.in_range ∙ ap flag fresh),
          no_instant s got i f.payload h c z,
        )
        refl

  pub filled_zero :
      (s : Slot) (f : RawFrame)
      → Carries p 0 f.payload
      → prepared s 0 f ≡ declare s (new_all_frames 0 f.payload)
      → filled s 0 f ≡ record s {
        frames = bit_or s.frames (2 ^ 0);
        all_frames = 2 ^ frame_count (length p) - 1;
        size = length p;
        bytes = store 0 f.payload s.bytes;
      }
  unfolding declare
  filled_zero s f c e = rw (e, declared_lem f.payload c) refl

  pub filled-suc :
      (s : Slot) (i : ℕ) (f : RawFrame)
      → prepared s (suc i) f ≡ declare s (new_all_frames (suc i) f.payload)
      → filled s (suc i) f
        ≡ record s { frames = bit_or s.frames (2 ^ suc i); bytes = store (suc i) f.payload s.bytes }
  filled-suc s i f e =
      let off : new_all_frames (suc i) f.payload ≡ none = unfold new_all_frames in ground arith in
      rw (e, off) (unfold declare in refl)
