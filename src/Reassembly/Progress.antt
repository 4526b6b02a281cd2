-- ===== src/Reassembly/Progress.antt =====
-- What one more frame does to a slot: it goes on holding the message, and gives it when it is full.
use canboat_rs.Prelude.{
  ℕ, zero, suc, ◌+◌, ◌-◌, ◌^◌, ◌≤◌, ◌<◌, ◌≡◌, ◌≢◌, refl, ap, ◌∙◌, sym, ◌⊎◌, inl, inr, List, Bool,
  true, false, arith, length, get_or, take, bit, bit_or, bit_or-lt, get_or_ext, get_or-take,
  length-take, Bool-cases, ne→==, eq→==, eq_or_ne,
}
use canboat_rs.Frame.{RawFrame}
use canboat_rs.Reassembly.{Slot, partial, complete, finish, store, dst_off, bucket_len}
use canboat_rs.Reassembly.Mask.{
  frame_count, bit-mark_self, bit-mark_ne, full_mask, missing_bit, one-lt-two_pow, pow-lt,
}
use canboat_rs.Reassembly.Buffer.{length-store, get_or-store_there, get_or-store_outside}
use canboat_rs.Reassembly.Assembly.{
  Carries, Holds, bucket_of, flag, add, add_here, add_other, true-false, in_bucket, off_bucket,
  filled, ZeroNotLast, prepared_lem, filled_zero, filled-suc,
}

module _ (p : List ℕ) (small : length p ≤ 223) where
  module _ (s : Slot) (got : ℕ → Bool) (i : ℕ) (payload : List ℕ) (h : Holds p s got)
      (c : Carries p i payload) where
    frames-below : bit_or s.frames (2 ^ i) < 2 ^ frame_count (length p)
    frames-below =
        bit_or-lt (frame_count (length p)) s.frames (2 ^ i) h.below (pow-lt i _ c.in_range)

    frames-marked :
        (j : ℕ) → j < frame_count (length p) → bit (bit_or s.frames (2 ^ i)) j ≡ flag (add got i j)
    frames-marked j hj = elim (eq_or_ne i j) [
      | inl same ↦
          ap (bit (bit_or s.frames (2 ^ i))) (sym same)
          ∙ bit-mark_self s.frames i
          ∙ sym (ap flag (add_here got i j same))
      | inr other ↦
          bit-mark_ne s.frames i j other ∙ h.marked j hj ∙ sym (ap flag (add_other got i j other))
    ]

    bytes-here :
        (j : ℕ)
        → j < length p
        → bucket_of j ≡ i
        → get_or (store i payload s.bytes) j 0 ≡ get_or p j 0
    bytes-here j hj same =
        let place = in_bucket j i (sym same) in
        let k : ℕ = j - dst_off i in
        let back : dst_off i + k ≡ j = omega arith in
        let inside : k < bucket_len i = omega arith in
        let fits : dst_off i + k < length p = omega arith in
        let there = c.long_enough k inside fits in
        ap (λ (t : ℕ). get_or (store i payload s.bytes) t 0) (sym back)
        ∙ get_or-store_there i payload s.bytes (omega (arith, c.in_range)) h.room k inside there
        ∙ c.content k inside fits
        ∙ ap (λ (t : ℕ). get_or p t 0) back

    bytes-stored :
        (j : ℕ)
        → j < length p
        → add got i (bucket_of j) ≡ true
        → get_or (store i payload s.bytes) j 0 ≡ get_or p j 0
    bytes-stored j hj here = elim (eq_or_ne i (bucket_of j)) [
      | inl same ↦ bytes-here j hj (sym same)
      | inr other ↦
          get_or-store_outside i payload s.bytes (omega (arith, c.in_range)) h.room j
            (off_bucket j i other)
          ∙ h.stored j hj (sym (add_other got i (bucket_of j) other) ∙ here)
    ]

    bytes-room : length (store i payload s.bytes) ≡ 223
    bytes-room = length-store i payload s.bytes h.room ∙ h.room

  pub filled-Holds :
      (s : Slot) (got : ℕ → Bool) (i : ℕ) (f : RawFrame)
      → Holds p s got
      → Carries p i f.payload
      → got i ≡ false
      → ZeroNotLast p small got i
      → Holds p (filled s i f) (add got i)
  filled-Holds s got zero f h c fresh z =
      rw (filled_zero p small s f c (prepared_lem p small s got 0 f h c fresh z)) (record {
        room = bytes-room s got 0 f.payload h c;
        below = frames-below s got 0 f.payload h c;
        marked = frames-marked s got 0 f.payload h c;
        declared = λ _. (refl, refl);
        undeclared = λ e. absurd (true-false (sym (add_here got 0 0 refl) ∙ e));
        stored = bytes-stored s got 0 f.payload h c;
      })
  filled-Holds s got (suc i) f h c fresh z =
      rw (filled-suc p small s i f (prepared_lem p small s got (suc i) f h c fresh z)) (record {
        room = bytes-room s got (suc i) f.payload h c;
        below = frames-below s got (suc i) f.payload h c;
        marked = frames-marked s got (suc i) f.payload h c;
        declared = λ e. h.declared (sym (add_other got (suc i) 0 (omega arith)) ∙ e);
        undeclared = λ e. h.undeclared (sym (add_other got (suc i) 0 (omega arith)) ∙ e);
        stored = bytes-stored s got (suc i) f.payload h c;
      })

  -- While a frame is missing the slot is not complete.
  pub finish-partial :
      (t : Slot) (f : RawFrame) (got : ℕ → Bool) (j : ℕ)
      → Holds p t got
      → j < frame_count (length p)
      → got j ≡ false
      → finish t f ≡ (t, partial)
  unfolding finish
  finish-partial t f got j h hj free = ground (arith, differ (Bool-cases (got 0)))
    where
      gap : bit t.frames j ≡ 0
      gap = h.marked j hj ∙ ap flag free

      differ : (got 0 ≡ true) ⊎ (got 0 ≡ false) → (t.all_frames ≡ 0) ⊎ (t.frames ≢ t.all_frames)
      differ (inl e) =
          inr (rw (h.declared e).1 (missing_bit (frame_count (length p)) t.frames j hj gap))
      differ (inr e) =
          let even = h.marked 0 (omega arith) ∙ ap flag e in ground (arith, h.undeclared e)

  -- A slot with every frame gives the message.
  pub finish-complete :
      (t : Slot) (f : RawFrame) (got : ℕ → Bool)
      → Holds p t got
      → ((j : ℕ) → j < frame_count (length p) → got j ≡ true)
      → finish t f
        ≡ (record t { used = false; frames = 0; size = 0 }, complete (record f { payload = p }))
  unfolding finish
  finish-complete t f got h every =
      let n = frame_count (length p) in
      let known = h.declared (every 0 (omega arith)) in
      let full : t.frames ≡ t.all_frames =
        full_mask n t.frames h.below (λ i hi. h.marked i hi ∙ ap flag (every i hi)) ∙ sym known.1 in
      let some_frames : t.all_frames ≢ 0 = omega (arith, one-lt-two_pow (length p), known.1) in
      rw (ne→== t.all_frames 0 some_frames, eq→== t.frames t.all_frames full)
        (ap
          (λ (q : List ℕ).
            (record t { used = false; frames = 0; size = 0 }, complete (record f { payload = q })))
          whole)
    where
      whole : take t.size t.bytes ≡ p
      whole =
          let known = h.declared (every 0 (omega arith)) in
          rw known.0 (
            get_or_ext 0 (take (length p) t.bytes) p
              (omega (arith, length-take (length p) t.bytes, h.room))
              (λ j hj.
                get_or-take (length p) j t.bytes 0 hj
                ∙ h.stored j hj (every (bucket_of j) (omega arith))))
