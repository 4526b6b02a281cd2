-- ===== src/SocketCan/Parts.antt =====
-- The CAN frames that a message is cut into: each is a part that the reassembler knows what to do
-- with.
use canboat_rs.Prelude.{
  ℕ, zero, suc, ◌+◌, ◌-◌, ◌*◌, ◌^◌, ◌≤◌, ◌<◌, ◌≡◌, refl, ap, ◌∙◌, List, [], ◌∷◌, Option, arith, ltb,
  ◌==◌, length, take, drop, get_or, replicate, write_at, min, u8, ◌<<<◌, bit_and, bit_or,
  bit_and_mask, bit_or_fields, length-write_at, length-take, length-drop, get_or-write_at_inside,
  get_or-take, get_or-drop, bit_and_high, false, ne→==,
}
use canboat_rs.Frame.{RawFrame, Text}
use canboat_rs.Frame
use canboat_rs.CanId.{Iso11783}
use canboat_rs.Reassembly.{dst_off, src_off, bucket_len}
use canboat_rs.Reassembly.Push.{index_of, seq_of}
use canboat_rs.Reassembly.Mask.{frame_count}
use canboat_rs.Reassembly.Assembly.{Carries}
use canboat_rs.Reassembly.Message.{IsPart}
use canboat_rs.SocketCan.{chunk_len, chunk_frame}

-- What the head of a frame says.
abbrev pub head_of : ℕ → ℕ → ℕ
head_of seq i = u8 (bit_or (u8 (seq <<< 5)) (bit_and i 0x1f))

head_of_lem : (seq i : ℕ) → seq < 8 → i < 32 → head_of seq i ≡ seq * 32 + i
head_of_lem seq i hs hi =
    let e : bit_and i 0x1f ≡ i = bit_and_mask 5 i ∙ omega arith in
    let w : u8 (seq <<< 5) ≡ seq * 2 ^ 5 = omega arith in
    rw (e, w) (omega (arith, bit_or_fields 5 seq i hi))

index_of-head_of : (seq i : ℕ) → seq < 8 → i < 32 → index_of (head_of seq i) ≡ i
index_of-head_of seq i hs hi =
    rw (head_of_lem seq i hs hi) (bit_and_mask 5 (seq * 32 + i) ∙ omega arith)

seq_of-head_of : (seq i : ℕ) → seq < 8 → i < 32 → seq_of (head_of seq i) ≡ seq * 32
seq_of-head_of seq i hs hi =
    rw (head_of_lem seq i hs hi)
      (bit_and_high 5 seq i 7 hi ∙ ap (λ (t : ℕ). t * 32) (bit_and_mask 3 seq ∙ omega arith))

module _ (p : List ℕ) (small : length p ≤ 223) (seq : ℕ) (seq_fits : seq < 8) where
  -- The frame with index i, cut from the place where the frames before it end.
  abbrev pub part : ℕ → List ℕ
  part i = chunk_frame seq i p (dst_off i) (length p - dst_off i)

  abbrev pub parts : ℕ → ℕ → List (List ℕ)
  parts zero i = []
  parts (suc n) i = part i ∷ parts n (suc i)

  abbrev chunk : ℕ → List ℕ
  chunk i = take (chunk_len i (length p - dst_off i)) (drop (dst_off i) p)

  abbrev tail_of : ℕ → List ℕ
  tail_of zero = write_at (u8 (length p) ∷ replicate 6 0xff) 1 (chunk 0)
  tail_of (suc i) = write_at (replicate 7 0xff) 0 (chunk (suc i))

  nonzero : (i : ℕ) → suc i == 0 ≡ false
  nonzero i = ne→== (suc i) 0 (λ e. absurd (omega arith))

  part-head : (i : ℕ) → part i ≡ head_of seq i ∷ tail_of i
  unfolding chunk_frame
  part-head zero = refl
  part-head (suc i) = rw (nonzero i) refl

  length-chunk : (i : ℕ) → length (chunk i) ≡ min (bucket_len i) (length p - dst_off i)
  unfolding chunk_len bucket_len
  length-chunk i =
      let d = length-drop (dst_off i) p in
      length-take (chunk_len i (length p - dst_off i)) (drop (dst_off i) p) ∙ rw d (ground arith)

  length-tail_of : (i : ℕ) → length (tail_of i) ≡ 7
  unfolding bucket_len
  length-tail_of zero =
      length-write_at (u8 (length p) ∷ replicate 6 0xff) (chunk 0) 1 (omega (arith, length-chunk 0))
  length-tail_of (suc i) =
      length-write_at (replicate 7 0xff) (chunk (suc i)) 0 (ground (arith, length-chunk (suc i)))

  pub length-part : (i : ℕ) → length (part i) ≡ 8
  length-part i = ap length (part-head i) ∙ ap suc (length-tail_of i)

  -- A byte of the chunk is the byte of the message.
  chunk_byte :
      (i j : ℕ)
      → j < bucket_len i
      → dst_off i + j < length p
      → get_or (chunk i) j 0 ≡ get_or p (dst_off i + j) 0
  unfolding chunk_len bucket_len
  chunk_byte i j hj there =
      get_or-take (chunk_len i (length p - dst_off i)) j (drop (dst_off i) p) 0 (ground arith)
      ∙ get_or-drop (dst_off i) j p 0

  tail_of-byte :
      (i j : ℕ)
      → j < bucket_len i
      → dst_off i + j < length p
      → get_or (head_of seq i ∷ tail_of i) (src_off i + j) 0 ≡ get_or (chunk i) j 0
  unfolding src_off bucket_len
  tail_of-byte zero j hj there =
      let size = length-chunk 0 in
      let next : 2 + j ≡ suc (1 + j) = omega arith in
      ap (λ (t : ℕ). get_or (head_of seq 0 ∷ tail_of 0) t 0) next
      ∙ get_or-write_at_inside (u8 (length p) ∷ replicate 6 0xff) (chunk 0) 1 (1 + j) 0
          (omega arith) (omega arith) (omega arith)
      ∙ ap (λ (t : ℕ). get_or (chunk 0) t 0) (omega arith)
  tail_of-byte (suc i) j hj there =
      let size = length-chunk (suc i) in
      let next : 1 + j ≡ suc j = omega arith in
      rw (nonzero i, next)
        (get_or-write_at_inside (replicate 7 0xff) (chunk (suc i)) 0 j 0 (ground arith)
            (ground arith) (ground arith)
          ∙ ap (λ (t : ℕ). get_or (chunk (suc i)) t 0) (omega arith))

  declares_lem : (i : ℕ) → i ≡ 0 → get_or (head_of seq i ∷ tail_of i) 1 0 ≡ length p
  declares_lem zero e = omega arith
  declares_lem (suc i) e = absurd (omega arith)

  part-Carries : (i : ℕ) → i < frame_count (length p) → Carries p i (part i)
  unfolding src_off bucket_len
  part-Carries i hi =
      let size = length-part i in
      record {
        in_range = hi;
        declares = λ e. rw (part-head i) (declares_lem i e);
        long_enough = λ k hk there. ground arith;
        content =
            λ k hk there. rw (part-head i) (tail_of-byte i k hk there ∙ chunk_byte i k hk there);
      }

  -- The reassembler knows the frame for what it is.
  pub part-IsPart :
      (when : Option Text) (h : Iso11783) (i : ℕ)
      → i < frame_count (length p)
      → IsPart p
          (record { pgn = h.pgn; src = h.src; seq = seq * 32 })
          i
          (Frame.new when h.prio h.pgn h.src h.dst (part i))
  part-IsPart when h i hi =
      let size : length (part i) ≡ 8 = length-part i in
      let uncut : ltb (255 * 7) (length (part i)) ≡ false = rw size refl in
      record {
        header = head_of seq i;
        rest = tail_of i;
        bytes = rw uncut (part-head i);
        short = rw uncut (omega arith);
        index = index_of-head_of seq i seq_fits (omega arith);
        seq = seq_of-head_of seq i seq_fits (omega arith);
        pgn = refl;
        src = refl;
        carries = rw uncut (part-Carries i hi);
      }
