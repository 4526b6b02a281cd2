-- ===== src/Wire/Framing.antt =====
-- Reading back what was written, however it arrives.
use canboat_rs.Prelude.{
  ℕ, zero, suc, ◌+◌, ◌^◌, ◌≤◌, ◌<◌, ◌≡◌, refl, ap, ◌∙◌, sym, List, [], ◌∷◌, ◌++◌, none, some, inr,
  arith, length, take, drop, u32, ltb, lt→ltb, le→ltb-false, length-append, length-take, true,
  false,
}
use canboat_rs.Frame.{le_bytes}
use canboat_rs.Ngt1.{from_le_bytes}
use canboat_rs.Wire.{Postcard, append_frame, try_read_frame, decode_frame, with_size, max_frame_len}

from_le_bytes-prefix :
    (n : ℕ) (xs : List ℕ) → n < 2 ^ 32 → from_le_bytes (take 4 (le_bytes 4 n ++ xs)) ≡ n
unfolding from_le_bytes
from_le_bytes-prefix n xs h = omega arith

take_prefix : (xs ys : List ℕ) → take (length xs) (xs ++ ys) ≡ xs
take_prefix [] ys = refl
take_prefix (x ∷ xs) ys = ap (◌∷◌ x) (take_prefix xs ys)

module _ (V : Type 0) (p : Postcard V) where
  open p use {to_allocvec, from_bytes}

  -- A frame on the wire, with what follows it.
  abbrev frame_of : List ℕ → List ℕ
  frame_of body = le_bytes 4 (length body) ++ body

  frame_of-length : (body : List ℕ) → length (frame_of body) ≡ 4 + length body
  frame_of-length body = omega (arith, length-append (le_bytes 4 (length body)) body)

  cut : (body rest : List ℕ) → drop 4 (take (4 + length body) (frame_of body ++ rest)) ≡ body
  cut body rest =
      let four : 4 + length body ≡ suc (suc (suc (suc (length body)))) = omega arith in
      rw four (take_prefix body rest)

  whole :
      (body rest : List ℕ) (value : V)
      → from_bytes body ≡ inr value
      → length body ≤ max_frame_len
      → try_read_frame V p (frame_of body ++ rest) ≡ inr (some (value, 4 + length body))
  unfolding try_read_frame decode_frame with_size
  whole body rest value e small =
      let buf = frame_of body ++ rest in
      let size : length buf ≡ 4 + length body + length rest =
        omega (arith, length-append (frame_of body) rest, frame_of-length body) in
      let len : from_le_bytes (take 4 buf) ≡ length body =
        from_le_bytes-prefix (length body) (body ++ rest) (omega arith) in
      let a : ltb (length buf) 4 ≡ false = le→ltb-false 4 (length buf) (omega arith) in
      let b : ltb max_frame_len (length body) ≡ false =
        le→ltb-false (length body) max_frame_len small in
      let c : ltb (length buf) (4 + length body) ≡ false =
        le→ltb-false (4 + length body) (length buf) (omega arith) in
      rw (try_read_frame, len, a, b, c, cut body rest, decode_frame, e) refl

  -- With the length known, a shorter buffer is not enough.
  short :
      (body : List ℕ) (k : ℕ)
      → length body ≤ max_frame_len
      → k < 4 + length body
      → try_read_frame V p (take k (frame_of body)) ≡ inr none
  unfolding try_read_frame
  short body zero small h = refl
  short body (suc zero) small h = refl
  short body (suc (suc zero)) small h = refl
  short body (suc (suc (suc zero))) small h = refl
  short body (suc (suc (suc (suc k)))) small h =
      let buf = le_bytes 4 (length body) ++ take k body in
      let size : length buf ≡ 4 + k =
        omega (arith, length-append (le_bytes 4 (length body)) (take k body), length-take k body) in
      let len : from_le_bytes (take 4 buf) ≡ length body =
        from_le_bytes-prefix (length body) (take k body) (omega arith) in
      let a : ltb (length buf) 4 ≡ false = le→ltb-false 4 (length buf) (omega arith) in
      let b : ltb max_frame_len (length body) ≡ false =
        le→ltb-false (length body) max_frame_len small in
      let c : ltb (length buf) (4 + length body) ≡ true =
        lt→ltb (length buf) (4 + length body) (omega arith) in
      rw (try_read_frame, len, a, b, c) refl

  append_frame-frame_of :
      (body : List ℕ) (value : V)
      → to_allocvec value ≡ inr body
      → length body ≤ max_frame_len
      → append_frame V p [] value ≡ inr (frame_of body)
  unfolding append_frame
  append_frame-frame_of body value e small =
      let exact : u32 (length body) ≡ length body = omega arith in rw (append_frame, e, exact) refl

  -- A value that the codec writes in at most 2 ^ 20 bytes, which it reads back as that value, goes out
  -- as one frame. Read from a buffer that starts with the frame, whatever follows, it is that value
  -- with the frame's length to drain; and every shorter part of the frame asks for more, without an
  -- error.
  pub try_read_frame-append_frame :
      (value : V) (body rest : List ℕ)
      → to_allocvec value ≡ inr body
      → from_bytes body ≡ inr value
      → length body ≤ max_frame_len
      → (w : List ℕ) × (append_frame V p [] value ≡ inr w)
        × (try_read_frame V p (w ++ rest) ≡ inr (some (value, length w)))
        × ((k : ℕ) → k < length w → try_read_frame V p (take k w) ≡ inr none)
  try_read_frame-append_frame value body rest writes reads small =
      let size = frame_of-length body in
      (
        frame_of body,
        append_frame-frame_of body value writes small,
        whole body rest value reads small ∙ ap (λ (t : ℕ). inr (some (value, t))) (sym size),
        λ k h. short body k small (omega arith),
      )
