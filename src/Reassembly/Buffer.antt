-- ===== src/Reassembly/Buffer.antt =====
-- Where the bytes of a frame land in the buffer of its slot.
use canboat_rs.Prelude.{
  ℕ, ◌+◌, ◌-◌, ◌≤◌, ◌<◌, ◌≡◌, ◌∙◌, ◌⊎◌, inl, List, arith, length, get_or, take, drop, replicate,
  write_at, length-write_at, get_or-write_at_inside, get_or-write_at_outside, get_or-take,
  get_or-drop, get_or-replicate, length-take, length-drop, length-replicate,
}
use canboat_rs.Reassembly.{dst_off, src_off, bucket_len, bucket_capacity, copy_len, store}

pub bucket_capacity_lem : (i : ℕ) → i ≤ 31 → bucket_capacity i ≡ bucket_len i
unfolding bucket_capacity
bucket_capacity_lem i h = ground arith

abbrev copied : ℕ → List ℕ → List ℕ
copied i payload = take (copy_len i payload) (drop (src_off i) payload)

length-copied : (i : ℕ) (payload : List ℕ) → length (copied i payload) ≡ copy_len i payload
unfolding copy_len
length-copied i payload = omega (
  arith,
  length-take (copy_len i payload) (drop (src_off i) payload),
  length-drop (src_off i) payload,
)

abbrev padding : ℕ → List ℕ → List ℕ
padding i payload = replicate (bucket_capacity i - copy_len i payload) 0xff

length-padding :
    (i : ℕ) (payload : List ℕ) → length (padding i payload) ≡ bucket_capacity i - copy_len i payload
length-padding i payload = length-replicate {A = ℕ} (bucket_capacity i - copy_len i payload) 0xff

-- What is copied fits where it goes, and so does what is filled, whatever the index.
copied-fits :
    (i : ℕ) (payload bytes : List ℕ)
    → length bytes ≡ 223
    → length (copied i payload) ≤ length bytes - dst_off i
unfolding copy_len bucket_capacity
copied-fits i payload bytes size = omega (arith, length-copied i payload)

padding-fits :
    (i : ℕ) (payload bytes : List ℕ)
    → length bytes ≡ 223
    → length (padding i payload)
      ≤ length (write_at bytes (dst_off i) (copied i payload)) - (dst_off i + copy_len i payload)
unfolding bucket_capacity
padding-fits i payload bytes size = omega (
  arith,
  length-padding i payload,
  length-write_at bytes (copied i payload) (dst_off i) (copied-fits i payload bytes size),
)

pub length-store :
    (i : ℕ) (payload bytes : List ℕ)
    → length bytes ≡ 223
    → length (store i payload bytes) ≡ length bytes
unfolding store
length-store i payload bytes size =
    length-write_at _ (padding i payload) _ (padding-fits i payload bytes size)
    ∙ length-write_at bytes _ _ (copied-fits i payload bytes size)

-- The buffer is not overrun: every byte of the bucket has a place.
pub bucket_fits : (i : ℕ) → i ≤ 31 → dst_off i + bucket_len i ≤ 223
unfolding dst_off bucket_len
bucket_fits i h = ground arith

copy_len-le : (i : ℕ) (payload : List ℕ) → i ≤ 31 → copy_len i payload ≤ bucket_len i
unfolding copy_len
copy_len-le i payload h = omega (arith, bucket_capacity_lem i h)

lt-copy_len :
    (i : ℕ) (payload : List ℕ) (k : ℕ)
    → i ≤ 31
    → k < bucket_len i
    → src_off i + k < length payload
    → k < copy_len i payload
unfolding copy_len
lt-copy_len i payload k h hk there = omega (arith, bucket_capacity_lem i h)

copy_len-le_past :
    (i : ℕ) (payload : List ℕ) (k : ℕ) → length payload ≤ src_off i + k → copy_len i payload ≤ k
unfolding copy_len
copy_len-le_past i payload k past = omega arith

module _ (i : ℕ) (payload bytes : List ℕ) (h : i ≤ 31) (size : length bytes ≡ 223) where
  -- Inside the bucket, before the end of the frame.
  pub get_or-store_there :
      (k : ℕ)
      → k < bucket_len i
      → src_off i + k < length payload
      → get_or (store i payload bytes) (dst_off i + k) 0 ≡ get_or payload (src_off i + k) 0
  unfolding store
  get_or-store_there k hk there =
      let short = lt-copy_len i payload k h hk there in
      let here : dst_off i + k - dst_off i ≡ k = omega arith in
      get_or-write_at_outside (write_at bytes (dst_off i) (copied i payload)) (padding i payload)
        (dst_off i + copy_len i payload) (dst_off i + k) 0 (padding-fits i payload bytes size)
        (inl (omega arith))
      ∙ get_or-write_at_inside bytes (copied i payload) (dst_off i) (dst_off i + k) 0 (omega arith)
          (omega (arith, length-copied i payload)) (omega (arith, bucket_fits i h))
      ∙ rw here (
          get_or-take (copy_len i payload) k (drop (src_off i) payload) 0 short
          ∙ get_or-drop (src_off i) k payload 0)

  -- Inside the bucket, behind the end of a short frame.
  pub get_or-store_past :
      (k : ℕ)
      → k < bucket_len i
      → length payload ≤ src_off i + k
      → get_or (store i payload bytes) (dst_off i + k) 0 ≡ 0xff
  unfolding store
  get_or-store_past k hk past =
      let long = copy_len-le_past i payload k past in
      let cap = bucket_capacity_lem i h in
      get_or-write_at_inside (write_at bytes (dst_off i) (copied i payload)) (padding i payload)
        (dst_off i + copy_len i payload) (dst_off i + k) 0 (omega arith)
        (omega (arith, length-replicate {A = ℕ} (bucket_capacity i - copy_len i payload) 0xff))
        (omega (
          arith,
          bucket_fits i h,
          length-write_at bytes (copied i payload) (dst_off i) (copied-fits i payload bytes size),
        ))
      ∙ get_or-replicate (bucket_capacity i - copy_len i payload)
          (dst_off i + k - (dst_off i + copy_len i payload)) 0xff 0 (omega arith)

  -- The rest of the buffer is left alone.
  pub get_or-store_outside :
      (j : ℕ)
      → (j < dst_off i) ⊎ (dst_off i + bucket_len i ≤ j)
      → get_or (store i payload bytes) j 0 ≡ get_or bytes j 0
  unfolding store
  get_or-store_outside j hj =
      let cap = bucket_capacity_lem i h in
      let short = copy_len-le i payload h in
      get_or-write_at_outside (write_at bytes (dst_off i) (copied i payload)) (padding i payload)
        (dst_off i + copy_len i payload) j 0 (padding-fits i payload bytes size)
        (omega (arith, length-replicate {A = ℕ} (bucket_capacity i - copy_len i payload) 0xff))
      ∙ get_or-write_at_outside bytes (copied i payload) (dst_off i) j 0
          (copied-fits i payload bytes size) (omega (arith, length-copied i payload))
