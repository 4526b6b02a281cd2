-- ===== src/FieldBits/Chunks.antt =====
-- The loop of `extract_bits`, beside the number that the bytes of the payload make.
use canboat_rs.Prelude.{
  ℕ, ◌+◌, ◌-◌, ◌*◌, ◌/◌, ◌%◌, ◌^◌, ◌≤◌, ◌<◌, ◌≡◌, refl, ap, ◌∙◌, sym, subst, List, [], ◌∷◌, arith,
  min, length, ◌==◌, if_cases, inl, inr, ◌⊎◌,
}
use native.Mathlib.Nat.{
  mul_comm, mod-lt, mod-eq_of_lt, div-add-mod, div-lt_iff_lt-mul, mul-le-mul_right,
}
use canboat_rs.FieldBits.{Read, chunk_of, read_loop}
use canboat_rs.FieldBits.Bounds.{
  two_pow-add, positive, chunk_of_lem, grown, IsRead, chunk_of-lt, chunk-IsRead, read_loop-IsRead,
}

abbrev pub little_endian : List ℕ → ℕ
little_endian [] = 0
little_endian (byte ∷ bytes) = byte + 256 * little_endian bytes

abbrev pub AreBytes : List ℕ → Type 0
AreBytes [] = Unit
AreBytes (byte ∷ bytes) = (byte < 256) × AreBytes bytes

-- What was read is the part of the number above `low` and below `high`.
pub record Reads (bytes : List ℕ) (first : ℕ) (r out : Read) : Type 0 where
  pub count : ℕ
  pub part : ℕ
  pub low : ℕ
  pub high : ℕ
  pub advanced : out.magnitude ≡ r.magnitude + count
  pub appended : out.value ≡ r.value + part * 2 ^ r.magnitude
  pub fits : part < 2 ^ count
  pub below : low < 2 ^ first
  pub whole : little_endian bytes ≡ low + 2 ^ first * (part + 2 ^ count * high)

-- A chunk and what is read after it, as one part.
joined_fits :
    (n count chunk part : ℕ)
    → chunk < 2 ^ n
    → part < 2 ^ count
    → chunk + 2 ^ n * part < 2 ^ (n + count)
joined_fits n count chunk part hc hp =
    let most : (part + 1) * 2 ^ n ≤ 2 ^ count * 2 ^ n = mul-le-mul_right (2 ^ n) (omega arith) in
    rw (two_pow-add n count, mul_comm (2 ^ n) part, mul_comm (2 ^ n) (2 ^ count)) (grind arith)

-- The byte around a chunk of it.
byte_parts :
    (byte first n : ℕ)
    → byte
      ≡ byte % 2 ^ first
        + 2 ^ first * (byte / 2 ^ first % 2 ^ n + 2 ^ n * (byte / 2 ^ first / 2 ^ n))
byte_parts byte first n =
    split byte (byte % 2 ^ first) (2 ^ first) (byte / 2 ^ first) _
      (sym (div-add-mod byte (2 ^ first)) ∙ omega arith)
      (sym (div-add-mod (byte / 2 ^ first) (2 ^ n)) ∙ omega arith)
  where
    split : (b lo F q q' : ℕ) → b ≡ lo + F * q → q ≡ q' → b ≡ lo + F * q'
    split b lo F q q' e e' = e ∙ ap (λ (t : ℕ). lo + F * t) e'

-- A byte read to its end and the bytes after it.
whole_byte :
    (b L lo F q N p C h : ℕ)
    → b ≡ lo + F * q
    → 256 ≡ F * N
    → L ≡ p + C * h
    → b + 256 * L ≡ lo + F * (q + N * p + N * C * h)
whole_byte b L lo F q N p C h eb e256 eL =
    ap (λ (t : ℕ). b + t * L) e256 ∙ rw (eb, eL) (grind arith)

-- A byte read in its midst.
last_byte :
    (b L lo F c N Q R : ℕ)
    → b ≡ lo + F * (c + N * Q)
    → 256 ≡ F * (N * R)
    → b + 256 * L ≡ lo + F * (c + N * (Q + R * L))
last_byte b L lo F c N Q R eb e256 = ap (λ (t : ℕ). b + t * L) e256 ∙ rw eb (grind arith)

-- What stands above the chunk in its byte and in the bytes after it, as a multiple of `2 ^ count`
-- above what is read of those: either the byte is read to its end, or nothing after it is.
above :
    (byte first n L count part high : ℕ)
    → byte < 256
    → first < 8
    → (n ≡ 8 - first) ⊎ ((n ≤ 8 - first) × (count ≡ 0))
    → part < 2 ^ count
    → L ≡ part + 2 ^ count * high
    → (h : ℕ) × (byte + 256 * L
        ≡ byte % 2 ^ first
          + 2 ^ first * (byte / 2 ^ first % 2 ^ n + 2 ^ n * part + 2 ^ (n + count) * h))
above byte first n L count part high hb hf (inl full) fits whole =
    let bits : first + n ≡ 8 = omega arith in
    let size : 256 ≡ 2 ^ first * 2 ^ n = ap (λ (t : ℕ). 2 ^ t) (sym bits) ∙ two_pow-add first n in
    let q_fits : byte / 2 ^ first < 2 ^ n =
      (div-lt_iff_lt-mul (positive first)).1 (omega (arith, size, mul_comm (2 ^ first) (2 ^ n))) in
    let q_all : byte / 2 ^ first % 2 ^ n ≡ byte / 2 ^ first = mod-eq_of_lt q_fits in
    let parts : byte ≡ byte % 2 ^ first + 2 ^ first * (byte / 2 ^ first) =
      sym (div-add-mod byte (2 ^ first)) ∙ omega arith in
    (
      high,
      rw (q_all, two_pow-add n count)
          (whole_byte byte L (byte % 2 ^ first) (2 ^ first) (byte / 2 ^ first) (2 ^ n) part
            (2 ^ count) high parts size whole),
    )
above byte first n L count part high hb hf (inr last) fits whole =
    let nothing : count ≡ 0 = last.1 in
    let none_read : part ≡ 0 =
      (let fits' : part < 2 ^ 0 = subst (λ (t : ℕ). part < 2 ^ t) nothing fits in omega arith) in
    let bits : first + (n + (8 - first - n)) ≡ 8 = omega arith in
    let size : 256 ≡ 2 ^ first * (2 ^ n * 2 ^ (8 - first - n)) =
      ap (λ (t : ℕ). 2 ^ t) (sym bits)
      ∙ two_pow-add first (n + (8 - first - n))
      ∙ ap (λ (t : ℕ). 2 ^ first * t) (two_pow-add n (8 - first - n)) in
    let same : n + count ≡ n = omega arith in
    let no_part : 2 ^ n * part ≡ 0 = rw none_read (grind arith) in
    (
      byte / 2 ^ first / 2 ^ n + 2 ^ (8 - first - n) * L,
      last_byte byte L (byte % 2 ^ first) (2 ^ first) (byte / 2 ^ first % 2 ^ n) (2 ^ n)
            (byte / 2 ^ first / 2 ^ n) (2 ^ (8 - first - n)) (byte_parts byte first n) size
          ∙ rw (same, no_part) (grind arith),
    )

-- One pass of the loop: a chunk, and what `after` says of the bytes after it.
chunk-Reads :
    (byte : ℕ) (bytes : List ℕ) (first n : ℕ) (r next out : Read)
    → byte < 256
    → first < 8
    → n ≤ 8 - first
    → next.magnitude ≡ r.magnitude + n
    → next.value ≡ r.value + byte / 2 ^ first % 2 ^ n * 2 ^ r.magnitude
    → (n ≡ 8 - first) ⊎ (out.magnitude ≡ next.magnitude)
    → Reads bytes 0 next out
    → Reads (byte ∷ bytes) first r out
chunk-Reads byte bytes first n r next out hb hf hn moved value ends after =
    let c = byte / 2 ^ first % 2 ^ n in
    let c_fits : c < 2 ^ n = mod-lt (byte / 2 ^ first) (positive n) in
    let top =
      above byte first n (little_endian bytes) after.count after.part after.high hb hf
        (elim ends [ inl full ↦ inl full | inr same ↦ inr (hn, omega (arith, after.advanced)) ])
        after.fits (after.whole ∙ from_start after.low after.below) in
    record {
      count = n + after.count;
      part = c + 2 ^ n * after.part;
      low = byte % 2 ^ first;
      high = top.0;
      advanced = after.advanced ∙ omega arith;
      appended =
          after.appended
          ∙ rw (value, moved, two_pow-add r.magnitude n)
              (two_chunks r.value c (2 ^ r.magnitude) after.part (2 ^ n));
      fits = joined_fits n after.count c after.part c_fits after.fits;
      below = mod-lt byte (positive first);
      whole = top.1;
    }
  where
    from_start : (low : ℕ) → low < 2 ^ 0 → {x : ℕ} → low + 2 ^ 0 * x ≡ x
    from_start low h {x = x} = omega arith

    two_chunks : (v c M p N : ℕ) → v + c * M + p * (M * N) ≡ v + (c + N * p) * M
    two_chunks v c M p N = grind arith

pub read_loop-Reads :
    (bytes : List ℕ) (first remaining : ℕ) (r : Read)
    → AreBytes bytes
    → IsRead r
    → first < 8
    → r.magnitude + remaining ≤ 64
    → Reads bytes first r (read_loop bytes first remaining r)
unfolding read_loop
read_loop-Reads [] first remaining r hs is hf room = record {
  count = 0;
  part = 0;
  low = 0;
  high = 0;
  advanced = omega arith;
  appended = omega arith;
  fits = omega arith;
  below = positive first;
  whole = omega arith;
}
read_loop-Reads (byte ∷ bytes) first remaining r hs is hf room =
    if_cases (Reads (byte ∷ bytes) first r) (remaining == 0)
      (λ done. record {
        count = 0;
        part = 0;
        low = little_endian (byte ∷ bytes) % 2 ^ first;
        high = little_endian (byte ∷ bytes) / 2 ^ first;
        advanced = omega arith;
        appended = omega arith;
        fits = omega arith;
        below = mod-lt (little_endian (byte ∷ bytes)) (positive first);
        whole = sym (div-add-mod (little_endian (byte ∷ bytes)) (2 ^ first)) ∙ grind arith;
      })
      (λ busy.
        let n = min (8 - first) remaining in
        let c = chunk_of byte first n in
        let is' = chunk-IsRead byte first n r is (omega arith) (omega arith) in
        let after =
          read_loop-Reads bytes 0 (remaining - n) _ hs.1 is' (omega arith) (omega arith) in
        let size = read_loop-IsRead bytes 0 (remaining - n) _ is' (omega arith) (omega arith) in
        let chunk = chunk_of_lem byte first n (omega arith) in
        let value =
          grown r.value c n r.magnitude is.below (chunk_of-lt byte first n (omega arith))
            (omega arith) in
        chunk-Reads byte bytes first n r _ _ hs.0 hf (omega arith) refl
          (value.0 ∙ ap (λ (t : ℕ). r.value + t * 2 ^ r.magnitude) chunk)
          (ends first remaining (length bytes) r.magnitude size.1) after)
  where
    ends :
        (first remaining len at : ℕ) {m : ℕ}
        → m
          ≡ at
            + min (8 - first) remaining
            + min (remaining - min (8 - first) remaining) (8 * len - 0)
        → (min (8 - first) remaining ≡ 8 - first) ⊎ (m ≡ at + min (8 - first) remaining)
    ends first remaining len at h = ground arith
