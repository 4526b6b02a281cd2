-- ===== src/FieldBits/LittleEndian.antt =====
-- `extract_raw`, beside the number that the bytes of the payload make.
use canboat_rs.Prelude.{
  ℕ, zero, suc, min, ◌-◌, ◌+◌, ◌*◌, ◌/◌, ◌%◌, ◌^◌, ◌≡◌, refl, ap, ◌∙◌, sym, subst, List, [], ◌∷◌,
  arith, length, some, none, drop, ◌==◌, inl, inr, Bool-cases, ◌||◌, ltb, leb,
}
use native.Mathlib.Nat.{
  div-div-eq-div-mul, div-eq_of_lt, mod-eq_of_lt, add-mul-mod_self_left, add-mul-div_left,
}
use canboat_rs.FieldBits.{Read, read_loop, extract_raw}
use canboat_rs.FieldBits.Bounds.{two_pow-add, positive, extract_raw_cases}
use canboat_rs.FieldBits.Chunks.{little_endian, AreBytes, Reads, read_loop-Reads}

drop-AreBytes : (k : ℕ) (bytes : List ℕ) → AreBytes bytes → AreBytes (drop k bytes)
drop-AreBytes zero bytes hs = hs
drop-AreBytes (suc k) [] hs = tt
drop-AreBytes (suc k) (byte ∷ bytes) hs = drop-AreBytes k bytes hs.1

-- Whole bytes are divided away.
little_endian-drop :
    (k : ℕ) (bytes : List ℕ)
    → AreBytes bytes
    → little_endian (drop k bytes) ≡ little_endian bytes / 2 ^ (8 * k)
little_endian-drop zero bytes hs = omega arith
little_endian-drop (suc k) [] hs = sym (div-eq_of_lt (positive (8 * suc k)))
little_endian-drop (suc k) (byte ∷ bytes) hs =
    let power : 2 ^ (8 * suc k) ≡ 256 * 2 ^ (8 * k) =
      ap (λ (t : ℕ). 2 ^ t) (omega arith) ∙ two_pow-add 8 (8 * k) in
    let rest : (byte + 256 * little_endian bytes) / 256 ≡ little_endian bytes =
      omega (arith, hs.0) in
    little_endian-drop k bytes hs.1
    ∙ ap (λ (t : ℕ). t / 2 ^ (8 * k)) (sym rest)
    ∙ div-div-eq-div-mul (byte + 256 * little_endian bytes) 256 (2 ^ (8 * k))
    ∙ ap (λ (t : ℕ). (byte + 256 * little_endian bytes) / t) (sym power)

skipped :
    (bit_offset : ℕ) (bytes : List ℕ)
    → AreBytes bytes
    → little_endian (drop (bit_offset / 8) bytes) / 2 ^ (bit_offset % 8)
      ≡ little_endian bytes / 2 ^ bit_offset
skipped bit_offset bytes hs =
    let k = bit_offset / 8 in
    let whole : 8 * k + bit_offset % 8 ≡ bit_offset = omega arith in
    ap (λ (t : ℕ). t / 2 ^ (bit_offset % 8)) (little_endian-drop k bytes hs)
    ∙ div-div-eq-div-mul (little_endian bytes) (2 ^ (8 * k)) (2 ^ (bit_offset % 8))
    ∙ ap (λ (t : ℕ). little_endian bytes / t) (sym (two_pow-add (8 * k) (bit_offset % 8)))
    ∙ ap (λ (t : ℕ). little_endian bytes / 2 ^ t) whole

-- The part that was read from the start of the loop.
part_lem :
    (bytes : List ℕ) (first : ℕ) (out : Read)
    → Reads bytes first (record { value = 0; max_v = 0; magnitude = 0 }) out
    → out.value ≡ little_endian bytes / 2 ^ first % 2 ^ out.magnitude
part_lem bytes first out read =
    let above_low : little_endian bytes / 2 ^ first ≡ read.part + 2 ^ read.count * read.high =
      ap (λ (t : ℕ). t / 2 ^ first) read.whole
      ∙ add-mul-div_left read.low _ (positive first)
      ∙ ap (λ (t : ℕ). t + (read.part + 2 ^ read.count * read.high)) (div-eq_of_lt read.below)
      ∙ omega arith in
    let size : out.magnitude ≡ read.count = omega (arith, read.advanced) in
    rw (size, above_low)
      (omega (arith, read.appended)
        ∙ sym (mod-eq_of_lt read.fits)
        ∙ sym (add-mul-mod_self_left read.part (2 ^ read.count) read.high))

-- By the number of bits that were read.
pub extract_raw-part :
    (bytes : List ℕ) (bit_offset bits : ℕ) (r : Read)
    → AreBytes bytes
    → extract_raw bytes bit_offset bits ≡ some r
    → r.value ≡ little_endian bytes / 2 ^ bit_offset % 2 ^ r.magnitude
unfolding extract_raw
extract_raw-part bytes bit_offset bits r hs got = elim (Bool-cases (bits == 0 || ltb 64 bits)) [
  | inl bad ↦
      (let out : extract_raw bytes bit_offset bits ≡ none = rw bad refl in
        absurd (no_read (sym out ∙ got)))
  | inr good ↦ elim (Bool-cases (leb (length bytes) (bit_offset / 8))) [
    | inl past ↦
        (let out : extract_raw bytes bit_offset bits ≡ none = rw (good, past) refl in
          absurd (no_read (sym out ∙ got)))
    | inr within ↦
        let start : Read = record { value = 0; max_v = 0; magnitude = 0 } in
        let first = bit_offset % 8 in
        let tail = drop (bit_offset / 8) bytes in
        let read =
          read_loop-Reads tail first bits start (drop-AreBytes (bit_offset / 8) bytes hs)
            (record { below = omega arith; full = refl }) (omega arith) (ground arith) in
        let out : extract_raw bytes bit_offset bits ≡ some (read_loop tail first bits start) =
          rw (good, within) refl in
        subst (λ (t : Read). t.value ≡ little_endian bytes / 2 ^ bit_offset % 2 ^ t.magnitude)
          (some_injective _ _ (sym out ∙ got))
          (part_lem tail first _ read
            ∙ ap (λ (t : ℕ). t % 2 ^ (read_loop tail first bits start).magnitude)
                (skipped bit_offset bytes hs))
  ]
]
  where
    no_read : none ≡ some r → ⊥
    no_read e = ground arith

    some_injective : (a b : Read) → some a ≡ some b → a ≡ b
    some_injective a b e = ground arith

-- A field that is read from a payload of bytes is that part of the number they make, the lowest byte
-- first, which starts at its offset and has all the bits of the field, or those up to the end of the
-- payload if the payload ends within the field.
pub extract_raw-little_endian :
    (bytes : List ℕ) (bit_offset bits : ℕ) (r : Read)
    → AreBytes bytes
    → extract_raw bytes bit_offset bits ≡ some r
    → let there = min bits (8 * length bytes - bit_offset) in
      (r.magnitude ≡ there) × (r.value ≡ little_endian bytes / 2 ^ bit_offset % 2 ^ there)
extract_raw-little_endian bytes bit_offset bits r hs got =
    elim (extract_raw_cases bytes bit_offset bits) [
      | inr (out, why) ↦ absurd (not_none r (sym got ∙ out))
      | inl (x, out, _, _, _, size, _, _) ↦
          let same : r.magnitude ≡ min bits (8 * length bytes - bit_offset) =
            ap (λ (t : Read). t.magnitude) (some_same r x (sym got ∙ out)) ∙ size in
          let value = extract_raw-part bytes bit_offset bits r hs got in
          (same, value ∙ ap (λ (t : ℕ). little_endian bytes / 2 ^ bit_offset % 2 ^ t) same)
    ]
  where
    not_none : (a : Read) → some a ≡ none → ⊥
    not_none a e = ground arith

    some_same : (a b : Read) → some a ≡ some b → a ≡ b
    some_same a b e = ground arith
