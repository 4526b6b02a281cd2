-- ===== src/FieldBits.antt =====
-- crates/canboat-core/src/bits.rs: how `extract_bits` reads a field of up to 64 bits, and how
-- `write_bits` of crates/canboat-core/src/encode.rs puts one there. Bits are counted from the lowest
-- of each byte. The sum with an offset wraps around, as in a release build.
pub mod Bounds
pub mod Chunks
pub mod LittleEndian
pub mod RoundTrip
pub mod Signed
pub mod Sentinel
use canboat_rs.Prelude.{
  ℕ, zero, suc, ◌+◌, ◌-◌, ◌*◌, ◌/◌, ◌%◌, ◌^◌, List, [], ◌∷◌, ◌++◌, Option, none, some, Bool, ◌||◌,
  ltb, leb, ◌==◌, if◌then◌else◌, length, drop, min, u64, bit_and, bit_or, ◌<<<◌, ◌>>>◌, get_or, set,
  not,
}
use canboat_rs.Int.{ℤ, pos, negsuc, pos_part, neg_part, ◌+ℤ◌}

-- The state of the loop: the value, the largest value, and the bits read so far.
pub record Read : Type 0 where
  pub value : ℕ
  pub max_v : ℕ
  pub magnitude : ℕ

-- One byte's part of the field.
unfoldable pub chunk_of : ℕ → ℕ → ℕ → ℕ
chunk_of byte first_bit n =
    let mask = u64 ((2 ^ n - 1) <<< first_bit) in bit_and byte mask >>> first_bit

-- The loop goes from byte to byte and ends where the field or the payload does.
unfoldable pub read_loop : List ℕ → ℕ → ℕ → Read → Read
read_loop [] first_bit remaining r = r
read_loop (byte ∷ bytes) first_bit remaining r =
    let n = min (8 - first_bit) remaining in
    let next : Read = record {
      value = bit_or r.value (u64 (chunk_of byte first_bit n <<< r.magnitude));
      max_v = bit_or r.max_v (u64 ((2 ^ n - 1) <<< r.magnitude));
      magnitude = r.magnitude + n;
    } in
    let rest = read_loop bytes 0 (remaining - n) next in if remaining == 0 then r else rest

-- The raw value and its largest value, or nothing if there is no bit to read.
unfoldable pub extract_raw : List ℕ → ℕ → ℕ → Option Read
extract_raw bytes bit_offset bits =
    if bits == 0 || ltb 64 bits
    then none
    else if leb (length bytes) (bit_offset / 8)
    then none
    else some (
        read_loop (drop (bit_offset / 8) bytes) (bit_offset % 8) bits
          (record { value = 0; max_v = 0; magnitude = 0 }))

-- `as i64` and `as u64`, and a sum of two `i64`.
unfoldable pub as_i64 : ℕ → ℤ
as_i64 n = let w = u64 n in if ltb w (2 ^ 63) then pos w else negsuc (2 ^ 64 - 1 - w)

unfoldable pub as_u64 : ℤ → ℕ
as_u64 (pos n) = u64 n
as_u64 (negsuc n) = 2 ^ 64 - 1 - u64 n

pub record Extracted : Type 0 where
  pub value : ℤ
  pub max : ℤ
  pub raw : ℕ

-- The sign and the offset. The width of the sign is that of the bits that were read.
unfoldable pub extracted_of : Read → Bool → ℤ → Extracted
extracted_of r signed offset =
    let no_offset : Bool = pos_part offset + neg_part offset == 0 in
    let add : ℕ → ℤ = λ n. as_i64 (as_u64 (as_i64 n +ℤ offset)) in
    let sign_bit = 2 ^ (r.magnitude - 1) in
    if signed
    then if not no_offset
      then record { value = add r.value; max = add (r.max_v >>> 1); raw = r.value }
      else if not (bit_and r.value sign_bit == 0)
      then record {
        value = as_i64 (bit_or r.value (2 ^ 64 - 1 - r.max_v));
        max = as_i64 (r.max_v >>> 1);
        raw = r.value;
      }
      else record { value = as_i64 r.value; max = as_i64 (r.max_v >>> 1); raw = r.value }
    else if not no_offset
    then record { value = add r.value; max = add r.max_v; raw = r.value }
    else record { value = as_i64 r.value; max = as_i64 r.max_v; raw = r.value }

unfoldable pub extract_bits : List ℕ → ℕ → ℕ → Bool → ℤ → Option Extracted
extract_bits bytes bit_offset bits signed offset = elim (extract_raw bytes bit_offset bits) [
  | none ↦ none
  | some r ↦ if r.magnitude == 0 then none else some (extracted_of r signed offset)
]

-- One bit appended to the buffer.
unfoldable pub write_bit : List ℕ → ℕ → ℕ → List ℕ
write_bit buf next_bit value =
    let buf' = if next_bit % 8 == 0 then buf ++ 0 ∷ [] else buf in
    let idx = next_bit / 8 in
    if value % 2 == 0 then buf' else set buf' idx (bit_or (get_or buf' idx 0) (2 ^ (next_bit % 8)))

unfoldable pub write_bits : List ℕ → ℕ → ℕ → ℕ → List ℕ × ℕ
write_bits buf next_bit zero value = (buf, next_bit)
write_bits buf next_bit (suc bits) value =
    write_bits (write_bit buf next_bit value) (next_bit + 1) bits (value / 2)

unfoldable pub all_ones : ℕ → ℕ
all_ones bits = if leb 64 bits then 2 ^ 64 - 1 else 2 ^ bits - 1

-- The value in two's complement, cut to its width.
unfoldable pub mask_to_width : ℤ → ℕ → ℕ
mask_to_width value bits = bit_and (as_u64 value) (all_ones bits)
