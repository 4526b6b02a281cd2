-- ===== src/Tests/Streams.antt =====
-- The theorems on logs and on the binary stream at concrete inputs.
use canboat_rs.Prelude.{
  ℕ, ◌^◌, ◌/◌, ◌%◌, true, ◌<◌, ◌≡◌, ◌↔◌, refl, inl, inr, min, ◌*◌, ◌-◌, List, [], ◌∷◌, ◌++◌, some,
  none, arith, length, take,
}
use canboat_rs.Frame.{RawFrame, to_string}
use canboat_rs.Ngt1.{NgtMessage, message, header, timestamp, with_ebl, push_bytes}
use canboat_rs.Ngt1.Message.{to_raw_frame}
use canboat_rs.Timestamp.{format_iso}
use canboat_rs.Ebl.{encode_frame}
use canboat_rs.Ebl.RoundTrip.{push_bytes-encode_frame}
use canboat_rs.FieldBits.{
  Read, extract_raw, read_loop, chunk_of, write_bits, write_bit, Extracted, extract_bits,
  mask_to_width,
}
use canboat_rs.FieldBits.LittleEndian.{extract_raw-little_endian}
use canboat_rs.FieldBits.RoundTrip.{IsFilled}
use canboat_rs.FieldBits.Signed.{extract_bits-write_bits}
use canboat_rs.Int.{pos, negsuc}
use canboat_rs.Wire.{Postcard, append_frame, try_read_frame, Build, verify, for_units, si}
use canboat_rs.Wire.Framing.{try_read_frame-append_frame}
use canboat_rs.Wire.Handshake.{own, verify-none}

abbrev logged : RawFrame
logged = record {
  timestamp = some (format_iso 1_745_600_721_993);
  prio = 3;
  pgn = 127251;
  src = 0x17;
  dst = 255;
  payload = 0 ∷ 0x10 ∷ 0x1b ∷ 255 ∷ 0x10 ∷ 0x1b ∷ 0x25 ∷ 2 ∷ [];
}

push_bytes-encode_frame_example :
    (m : NgtMessage) × (push_bytes with_ebl (encode_frame logged [])
      ≡ (with_ebl, header (timestamp 1_745_600_721_993) ∷ message m ∷ []))
    × (to_raw_frame m ≡ some (record logged { timestamp = some (to_string 0) }))
push_bytes-encode_frame_example =
    push_bytes-encode_frame 1_745_600_721_993 logged (omega arith) (omega arith) (omega arith)
      (inl refl)

-- A codec that writes a byte string as it is.
abbrev plain_bytes : Postcard (List ℕ)
plain_bytes = record { PostcardError = Unit {0}; to_allocvec = λ v. inr v; from_bytes = λ b. inr b }

try_read_frame-append_frame_example :
    (w : List ℕ) × (append_frame (List ℕ) plain_bytes [] (7 ∷ 8 ∷ []) ≡ inr w)
    × (try_read_frame (List ℕ) plain_bytes (w ++ 9 ∷ []) ≡ inr (some (7 ∷ 8 ∷ [], length w)))
    × ((k : ℕ) → k < length w → try_read_frame (List ℕ) plain_bytes (take k w) ≡ inr none)
try_read_frame-append_frame_example =
    try_read_frame-append_frame (List ℕ) plain_bytes (7 ∷ 8 ∷ []) (7 ∷ 8 ∷ []) (9 ∷ []) refl refl
      (omega arith)

abbrev this_build : Build
this_build = record { schema_hash = 42; schema_version = 50 ∷ []; canboat_version = 54 ∷ [] }

verify-none_example :
    (verify this_build (for_units this_build si) ≡ none)
    ↔ (for_units this_build si ≡ own this_build (for_units this_build si))
verify-none_example = verify-none this_build (for_units this_build si)

-- Written and read again.
written_then_read :
    extract_raw (write_bits (0x0f ∷ []) 4 12 0xabc).0 4 12
    ≡ some (record { value = 0xabc; max_v = 0xfff; magnitude = 12 })
unfolding extract_raw read_loop chunk_of write_bits write_bit
written_then_read = refl

-- Twenty bits are asked for, and the twelve from bit 4 on are there, a part of the number 0xcdab.
extract_raw-little_endian_example :
    let r : Read = record { value = 0xcda; max_v = 0xfff; magnitude = 12 } in
    let there = min 20 (8 * 2 - 4) in (r.magnitude ≡ there) × (r.value ≡ 0xcdab / 2 ^ 4 % 2 ^ there)
unfolding extract_raw read_loop chunk_of
extract_raw-little_endian_example =
    extract_raw-little_endian (0xab ∷ 0xcd ∷ []) 4 20
      (record { value = 0xcda; max_v = 0xfff; magnitude = 12 }) (omega arith, (omega arith, tt))
      refl

-- A buffer of twelve bits.
abbrev twelve_bits : List ℕ
twelve_bits = 0xab ∷ 0x0c ∷ []

twelve_bits-IsFilled : IsFilled twelve_bits 12
twelve_bits-IsFilled = record {
  bytes = (omega arith, (omega arith, tt));
  size = refl;
  no_more = omega arith;
}

-- -5 in twelve bits.
extract_bits-write_bits_example :
    let out = write_bits twelve_bits 12 12 (mask_to_width (negsuc 4) 12) in
    (e : Extracted) × (extract_bits out.0 12 12 true (pos 0) ≡ some e)
    × (e.value ≡ negsuc 4)
    × (e.max ≡ pos 2047)
    × (e.raw ≡ mask_to_width (negsuc 4) 12)
extract_bits-write_bits_example =
    extract_bits-write_bits twelve_bits 12 11 (negsuc 4) twelve_bits-IsFilled (omega arith)
      (omega arith) (omega arith)
