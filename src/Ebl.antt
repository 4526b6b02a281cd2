-- ===== src/Ebl.antt =====
-- crates/canboat-core/src/format/ebl.rs: the encoder of `.ebl` logs.
pub mod RoundTrip
use canboat_rs.Prelude.{
  ℕ, zero, suc, ◌+◌, ◌-◌, ◌*◌, ◌/◌, ◌%◌, ◌^◌, List, [], ◌∷◌, ◌++◌, ◌==◌, if◌then◌else◌, length, min,
  u8, bit_and, ◌>>>◌, ◌>>=◌, none, some,
}
use canboat_rs.Int.{pos_part}
use canboat_rs.Timestamp.{to_unix_ms}
use canboat_rs.Frame.{RawFrame, le_bytes}
use canboat_rs.Ngt1.{
  dle, stx, etx, esc, soh, lf, ebl_timestamp, filetime_to_unix_ms, n2k_msg_received,
}

unfoldable pub push_header_byte : List ℕ → ℕ → List ℕ
push_header_byte out b = if b == esc then (out ++ b ∷ []) ++ esc ∷ [] else out ++ b ∷ []

unfoldable pub push_header_bytes : List ℕ → List ℕ → List ℕ
push_header_bytes out [] = out
push_header_bytes out (b ∷ bs) = push_header_bytes (push_header_byte out b) bs

unfoldable pub push_message_byte : List ℕ → ℕ → List ℕ
push_message_byte out b =
    if b == dle
    then (out ++ b ∷ []) ++ dle ∷ []
    else if b == esc
    then (out ++ b ∷ []) ++ esc ∷ []
    else out ++ b ∷ []

-- The loop over the payload, with the checksum so far.
unfoldable pub push_message_bytes : List ℕ → List ℕ → ℕ → List ℕ × ℕ
push_message_bytes out [] sum = (out, sum)
push_message_bytes out (b ∷ bs) sum = push_message_bytes (push_message_byte out b) bs (u8 (sum + b))

unfoldable pub encode_message : ℕ → List ℕ → List ℕ → List ℕ
encode_message cmd payload out =
    let size = u8 (length payload) in
    let head = push_message_byte (push_message_byte (out ++ dle ∷ stx ∷ []) cmd) size in
    let (body, sum) = push_message_bytes head payload (u8 (cmd + size)) in
    push_message_byte body (u8 (256 - sum)) ++ dle ∷ etx ∷ []

-- `saturating_mul` on u64.
unfoldable pub ticks_of : ℕ → ℕ
ticks_of unix_ms = min ((unix_ms + filetime_to_unix_ms) * 10_000) (2 ^ 64 - 1)

unfoldable pub received_payload : RawFrame → List ℕ
received_payload f =
    f.prio
    ∷ u8 (bit_and f.pgn 0xff)
    ∷ u8 (bit_and (f.pgn >>> 8) 0xff)
    ∷ u8 (bit_and (f.pgn >>> 16) 0xff)
    ∷ f.dst
    ∷ f.src
    ∷ 0
    ∷ 0
    ∷ 0
    ∷ 0
    ∷ u8 (length f.payload)
    ∷ f.payload

-- The milliseconds of the timestamp; 0 where it is none that can be read, or is before 1970.
unfoldable pub unix_ms_of : RawFrame → ℕ
unix_ms_of f = elim (f.timestamp >>= to_unix_ms) as (λ _. ℕ) [ none ↦ 0 | some ms ↦ pos_part ms ]

unfoldable pub encode_frame : RawFrame → List ℕ → List ℕ
encode_frame f out =
    let unix_ms = unix_ms_of f in
    let head =
      push_header_bytes (push_header_byte (out ++ esc ∷ soh ∷ []) ebl_timestamp)
        (le_bytes 8 (ticks_of unix_ms)) in
    encode_message n2k_msg_received (received_payload f) (head ++ esc ∷ lf ∷ [])
