-- ===== src/Ebl/RoundTrip.antt =====
-- An encoded frame is decoded to its time and itself.
use mathlib.Core.List.{append-nil, append_assoc}
use canboat_rs.Prelude.{
  ℕ, ◌+◌, ◌-◌, ◌*◌, ◌^◌, ◌≤◌, ◌<◌, ◌≡◌, refl, ap, sym, ◌∙◌, List, [], ◌∷◌, ◌++◌, some, true, arith,
  length, u8, ◌==◌, if◌then◌else◌, min, none, ◌⊎◌, inl, inr, Option, ◌>>=◌,
}
use canboat_rs.Frame.{RawFrame, Text, to_string, le_bytes}
use canboat_rs.Ngt1.{
  State, NgtEvent, NgtMessage, message, header, timestamp, dle, stx, esc, soh, lf, is_escape,
  push_byte, push_bytes, on_state, literal, restore, was_collecting, finish_header, header_event,
  from_le_bytes, with_ebl, ebl_timestamp, filetime_to_unix_ms, wrapping_sum, n2k_msg_received,
}
use canboat_rs.Int.{ℤ, pos_part}
use canboat_rs.Ngt1.Message.{to_raw_frame, received_frame}
use canboat_rs.Ngt1.Stuffing.{
  at, stuff, stuff_all, stuff_all-append, framed, raw_message, waiting, push_bytes-framed,
  push_bytes-append, frame_event-raw_message,
}
use canboat_rs.Timestamp.{format_iso, to_unix_ms}
use canboat_rs.Timestamp.UnixMs.{to_unix_ms-format_iso}
use canboat_rs.Ngt1.Transmit.{le_pgn-bytes, take_all}
use canboat_rs.Ebl.{
  push_header_byte, push_header_bytes, push_message_byte, push_message_bytes, encode_message,
  ticks_of, received_payload, encode_frame, unix_ms_of,
}

-- A byte of a header: only the escape byte is doubled.
guard : ℕ → List ℕ
guard b = if b == esc then b ∷ esc ∷ [] else b ∷ []

guard_all : List ℕ → List ℕ
guard_all [] = []
guard_all (b ∷ bs) = guard b ++ guard_all bs

push_header_byte-guard : (out : List ℕ) (b : ℕ) → push_header_byte out b ≡ out ++ guard b
unfolding push_header_byte guard
push_header_byte-guard out b = ground (arith, append_assoc out (b ∷ []) (esc ∷ []))

push_header_bytes-guard : (out bs : List ℕ) → push_header_bytes out bs ≡ out ++ guard_all bs
unfolding push_header_bytes guard_all
push_header_bytes-guard out [] = sym (append-nil out)
push_header_bytes-guard out (b ∷ bs) =
    push_header_bytes-guard (push_header_byte out b) bs
    ∙ rw (push_header_byte-guard out b, append_assoc) refl

feed-guard :
    (buf : List ℕ) (b : ℕ)
    → push_bytes (at State.in_header buf true) (guard b)
      ≡ (at State.in_header (buf ++ b ∷ []) true, [])
unfolding guard push_bytes push_byte on_state literal is_escape was_collecting restore
feed-guard buf b = ground arith

feed-guard_all :
    (buf bs : List ℕ)
    → push_bytes (at State.in_header buf true) (guard_all bs)
      ≡ (at State.in_header (buf ++ bs) true, [])
unfolding guard_all
feed-guard_all buf [] = unfold push_bytes in rw append-nil
feed-guard_all buf (b ∷ bs) =
    push_bytes-append (at State.in_header buf true) (at State.in_header (buf ++ b ∷ []) true)
      (guard b) (guard_all bs) [] (feed-guard buf b)
    ∙ rw (feed-guard_all (buf ++ b ∷ []) bs, append_assoc)

-- The message part is what the shared framing describes.
push_message_byte-stuff : (out : List ℕ) (b : ℕ) → push_message_byte out b ≡ out ++ stuff true b
unfolding push_message_byte stuff is_escape
push_message_byte-stuff out b =
    ground (arith, append_assoc out (b ∷ []) (dle ∷ []), append_assoc out (b ∷ []) (esc ∷ []))

push_message_bytes-stuff :
    (out bs : List ℕ) (sum : ℕ)
    → push_message_bytes out bs sum ≡ (out ++ stuff_all true bs, wrapping_sum sum bs)
unfolding push_message_bytes stuff_all wrapping_sum
push_message_bytes-stuff out [] sum = rw append-nil
push_message_bytes-stuff out (b ∷ bs) sum = rw (
  push_message_bytes-stuff (push_message_byte out b) bs (u8 (sum + b)),
  push_message_byte-stuff,
  append_assoc,
)

encode_message-framed :
    (cmd : ℕ) (payload out : List ℕ)
    → length payload ≤ 255
    → encode_message cmd payload out ≡ out ++ framed true (raw_message cmd payload)
unfolding encode_message stuff_all
encode_message-framed cmd payload out h =
    let size : u8 (length payload) ≡ length payload = omega arith in
    rw
      (
        size,
        push_message_bytes-stuff
            (push_message_byte (push_message_byte (out ++ dle ∷ stx ∷ []) cmd) (length payload))
            payload (u8 (cmd + length payload)),
        stuff_all-append true payload,
      )
      (simp (push_message_byte-stuff, append_assoc))

-- The header record.
abbrev header_bytes : List ℕ → List ℕ
header_bytes raw = (esc ∷ soh ∷ []) ++ (guard_all raw ++ esc ∷ lf ∷ [])

feed_open : push_bytes with_ebl (esc ∷ soh ∷ []) ≡ (at State.in_header [] true, [])
unfolding push_bytes push_byte on_state is_escape
feed_open = refl

feed_close :
    (raw : List ℕ) (e : NgtEvent)
    → header_event raw ≡ some e
    → push_bytes (at State.in_header raw true) (esc ∷ lf ∷ []) ≡ (with_ebl, e ∷ [])
unfolding push_bytes push_byte on_state is_escape finish_header
feed_close raw e h = rw h refl

push_bytes-header_bytes :
    (raw : List ℕ) (e : NgtEvent)
    → header_event raw ≡ some e
    → push_bytes with_ebl (header_bytes raw) ≡ (with_ebl, e ∷ [])
push_bytes-header_bytes raw e h =
    push_bytes-append with_ebl (at State.in_header [] true) (esc ∷ soh ∷ [])
      (guard_all raw ++ esc ∷ lf ∷ []) [] feed_open
    ∙ rw (
      push_bytes-append (at State.in_header [] true) (at State.in_header raw true) (guard_all raw)
          (esc ∷ lf ∷ []) [] (feed-guard_all [] raw),
      feed_close raw e h,
    )

from_le_bytes-le_bytes : (n : ℕ) → n < 2 ^ 64 → from_le_bytes (le_bytes 8 n) ≡ n
unfolding from_le_bytes
from_le_bytes-le_bytes n h = omega arith

-- The time that the header carries.
header_event-ticks_of :
    (ms : ℕ)
    → (ms + filetime_to_unix_ms) * 10_000 < 2 ^ 64
    → header_event (ebl_timestamp ∷ le_bytes 8 (ticks_of ms)) ≡ some (header (timestamp ms))
unfolding header_event ticks_of
header_event-ticks_of ms h =
    let exact : min ((ms + filetime_to_unix_ms) * 10_000) (2 ^ 64 - 1)
        ≡ (ms + filetime_to_unix_ms) * 10_000 =
      omega arith in
    rw (exact, from_le_bytes-le_bytes ((ms + filetime_to_unix_ms) * 10_000) h)
      (ap (λ (t : ℕ). some (header (timestamp t))) (omega arith))

received_frame-received_payload :
    (f : RawFrame)
    → f.pgn < 2 ^ 24
    → length f.payload ≤ 244
    → received_frame (received_payload f) ≡ some (record f { timestamp = some (to_string 0) })
unfolding received_frame received_payload
received_frame-received_payload f hp hl =
    let size : u8 (length f.payload) ≡ length f.payload = omega arith in
    rw size (ground (arith, le_pgn-bytes f.pgn hp, take_all f.payload))

-- Both records, one after the other.
encode_frame-records :
    (ms : ℕ) (f : RawFrame)
    → unix_ms_of f ≡ ms
    → length (received_payload f) ≤ 255
    → encode_frame f []
      ≡ header_bytes (ebl_timestamp ∷ le_bytes 8 (ticks_of ms))
        ++ framed true (raw_message n2k_msg_received (received_payload f))
unfolding encode_frame push_header_bytes
encode_frame-records ms f time size =
    let raw = ebl_timestamp ∷ le_bytes 8 (ticks_of ms) in
    ap
      (λ (t : ℕ). encode_message n2k_msg_received (received_payload f) (
        push_header_bytes (push_header_byte ([] ++ esc ∷ soh ∷ []) ebl_timestamp)
          (le_bytes 8 (ticks_of t))
        ++ esc ∷ lf ∷ []))
      time
    ∙ ap (λ (h : List ℕ). encode_message n2k_msg_received (received_payload f) (h ++ esc ∷ lf ∷ []))
        (push_header_bytes-guard (esc ∷ soh ∷ []) raw)
    ∙ encode_message-framed n2k_msg_received (received_payload f) (header_bytes raw) size

-- The time of a frame whose timestamp is one that `format_iso` prints, or that has none.
unix_ms_of_cases :
    (ms : ℕ) (f : RawFrame)
    → ms < 253402300800000
    → (f.timestamp ≡ some (format_iso ms)) ⊎ ((f.timestamp ≡ none) × (ms ≡ 0))
    → unix_ms_of f ≡ ms
unfolding unix_ms_of
unix_ms_of_cases ms f small (inl e) =
    ap (λ (o : Option Text). shown (o >>= to_unix_ms)) e ∙ ap shown (to_unix_ms-format_iso ms small)
  where
    shown : Option ℤ → ℕ
    shown o = elim o as (λ _. ℕ) [ none ↦ 0 | some t ↦ pos_part t ]
unix_ms_of_cases ms f small (inr (e, start)) = ap shown e ∙ sym start
  where
    shown : Option Text → ℕ
    shown o = elim (o >>= to_unix_ms) as (λ _. ℕ) [ none ↦ 0 | some t ↦ pos_part t ]

-- The log record of a frame with a PGN of 24 bits and at most 244 bytes of data is decoded by the
-- decoder of logs to two events, a time and a message. The time is exactly that of the timestamp of
-- the frame, if that is a time before the year 10000 as `format_iso` prints it, and 1970 if the
-- frame has no timestamp. The message gives the frame back, with the gateway's time 0 for a
-- timestamp.
pub push_bytes-encode_frame :
    (ms : ℕ) (f : RawFrame)
    → f.pgn < 2 ^ 24
    → length f.payload ≤ 244
    → ms < 253402300800000
    → (f.timestamp ≡ some (format_iso ms)) ⊎ ((f.timestamp ≡ none) × (ms ≡ 0))
    → (m : NgtMessage) × (push_bytes with_ebl (encode_frame f [])
        ≡ (with_ebl, header (timestamp ms) ∷ message m ∷ []))
      × (to_raw_frame m ≡ some (record f { timestamp = some (to_string 0) }))
unfolding to_raw_frame
push_bytes-encode_frame ms f hp hl small stamped =
    let raw = ebl_timestamp ∷ le_bytes 8 (ticks_of ms) in
    let p = received_payload f in
    let size : length p ≤ 255 = unfold received_payload in omega arith in
    (
      record { command = n2k_msg_received; payload = p },
      ap (push_bytes with_ebl)
            (encode_frame-records ms f (unix_ms_of_cases ms f small stamped) size)
          ∙ (push_bytes-append with_ebl with_ebl (header_bytes raw)
                (framed true (raw_message n2k_msg_received p)) (header (timestamp ms) ∷ [])
                (push_bytes-header_bytes raw (header (timestamp ms))
                  (header_event-ticks_of ms (omega arith)))
              ∙ rw (
                push_bytes-framed State.idle true [] (raw_message n2k_msg_received p) waiting,
                frame_event-raw_message n2k_msg_received p (omega arith),
              )),
      received_frame-received_payload f hp hl,
    )
