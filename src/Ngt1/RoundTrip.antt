-- ===== src/Ngt1/RoundTrip.antt =====
-- An encoded NGT-1 message is decoded to itself.
use mathlib.Core.List.{append-nil, append_assoc}
use canboat_rs.Prelude.{
  ℕ, ◌+◌, ◌≤◌, ◌<◌, ◌≡◌, ◌∙◌, List, [], ◌∷◌, ◌++◌, some, false, arith, length, u8, le→leb,
}
use canboat_rs.Ngt1.{
  State, message, dle, is_escape, push_bytes, wrapping_sum, write_stuffed, write_payload,
  encode_ngt_message,
}
use canboat_rs.Ngt1.Stuffing.{
  at, stuff, stuff_all, stuff_all-append, framed, raw_message, IsOpen, push_bytes-framed,
  frame_event-raw_message,
}

write_stuffed-stuff : (out : List ℕ) (b : ℕ) → write_stuffed out b ≡ out ++ stuff false b
unfolding write_stuffed stuff is_escape
write_stuffed-stuff out b = ground (arith, append_assoc out (b ∷ []) (dle ∷ []))

write_payload-stuff :
    (bs out : List ℕ) (sum : ℕ)
    → write_payload bs out sum ≡ (out ++ stuff_all false bs, wrapping_sum sum bs)
unfolding write_payload stuff_all wrapping_sum
write_payload-stuff [] out sum = rw append-nil
write_payload-stuff (b ∷ bs) out sum =
    rw (
      write_payload-stuff bs (write_stuffed out b) (u8 (sum + b)),
      write_stuffed-stuff,
      append_assoc,
    )

-- The encoder writes the stuffed message between the frame marks, behind what `out` held.
pub encode_ngt_message-framed :
    (cmd : ℕ) (payload out : List ℕ)
    → length payload ≤ 255
    → encode_ngt_message cmd payload out ≡ some (out ++ framed false (raw_message cmd payload))
unfolding encode_ngt_message stuff_all
encode_ngt_message-framed cmd payload out h =
    let size : u8 (length payload) ≡ length payload = omega arith in
    rw
      (
        size,
        write_payload-stuff payload,
        le→leb (length payload) 255 h,
        stuff_all-append false payload,
      )
      (simp (write_stuffed-stuff, append_assoc))

-- An encoded message is decoded to exactly that message, from a fresh decoder and from one that
-- was left inside a broken frame.
pub push_bytes-encode_ngt_message :
    (s : State) (buf : List ℕ) (cmd : ℕ) (payload : List ℕ)
    → IsOpen s
    → cmd < 256
    → length payload ≤ 255
    → (wire : List ℕ) × (encode_ngt_message cmd payload [] ≡ some wire)
      × (push_bytes (at s buf false) wire
          ≡ (at State.idle [] false, message (record { command = cmd; payload = payload }) ∷ []))
push_bytes-encode_ngt_message s buf cmd payload h hc hl = (
  framed false (raw_message cmd payload),
  encode_ngt_message-framed cmd payload [] hl,
  push_bytes-framed s false buf (raw_message cmd payload) h
      ∙ rw (frame_event-raw_message cmd payload hc),
)
