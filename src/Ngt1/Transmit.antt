-- ===== src/Ngt1/Transmit.antt =====
-- The frames that pass through an NGT-1: a frame that is sent is the frame that a receiver of the
-- bytes gets, apart from the source and the timestamp, which the device supplies.
use canboat_rs.Prelude.{
  ℕ, ◌+◌, ◌*◌, ◌/◌, ◌%◌, ◌^◌, ◌≤◌, ◌<◌, ◌≡◌, refl, ap, ◌∙◌, List, [], ◌∷◌, none, some, false, arith,
  length, take, u8, bit_and, bit_or_fields', bit_and_mask,
}
use canboat_rs.Frame.{RawFrame}
use canboat_rs.Ngt1.{State, NgtMessage, message, n2k_msg_send, push_bytes}
use canboat_rs.Ngt1.Stuffing.{IsOpen, at}
use canboat_rs.Ngt1.RoundTrip.{push_bytes-encode_ngt_message}
use canboat_rs.Ngt1.Message.{
  le_pgn, sent_frame, to_raw_frame_any_dir, encode_n2k_send_payload, encode_n2k_send_frame,
}

-- The three bytes of a PGN, as the encoders take them apart.
abbrev pub pgn_byte : ℕ → ℕ → ℕ
pgn_byte pgn k = u8 (bit_and (pgn / 2 ^ k) 0xff)

pub le_pgn_lem : (a b c : ℕ) → a < 256 → b < 256 → c < 256 → le_pgn a b c ≡ a + 256 * b + 65536 * c
unfolding le_pgn
le_pgn_lem a b c ha hb hc =
    rw (bit_or_fields' 8 b a ha, bit_or_fields' 16 c (a + b * 2 ^ 8) (omega arith)) (omega arith)

pub le_pgn-bytes :
    (pgn : ℕ)
    → pgn < 2 ^ 24
    → le_pgn (u8 (bit_and pgn 0xff)) (pgn_byte pgn 8) (pgn_byte pgn 16) ≡ pgn
le_pgn-bytes pgn h =
    rw (bit_and_mask 8 pgn, bit_and_mask 8 (pgn / 2 ^ 8), bit_and_mask 8 (pgn / 2 ^ 16))
      (le_pgn_lem (pgn % 256 % 256) (pgn / 2 ^ 8 % 256 % 256) (pgn / 2 ^ 16 % 256 % 256)
          (omega arith) (omega arith) (omega arith)
        ∙ omega arith)

pub take_all {ℓ} : {A : Type ℓ} (xs : List A) → take (length xs) xs ≡ xs
take_all [] = refl
take_all (x ∷ xs) = ap (◌∷◌ x) (take_all xs)

sent_frame-payload :
    (f : RawFrame)
    → f.pgn < 2 ^ 24
    → length f.payload ≤ 249
    → sent_frame (encode_n2k_send_payload f) ≡ some (record f { timestamp = none; src = 0 })
unfolding sent_frame encode_n2k_send_payload
sent_frame-payload f hp hl =
    let size : u8 (length f.payload) ≡ length f.payload = omega arith in
    rw size (ground (arith, le_pgn-bytes f.pgn hp, take_all f.payload))

-- A frame with a PGN of 24 bits and at most 249 bytes of data is sent without a panic, and whoever
-- decodes the bytes with an open decoder gets that frame back, with source 0 and no timestamp.
pub push_bytes-encode_n2k_send_frame :
    (s : State) (buf : List ℕ) (f : RawFrame)
    → IsOpen s
    → f.pgn < 2 ^ 24
    → length f.payload ≤ 249
    → (wire : List ℕ) × (m : NgtMessage) × (encode_n2k_send_frame f ≡ some wire)
      × (push_bytes (at s buf false) wire ≡ (at State.idle [] false, message m ∷ []))
      × (to_raw_frame_any_dir m ≡ some (record f { timestamp = none; src = 0 }))
unfolding encode_n2k_send_frame to_raw_frame_any_dir
push_bytes-encode_n2k_send_frame s buf f h hp hl =
    let size : length (encode_n2k_send_payload f) ≤ 255 =
      unfold encode_n2k_send_payload in omega arith in
    let sent =
      push_bytes-encode_ngt_message s buf n2k_msg_send (encode_n2k_send_payload f) h (omega arith)
        size in
    (
      sent.0,
      record { command = n2k_msg_send; payload = encode_n2k_send_payload f },
      sent.1,
      sent.2,
      sent_frame-payload f hp hl,
    )
