-- ===== src/Ngt1/Message.antt =====
-- The bus frame that an NGT-1 message carries: `NgtMessage::to_raw_frame`,
-- `NgtMessage::to_raw_frame_any_dir`, `encode_n2k_send_payload` and `encode_n2k_send_frame`.
use canboat_rs.Prelude.{
  ℕ, ◌+◌, List, [], ◌∷◌, Option, none, some, ltb, ◌==◌, if◌then◌else◌, length, take, drop, get_or,
  u8, bit_or, bit_and, ◌<<<◌, ◌>>>◌,
}
use canboat_rs.Frame.{RawFrame, to_string}
use canboat_rs.Ngt1.{NgtMessage, n2k_msg_received, n2k_msg_send, encode_ngt_message}

-- Three bytes as a little-endian number, put together as the source does.
unfoldable pub le_pgn : ℕ → ℕ → ℕ → ℕ
le_pgn a b c = bit_or (bit_or a (b <<< 8)) (c <<< 16)

unfoldable pub le_ts : ℕ → ℕ → ℕ → ℕ → ℕ
le_ts a b c d = bit_or (bit_or (bit_or a (b <<< 8)) (c <<< 16)) (d <<< 24)

-- The header of an incoming message: prio, pgn, dst, src, four bytes of timestamp, length.
unfoldable pub received_frame : List ℕ → Option RawFrame
unfolding le_pgn le_ts
received_frame p =
    let byte = λ (i : ℕ). get_or p i 0 in
    if ltb (length p) 11
    then none
    else if ltb (length p) (11 + byte 10)
    then none
    else some (record {
      timestamp = some (to_string (le_ts (byte 6) (byte 7) (byte 8) (byte 9)));
      prio = byte 0;
      pgn = le_pgn (byte 1) (byte 2) (byte 3);
      src = byte 5;
      dst = byte 4;
      payload = take (byte 10) (drop 11 p);
    })

unfoldable pub to_raw_frame : NgtMessage → Option RawFrame
to_raw_frame m = if m.command == n2k_msg_received then received_frame m.payload else none

-- The header of an outgoing message has neither source nor timestamp.
unfoldable pub sent_frame : List ℕ → Option RawFrame
unfolding le_pgn
sent_frame p =
    let byte = λ (i : ℕ). get_or p i 0 in
    if ltb (length p) 6
    then none
    else if ltb (length p) (6 + byte 5)
    then none
    else some (record {
      timestamp = none;
      prio = byte 0;
      pgn = le_pgn (byte 1) (byte 2) (byte 3);
      src = 0;
      dst = byte 4;
      payload = take (byte 5) (drop 6 p);
    })

-- Any other message gets a synthetic PGN.
unfoldable pub bem_frame : List ℕ → Option RawFrame
bem_frame [] = none
bem_frame (b ∷ rest) =
    some
      (record { timestamp = none; prio = 0; pgn = 0x40000 + b; src = 0; dst = 0; payload = rest })

unfoldable pub to_raw_frame_any_dir : NgtMessage → Option RawFrame
to_raw_frame_any_dir m =
    if m.command == n2k_msg_received
    then to_raw_frame m
    else if m.command == n2k_msg_send
    then sent_frame m.payload
    else bem_frame m.payload

unfoldable pub encode_n2k_send_payload : RawFrame → List ℕ
encode_n2k_send_payload f =
    f.prio
    ∷ u8 (bit_and f.pgn 0xff)
    ∷ u8 (bit_and (f.pgn >>> 8) 0xff)
    ∷ u8 (bit_and (f.pgn >>> 16) 0xff)
    ∷ f.dst
    ∷ u8 (length f.payload)
    ∷ f.payload

unfoldable pub encode_n2k_send_frame : RawFrame → Option (List ℕ)
encode_n2k_send_frame f = encode_ngt_message n2k_msg_send (encode_n2k_send_payload f) []
