-- ===== src/Ngt1.antt =====
-- crates/canboat-core/src/format/ngt1.rs: the byte framer `Ngt1Decoder`, its events, and the
-- framing of an outgoing message. A method that changes the decoder returns the new decoder with
-- its result; the assertion of `encode_ngt_message` is the result `none`.
pub mod Message
pub mod Stuffing
pub mod RoundTrip
pub mod Resync
pub mod Transmit
use canboat_rs.Prelude.{
  ℕ, zero, suc, ◌+◌, ◌-◌, ◌*◌, ◌/◌, ◌%◌, ◌<◌, List, [], ◌∷◌, ◌++◌, Option, none, some, Bool, true,
  false, ◌&&◌, ◌||◌, ltb, leb, ◌==◌, if◌then◌else◌, length, take, drop, u8, get_or,
}

abbrev pub dle : ℕ
dle = 0x10

abbrev pub stx : ℕ
stx = 0x02

abbrev pub etx : ℕ
etx = 0x03

abbrev pub esc : ℕ
esc = 0x1b

abbrev pub soh : ℕ
soh = 0x01

abbrev pub lf : ℕ
lf = 0x0a

abbrev pub filetime_to_unix_ms : ℕ
filetime_to_unix_ms = 11_644_473_600_000

abbrev pub ebl_timestamp : ℕ
ebl_timestamp = 0x03

abbrev pub n2k_msg_received : ℕ
n2k_msg_received = 0x93

abbrev pub n2k_msg_send : ℕ
n2k_msg_send = 0x94

pub record NgtMessage : Type 0 where
  pub command : ℕ
  pub payload : List ℕ

pub data NgtError : Type 0 where
  short_message bad_checksum : NgtError
  length_mismatch : ℕ → ℕ → NgtError
  bad_escape : ℕ → NgtError

pub data EblHeader : Type 0 where
  timestamp : ℕ → EblHeader
  unknown : ℕ → List ℕ → EblHeader

pub data NgtEvent : Type 0 where
  message : NgtMessage → NgtEvent
  header : EblHeader → NgtEvent
  error : NgtError → NgtEvent

pub data PrevState : Type 0 where
  idle in_frame in_header : PrevState

pub data State : Type 0 where
  idle in_frame in_header : State
  escape : PrevState → State

pub record Ngt1Decoder : Type 0 where
  pub state : State
  pub buf : List ℕ
  pub ebl : Bool

abbrev pub new : Ngt1Decoder
new = record { state = State.idle; buf = []; ebl = false }

abbrev pub with_ebl : Ngt1Decoder
with_ebl = record { state = State.idle; buf = []; ebl = true }

unfoldable pub restore : PrevState → State
restore PrevState.idle = State.idle
restore PrevState.in_frame = State.in_frame
restore PrevState.in_header = State.in_header

unfoldable pub was_collecting : PrevState → Bool
was_collecting PrevState.idle = false
was_collecting PrevState.in_frame = true
was_collecting PrevState.in_header = true

unfoldable pub is_escape : Bool → ℕ → Bool
is_escape ebl b = b == dle || ebl && b == esc

-- The 8-bit wrapping sum of a byte string, on top of `acc`.
unfoldable pub wrapping_sum : ℕ → List ℕ → ℕ
wrapping_sum acc [] = acc
wrapping_sum acc (b ∷ bs) = wrapping_sum (u8 (acc + b)) bs

unfoldable pub frame_event : List ℕ → NgtEvent
frame_event raw =
    if ltb (length raw) 3
    then error short_message
    else if wrapping_sum 0 raw == 0
    then if get_or raw 1 0 == length raw - 3
      then message
          (record { command = get_or raw 0 0; payload = take (length raw - 3) (drop 2 raw) })
      else error (length_mismatch (get_or raw 1 0) (length raw - 3))
    else error bad_checksum

unfoldable pub finish_frame : Ngt1Decoder → Ngt1Decoder × Option NgtEvent
finish_frame d = (record d { buf = []; state = State.idle }, some (frame_event d.buf))

-- `u64::from_le_bytes`, for a byte string of any length.
unfoldable pub from_le_bytes : List ℕ → ℕ
from_le_bytes [] = 0
from_le_bytes (b ∷ bs) = b + 256 * from_le_bytes bs

unfoldable pub header_event : List ℕ → Option NgtEvent
header_event [] = none
header_event (kind ∷ rest) =
    if kind == ebl_timestamp && leb 9 (length (kind ∷ rest))
    then some (header (timestamp (from_le_bytes (take 8 rest) / 10_000 - filetime_to_unix_ms)))
    else some (header (unknown kind rest))

unfoldable pub finish_header : Ngt1Decoder → Ngt1Decoder × Option NgtEvent
finish_header d = (record d { buf = [] }, header_event d.buf)

abbrev to_idle : Ngt1Decoder × Option NgtEvent → Ngt1Decoder × Option NgtEvent
to_idle (d, r) = (record d { state = State.idle }, r)

-- A doubled escape byte stands for itself, inside a frame or a header.
unfoldable pub literal : PrevState → Ngt1Decoder → ℕ → Ngt1Decoder
literal prev d b = record d {
  state = restore prev;
  buf = if was_collecting prev then d.buf ++ b ∷ [] else d.buf;
}

unfoldable pub on_state : State → Ngt1Decoder → ℕ → Ngt1Decoder × Option NgtEvent
on_state State.idle d b =
    if is_escape d.ebl b then (record d { state = escape PrevState.idle }, none) else (d, none)
on_state State.in_frame d b =
    if is_escape d.ebl b
    then (record d { state = escape PrevState.in_frame }, none)
    else (record d { buf = d.buf ++ b ∷ [] }, none)
on_state State.in_header d b =
    if d.ebl && b == esc
    then (record d { state = escape PrevState.in_header }, none)
    else (record d { buf = d.buf ++ b ∷ [] }, none)
on_state (escape prev) d b =
    if b == stx
    then (record d { buf = []; state = State.in_frame }, none)
    else if b == etx
    then to_idle (finish_frame d)
    else if b == soh && d.ebl
    then (record d { buf = []; state = State.in_header }, none)
    else if b == lf && d.ebl
    then to_idle (finish_header d)
    else if b == dle
    then (literal prev d dle, none)
    else if b == esc && d.ebl
    then (literal prev d esc, none)
    else (
      record d { state = State.idle; buf = [] },
      if was_collecting prev then some (error (bad_escape b)) else none,
    )

unfoldable pub push_byte : Ngt1Decoder → ℕ → Ngt1Decoder × Option NgtEvent
push_byte d b = on_state d.state d b

abbrev pub emit : Option NgtEvent → List NgtEvent → List NgtEvent
emit none evs = evs
emit (some e) evs = e ∷ evs

unfoldable pub push_bytes : Ngt1Decoder → List ℕ → Ngt1Decoder × List NgtEvent
push_bytes d [] = (d, [])
push_bytes d (b ∷ bs) =
    let (d', ev) = push_byte d b in let (d'', evs) = push_bytes d' bs in (d'', emit ev evs)

unfoldable pub write_stuffed : List ℕ → ℕ → List ℕ
write_stuffed out b = if b == dle then (out ++ b ∷ []) ++ dle ∷ [] else out ++ b ∷ []

-- The loop over the payload, with the bytes written and the checksum so far.
unfoldable pub write_payload : List ℕ → List ℕ → ℕ → List ℕ × ℕ
write_payload [] out sum = (out, sum)
write_payload (b ∷ bs) out sum = write_payload bs (write_stuffed out b) (u8 (sum + b))

unfoldable pub encode_ngt_message : ℕ → List ℕ → List ℕ → Option (List ℕ)
encode_ngt_message cmd payload out =
    let head = write_stuffed (write_stuffed (out ++ dle ∷ stx ∷ []) cmd) (u8 (length payload)) in
    let (body, sum) = write_payload payload head (u8 (cmd + u8 (length payload))) in
    if leb (length payload) 255
    then some (write_stuffed body (u8 (256 - sum)) ++ dle ∷ etx ∷ [])
    else none
