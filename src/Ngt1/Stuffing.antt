-- ===== src/Ngt1/Stuffing.antt =====
-- Byte stuffing: what the decoder makes of the pieces of an encoded message. `framed` is the
-- byte string that both encoders, NGT-1 and `.ebl`, produce for a raw message.
use mathlib.Core.List.{append-nil, append_assoc}
use canboat_rs.Prelude.{
  ℕ, ◌+◌, ◌-◌, ◌<◌, ◌≡◌, refl, ap, ◌∙◌, List, [], ◌∷◌, ◌++◌, Option, none, some, Bool, true, false,
  if◌then◌else◌, arith, length, length-append, take, u8,
}
use canboat_rs.Ngt1.{
  Ngt1Decoder, State, NgtEvent, message, dle, stx, etx, is_escape, emit, push_byte, push_bytes,
  on_state, literal, finish_frame, frame_event, wrapping_sum, was_collecting, restore,
}

abbrev pub at : State → List ℕ → Bool → Ngt1Decoder
at s buf e = record { state = s; buf = buf; ebl = e }

unfoldable pub stuff : Bool → ℕ → List ℕ
stuff e b = if is_escape e b then b ∷ b ∷ [] else b ∷ []

unfoldable pub stuff_all : Bool → List ℕ → List ℕ
stuff_all e [] = []
stuff_all e (b ∷ bs) = stuff e b ++ stuff_all e bs

pub stuff_all-append :
    (e : Bool) (xs ys : List ℕ) → stuff_all e (xs ++ ys) ≡ stuff_all e xs ++ stuff_all e ys
unfolding stuff_all
stuff_all-append e [] ys = refl
stuff_all-append e (x ∷ xs) ys = simp (stuff_all-append e xs ys, append_assoc)

emit-append : (o : Option NgtEvent) (xs ys : List NgtEvent) → emit o (xs ++ ys) ≡ emit o xs ++ ys
emit-append none xs ys = refl
emit-append (some e) xs ys = refl

-- Feeding two pieces in turn.
pub push_bytes-append :
    (d d' : Ngt1Decoder) (xs ys : List ℕ) (evs : List NgtEvent)
    → push_bytes d xs ≡ (d', evs)
    → push_bytes d (xs ++ ys) ≡ ((push_bytes d' ys).0, evs ++ (push_bytes d' ys).1)
unfolding push_bytes
push_bytes-append d d' [] ys evs h = ground arith
push_bytes-append d d' (x ∷ xs) ys evs h = ground (
  arith,
  push_bytes-append (push_byte d x).0 d' xs ys (push_bytes (push_byte d x).0 xs).1,
  emit-append (push_byte d x).1 (push_bytes (push_byte d x).0 xs).1 (push_bytes d' ys).1,
)

pub feed-stuff :
    (e : Bool) (buf : List ℕ) (b : ℕ)
    → push_bytes (at State.in_frame buf e) (stuff e b) ≡ (at State.in_frame (buf ++ b ∷ []) e, [])
unfolding stuff push_bytes push_byte on_state literal is_escape was_collecting restore
feed-stuff true buf b = ground arith
feed-stuff false buf b = ground arith

pub feed-stuff_all :
    (e : Bool) (buf bs : List ℕ)
    → push_bytes (at State.in_frame buf e) (stuff_all e bs) ≡ (at State.in_frame (buf ++ bs) e, [])
unfolding stuff_all
feed-stuff_all e buf [] = unfold push_bytes in rw append-nil
feed-stuff_all e buf (b ∷ bs) =
    push_bytes-append (at State.in_frame buf e) (at State.in_frame (buf ++ b ∷ []) e) (stuff e b)
      (stuff_all e bs) [] (feed-stuff e buf b)
    ∙ rw (feed-stuff_all e (buf ++ b ∷ []) bs, append_assoc)

pub feed_end :
    (e : Bool) (buf : List ℕ)
    → push_bytes (at State.in_frame buf e) (dle ∷ etx ∷ [])
      ≡ (at State.idle [] e, frame_event buf ∷ [])
unfolding push_bytes push_byte on_state is_escape finish_frame
feed_end true buf = refl
feed_end false buf = refl

-- The decoder waits for a frame or stands in one: neither in a header nor behind an escape byte.
pub data IsOpen : State → Type 0 where
  waiting : IsOpen State.idle
  inside : IsOpen State.in_frame

pub feed_start :
    (s : State) (e : Bool) (buf : List ℕ)
    → IsOpen s
    → push_bytes (at s buf e) (dle ∷ stx ∷ []) ≡ (at State.in_frame [] e, [])
unfolding push_bytes push_byte on_state is_escape
feed_start s e buf waiting = refl
feed_start s e buf inside = refl

-- A framed byte string on the wire.
abbrev pub framed : Bool → List ℕ → List ℕ
framed e raw = (dle ∷ stx ∷ []) ++ (stuff_all e raw ++ dle ∷ etx ∷ [])

-- Whatever lies between the frame marks is taken as one raw message, and the decoder waits again.
pub push_bytes-framed :
    (s : State) (e : Bool) (buf raw : List ℕ)
    → IsOpen s
    → push_bytes (at s buf e) (framed e raw) ≡ (at State.idle [] e, frame_event raw ∷ [])
push_bytes-framed s e buf raw h =
    push_bytes-append (at s buf e) (at State.in_frame [] e) (dle ∷ stx ∷ [])
      (stuff_all e raw ++ dle ∷ etx ∷ []) [] (feed_start s e buf h)
    ∙ rw (
      push_bytes-append (at State.in_frame [] e) (at State.in_frame raw e) (stuff_all e raw)
          (dle ∷ etx ∷ []) [] (feed-stuff_all e [] raw),
      feed_end e raw,
    )

pub wrapping_sum-append :
    (acc : ℕ) (xs ys : List ℕ) → wrapping_sum acc (xs ++ ys) ≡ wrapping_sum (wrapping_sum acc xs) ys
unfolding wrapping_sum
wrapping_sum-append acc [] ys = refl
wrapping_sum-append acc (x ∷ xs) ys = wrapping_sum-append (u8 (acc + x)) xs ys

pub wrapping_sum-lt : (acc : ℕ) (xs : List ℕ) → acc < 256 → wrapping_sum acc xs < 256
unfolding wrapping_sum
wrapping_sum-lt acc [] h = h
wrapping_sum-lt acc (x ∷ xs) h = wrapping_sum-lt (u8 (acc + x)) xs (omega arith)

-- The checksum byte for the bytes that were summed so far.
abbrev pub checksum : ℕ → ℕ
checksum sum = u8 (256 - sum)

abbrev pub raw_message : ℕ → List ℕ → List ℕ
raw_message cmd payload =
    cmd ∷ length payload ∷ payload
    ++ checksum (wrapping_sum (u8 (cmd + length payload)) payload) ∷ []

take-append : (xs ys : List ℕ) → take (length xs) (xs ++ ys) ≡ xs
take-append [] ys = refl
take-append (x ∷ xs) ys = ap (◌∷◌ x) (take-append xs ys)

raw_message-sum :
    (cmd : ℕ) (payload : List ℕ) → cmd < 256 → wrapping_sum 0 (raw_message cmd payload) ≡ 0
unfolding wrapping_sum
raw_message-sum cmd payload h =
    let start : ℕ = u8 (cmd + length payload) in
    let c : ℕ = checksum (wrapping_sum start payload) in
    let below = wrapping_sum-lt start payload (omega arith) in
    ap (λ (t : ℕ). wrapping_sum t (payload ++ c ∷ [])) (omega arith)
    ∙ wrapping_sum-append start payload (c ∷ [])
    ∙ omega arith

pub frame_event-raw_message :
    (cmd : ℕ) (payload : List ℕ)
    → cmd < 256
    → frame_event (raw_message cmd payload) ≡ message (record { command = cmd; payload = payload })
unfolding frame_event
frame_event-raw_message cmd payload h =
    let c : ℕ = checksum (wrapping_sum (u8 (cmd + length payload)) payload) in
    let size : length (payload ++ c ∷ []) ≡ length payload + 1 = length-append payload (c ∷ []) in
    ground (arith, raw_message-sum cmd payload h, size, take-append payload (c ∷ []))
