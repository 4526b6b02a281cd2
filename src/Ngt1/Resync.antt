-- ===== src/Ngt1/Resync.antt =====
-- After any noise on the line the decoder finds its way back.
use mathlib.Core.List.{append_assoc}
use canboat_rs.Prelude.{
  ℕ, ◌≤◌, ◌<◌, ◌≡◌, refl, ◌∙◌, List, [], ◌∷◌, ◌++◌, some, false, if◌then◌else◌, arith, length,
}
use canboat_rs.Ngt1.{
  Ngt1Decoder, State, PrevState, NgtEvent, message, dle, stx, etx, is_escape, push_bytes, escape,
  new, frame_event, literal, was_collecting, restore, finish_frame, on_state, push_byte,
  encode_ngt_message,
}
use canboat_rs.Ngt1.Stuffing.{
  at, stuff, stuff_all, framed, raw_message, waiting, inside, push_bytes-framed, feed_end,
  push_bytes-append, frame_event-raw_message, feed-stuff_all,
}
use canboat_rs.Ngt1.RoundTrip.{encode_ngt_message-framed}

abbrev NotHeader : State → Type 0
NotHeader State.in_header = ⊥
NotHeader (escape PrevState.in_header) = ⊥
NotHeader _ = Unit {0}

-- A decoder of a live gateway: no `.ebl` escapes, and so never inside an `.ebl` header.
pub record IsLive (d : Ngt1Decoder) : Type 0 where
  pub plain : d.ebl ≡ false
  pub off_header : NotHeader d.state

on_state-IsLive :
    (s : State) (d : Ngt1Decoder) (b : ℕ)
    → d.ebl ≡ false
    → d.state ≡ s
    → NotHeader s
    → IsLive (on_state s d b).0
unfolding on_state literal restore finish_frame is_escape
on_state-IsLive State.idle d b e s h = ground arith
on_state-IsLive State.in_frame d b e s h = ground arith
on_state-IsLive State.in_header d b e s h = absurd h
on_state-IsLive (escape PrevState.idle) d b e s h = ground arith
on_state-IsLive (escape PrevState.in_frame) d b e s h = ground arith
on_state-IsLive (escape PrevState.in_header) d b e s h = absurd h

push_bytes-IsLive : (d : Ngt1Decoder) (bs : List ℕ) → IsLive d → IsLive (push_bytes d bs).0
unfolding push_bytes push_byte
push_bytes-IsLive d [] h = h
push_bytes-IsLive d (b ∷ bs) h =
    push_bytes-IsLive (push_byte d b).0 bs (on_state-IsLive d.state d b h.plain refl h.off_header)

-- Outside every frame stuffed bytes pass by.
idle-stuff_all :
    (buf bs : List ℕ)
    → push_bytes (at State.idle buf false) (stuff_all false bs) ≡ (at State.idle buf false, [])
unfolding stuff_all
idle-stuff_all buf [] = unfold push_bytes in refl
idle-stuff_all buf (b ∷ bs) =
    push_bytes-append (at State.idle buf false) (at State.idle buf false) (stuff false b)
      (stuff_all false bs) [] one
    ∙ rw (idle-stuff_all buf bs)
  where
    one : push_bytes (at State.idle buf false) (stuff false b) ≡ (at State.idle buf false, [])
    one =
        unfold stuff push_bytes push_byte on_state is_escape literal was_collecting restore in
        ground arith

idle_end :
    (buf : List ℕ)
    → push_bytes (at State.idle buf false) (dle ∷ etx ∷ [])
      ≡ (at State.idle [] false, frame_event buf ∷ [])
unfolding push_bytes push_byte on_state is_escape finish_frame
idle_end buf = refl

-- A frame start behind an escape byte is taken for data: the escape byte pairs up with the mark.
missed_start :
    (p : PrevState) (buf : List ℕ)
    → NotHeader (restore p)
    → push_bytes (at (escape p) buf false) (dle ∷ stx ∷ [])
      ≡ (at (restore p) (if was_collecting p then (buf ++ dle ∷ []) ++ stx ∷ [] else buf) false, [])
unfolding push_bytes push_byte on_state is_escape literal was_collecting restore
missed_start PrevState.idle buf h = refl
missed_start PrevState.in_frame buf h = refl
missed_start PrevState.in_header buf h = absurd h

pieces :
    (s t : State) (buf buf' buf'' raw : List ℕ) (evs : List NgtEvent)
    → push_bytes (at s buf false) (dle ∷ stx ∷ []) ≡ (at t buf' false, [])
    → push_bytes (at t buf' false) (stuff_all false raw) ≡ (at t buf'' false, [])
    → push_bytes (at t buf'' false) (dle ∷ etx ∷ []) ≡ (at State.idle [] false, evs)
    → push_bytes (at s buf false) (framed false raw) ≡ (at State.idle [] false, evs)
pieces s t buf buf' buf'' raw evs start body end =
    push_bytes-append (at s buf false) (at t buf' false) (dle ∷ stx ∷ [])
      (stuff_all false raw ++ dle ∷ etx ∷ []) [] start
    ∙ rw (
      push_bytes-append (at t buf' false) (at t buf'' false) (stuff_all false raw) (dle ∷ etx ∷ [])
          [] body,
      end,
    )

-- A framed message brings a live decoder of any state out of every frame.
settles :
    (s : State) (buf raw : List ℕ)
    → NotHeader s
    → (evs : List NgtEvent) × (push_bytes (at s buf false) (framed false raw)
        ≡ (at State.idle [] false, evs))
settles State.idle buf raw h = (_, push_bytes-framed State.idle false buf raw waiting)
settles State.in_frame buf raw h = (_, push_bytes-framed State.in_frame false buf raw inside)
settles State.in_header buf raw h = absurd h
settles (escape PrevState.in_header) buf raw h = absurd h
settles (escape PrevState.idle) buf raw h = (
  frame_event buf ∷ [],
  pieces (escape PrevState.idle) State.idle buf buf buf raw (frame_event buf ∷ [])
      (unfold was_collecting restore in missed_start PrevState.idle buf tt) (idle-stuff_all buf raw)
      (idle_end buf),
)
settles (escape PrevState.in_frame) buf raw h =
    let held = (buf ++ dle ∷ []) ++ stx ∷ [] in
    (
      frame_event (held ++ raw) ∷ [],
      pieces (escape PrevState.in_frame) State.in_frame buf held (held ++ raw) raw
          (frame_event (held ++ raw) ∷ [])
          (unfold was_collecting restore in missed_start PrevState.in_frame buf tt)
          (feed-stuff_all false held raw) (feed_end false (held ++ raw)),
    )

settles_live :
    (d : Ngt1Decoder) (raw : List ℕ)
    → IsLive d
    → (evs : List NgtEvent) × (push_bytes d (framed false raw) ≡ (at State.idle [] false, evs))
settles_live d raw h =
    let same : d ≡ at d.state d.buf false =
      λ i. record { state = d.state; buf = d.buf; ebl = h.plain i } in
    rw same (settles d.state d.buf raw h.off_header)

-- Whatever bytes a live decoder has seen, of two messages that follow at least the second is
-- decoded: it is the last event, and the decoder then waits for the next frame.
pub push_bytes_resync :
    (noise : List ℕ) (c₁ c₂ : ℕ) (p₁ p₂ : List ℕ)
    → c₂ < 256
    → length p₁ ≤ 255
    → length p₂ ≤ 255
    → (w₁ w₂ : List ℕ) × (encode_ngt_message c₁ p₁ [] ≡ some w₁)
      × (encode_ngt_message c₂ p₂ [] ≡ some w₂)
      × (evs : List NgtEvent) × (push_bytes new (noise ++ (w₁ ++ w₂))
          ≡ (at State.idle [] false, evs ++ message (record { command = c₂; payload = p₂ }) ∷ []))
push_bytes_resync noise c₁ c₂ p₁ p₂ hc l₁ l₂ =
    let w₁ = framed false (raw_message c₁ p₁) in
    let w₂ = framed false (raw_message c₂ p₂) in
    let d = (push_bytes new noise).0 in
    let live = push_bytes-IsLive new noise (record { plain = refl; off_header = tt }) in
    let first = settles_live d (raw_message c₁ p₁) live in
    let second : push_bytes (at State.idle [] false) w₂
        ≡ (at State.idle [] false, message (record { command = c₂; payload = p₂ }) ∷ []) =
      push_bytes-framed State.idle false [] (raw_message c₂ p₂) waiting
      ∙ rw (frame_event-raw_message c₂ p₂ hc) in
    (
      w₁,
      w₂,
      encode_ngt_message-framed c₁ p₁ [] l₁,
      encode_ngt_message-framed c₂ p₂ [] l₂,
      (push_bytes new noise).1 ++ first.0,
      push_bytes-append new d noise (w₁ ++ w₂) (push_bytes new noise).1 refl
          ∙ rw (
            push_bytes-append d (at State.idle [] false) w₁ w₂ first.0 first.1,
            second,
            append_assoc,
          ),
    )
