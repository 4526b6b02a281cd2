-- ===== src/Tests.antt =====
-- The theorems on messages and addresses at concrete inputs; those on fast packets are in the child.
mod FastPackets
mod Streams
mod Gateways
mod Schedules
mod Tables
mod Fields
mod Decoding
use canboat_rs.Prelude.{
  ℕ, ◌+◌, ◌/◌, ◌^◌, ◌≤◌, ◌<◌, ◌≡◌, ◌⊎◌, ◌%◌, refl, inl, inr, List, [], ◌∷◌, ◌++◌, map, Option, none,
  some, Bool, true, false, arith, ltb, leb, if◌then◌else◌, length, replicate, lt→ltb, le→leb, u64,
}
use canboat_rs.Frame.{RawFrame}
use canboat_rs.Frame
use canboat_rs.Ngt1
use canboat_rs.Ngt1.{
  State, in_frame, escape, PrevState, NgtMessage, message, NgtEvent, push_bytes, encode_ngt_message,
}
use canboat_rs.Ngt1.Stuffing.{at, waiting, inside}
use canboat_rs.Ngt1.Message.{encode_n2k_send_frame, to_raw_frame_any_dir}
use canboat_rs.Ngt1.RoundTrip.{push_bytes-encode_ngt_message}
use canboat_rs.Ngt1.Resync.{push_bytes_resync}
use canboat_rs.Ngt1.Transmit.{push_bytes-encode_n2k_send_frame}
use canboat_rs.CanId.{iso11783_compose, iso11783_decompose}
use canboat_rs.CanId.RoundTrip.{
  iso11783_decompose-iso11783_compose, iso11783_compose-iso11783_decompose,
}
use canboat_rs.Name.{Name, to_u64}
use canboat_rs.Name as Builder
use canboat_rs.Name.Fields.{to_u64-fields}
use canboat_rs.AddressClaim.{
  AddressClaim, pending, claimed, on_address_claim, claim_frame, owned_address, run, started,
  ticked, claim_heard, pick_free,
}
use canboat_rs.AddressClaim
use canboat_rs.AddressClaim.PickFree.{pick_free_cases}
use canboat_rs.AddressClaim.Invariant.{IsSound, run-IsSound}
use canboat_rs.AddressClaim.Arbitration.{Leaves, on_address_claim-contested}
use canboat_rs.AddressClaim.Handshake.{Heard, event_of, IsChoice, run-IsChoice}

-- Two escape bytes and a byte that needs none.
abbrev some_bytes : List ℕ
some_bytes = 0x10 ∷ 0x1b ∷ 7 ∷ []

push_bytes-encode_ngt_message_example :
    (wire : List ℕ) × (encode_ngt_message 0x93 some_bytes [] ≡ some wire)
    × (push_bytes (at State.in_frame (1 ∷ 2 ∷ []) false) wire
        ≡ (at State.idle [] false, message (record { command = 0x93; payload = some_bytes }) ∷ []))
push_bytes-encode_ngt_message_example =
    push_bytes-encode_ngt_message State.in_frame (1 ∷ 2 ∷ []) 0x93 some_bytes inside (omega arith)
      (omega arith)

push_bytes_resync_example :
    (w₁ w₂ : List ℕ) × (encode_ngt_message 0x93 some_bytes [] ≡ some w₁)
    × (encode_ngt_message 0x94 some_bytes [] ≡ some w₂)
    × (evs : List NgtEvent) × (push_bytes Ngt1.new ((0x10 ∷ 2 ∷ 0x10 ∷ []) ++ (w₁ ++ w₂)) ≡ (
      at State.idle [] false,
      evs ++ message (record { command = 0x94; payload = some_bytes }) ∷ [],
    ))
push_bytes_resync_example =
    push_bytes_resync (0x10 ∷ 2 ∷ 0x10 ∷ []) 0x93 0x94 some_bytes some_bytes (omega arith)
      (omega arith) (omega arith)

abbrev heading : RawFrame
heading = record {
  timestamp = some (1 ∷ []);
  prio = 2;
  pgn = 127250;
  src = 17;
  dst = 255;
  payload = 0x10 ∷ 0x10 ∷ 3 ∷ 4 ∷ 5 ∷ 6 ∷ 7 ∷ 8 ∷ [];
}

push_bytes-encode_n2k_send_frame_example :
    (wire : List ℕ) × (m : NgtMessage) × (encode_n2k_send_frame heading ≡ some wire)
    × (push_bytes (at State.idle [] false) wire ≡ (at State.idle [] false, message m ∷ []))
    × (to_raw_frame_any_dir m ≡ some (record heading { timestamp = none; src = 0 }))
push_bytes-encode_n2k_send_frame_example =
    push_bytes-encode_n2k_send_frame State.idle [] heading waiting (omega arith) (omega arith)

iso11783_decompose-iso11783_compose_example :
    iso11783_decompose (iso11783_compose 6 59904 23 42)
    ≡ record { prio = 6; pgn = 59904; src = 23; dst = 42 }
iso11783_decompose-iso11783_compose_example =
    iso11783_decompose-iso11783_compose 6 59904 23 42 (omega arith) (omega arith) (omega arith)
      (omega arith) (λ _. refl)

iso11783_compose-iso11783_decompose_example :
    let f = iso11783_decompose 0x18ea2a17 in iso11783_compose f.prio f.pgn f.src f.dst ≡ 0x18ea2a17
iso11783_compose-iso11783_decompose_example =
    iso11783_compose-iso11783_decompose 0x18ea2a17 (omega arith)

abbrev gateway : Name
gateway = Builder.device_class (Builder.device_function (Builder.new 275 0x123456) 130) 25

to_u64-fields_example :
    let x = to_u64 gateway in
    (x < 2 ^ 64)
    × (x % 2 ^ 21 ≡ 0x123456 % 2 ^ 21)
    × (x / 2 ^ 21 % 2 ^ 11 ≡ 275 % 2 ^ 11)
    × (x / 2 ^ 32 % 2 ^ 8 ≡ 0)
    × (x / 2 ^ 40 % 2 ^ 8 ≡ 130 % 2 ^ 8)
    × (x / 2 ^ 48 % 2 ≡ 0)
    × (x / 2 ^ 49 % 2 ^ 7 ≡ 25 % 2 ^ 7)
    × (x / 2 ^ 56 % 2 ^ 4 ≡ 0)
    × (x / 2 ^ 60 % 2 ^ 3 ≡ 4)
    × (x / 2 ^ 63 ≡ 1)
to_u64-fields_example = to_u64-fields gateway

pick_free_cases_example :
    let used = λ (a : ℕ). ltb a 40 in
    ((a : ℕ) × (pick_free used ≡ some a)
      × (a ≤ 253)
      × (used a ≡ false)
      × ((i : ℕ) → i < a → used i ≡ true))
    ⊎ ((pick_free used ≡ none) × ((i : ℕ) → i ≤ 253 → used i ≡ true))
pick_free_cases_example = pick_free_cases (λ a. ltb a 40)

run-IsSound_example :
    IsSound
      (run
        (AddressClaim.new 9 42 true)
        (started 0 ∷ claim_heard 10 42 3 ∷ ticked 1000 ∷ claim_heard 1010 0 5 ∷ ticked 1300 ∷ [])).0
run-IsSound_example =
    run-IsSound 9 42 true
      (started 0 ∷ claim_heard 10 42 3 ∷ ticked 1000 ∷ claim_heard 1010 0 5 ∷ ticked 1300 ∷ [])
      (omega arith)

abbrev low_node : AddressClaim
low_node = AddressClaim.new 5 42 true

abbrev high_node : AddressClaim
high_node = record (AddressClaim.new 9 42 true) { state = claimed }

on_address_claim-contested_example :
    (on_address_claim low_node 100 42 9
      ≡ (record low_node { state = pending; deadline = u64 350 }, claim_frame low_node ∷ []))
    × Leaves high_node 42 (on_address_claim high_node 120 42 5)
on_address_claim-contested_example =
    on_address_claim-contested low_node high_node 100 120 (inl refl) (inr refl) refl (omega arith)
      (omega arith)

abbrev heard_two : List Heard
heard_two = record { time = 10; src = 42; name = 3 } ∷ record { time = 20; src = 0; name = 4 } ∷ []

run-IsChoice_example : IsChoice heard_two 42 (
    owned_address
      (run
        (AddressClaim.new 9 42 true)
        (started 0 ∷ (map event_of heard_two ++ ticked 1000 ∷ ticked 1250 ∷ []))).0)
run-IsChoice_example =
    run-IsChoice 9 42 true heard_two 0 1000 1250 (omega arith)
      (omega arith, (λ e. absurd (omega arith)), (omega arith, (λ e. absurd (omega arith)), tt))
      (omega arith) (omega arith) (omega arith)
