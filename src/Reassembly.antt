-- ===== src/Reassembly.antt =====
-- crates/canboat-core/src/reassembly.rs: the fast-packet and ISO transport protocol reassembler.
-- This file has the state and what one frame does to the slot it belongs to; `Slots` finds, claims
-- and evicts slots, `Transport` is the transport protocol, `Push` the entry point. Arrays are lists
-- of their length, masks are numbers below 2 ^ 32 or 2 ^ 64, and log lines are left out.
pub mod Slots
pub mod Transport
pub mod Push
pub mod Mask
pub mod Buffer
pub mod Assembly
pub mod Progress
pub mod Lookup
pub mod Message
pub mod AnyOrder
pub mod WellFormed
pub mod Bounds
use canboat_rs.Prelude.{
  ℕ, zero, suc, ◌+◌, ◌-◌, ◌*◌, ◌/◌, ◌%◌, ◌^◌, List, [], ◌∷◌, ◌++◌, Option, none, some, Bool, true,
  false, not, ◌&&◌, ◌||◌, ltb, leb, ◌==◌, if◌then◌else◌, length, take, drop, get_or, replicate,
  bit_and, bit_or, min, write_at,
}
use canboat_rs.Frame.{RawFrame, Text, fastpacket_max_size}

abbrev pub reassembly_buffer_size : ℕ
reassembly_buffer_size = 64

abbrev pub bucket_0_size : ℕ
bucket_0_size = 6

abbrev pub bucket_n_size : ℕ
bucket_n_size = 7

abbrev pub bucket_0_offset : ℕ
bucket_0_offset = 2

abbrev pub bucket_n_offset : ℕ
bucket_n_offset = 1

abbrev pub fastpacket_max_index : ℕ
fastpacket_max_index = 0x1f

abbrev pub iso_tp_slots : ℕ
iso_tp_slots = 16

abbrev pub u32_max : ℕ
u32_max = 2 ^ 32 - 1

pub data ReassemblyError : Type 0 where
  empty_data : ReassemblyError
  out_of_slots : ℕ → ℕ → ReassemblyError

pub data Reassembled : Type 0 where
  pass_through complete : RawFrame → Reassembled
  partial : Reassembled
  error : ReassemblyError → Reassembled

pub data FramePacketType : Type 0 where
  single fast other : FramePacketType

abbrev pub is_fast : FramePacketType → Bool
is_fast fast = true
is_fast _ = false

-- The array `data` of a slot is `bytes` here.
pub record Slot : Type 0 where
  pub used : Bool
  pub pgn : ℕ
  pub src : ℕ
  pub seq : ℕ
  pub frames : ℕ
  pub all_frames : ℕ
  pub size : ℕ
  pub age : ℕ
  pub bytes : List ℕ

abbrev pub default_slot : Slot
default_slot = record {
  used = false;
  pgn = 0;
  src = 0;
  seq = 0;
  frames = 0;
  all_frames = 0;
  size = 0;
  age = 0;
  bytes = replicate fastpacket_max_size 0;
}

pub record TpSlot : Type 0 where
  pub used : Bool
  pub src : ℕ
  pub dst : ℕ
  pub prio : ℕ
  pub target_pgn : ℕ
  pub total_size : ℕ
  pub packets : ℕ
  pub received : List ℕ
  pub timestamp : Option Text
  pub bytes : List ℕ
  pub age : ℕ

abbrev pub default_tp_slot : TpSlot
default_tp_slot = record {
  used = false;
  src = 0;
  dst = 0;
  prio = 0;
  target_pgn = 0;
  total_size = 0;
  packets = 0;
  received = 0 ∷ 0 ∷ 0 ∷ 0 ∷ [];
  timestamp = none;
  bytes = [];
  age = 0;
}

pub record Reassembler : Type 0 where
  pub slots : List Slot
  pub tp_slots : List TpSlot
  pub next_age : ℕ
  pub tp_next_age : ℕ

abbrev pub new : Reassembler
new = record {
  slots = replicate reassembly_buffer_size default_slot;
  tp_slots = replicate iso_tp_slots default_tp_slot;
  next_age = 0;
  tp_next_age = 0;
}

-- The size that frame 0 declares, and the mask of the frames that this takes.
unfoldable pub frame_mask : ℕ → ℕ
frame_mask size =
    let needed = min (1 + size / bucket_n_size) (fastpacket_max_index + 1) in
    if leb 32 needed then u32_max else 2 ^ needed - 1

unfoldable pub declared_size : List ℕ → ℕ
declared_size payload = min (get_or payload 1 0) fastpacket_max_size

-- `new_all_frames`: `none` but for frame 0.
unfoldable pub new_all_frames : ℕ → List ℕ → Option (ℕ × ℕ)
new_all_frames index payload =
    if index == 0 then some (declared_size payload, frame_mask (declared_size payload)) else none

unfoldable pub is_duplicate : Slot → ℕ → Bool
is_duplicate s index = not (bit_and s.frames (2 ^ index) == 0)

unfoldable pub completes_instantly : Slot → ℕ → Option (ℕ × ℕ) → Bool
completes_instantly s index none = false
completes_instantly s index (some (_, mask)) =
    not (is_duplicate s index)
    && not (s.frames == 0)
    && not (mask == 1)
    && bit_and (bit_or s.frames 1) mask == mask

-- The assembly is restarted if the frame belongs to a new message, and frame 0 sets the size.
unfoldable pub restart : Slot → ℕ → List ℕ → Slot
restart s index payload =
    if is_duplicate s index || completes_instantly s index (new_all_frames index payload)
    then record s { frames = 0 }
    else s

unfoldable pub declare : Slot → Option (ℕ × ℕ) → Slot
declare s none = s
declare s (some (size, mask)) = record s { size = size; all_frames = mask }

unfoldable pub dst_off : ℕ → ℕ
dst_off index = if index == 0 then 0 else bucket_0_size + (index - 1) * bucket_n_size

unfoldable pub src_off : ℕ → ℕ
src_off index = if index == 0 then bucket_0_offset else bucket_n_offset

unfoldable pub bucket_len : ℕ → ℕ
bucket_len index = if index == 0 then bucket_0_size else bucket_n_size

unfoldable pub bucket_capacity : ℕ → ℕ
unfolding dst_off bucket_len
bucket_capacity index = min (dst_off index + bucket_len index) fastpacket_max_size - dst_off index

unfoldable pub copy_len : ℕ → List ℕ → ℕ
copy_len index payload = min (length payload - src_off index) (bucket_capacity index)

-- The frame's bytes go to their place, and 0xff fills the rest of the bucket. Writing no bytes
-- changes nothing, so the tests for an empty range are not repeated here.
unfoldable pub store : ℕ → List ℕ → List ℕ → List ℕ
store index payload bytes =
    let n = copy_len index payload in
    let copied = write_at bytes (dst_off index) (take n (drop (src_off index) payload)) in
    write_at copied (dst_off index + n) (replicate (bucket_capacity index - n) 0xff)

unfoldable pub finish : Slot → RawFrame → Slot × Reassembled
finish s f =
    if not (s.all_frames == 0) && s.frames == s.all_frames
    then (
      record s { used = false; frames = 0; size = 0 },
      complete (record f { payload = take s.size s.bytes }),
    )
    else (s, partial)

-- Everything that `push` does with the slot of the frame.
unfoldable pub accept : Slot → ℕ → RawFrame → Slot × Reassembled
accept s index f =
    let t = declare (restart s index f.payload) (new_all_frames index f.payload) in
    finish
      (record t { bytes = store index f.payload t.bytes; frames = bit_or t.frames (2 ^ index) }) f
