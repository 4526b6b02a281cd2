-- ===== src/Frame.antt =====
-- crates/canboat-core/src/frame.rs: the frame that every other part passes around. A byte string is
-- a list of numbers below 256, a text is the list of its bytes. The field `data` is `payload` here.
use canboat_rs.Prelude.{
  ℕ, zero, suc, ◌+◌, ◌*◌, ◌/◌, ◌%◌, List, [], ◌∷◌, Option, ltb, if◌then◌else◌, length, take,
}

abbrev pub Text : Type 0
Text = List ℕ

abbrev pub fastpacket_max_size : ℕ
fastpacket_max_size = 223

abbrev pub rawframe_max_size : ℕ
rawframe_max_size = 255 * 7

abbrev pub addr_global : ℕ
addr_global = 255

abbrev pub addr_null : ℕ
addr_null = 254

pub record RawFrame : Type 0 where
  pub timestamp : Option Text
  pub prio : ℕ
  pub pgn : ℕ
  pub src : ℕ
  pub dst : ℕ
  pub payload : List ℕ

-- `RawFrame::new`: the payload is capped, nothing else is checked.
abbrev pub new : Option Text → ℕ → ℕ → ℕ → ℕ → List ℕ → RawFrame
new ts prio pgn src dst bytes = record {
  timestamp = ts;
  prio = prio;
  pgn = pgn;
  src = src;
  dst = dst;
  payload = if ltb rawframe_max_size (length bytes) then take rawframe_max_size bytes else bytes;
}

-- Decimal digits, as `u32::to_string` gives them.
unfoldable pub decimal_digits : ℕ → ℕ → Text → Text
decimal_digits zero n acc = acc
decimal_digits (suc f) n acc =
    let rest = decimal_digits f (n / 10) ((48 + n % 10) ∷ acc) in
    if ltb n 10 then (48 + n % 10) ∷ acc else rest

unfoldable pub to_string : ℕ → Text
unfolding decimal_digits
to_string n = decimal_digits (suc n) n []

-- `to_le_bytes` of an integer of so many bytes.
abbrev pub le_bytes : ℕ → ℕ → List ℕ
le_bytes zero n = []
le_bytes (suc k) n = n % 256 ∷ le_bytes k (n / 256)
