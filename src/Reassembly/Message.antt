-- ===== src/Reassembly/Message.antt =====
-- A message in flight: its key, the frames that it is cut into, and the orders in which they come.
use canboat_rs.Prelude.{ℕ, ◌≤◌, ◌<◌, ◌≡◌, ◌≢◌, List, [], ◌∷◌, Bool, true, false, length}
use canboat_rs.Frame.{RawFrame}
use canboat_rs.Reassembly.{Reassembled, partial, complete}
use canboat_rs.Reassembly.Transport.{pgn_iso_tp_cm, pgn_iso_tp_dt}
use canboat_rs.Reassembly.Push.{index_of, seq_of}
use canboat_rs.Reassembly.Mask.{frame_count}
use canboat_rs.Reassembly.Assembly.{Carries, add}

-- The key of a message in flight.
pub record Key : Type 0 where
  pub pgn : ℕ
  pub src : ℕ
  pub seq : ℕ

-- A fast-packet frame of the message `p` under that key, with index `i`.
pub record IsPart (p : List ℕ) (k : Key) (i : ℕ) (f : RawFrame) : Type 0 where
  pub header : ℕ
  pub rest : List ℕ
  pub bytes : f.payload ≡ header ∷ rest
  pub short : length f.payload ≤ 8
  pub index : index_of header ≡ i
  pub seq : seq_of header ≡ k.seq
  pub pgn : f.pgn ≡ k.pgn
  pub src : f.src ≡ k.src
  pub carries : Carries p i f.payload

-- The frames that a slot still misses, in the order in which they come: each is new, the last one
-- fills the slot, and frame 0 is not the last of several.
pub data Remaining (p : List ℕ) (k : Key) : (ℕ → Bool) → List RawFrame → Type 0 where
  last :
      {got : ℕ → Bool} (i : ℕ) (f : RawFrame)
      → IsPart p k i f
      → got i ≡ false
      → ((j : ℕ) → j < frame_count (length p) → add got i j ≡ true)
      → (i ≡ 0 → frame_count (length p) ≡ 1)
      → Remaining p k got (f ∷ [])
  more :
      {got : ℕ → Bool} {fs : List RawFrame} (i j : ℕ) (f : RawFrame)
      → IsPart p k i f
      → got i ≡ false
      → j < frame_count (length p)
      → add got i j ≡ false
      → Remaining p k (add got i) fs
      → Remaining p k got (f ∷ fs)

-- What the frames give: the message with the last one, nothing before.
abbrev pub outcomes : List ℕ → List RawFrame → List Reassembled
outcomes p [] = []
outcomes p (f ∷ []) = complete (record f { payload = p }) ∷ []
outcomes p (f ∷ g ∷ fs) = partial ∷ outcomes p (g ∷ fs)

abbrev pub IsBusKey : Key → Type 0
IsBusKey k = (k.pgn ≢ pgn_iso_tp_cm) × (k.pgn ≢ pgn_iso_tp_dt)
