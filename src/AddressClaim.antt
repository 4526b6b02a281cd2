-- ===== src/AddressClaim.antt =====
-- crates/canboat-io/src/address_claim.rs: the address-claim state machine of one node. The table
-- `used: [bool; 256]` is a function of the address, a deadline is a u64.
pub mod PickFree
pub mod Invariant
pub mod Arbitration
pub mod Handshake
use canboat_rs.Prelude.{
  ℕ, zero, suc, ◌+◌, ◌/◌, ◌%◌, ◌≡◌, List, [], ◌∷◌, ◌++◌, Option, none, some, Bool, true, false, not,
  ◌||◌, ltb, leb, ◌==◌, if◌then◌else◌, u8, u64, ◌>>>◌, length,
}
use canboat_rs.Frame.{RawFrame, addr_global, addr_null, le_bytes}
use canboat_rs.Frame
use canboat_rs.Name.{Name, to_u64}

abbrev pub addr_max : ℕ
addr_max = 253

abbrev pub claim_timeout_ms : ℕ
claim_timeout_ms = 250

abbrev pub scan_timeout_ms : ℕ
scan_timeout_ms = 1000

abbrev pub pgn_iso_request : ℕ
pgn_iso_request = 59904

abbrev pub pgn_iso_address_claim : ℕ
pgn_iso_address_claim = 60928

pub data ClaimState : Type 0 where
  disabled : ClaimState
  scanning : ClaimState
  pending : ClaimState
  claimed : ClaimState
  failed : ClaimState

pub record AddressClaim : Type 0 where
  pub name : ℕ
  pub address : ℕ
  pub preferred : ℕ
  pub state : ClaimState
  pub deadline : ℕ
  pub arbitrary : Bool
  pub used : ℕ → Bool

abbrev pub new : ℕ → ℕ → Bool → AddressClaim
new name preferred arbitrary = record {
  name = name;
  address = preferred;
  preferred = preferred;
  state = pending;
  deadline = 0;
  arbitrary = arbitrary;
  used = λ _. false;
}

abbrev pub for_name : Name → ℕ → AddressClaim
for_name name preferred = new (to_u64 name) preferred name.arbitrary_address_capable

abbrev pub new_disabled : ℕ → AddressClaim
new_disabled name = record (new name 0 true) { state = disabled }

abbrev pub is_disabled : ClaimState → Bool
is_disabled disabled = true
is_disabled _ = false

abbrev pub is_scanning : ClaimState → Bool
is_scanning scanning = true
is_scanning _ = false

abbrev pub is_claimed : AddressClaim → Bool
is_claimed c = elim c.state [ claimed ↦ true | _ ↦ false ]

unfoldable pub owned_address : AddressClaim → Option ℕ
owned_address c = if is_claimed c then some c.address else none

abbrev pub claim_frame : AddressClaim → RawFrame
claim_frame c = Frame.new none 6 pgn_iso_address_claim c.address addr_global (le_bytes 8 c.name)

abbrev pub request_frame : ℕ → ℕ → ℕ → RawFrame
request_frame src dst pgn =
    Frame.new none 6 pgn_iso_request src dst (u8 pgn ∷ u8 (pgn >>> 8) ∷ u8 (pgn >>> 16) ∷ [])

unfoldable pub start : AddressClaim → ℕ → AddressClaim × List RawFrame
start c now = if is_disabled c.state then (c, []) else (
  record c { state = scanning; deadline = u64 (now + scan_timeout_ms) },
  request_frame addr_null addr_global pgn_iso_address_claim ∷ [],
)

-- The first free address from `a` on, among so many.
unfoldable pub first_free : ℕ → ℕ → (ℕ → Bool) → Option ℕ
first_free zero a used = none
first_free (suc n) a used = let rest = first_free n (suc a) used in if used a then rest else some a

unfoldable pub pick_free : (ℕ → Bool) → Option ℕ
pick_free used = first_free (addr_max + 1) 0 used

abbrev pub mark_used : (ℕ → Bool) → ℕ → ℕ → Bool
mark_used used src a = if a == src then true else used a

-- The claim goes out, and the time to contest it runs.
unfoldable pub claim_at : AddressClaim → ℕ → ℕ → AddressClaim × List RawFrame
claim_at c now address =
    let c' = record c {
      address = address;
      state = pending;
      deadline = u64 (now + claim_timeout_ms);
    } in
    (c', claim_frame c' ∷ [])

-- "Cannot claim", from the null address.
unfoldable pub give_up : AddressClaim → AddressClaim × List RawFrame
give_up c = let c' = record c { address = addr_null; state = failed } in (c', claim_frame c' ∷ [])

-- The lowest free address is claimed, if there is one.
unfoldable pub claim_free : AddressClaim → ℕ → AddressClaim × List RawFrame
claim_free c now = elim (pick_free c.used) [ some next ↦ claim_at c now next | none ↦ give_up c ]

-- To another address if there is one and the node may move.
unfoldable pub yield_address : AddressClaim → ℕ → AddressClaim × List RawFrame
yield_address c now = if c.arbitrary then claim_free c now else give_up c

unfoldable pub on_address_claim : AddressClaim → ℕ → ℕ → ℕ → AddressClaim × List RawFrame
on_address_claim c now src their_name =
    let learned = record c { used = mark_used c.used src } in
    if ltb addr_max src || is_disabled c.state
    then (c, [])
    else if their_name == c.name
    then (c, [])
    else if is_scanning c.state || not (src == c.address)
    then (learned, [])
    else if ltb c.name their_name
    then claim_at c now c.address
    else yield_address learned now

unfoldable pub begin_claim : AddressClaim → ℕ → AddressClaim × List RawFrame
begin_claim c now = if c.used c.preferred then claim_free c now else claim_at c now c.preferred

unfoldable pub tick_in : ClaimState → AddressClaim → ℕ → AddressClaim × List RawFrame
tick_in scanning c now = if leb c.deadline now then begin_claim c now else (c, [])
tick_in pending c now = if leb c.deadline now then (record c { state = claimed }, []) else (c, [])
tick_in _ c now = (c, [])

abbrev pub tick : AddressClaim → ℕ → AddressClaim × List RawFrame
tick c now = tick_in c.state c now

unfoldable pub respond_to_claim_request : AddressClaim → Option RawFrame
respond_to_claim_request c = elim c.state [
  | claimed ↦ some (claim_frame c)
  | pending ↦ some (claim_frame c)
  | _ ↦ none
]

-- What a node is told, with the time and, for a claim, the source and its NAME.
pub data Event : Type 0 where
  started : ℕ → Event
  claim_heard : ℕ → ℕ → ℕ → Event
  ticked : ℕ → Event

unfoldable pub step : AddressClaim → Event → AddressClaim × List RawFrame
step c (started now) = start c now
step c (claim_heard now src name) = on_address_claim c now src name
step c (ticked now) = tick c now

-- A sequence of events, and the frames that go out.
unfoldable pub run : AddressClaim → List Event → AddressClaim × List RawFrame
run c [] = (c, [])
run c (e ∷ es) = let (c', out) = step c e in let (c'', outs) = run c' es in (c'', out ++ outs)
