-- ===== src/Gateway/Requests.antt =====
-- The responders: `on_claim`, `on_request`, `handle_group_function` and what they send.
use canboat_rs.Prelude.{
  ℕ, ◌+◌, ◌/◌, List, [], ◌∷◌, Option, none, some, Bool, not, ◌&&◌, ◌||◌, ltb, leb, ◌==◌,
  if◌then◌else◌, length, take, drop, get_or, bit_and, bit_or, ◌<<<◌, u8, u64,
}
use canboat_rs.Frame.{RawFrame, addr_global, le_bytes, to_string}
use canboat_rs.Frame
use canboat_rs.AddressClaim.{
  is_claimed, on_address_claim, respond_to_claim_request, pgn_iso_address_claim,
}
use canboat_rs.Responder.{
  ProductInfo, pgn_list_frames, iso_ack_frame, heartbeat_frame, pgn_heartbeat, pgn_pgn_list,
}
use canboat_rs.Responder.Product.{product_frame}
use canboat_rs.Gateway.{
  NmeaDevice, Host, Effect, sent, emit, addr, claiming, pgn_at, from_le_bytes, pgn_group_function,
  pgn_product_info, n2k_db_version, product_code, certification_level, load_equivalency, model_id,
  tx_pgn_list, rx_pgn_list,
}
use canboat_rs.Gateway.Status.{wrapping_sub}

abbrev pub group_function_request : ℕ
group_function_request = 0

abbrev pub group_function_ack : ℕ
group_function_ack = 2

abbrev pub tx_interval_no_change : ℕ
tx_interval_no_change = 0xffff_ffff

abbrev pub tx_interval_restore_default : ℕ
tx_interval_restore_default = 0xffff_fffe

unfoldable pub on_claim : NmeaDevice → ℕ → ℕ → List ℕ → NmeaDevice × List Effect
on_claim d now src bytes =
    if ltb (length bytes) 8
    then (d, [])
    else claiming d (on_address_claim d.claim now src (from_le_bytes (take 8 bytes)))

unfoldable pub option_list : Option RawFrame → List RawFrame
option_list none = []
option_list (some f) = f ∷ []

-- The content of PGN 126996.
unfoldable pub product_info : Host → NmeaDevice → ProductInfo
product_info host d = record {
  db_version = n2k_db_version;
  product_code = product_code;
  model_id = model_id;
  software_version = host.crate_version;
  model_version = d.model_version;
  model_serial = to_string (bit_and d.claim.name 0x1f_ffff);
  certification_level = certification_level;
  load_equivalency = load_equivalency;
}

unfoldable pub send_product_info : Host → NmeaDevice → ℕ → NmeaDevice × List Effect
send_product_info host d now =
    if ltb (wrapping_sub now d.last_product_info) 1000 then (d, []) else (
      record d { last_product_info = now },
      emit (
          option_list
            (product_frame host.fl host.db host.product_fields (product_info host d) (addr d))),
    )

unfoldable pub next_seq : ℕ → ℕ
next_seq seq = if leb 252 seq then 0 else seq + 1

unfoldable pub send_heartbeat : NmeaDevice → NmeaDevice × List Effect
send_heartbeat d = (
  record d { heartbeat_seq = next_seq d.heartbeat_seq },
  emit (heartbeat_frame (addr d) d.heartbeat_seq d.heartbeat_interval ∷ []),
)

-- The answer of a node that owns an address.
unfoldable pub answer : Host → NmeaDevice → ℕ → ℕ → Bool → ℕ → NmeaDevice × List Effect
answer host d now src addressed requested =
    if requested == pgn_product_info
    then send_product_info host d now
    else if requested == pgn_pgn_list
    then (d, emit (pgn_list_frames (addr d) src tx_pgn_list rx_pgn_list))
    else if requested == pgn_heartbeat
    then send_heartbeat d
    else if addressed
    then (d, emit (iso_ack_frame (addr d) src 1 requested ∷ []))
    else (d, [])

unfoldable pub on_request : Host → NmeaDevice → ℕ → ℕ → ℕ → List ℕ → NmeaDevice × List Effect
on_request host d now src dst bytes =
    let requested = pgn_at 0 bytes in
    let addressed = dst == addr d in
    if ltb (length bytes) 3
    then (d, [])
    else if not addressed && not (dst == addr_global)
    then (d, [])
    else if requested == pgn_iso_address_claim
    then (d, emit (option_list (respond_to_claim_request d.claim)))
    else if not (is_claimed d.claim)
    then (d, [])
    else answer host d now src addressed requested

unfoldable pub ack_group_function : NmeaDevice → ℕ → ℕ → ℕ → ℕ → List Effect
ack_group_function d dst pgn pgn_err param_err =
    let errs = bit_or (bit_and pgn_err 0x0f) (u8 (bit_and param_err 0x0f <<< 4)) in
    let bytes = group_function_ack ∷ u8 pgn ∷ u8 (pgn / 256) ∷ u8 (pgn / 65536) ∷ errs ∷ 0 ∷ [] in
    sent (Frame.new none 6 pgn_group_function (addr d) dst bytes) ∷ []

unfoldable pub set_interval : NmeaDevice → ℕ → ℕ → NmeaDevice
set_interval d now interval = record d {
  heartbeat_interval = interval;
  next_heartbeat = u64 (now + interval);
}

-- The interval of a request, with the parameter error to report.
unfoldable pub apply_interval : NmeaDevice → ℕ → ℕ → NmeaDevice × ℕ
apply_interval d now interval =
    if interval == tx_interval_no_change
    then (d, 0)
    else if interval == tx_interval_restore_default
    then (set_interval d now 60000, 0)
    else if interval == 0
    then (record d { heartbeat_interval = 0 }, 0)
    else if leb 1000 interval && leb interval 60000
    then (set_interval d now interval, 0)
    else (d, 2)

unfoldable pub handle_group_function : NmeaDevice → ℕ → ℕ → List ℕ → NmeaDevice × List Effect
handle_group_function d now src bytes =
    let interval = from_le_bytes (take 4 (drop 4 bytes)) in
    let (d', param_err) = apply_interval d now interval in
    if ltb (length bytes) 8
      || not (get_or bytes 0 0 == group_function_request)
      || not (is_claimed d.claim)
    then (d, [])
    else if not (pgn_at 1 bytes == pgn_heartbeat)
    then (d, [])
    else (d', ack_group_function d' src pgn_heartbeat 0 param_err)
