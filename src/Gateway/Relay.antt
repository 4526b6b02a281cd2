-- ===== src/Gateway/Relay.antt =====
-- The gateway as a relay: what its consumer sees of the bus is what the reassembler alone makes of the
-- frames, and what the gateway itself sends meanwhile.
use mathlib.Core.List.{append-nil, append_assoc}
use canboat_rs.Prelude.{
  some, if◌then◌else◌, bit_and, Bool-cases, inl, inr, sym, subst, ℕ, ◌≡◌, refl, ap, ap₂, ◌∙◌, List,
  [], ◌∷◌, ◌++◌, Bool, not, ◌&&◌, ◌||◌, ltb, ◌==◌, if_both, length, map,
}
use canboat_rs.Frame.{RawFrame}
use canboat_rs.Frame
use canboat_rs.FastPacket.{MixedTable, packet_type}
use canboat_rs.Timestamp.{format_iso}
use canboat_rs.AddressClaim.{AddressClaim, is_disabled, is_claimed}
use canboat_rs.Reassembly.{Reassembler, Reassembled, pass_through, complete, partial, error}
use canboat_rs.Reassembly.Push.{push}
use canboat_rs.SocketCan.{CanApi, Bus, send_pgn, single_frame, can_eff_mask}
use canboat_rs.Gateway.{
  NmeaDevice, Host, Effect, sent, commanded, shown, emit, claiming, addr, pgn_at,
}
use canboat_rs.Gateway.Requests.{
  on_claim, on_request, answer, send_product_info, send_heartbeat, handle_group_function,
  ack_group_function,
}
use canboat_rs.Gateway.Worker.{
  Event, received, is_n2k, react, Node, perform, perform_all, settle, drain, step, run, time_of,
}
use canboat_rs.Gateway.Steps.{◌then_do◌, dispatch, note_source, forward, deliver, handle_frame}

-- The frames that only the consumer gets.
abbrev pub shown_of : List Effect → List RawFrame
shown_of [] = []
shown_of (sent f ∷ es) = shown_of es
shown_of (commanded f ∷ es) = shown_of es
shown_of (shown f ∷ es) = f ∷ shown_of es

-- The message that a frame gives, if any.
abbrev pub message_of : Reassembled → List RawFrame
message_of (pass_through f) = f ∷ []
message_of (complete f) = f ∷ []
message_of partial = []
message_of (error e) = []

shown_of-append : (xs ys : List Effect) → shown_of (xs ++ ys) ≡ shown_of xs ++ shown_of ys
shown_of-append [] ys = refl
shown_of-append (sent f ∷ xs) ys = shown_of-append xs ys
shown_of-append (commanded f ∷ xs) ys = shown_of-append xs ys
shown_of-append (shown f ∷ xs) ys = ap (λ (t : List RawFrame). f ∷ t) (shown_of-append xs ys)

shown_of-emit : (fs : List RawFrame) → shown_of (emit fs) ≡ []
shown_of-emit [] = refl
shown_of-emit (f ∷ fs) = shown_of-emit fs

-- What a handler shows the consumer.
record Shows (fs : List RawFrame) (r : NmeaDevice × List Effect) : Type 0 where
  seen : shown_of r.1 ≡ fs

emit-Shows : (d : NmeaDevice) (fs : List RawFrame) → Shows [] (d, emit fs)
emit-Shows d fs = record { seen = shown_of-emit fs }

nothing-Shows : (d : NmeaDevice) → Shows [] (d, [])
nothing-Shows d = record { seen = refl }

then_do-Shows :
    (r : NmeaDevice × List Effect) (g : NmeaDevice → NmeaDevice × List Effect)
    (xs ys : List RawFrame)
    → Shows xs r
    → ((d : NmeaDevice) → Shows ys (g d))
    → Shows (xs ++ ys) (r then_do g)
unfolding ◌then_do◌
then_do-Shows (d, out) g xs ys h k = record {
  seen = shown_of-append out _ ∙ ap₂ ◌++◌ h.seen (k d).seen;
}

claiming-Shows : (d : NmeaDevice) (r : AddressClaim × List RawFrame) → Shows [] (claiming d r)
unfolding claiming
claiming-Shows d (c, fs) = emit-Shows _ fs

send_product_info-Shows :
    (host : Host) (d : NmeaDevice) (now : ℕ) → Shows [] (send_product_info host d now)
unfolding send_product_info
send_product_info-Shows host d now =
    if_both (Shows []) (ltb _ 1000) (nothing-Shows d) (emit-Shows _ _)

answer-Shows :
    (host : Host) (d : NmeaDevice) (now src : ℕ) (addressed : Bool) (requested : ℕ)
    → Shows [] (answer host d now src addressed requested)
unfolding answer send_heartbeat
answer-Shows host d now src addressed requested =
    if_both (Shows []) (requested == _) (send_product_info-Shows host d now) (
      if_both (Shows []) (requested == _) (emit-Shows _ _) (
        if_both (Shows []) (requested == _) (record { seen = refl })
          (if_both (Shows []) addressed (record { seen = refl }) (nothing-Shows d))))

dispatch-Shows :
    (host : Host) (d : NmeaDevice) (now : ℕ) (f : RawFrame) (bytes : List ℕ)
    → Shows [] (dispatch host d now f bytes)
unfolding dispatch on_claim on_request
dispatch-Shows host d now f bytes =
    if_both (Shows []) (is_disabled d.claim.state) (nothing-Shows d) (
      if_both (Shows []) (f.pgn == _)
        (if_both (Shows []) (ltb (length bytes) 8) (nothing-Shows d) (claiming-Shows d _))
        (if_both (Shows []) (f.pgn == _)
          (if_both (Shows []) (ltb (length bytes) 3) (nothing-Shows d) (
            if_both (Shows []) (not (f.dst == addr d) && _) (nothing-Shows d) (
              if_both (Shows []) (pgn_at 0 bytes == _) (emit-Shows _ _) (
                if_both (Shows []) (not (is_claimed d.claim)) (nothing-Shows d)
                  (answer-Shows host d now f.src (f.dst == addr d) (pgn_at 0 bytes))))))
          (nothing-Shows d)))

handle_group_function-Shows :
    (d : NmeaDevice) (now src : ℕ) (bytes : List ℕ)
    → Shows [] (handle_group_function d now src bytes)
unfolding handle_group_function ack_group_function
handle_group_function-Shows d now src bytes =
    if_both (Shows []) (ltb (length bytes) 8 || _ || _) (nothing-Shows d)
      (if_both (Shows []) (not (pgn_at 1 bytes == _)) (nothing-Shows d) (record { seen = refl }))

forward-Shows : (now src : ℕ) (f : RawFrame) (d : NmeaDevice) → Shows (f ∷ []) (forward now src f d)
unfolding forward
forward-Shows now src f d =
    then_do-Shows _ _ [] (f ∷ [])
      (if_both (Shows []) (not (is_disabled d.claim.state) && _)
        (handle_group_function-Shows d now src f.payload) (nothing-Shows d))
      (λ e. record { seen = refl })

deliver-Shows :
    (now src : ℕ) (out : Reassembled) (d : NmeaDevice)
    → Shows (message_of out) (deliver now src out d)
unfolding deliver
deliver-Shows now src (pass_through f) d = forward-Shows now src f d
deliver-Shows now src (complete f) d = forward-Shows now src f d
deliver-Shows now src partial d = nothing-Shows d
deliver-Shows now src (error e) d = nothing-Shows d

note_source-Shows : (src : ℕ) (d : NmeaDevice) → Shows [] (note_source src d)
unfolding note_source
note_source-Shows src d =
    if_both (Shows []) (not (src == _) && _) (record { seen = refl }) (record { seen = refl })

-- A received frame: when it is handled, its identifier and data, and its time stamp.
pub record Rx : Type 0 where
  pub now : ℕ
  pub can_id : ℕ
  pub bytes : List ℕ
  pub when : ℕ

abbrev pub event_of : Rx → Event
event_of x = received x.now x.can_id x.bytes x.when

-- The frame, if it is one of NMEA 2000.
abbrev pub frame_of : Rx → List RawFrame
frame_of x =
    let when = if x.when == 0 then x.now else x.when in
    if is_n2k x.can_id
    then single_frame (format_iso when) (bit_and x.can_id can_eff_mask, x.bytes) ∷ []
    else []

abbrev pub frames_of : List Rx → List RawFrame
frames_of [] = []
frames_of (x ∷ xs) = frame_of x ++ frames_of xs

-- The messages that the reassembler alone makes of the frames.
unfoldable pub messages : MixedTable → Reassembler → List RawFrame → List RawFrame
messages table r [] = []
messages table r (f ∷ fs) =
    let (r', out) = push r f (packet_type table f.pgn) in message_of out ++ messages table r' fs

-- The third list is an interleaving of the two others.
pub data IsMerge : List RawFrame → List RawFrame → List RawFrame → Type 0 where
  done : IsMerge [] [] []
  left : {f : RawFrame} {xs ys zs : List RawFrame} → IsMerge xs ys zs → IsMerge (f ∷ xs) ys (f ∷ zs)
  right :
      {f : RawFrame} {xs ys zs : List RawFrame} → IsMerge xs ys zs → IsMerge xs (f ∷ ys) (f ∷ zs)

-- The echo of a frame that the gateway sends of its own accord.
abbrev pub echo_of : ℕ → RawFrame → RawFrame
echo_of now f = Frame.new (some (format_iso now)) f.prio f.pgn f.src f.dst f.payload

abbrev pub echoes_of : ℕ → List Effect → List RawFrame
echoes_of now [] = []
echoes_of now (sent f ∷ es) = echo_of now f ∷ echoes_of now es
echoes_of now (commanded f ∷ es) = echoes_of now es
echoes_of now (shown f ∷ es) = echoes_of now es

-- What the consumer gets of a list of effects.
seen_of : ℕ → List Effect → List RawFrame
seen_of now [] = []
seen_of now (sent f ∷ es) = echo_of now f ∷ seen_of now es
seen_of now (commanded f ∷ es) = seen_of now es
seen_of now (shown f ∷ es) = f ∷ seen_of now es

seen_of-IsMerge :
    (now : ℕ) (es : List Effect) (xs ys zs : List RawFrame)
    → IsMerge xs ys zs
    → IsMerge (echoes_of now es ++ xs) (shown_of es ++ ys) (seen_of now es ++ zs)
unfolding seen_of
seen_of-IsMerge now [] xs ys zs h = h
seen_of-IsMerge now (sent f ∷ es) xs ys zs h = left (seen_of-IsMerge now es xs ys zs h)
seen_of-IsMerge now (commanded f ∷ es) xs ys zs h = seen_of-IsMerge now es xs ys zs h
seen_of-IsMerge now (shown f ∷ es) xs ys zs h = right (seen_of-IsMerge now es xs ys zs h)

-- What one frame shows is the message that the reassembler makes of it.
messages-shown :
    (host : Host) (d : NmeaDevice) (r : Reassembler) (x : Rx) (rest : List RawFrame)
    → let out = react host d r (event_of x) in
      messages host.table r (frame_of x ++ rest) ≡ shown_of out.2 ++ messages host.table out.0 rest
unfolding messages react handle_frame
messages-shown host d r x rest =
    let when = if x.when == 0 then x.now else x.when in
    let f = single_frame (format_iso when) (bit_and x.can_id can_eff_mask, x.bytes) in
    let r' = (push r f (packet_type host.table f.pgn)).0 in
    elim (Bool-cases (is_n2k x.can_id)) [
      | inr skipped ↦ rw skipped refl
      | inl heard ↦ rw heard (
          ap (λ (t : List RawFrame). t ++ messages host.table r' rest)
            (sym
              (then_do-Shows _ _ [] _
                (then_do-Shows _ _ [] [] (dispatch-Shows host d x.now _ x.bytes)
                  (note_source-Shows _))
                (deliver-Shows x.now _ _)).seen))
    ]

messages-none : (table : MixedTable) (r : Reassembler) → messages table r [] ≡ []
unfolding messages
messages-none table r = refl

module _ (can : CanApi) where
  perform_all-seen_of :
      (host : Host) (now : ℕ) (es : List Effect) (bus : Bus can)
      → (perform_all can host now bus es).frames_tx ≡ bus.frames_tx ++ seen_of now es
  unfolding perform_all perform send_pgn seen_of
  perform_all-seen_of host now [] bus = sym (append-nil bus.frames_tx)
  perform_all-seen_of host now (sent f ∷ es) bus =
      perform_all-seen_of host now es _ ∙ append_assoc bus.frames_tx (echo_of now f ∷ []) _
  perform_all-seen_of host now (commanded f ∷ es) bus = perform_all-seen_of host now es _
  perform_all-seen_of host now (shown f ∷ es) bus =
      perform_all-seen_of host now es _ ∙ append_assoc bus.frames_tx (f ∷ []) _

  -- The echoes of what the gateway sends of its own accord, while it handles the frames.
  unfoldable pub echoes : Host → Node can → List Rx → List RawFrame
  echoes host n [] = []
  echoes host n (x ∷ xs) =
      echoes_of x.now (react host n.device n.reasm (event_of x)).2
      ++ echoes host (step can host n (event_of x)) xs

  -- For every sequence of received frames, whatever the state of the gateway: what its consumer gets
  -- is an interleaving of two lists. One is the messages that a reassembler alone makes of those of
  -- the frames that are of NMEA 2000, each once and in that order; the other is the echoes of the
  -- frames that the gateway itself sends of its own accord meanwhile, in the order of sending.
  pub relay-messages :
      (host : Host) (xs : List Rx) (n : Node can)
      → (new : List RawFrame) × IsMerge
          (echoes host n xs)
          (messages host.table n.reasm (frames_of xs))
          new
        × ((run can host n (map event_of xs)).bus.frames_tx ≡ n.bus.frames_tx ++ new)
  unfolding echoes run
  relay-messages host [] n = ([], IsMerge-none, sym (append-nil n.bus.frames_tx))
    where
      IsMerge-none : IsMerge [] (messages host.table n.reasm []) []
      IsMerge-none = subst (λ (t : List RawFrame). IsMerge [] t []) (sym (messages-none _ _)) done
  relay-messages host (x ∷ xs) n =
      let e = event_of x in
      let out = react host n.device n.reasm e in
      let (new, merged, gives) = relay-messages host xs (step can host n e) in
      let here : (step can host n e).bus.frames_tx ≡ n.bus.frames_tx ++ seen_of x.now out.2 =
        unfold step settle drain time_of in perform_all-seen_of host x.now out.2 n.bus in
      let later : (step can host n e).reasm ≡ out.0 = unfold step settle drain in refl in
      let all =
        messages-shown host n.device n.reasm x (frames_of xs)
        ∙ ap (λ (t : Reassembler). shown_of out.2 ++ messages host.table t (frames_of xs))
            (sym later) in
      (
        seen_of x.now out.2 ++ new,
        subst
            (λ (t : List RawFrame). IsMerge (echoes host n (x ∷ xs)) t (seen_of x.now out.2 ++ new))
            (sym all) (seen_of-IsMerge x.now out.2 _ _ new merged),
        gives
            ∙ ap (λ (t : List RawFrame). t ++ new) here
            ∙ append_assoc n.bus.frames_tx (seen_of x.now out.2) new,
      )
