-- ===== src/Gateway/Drain.antt =====
-- The outbound ring as a queue: what reaches the socket, and the sleep of the worker.
use canboat_rs.Prelude.{
  ℕ, suc, ◌+◌, ◌≤◌, ◌<◌, ◌≡◌, refl, sym, ap, ◌∙◌, length-append, List, [], ◌∷◌, ◌++◌, Bool, true,
  false, arith, length, min, max,
}
use mathlib.Core.List.{append-nil}
use canboat_rs.SocketCan.{TxBuffer}
use canboat_rs.AddressClaim.{is_claimed}
use canboat_rs.Gateway.{NmeaDevice}
use canboat_rs.Gateway.Worker.{
  WriteResult, written, would_block, failed, popped, tx_drain_one, poll_wait, is_timing,
  max_poll_ms,
}

-- No frame is dropped for an error.
abbrev pub IsWriteLossless : List WriteResult → Type 0
IsWriteLossless [] = Unit
IsWriteLossless (failed ∷ ws) = ⊥
IsWriteLossless (_ ∷ ws) = IsWriteLossless ws

abbrev pub count_written : List WriteResult → ℕ
count_written [] = 0
count_written (written ∷ ws) = suc (count_written ws)
count_written (_ ∷ ws) = count_written ws

popped-last : (F : Type 0) (o : ℕ) → popped {F = F} [] o ≡ 0
unfolding popped
popped-last F o = ground arith

module _ {F : Type 0} where
  -- The frame that the socket takes in one turn.
  abbrev taken : TxBuffer F → WriteResult → List F
  taken tx result = elim tx.queue [
    | [] ↦ []
    | f ∷ rest ↦ elim result [ written ↦ f ∷ [] | would_block ↦ [] | failed ↦ [] ]
  ]

  -- The ring after a sequence of turns, and all frames that the socket took.
  unfoldable pub drain_all : TxBuffer F → List WriteResult → TxBuffer F × List F
  drain_all tx [] = (tx, [])
  drain_all tx (w ∷ ws) =
      let (tx', out) = drain_all (tx_drain_one tx w).0 ws in (tx', taken tx w ++ out)

  drain_all-order :
      (q : List F) (ws : List WriteResult) (o : ℕ) (m : ℕ → ℕ → ℕ)
      → IsWriteLossless ws
      → let r = drain_all (record { queue = q; overflowed = o; fast_seq = m }) ws in
        (r.1 ++ r.0.queue ≡ q) × (length r.1 ≡ min (count_written ws) (length q))
  unfolding drain_all tx_drain_one
  drain_all-order q [] o m h = (refl, omega arith)
  drain_all-order [] (written ∷ ws) o m h =
      let rest = drain_all-order [] ws o m h in (rest.0, omega (arith, rest.1))
  drain_all-order [] (would_block ∷ ws) o m h = drain_all-order [] ws o m h
  drain_all-order [] (failed ∷ ws) o m h = elim h [ ]
  drain_all-order (f ∷ q) (failed ∷ ws) o m h = elim h [ ]
  drain_all-order (f ∷ q) (written ∷ ws) o m h =
      let rest = drain_all-order q ws (popped q o) m h in
      (ap (λ (t : List F). f ∷ t) rest.0, omega (arith, rest.1))
  drain_all-order (f ∷ q) (would_block ∷ ws) o m h = drain_all-order (f ∷ q) ws o m h

  -- An empty ring stays as it is.
  drain_all-idle :
      (ws : List WriteResult) (o : ℕ) (m : ℕ → ℕ → ℕ)
      → let tx : TxBuffer F = record { queue = []; overflowed = o; fast_seq = m } in
        (drain_all tx ws).0 ≡ tx
  unfolding drain_all tx_drain_one
  drain_all-idle [] o m = refl
  drain_all-idle (w ∷ ws) o m = drain_all-idle ws o m

  drain_all-overflowed :
      (q : List F) (ws : List WriteResult) (o : ℕ) (m : ℕ → ℕ → ℕ)
      → 0 < length q
      → length q ≤ count_written ws
      → IsWriteLossless ws
      → (drain_all (record { queue = q; overflowed = o; fast_seq = m }) ws).0.overflowed ≡ 0
  unfolding drain_all tx_drain_one
  drain_all-overflowed [] ws o m k h w = absurd (omega arith)
  drain_all-overflowed (f ∷ q) [] o m k h w = absurd (omega arith)
  drain_all-overflowed (f ∷ q) (failed ∷ ws) o m k h w = elim w [ ]
  drain_all-overflowed (f ∷ q) (would_block ∷ ws) o m k h w =
      drain_all-overflowed (f ∷ q) ws o m k h w
  drain_all-overflowed (f ∷ []) (written ∷ ws) o m k h w =
      ap (λ (tx : TxBuffer F). tx.overflowed) (drain_all-idle ws (popped [] o) m) ∙ popped-last F o
  drain_all-overflowed (f ∷ g ∷ q) (written ∷ ws) o m k h w =
      drain_all-overflowed (g ∷ q) ws (popped (g ∷ q) o) m (omega arith) (omega arith) w

  all_or_less : (xs ys q : List F) → xs ++ ys ≡ q → length xs ≡ length q → (xs ≡ q) × (ys ≡ [])
  all_or_less xs [] q e l = (sym (append-nil xs) ∙ e, refl)
  all_or_less xs (y ∷ ys) q e l =
      let sum = length-append xs (y ∷ ys) in
      let same = ap length e in absurd (omega (arith, sum, same))

  -- For a ring with frames and a socket that may block now and again but reports no other error:
  -- once it has taken as many frames as were queued, it has got those of the ring, in their order,
  -- the ring is empty, and the count of dropped frames is 0 again.
  pub drain_all-delivers :
      (tx : TxBuffer F) (ws : List WriteResult)
      → 0 < length tx.queue
      → length tx.queue ≤ count_written ws
      → IsWriteLossless ws
      → let r = drain_all tx ws in (r.1 ≡ tx.queue) × (r.0.queue ≡ []) × (r.0.overflowed ≡ 0)
  drain_all-delivers tx ws k h w =
      let (order, taken_all) = drain_all-order tx.queue ws tx.overflowed tx.fast_seq w in
      let (all, none_left) = all_or_less _ _ tx.queue order (omega (arith, taken_all)) in
      (all, none_left, drain_all-overflowed tx.queue ws tx.overflowed tx.fast_seq k h w)

-- The worker sleeps for 100 ms at most, for 5 ms at most while frames are queued, not past the
-- deadline of the claim that is running, and, once it owns an address and if it has a heartbeat, not
-- past the next heartbeat, unless these are over already.
poll_wait-lt :
    (d : NmeaDevice) (empty : Bool) (now : ℕ)
    → let w = poll_wait d empty now in
      (w ≤ max_poll_ms)
      × (empty ≡ false → w ≤ 5)
      × (is_timing d.claim.state ≡ true → now < d.claim.deadline → now + w ≤ d.claim.deadline)
      × (is_timing d.claim.state ≡ false
          → is_claimed d.claim ≡ true
          → 0 < d.heartbeat_interval
          → now + w ≤ max now d.next_heartbeat)
unfolding poll_wait
poll_wait-lt d empty now =
    (ground arith, λ e. ground arith, λ e h. ground arith, λ e c h. ground arith)
