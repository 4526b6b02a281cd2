-- ===== src/RequestEngine/Fairness.antt =====
-- Every device is asked in time, and none too often.
use canboat_rs.Prelude.{
  ℕ, ◌+◌, ◌≤◌, ◌<◌, ◌≡◌, ◌≢◌, ◌⊎◌, refl, sym, ap, subst, ◌∙◌, inl, inr, arith, List, [], ◌∷◌,
  Option, none, some, true, false, u8, eq_or_ne, ne→==, eq→==,
}
use mathlib.Core.Bool.{true≢false}
use canboat_rs.RequestEngine.{
  RequestKind, claim, product_info, DeviceState, Devices, is_due, next_due, stamp, received, insert,
  last_requested, is_recent, device_request_interval, note_device_seen, stamped, or_default,
  pgn_claim, pgn_prod_info,
}
use canboat_rs.RequestEngine.Due.{ahead, next_due_cases}

abbrev pub IsAsked : ℕ → List (Option ℕ) → Type 0
IsAsked a [] = ⊥
IsAsked a (o ∷ os) = (o ≡ some a) ⊎ IsAsked a os

-- A device that is due stays due.
is_due-later :
    (kind : RequestKind) (t now : ℕ) (s : Option DeviceState)
    → t ≤ now
    → is_due kind t s ≡ true
    → is_due kind now s ≡ true
is_due-later kind t now none h due = due
is_due-later claim t now (some s) h due = ground arith
is_due-later product_info t now (some s) h due = ground arith

insert_other : (devs : Devices) (a b : ℕ) (s : DeviceState) → a ≢ b → insert devs b s a ≡ devs a
insert_other devs a b s ne = rw (ne→== a b ne) refl

-- The cursor moves towards a device that is passed over.
nearer :
    (cursor a b : ℕ)
    → cursor < 256
    → a < 256
    → b < 256
    → a ≢ b
    → ahead cursor b ≤ ahead cursor a
    → ahead (u8 (b + 1)) a < ahead cursor a
nearer cursor a b hc ha hb other h = omega arith

lt_or_le : (i j : ℕ) → (i < j) ⊎ (j ≤ i)
lt_or_le i j = omega arith

-- What happens to the engine: `next_due` is called for one kind of request; it is called for the other
-- kind, with the cursor of that; or a frame of this PGN and source is seen.
pub data Call : Type 0 where
  ask : ℕ → Call
  ask_other : ℕ → ℕ → Call
  seen : ℕ → ℕ → ℕ → Call

abbrev pub time_of : Call → ℕ
time_of (ask now) = now
time_of (ask_other now cursor) = now
time_of (seen now pgn src) = now

abbrev pub other_kind : RequestKind → RequestKind
other_kind claim = product_info
other_kind product_info = claim

-- The addresses that are asked for this kind.
unfoldable pub asked_by : Devices → ℕ → RequestKind → List Call → List (Option ℕ)
asked_by devs cursor kind [] = []
asked_by devs cursor kind (ask now ∷ calls) =
    let (devs', cursor', dst) = next_due devs cursor kind now in
    dst ∷ asked_by devs' cursor' kind calls
asked_by devs cursor kind (ask_other now at ∷ calls) =
    asked_by (next_due devs (u8 at) (other_kind kind) now).0 cursor kind calls
asked_by devs cursor kind (seen now pgn src ∷ calls) =
    asked_by (note_device_seen devs now pgn src) cursor kind calls

abbrev pub number_of_asks : List Call → ℕ
number_of_asks [] = 0
number_of_asks (ask now ∷ calls) = number_of_asks calls + 1
number_of_asks (ask_other now at ∷ calls) = number_of_asks calls
number_of_asks (seen now pgn src ∷ calls) = number_of_asks calls

-- What is asked for.
abbrev pub pgn_of : RequestKind → ℕ
pgn_of claim = pgn_claim
pgn_of product_info = pgn_prod_info

-- Not the answer of this device.
abbrev pub IsQuiet : RequestKind → ℕ → Call → Type 0
IsQuiet kind a (ask now) = Unit
IsQuiet kind a (ask_other now at) = Unit
IsQuiet kind a (seen now pgn src) = (a ≢ src) ⊎ (pgn ≢ pgn_of kind)

abbrev pub AreQuiet : RequestKind → ℕ → ℕ → List Call → Type 0
AreQuiet kind a t [] = Unit
AreQuiet kind a t (c ∷ calls) = (t ≤ time_of c) × IsQuiet kind a c × AreQuiet kind a t calls

-- What is done for the other kind leaves a device due.
stamped_other_due :
    (kind : RequestKind) (t now : ℕ) (o : Option DeviceState)
    → is_due kind t o ≡ true
    → is_due kind t (some (stamped (other_kind kind) now (or_default o))) ≡ true
stamped_other_due kind t now none due = absurd (true≢false (sym due))
stamped_other_due claim t now (some s) due = due
stamped_other_due product_info t now (some s) due = due

next_due_other-is_due :
    (kind : RequestKind) (t now at a : ℕ) (devs : Devices)
    → is_due kind t (devs a) ≡ true
    → is_due kind t ((next_due devs (u8 at) (other_kind kind) now).0 a) ≡ true
next_due_other-is_due kind t now at a devs due =
    elim (next_due_cases (other_kind kind) now (u8 at) devs (omega arith)) [
      | inr (e, idle) ↦ rw e due
      | inl (b, e, hb, asked, least) ↦ elim (eq_or_ne a b) [
        | inr other ↦ rw e (
            subst (λ (x : Option DeviceState). is_due kind t x ≡ true)
              (sym (insert_other devs a b _ other)) due)
        | inl same ↦
            let here = eq→== a b same in
            rw (e, here)
              (subst
                (λ (x : ℕ).
                  is_due kind t (some (stamped (other_kind kind) now (or_default (devs x)))) ≡ true)
                same (stamped_other_due kind t now (devs a) due))
      ]
    ]

-- A frame that is no answer leaves it due, too.
received_due :
    (kind : RequestKind) (t now pgn : ℕ) (o : Option DeviceState)
    → pgn ≢ pgn_of kind
    → is_due kind t o ≡ true
    → is_due kind t (some (received (record (or_default o) { seen = true }) pgn now)) ≡ true
unfolding received
received_due kind t now pgn none ne due = absurd (true≢false (sym due))
received_due claim t now pgn (some s) ne due = ground arith
received_due product_info t now pgn (some s) ne due = ground arith

note_device_seen-is_due :
    (kind : RequestKind) (t : ℕ) (devs : Devices) (now pgn src a : ℕ)
    → (a ≢ src) ⊎ (pgn ≢ pgn_of kind)
    → is_due kind t (devs a) ≡ true
    → is_due kind t (note_device_seen devs now pgn src a) ≡ true
unfolding note_device_seen
note_device_seen-is_due kind t devs now pgn src a quiet due = elim (eq_or_ne a src) [
  | inr other ↦ let there = ne→== a src other in rw there due
  | inl same ↦ elim quiet [
    | inl differs ↦ absurd (differs same)
    | inr ne ↦
        let here = eq→== a src same in
        rw here (
          subst
            (λ (x : ℕ).
              is_due kind t (some (received (record (or_default (devs x)) { seen = true }) pgn now))
              ≡ true)
            same (received_due kind t now pgn (devs a) ne due))
  ]
]

-- A device that is due at some time is asked by one of the calls of `next_due` from then on, if it
-- does not give the answer meanwhile, and there are more of these calls than addresses between the
-- cursor and it: 256 are always enough. Between them other frames may be seen, those of the device
-- itself included, and any device may be asked for the other kind.
pub asked_by-IsAsked :
    (kind : RequestKind) (t : ℕ) (calls : List Call) (devs : Devices) (cursor a : ℕ)
    → cursor < 256
    → a < 256
    → is_due kind t (devs a) ≡ true
    → AreQuiet kind a t calls
    → ahead cursor a < number_of_asks calls
    → IsAsked a (asked_by devs cursor kind calls)
unfolding asked_by
asked_by-IsAsked kind t [] devs cursor a hc ha due quiet enough = absurd (omega arith)
asked_by-IsAsked kind t (seen now pgn src ∷ calls) devs cursor a hc ha due (h, q, quiet) enough =
    asked_by-IsAsked kind t calls _ cursor a hc ha
      (note_device_seen-is_due kind t devs now pgn src a q due) quiet enough
asked_by-IsAsked kind t (ask_other now at ∷ calls) devs cursor a hc ha due (h, q, quiet) enough =
    asked_by-IsAsked kind t calls _ cursor a hc ha (next_due_other-is_due kind t now at a devs due)
      quiet enough
asked_by-IsAsked kind t (ask now ∷ calls) devs cursor a hc ha due (h, q, quiet) enough =
    let still = is_due-later kind t now (devs a) h due in
    elim (next_due_cases kind now cursor devs hc) [
      | inr (e, idle) ↦ absurd (true≢false (sym still ∙ idle a ha))
      | inl (b, e, hb, asked, least) ↦ elim (eq_or_ne a b) [
        | inl same ↦ rw e (inl (ap some (sym same)))
        | inr other ↦
            let passed : ahead cursor b ≤ ahead cursor a =
              elim (lt_or_le (ahead cursor a) (ahead cursor b)) [
                | inl before ↦ absurd (true≢false (sym still ∙ least a ha before))
                | inr after ↦ after
              ] in
            let closer = nearer cursor a b hc ha hb other passed in
            rw e (
              inr (
                asked_by-IsAsked kind t calls (stamp kind now b devs) (u8 (b + 1)) a (omega arith)
                  ha
                  (subst (λ (x : Option DeviceState). is_due kind t x ≡ true)
                    (sym (insert_other devs a b _ other)) due)
                  quiet (omega arith)))
      ]
    ]

abbrev pub AllWithin : ℕ → ℕ → List Call → Type 0
AllWithin from until [] = Unit
AllWithin from until (c ∷ calls) =
    (from ≤ time_of c) × (time_of c < until) × AllWithin from until calls

-- The device was asked at the time `t`.
abbrev pub IsStamped : RequestKind → ℕ → Option DeviceState → Type 0
IsStamped kind t o = (s : DeviceState) × (o ≡ some s) × (last_requested kind s ≡ some t)

stamped_not_due :
    (kind : RequestKind) (t now : ℕ) (o : Option DeviceState)
    → IsStamped kind t o
    → t ≤ now
    → now < t + device_request_interval
    → is_due kind now o ≡ false
stamped_not_due claim t now o (s, e, r) h k =
    let recent : is_recent now (last_requested claim s) ≡ true = rw r (ground arith) in
    rw e (ground arith)
stamped_not_due product_info t now o (s, e, r) h k =
    let recent : is_recent now (last_requested product_info s) ≡ true = rw r (ground arith) in
    rw e (ground arith)

received_requested :
    (kind : RequestKind) (s : DeviceState) (pgn now : ℕ)
    → last_requested kind (received (record s { seen = true }) pgn now) ≡ last_requested kind s
unfolding received
received_requested claim s pgn now = ground arith
received_requested product_info s pgn now = ground arith

note_device_seen-IsStamped :
    (kind : RequestKind) (t : ℕ) (devs : Devices) (now pgn src a : ℕ)
    → IsStamped kind t (devs a)
    → IsStamped kind t (note_device_seen devs now pgn src a)
unfolding note_device_seen
note_device_seen-IsStamped kind t devs now pgn src a (s, e, r) = elim (eq_or_ne a src) [
  | inl same ↦
      let here = eq→== a src same in
      let there = ap devs (sym same) ∙ e in
      rw (here, there) (_, refl, received_requested kind s pgn now ∙ r)
  | inr other ↦ let there = ne→== a src other in rw there (s, e, r)
]

none_is_not_some : (a : ℕ) → ¬ (none ≡ some a)
none_is_not_some a e = ground arith

some_injective : (a b : ℕ) → some a ≡ some b → a ≡ b
some_injective a b e = ground arith

stamp-IsStamped :
    (kind : RequestKind) (t now : ℕ) (devs : Devices) (a b : ℕ)
    → IsStamped kind t (devs a)
    → is_due kind now (devs a) ≡ false
    → is_due kind now (devs b) ≡ true
    → IsStamped kind t (stamp kind now b devs a)
stamp-IsStamped kind t now devs a b st idle due = elim (eq_or_ne a b) [
  | inl same ↦
      absurd (true≢false (sym due ∙ ap (λ (x : ℕ). is_due kind now (devs x)) (sym same) ∙ idle))
  | inr other ↦ subst (IsStamped kind t) (sym (insert_other devs a b _ other)) st
]

-- The request of the other kind does not touch the stamp of this one.
stamped_other_requested :
    (kind : RequestKind) (now : ℕ) (s : DeviceState)
    → last_requested kind (stamped (other_kind kind) now s) ≡ last_requested kind s
stamped_other_requested claim now s = refl
stamped_other_requested product_info now s = refl

next_due_other-IsStamped :
    (kind : RequestKind) (t now at a : ℕ) (devs : Devices)
    → IsStamped kind t (devs a)
    → IsStamped kind t ((next_due devs (u8 at) (other_kind kind) now).0 a)
next_due_other-IsStamped kind t now at a devs (s, e, r) =
    elim (next_due_cases (other_kind kind) now (u8 at) devs (omega arith)) [
      | inr (same, idle) ↦ rw same (s, e, r)
      | inl (b, gives, hb, asked, least) ↦ elim (eq_or_ne a b) [
        | inr other ↦
            rw gives (subst (IsStamped kind t) (sym (insert_other devs a b _ other)) (s, e, r))
        | inl same ↦
            let here = eq→== a b same in
            let there = ap devs (sym same) ∙ e in
            rw (gives, here)
              (
                _,
                refl,
                ap
                      (λ (o : Option DeviceState).
                        last_requested kind (stamped (other_kind kind) now (or_default o)))
                      there
                    ∙ stamped_other_requested kind now s
                    ∙ r,
              )
      ]
    ]

-- A device that is stamped is not asked.
asked_by-IsStamped :
    (kind : RequestKind) (t : ℕ) (calls : List Call) (devs : Devices) (cursor a : ℕ)
    → cursor < 256
    → a < 256
    → IsStamped kind t (devs a)
    → AllWithin t (t + device_request_interval) calls
    → ¬ IsAsked a (asked_by devs cursor kind calls)
unfolding asked_by
asked_by-IsStamped kind t [] devs cursor a hc ha st within h = h
asked_by-IsStamped kind t (seen now pgn src ∷ calls) devs cursor a hc ha st (lo, hi, within) h =
    asked_by-IsStamped kind t calls (note_device_seen devs now pgn src) cursor a hc ha
      (note_device_seen-IsStamped kind t devs now pgn src a st) within h
asked_by-IsStamped kind t (ask_other now at ∷ calls) devs cursor a hc ha st (lo, hi, within) h =
    asked_by-IsStamped kind t calls _ cursor a hc ha
      (next_due_other-IsStamped kind t now at a devs st) within h
asked_by-IsStamped kind t (ask now ∷ calls) devs cursor a hc ha st (lo, hi, within) h =
    let idle = stamped_not_due kind t now (devs a) st lo hi in
    let Outcome = λ (r : Devices × ℕ × Option ℕ). IsAsked a (r.2 ∷ asked_by r.0 r.1 kind calls) in
    elim (next_due_cases kind now cursor devs hc) [
      | inr (e, all) ↦ elim (subst Outcome e h) [
        | inl wrong ↦ absurd (none_is_not_some a wrong)
        | inr after ↦ asked_by-IsStamped kind t calls devs cursor a hc ha st within after
      ]
      | inl (b, e, hb, due, least) ↦ elim (subst Outcome e h) [
        | inl same ↦
            let there = ap (λ (x : ℕ). is_due kind now (devs x)) (some_injective b a same) in
            absurd (true≢false (sym due ∙ there ∙ idle))
        | inr after ↦
            asked_by-IsStamped kind t calls (stamp kind now b devs) (u8 (b + 1)) a (omega arith) ha
              (stamp-IsStamped kind t now devs a b st idle due) within after
      ]
    ]

stamp_self :
    (kind : RequestKind) (t a : ℕ) (devs : Devices) → IsStamped kind t (stamp kind t a devs a)
stamp_self claim t a devs = let here = eq→== a a refl in rw here (_, refl, refl)
stamp_self product_info t a devs = let here = eq→== a a refl in rw here (_, refl, refl)

-- A device that a call of `next_due` has asked is not asked again for the same by any call of the next
-- 300 seconds, whatever is seen and whoever is asked for the other kind meanwhile.
pub asked_by_spacing :
    (kind : RequestKind) (t : ℕ) (calls : List Call) (devs : Devices) (cursor a : ℕ)
    → cursor < 256
    → (next_due devs cursor kind t).2 ≡ some a
    → AllWithin t (t + device_request_interval) calls
    → ¬ IsAsked a
        (asked_by (next_due devs cursor kind t).0 (next_due devs cursor kind t).1 kind calls)
asked_by_spacing kind t calls devs cursor a hc asked within =
    elim (next_due_cases kind t cursor devs hc) [
      | inr (e, idle) ↦ absurd (none_is_not_some a (subst Given e asked))
      | inl (b, e, hb, due, least) ↦
          let same = some_injective b a (subst Given e asked) in
          subst Outcome (sym e) (
            asked_by-IsStamped kind t calls (stamp kind t b devs) (u8 (b + 1)) a (omega arith)
              (omega arith)
              (subst (λ (x : ℕ). IsStamped kind t (stamp kind t b devs x)) same
                (stamp_self kind t b devs))
              within)
    ]
  where
    Given : Devices × ℕ × Option ℕ → Type 0
    Given r = r.2 ≡ some a

    Outcome : Devices × ℕ × Option ℕ → Type 0
    Outcome r = ¬ IsAsked a (asked_by r.0 r.1 kind calls)
