-- ===== src/CanId/RoundTrip.antt =====
-- An identifier and its fields determine one another.
use canboat_rs.Prelude.{
  ℕ, ◌+◌, ◌*◌, ◌/◌, ◌%◌, ◌^◌, ◌<◌, ◌≡◌, ap₂, ◌∙◌, inl, inr, arith, ltb, if◌then◌else◌, Bool-cases,
  bit_or, bit_and_mask, bit_or_fields, bit_or_fields', u32, ltb→lt,
}
use canboat_rs.CanId.{iso11783_decompose, iso11783_compose}

abbrev pub pf_of : ℕ → ℕ
pf_of pgn = pgn / 256 % 256

-- The identifier as a sum of its fields.
compose_as_sum :
    (prio pgn src dst : ℕ)
    → prio < 8
    → pgn < 2 ^ 18
    → src < 256
    → dst < 256
    → (pf_of pgn < 240 → pgn % 256 ≡ 0)
    → iso11783_compose prio pgn src dst
      ≡ src + (if ltb (pf_of pgn) 240 then dst else 0) * 256 + pgn * 256 + prio * 2 ^ 26
unfolding iso11783_compose
compose_as_sum prio pgn src dst hp hg hs hd pdu = elim (Bool-cases (ltb (pf_of pgn) 240)) [
  | inl one ↦
      let q : ℕ = pgn / 256 in
      let e : u32 (pgn * 2 ^ 8) ≡ q * 2 ^ 16 = omega (arith, pdu (ltb→lt _ _ one)) in
      let d : u32 (dst * 2 ^ 8) ≡ dst * 2 ^ 8 = omega arith in
      let f : u32 (prio * 2 ^ 26) ≡ prio * 2 ^ 26 = omega arith in
      rw
        (
          bit_and_mask 8 (pgn / 2 ^ 8),
          one,
          e,
          d,
          f,
          bit_or_fields' 8 dst src hs,
          bit_or_fields' 16 q (src + dst * 2 ^ 8) (omega arith),
          bit_or_fields' 26 prio (src + dst * 2 ^ 8 + q * 2 ^ 16) (omega arith),
        )
        (omega (arith, pdu (ltb→lt _ _ one)))
  | inr two ↦
      let d : u32 (pgn * 2 ^ 8) ≡ pgn * 2 ^ 8 = omega arith in
      let f : u32 (prio * 2 ^ 26) ≡ prio * 2 ^ 26 = omega arith in
      rw
        (
          bit_and_mask 8 (pgn / 2 ^ 8),
          two,
          d,
          f,
          bit_or_fields' 8 pgn src hs,
          bit_or_fields' 26 prio (src + pgn * 2 ^ 8) (omega arith),
        )
        (omega arith)
]

decompose_as_parts :
    (id : ℕ)
    → id < 2 ^ 29
    → iso11783_decompose id ≡ record {
      prio = id / 2 ^ 26;
      pgn = if ltb (id / 2 ^ 16 % 256) 240 then id / 2 ^ 16 % 1024 * 256 else id / 2 ^ 8 % 2 ^ 18;
      src = id % 256;
      dst = if ltb (id / 2 ^ 16 % 256) 240 then id / 2 ^ 8 % 256 else 255;
    }
unfolding iso11783_decompose
decompose_as_parts id h =
    let rdp : ℕ = id / 2 ^ 24 % 4 in
    let pf : ℕ = id / 2 ^ 16 % 256 in
    let ps : ℕ = id / 2 ^ 8 % 256 in
    let joined : bit_or (u32 (rdp * 2 ^ 16)) (u32 (pf % 256 * 2 ^ 8)) ≡ (rdp * 256 + pf) * 2 ^ 8 =
      ap₂ bit_or (omega arith) (omega arith)
      ∙ bit_or_fields 16 rdp (pf * 2 ^ 8) (omega arith)
      ∙ omega arith in
    let low : bit_or ((rdp * 256 + pf) * 2 ^ 8) (ps % 256) ≡ id / 2 ^ 8 % 2 ^ 18 =
      bit_or_fields 8 (rdp * 256 + pf) (ps % 256) (omega arith) ∙ omega arith in
    rw
      (
        bit_and_mask 2 (id / 2 ^ 24),
        bit_and_mask 8 (id / 2 ^ 16),
        bit_and_mask 8 (id / 2 ^ 8),
        bit_and_mask 3 (id / 2 ^ 26),
        bit_and_mask 8 id,
        joined,
        low,
      )
      (ground arith)

-- The identifier has 29 bits.
pub iso11783_compose-lt :
    (prio pgn src dst : ℕ)
    → prio < 8
    → pgn < 2 ^ 18
    → src < 256
    → dst < 256
    → (pf_of pgn < 240 → pgn % 256 ≡ 0)
    → iso11783_compose prio pgn src dst < 2 ^ 29
iso11783_compose-lt prio pgn src dst hp hg hs hd pdu =
    rw (compose_as_sum prio pgn src dst hp hg hs hd pdu) (ground arith)

-- Building an identifier and taking it apart gives the fields back, for a priority of 3 bits, a PGN
-- of 18 bits and addresses of 8 bits: exactly, but for the destination of a PDU2 PGN, which is always
-- the global address. A PDU1 PGN has a low byte of 0.
pub iso11783_decompose-iso11783_compose :
    (prio pgn src dst : ℕ)
    → prio < 8
    → pgn < 2 ^ 18
    → src < 256
    → dst < 256
    → (pf_of pgn < 240 → pgn % 256 ≡ 0)
    → iso11783_decompose (iso11783_compose prio pgn src dst)
      ≡ record { prio = prio; pgn = pgn; src = src; dst = if ltb (pf_of pgn) 240 then dst else 255 }
iso11783_decompose-iso11783_compose prio pgn src dst hp hg hs hd pdu =
    let id : ℕ = iso11783_compose prio pgn src dst in
    let sum = compose_as_sum prio pgn src dst hp hg hs hd pdu in
    decompose_as_parts id (iso11783_compose-lt prio pgn src dst hp hg hs hd pdu)
    ∙ rw sum (ground arith)

-- Every 29-bit identifier is built again from the fields that it is taken apart into.
pub iso11783_compose-iso11783_decompose :
    (id : ℕ)
    → id < 2 ^ 29
    → let f = iso11783_decompose id in iso11783_compose f.prio f.pgn f.src f.dst ≡ id
iso11783_compose-iso11783_decompose id h =
    let parts = decompose_as_parts id h in
    rw parts (
      compose_as_sum (id / 2 ^ 26)
        (if ltb (id / 2 ^ 16 % 256) 240 then id / 2 ^ 16 % 1024 * 256 else id / 2 ^ 8 % 2 ^ 18)
        (id % 256) (if ltb (id / 2 ^ 16 % 256) 240 then id / 2 ^ 8 % 256 else 255) (omega arith)
        (ground arith) (omega arith) (ground arith) (ground arith)
      ∙ ground arith)
