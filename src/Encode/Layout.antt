-- ===== src/Encode/Layout.antt =====
-- The places of the fields in a message, and what the bits there are as numbers.
use canboat_rs.Prelude.{
  ℕ, ◌+◌, ◌-◌, ◌*◌, ◌/◌, ◌%◌, ◌^◌, ◌≤◌, ◌<◌, ◌≡◌, refl, ap, ◌∙◌, sym, subst, List, [], ◌∷◌, Option,
  none, some, true, ◌⊎◌, inr, arith, length,
}
use native.Mathlib.Nat.{add-mul-div_right, add-mul-mod_self_right, mod-mod, div-eq_of_lt}
use canboat_rs.FieldBits.{write_bits}
use canboat_rs.FieldBits.Bounds.{two_pow-add, positive}
use canboat_rs.FieldBits.Chunks.{little_endian}
use canboat_rs.FieldBits.RoundTrip.{IsFilled, write_bits_lem}
use canboat_rs.Schema.{FieldInfo, FieldType}
use canboat_rs.Decode.OwnBits.{reads_own_bits}
use canboat_rs.Encode.{Staged, scalar, ◌>>>=◌}
use canboat_rs.Encode.Build.{write_fields, write_field}

abbrev pub width : {N : Type 0} → FieldInfo N → ℕ
width f = elim f.bit_length as (λ _. ℕ) [ none ↦ 0 | some n ↦ n ]

abbrev pub total_width : {N : Type 0} → List (FieldInfo N) → ℕ
total_width [] = 0
total_width (f ∷ fs) = width f + total_width fs

-- A field of 1 to 64 bits that stands where the fields before it end, is always there, and is of a
-- type that reads nothing but its own bits.
pub record IsOrdinary {N : Type 0} (at : ℕ) (f : FieldInfo N) : Type 0 where
  pub type : FieldType
  pub is_type : f.field_type ≡ some type
  pub own_bits : reads_own_bits type ≡ true
  pub wide : f.bit_length ≡ some (width f)
  pub not_empty : 0 < width f
  pub fits : width f ≤ 64
  pub unconditional : f.condition ≡ none
  pub in_place : (f.bit_offset ≡ some at) ⊎ (f.bit_offset ≡ none)

abbrev pub AreOrdinary : {N : Type 0} → ℕ → List (FieldInfo N) → Type 0
AreOrdinary at [] = Unit
AreOrdinary at (f ∷ fs) = IsOrdinary at f × AreOrdinary (at + width f) fs

-- Each field's bits of the number are the low bits of its value, and there are as many values as
-- fields.
abbrev pub Holds : {N : Type 0} → ℕ → ℕ → List (FieldInfo N) → List ℕ → Type 0
Holds n at [] vs = Unit
Holds n at (f ∷ fs) [] = ⊥
Holds n at (f ∷ fs) (v ∷ vs) =
    (n / 2 ^ at % 2 ^ width f ≡ v % 2 ^ width f) × Holds n (at + width f) fs vs

abbrev pub scalars : List ℕ → List (Option Staged)
scalars [] = []
scalars (v ∷ vs) = some (scalar v) ∷ scalars vs

-- Bits are not changed by what is added above them.
slice_kept :
    (n x at len next : ℕ)
    → at + len ≤ next
    → (n + x * 2 ^ next) / 2 ^ at % 2 ^ len ≡ n / 2 ^ at % 2 ^ len
slice_kept n x at len next h =
    let place : next ≡ next - at - len + len + at = omega arith in
    let power : x * 2 ^ next ≡ x * 2 ^ (next - at - len) * 2 ^ len * 2 ^ at =
      ap (λ (t : ℕ). x * 2 ^ t) place
      ∙ rw (two_pow-add (next - at - len + len) at, two_pow-add (next - at - len) len)
          (grind arith) in
    ap (λ (t : ℕ). (n + t) / 2 ^ at % 2 ^ len) power
    ∙ ap (λ (t : ℕ). t % 2 ^ len)
        (add-mul-div_right n (x * 2 ^ (next - at - len) * 2 ^ len) (positive at))
    ∙ add-mul-mod_self_right (n / 2 ^ at) (x * 2 ^ (next - at - len)) (2 ^ len)

pub Holds-kept :
    {N : Type 0} (n x at next : ℕ) (fs : List (FieldInfo N)) (vs : List ℕ)
    → at + total_width fs ≤ next
    → Holds n at fs vs
    → Holds (n + x * 2 ^ next) at fs vs
Holds-kept n x at next [] vs h holds = tt
Holds-kept n x at next (f ∷ fs) [] h holds = holds
Holds-kept n x at next (f ∷ fs) (v ∷ vs) h holds = (
  slice_kept n x at (width f) next (omega arith) ∙ holds.0,
  Holds-kept n x (at + width f) next fs vs (omega arith) holds.1,
)

-- The buffer after the fields from `at` on were written to it.
pub record IsWritten {N : Type 0} (buf : List ℕ) (at : ℕ) (fs : List (FieldInfo N)) (vs : List ℕ)
    (to : List ℕ × ℕ) : Type 0 where
  pub next : to.1 ≡ at + total_width fs
  pub filled : IsFilled to.0 to.1
  pub above : ℕ
  pub kept : little_endian to.0 ≡ little_endian buf + above * 2 ^ at
  pub holds : Holds (little_endian to.0) at fs vs

write_field-scalar :
    {N : Type 0} (buf : List ℕ) (at w v : ℕ) (f : FieldInfo N)
    → f.bit_length ≡ some w
    → write_field (buf, at) f (some (scalar v)) ≡ inr (write_bits buf at w v)
unfolding write_field
write_field-scalar buf at w v f wide = rw wide refl

written_part :
    (n base at w v : ℕ)
    → n ≡ base + v % 2 ^ w * 2 ^ at
    → base < 2 ^ at
    → n / 2 ^ at % 2 ^ w ≡ v % 2 ^ w
written_part n base at w v e below =
    ap (λ (t : ℕ). t / 2 ^ at % 2 ^ w) e
    ∙ ap (λ (t : ℕ). t % 2 ^ w)
        (add-mul-div_right base (v % 2 ^ w) (positive at)
          ∙ ap (λ (t : ℕ). t + v % 2 ^ w) (div-eq_of_lt below)
          ∙ omega arith)
    ∙ mod-mod v (2 ^ w)

joined : (n base c a P W : ℕ) → n ≡ base + c * P → n + a * (P * W) ≡ base + (c + a * W) * P
joined n base c a P W e = rw e (grind arith)

pub write_fields-scalars :
    {N : Type 0} (buf : List ℕ) (at : ℕ) (fs : List (FieldInfo N)) (vs : List ℕ)
    → IsFilled buf at
    → AreOrdinary at fs
    → length vs ≡ length fs
    → (to : List ℕ × ℕ) × (write_fields (buf, at) fs (scalars vs) ≡ inr to)
      × IsWritten buf at fs vs to
unfolding write_fields write_field
write_fields-scalars buf at [] vs filled are h = (
  (buf, at),
  refl,
  record { next = omega arith; filled = filled; above = 0; kept = omega arith; holds = tt },
)
write_fields-scalars buf at (f ∷ fs) [] filled are h = absurd (omega arith)
write_fields-scalars buf at (f ∷ fs) (v ∷ vs) filled are h =
    let w = width f in
    let one = write_bits_lem buf at w v filled in
    let out = write_bits buf at w v in
    let next : out.1 ≡ at + w = one.0 in
    let rest = write_fields-scalars out.0 (at + w) fs vs one.1 are.1 (omega arith) in
    let to = rest.0 in
    let e = subst (λ (t : ℕ). write_fields (out.0, t) fs (scalars vs) ≡ inr to) (sym next) rest.1 in
    let is = rest.2 in
    let own : little_endian out.0 / 2 ^ at % 2 ^ w ≡ v % 2 ^ w =
      written_part (little_endian out.0) (little_endian buf) at w v one.2 filled.no_more in
    (
      to,
      ap (λ o. o >>>= λ next. write_fields next fs (scalars vs))
            (write_field-scalar buf at w v f are.0.wide)
          ∙ e,
      record {
        next = is.next ∙ omega arith;
        filled = is.filled;
        above = v % 2 ^ w + is.above * 2 ^ w;
        kept =
            is.kept
            ∙ ap (λ (t : ℕ). little_endian out.0 + is.above * t) (two_pow-add at w)
            ∙ joined (little_endian out.0) (little_endian buf) (v % 2 ^ w) is.above (2 ^ at) (2 ^ w)
                one.2;
        holds = (
          ap (λ (t : ℕ). t / 2 ^ at % 2 ^ w) is.kept
              ∙ slice_kept (little_endian out.0) is.above at w (at + w) (omega arith)
              ∙ own,
          is.holds,
        );
      },
    )
