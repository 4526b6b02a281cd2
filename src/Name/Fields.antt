-- ===== src/Name/Fields.antt =====
-- Where each field lies in the 64-bit NAME.
use canboat_rs.Prelude.{
  ℕ, ◌+◌, ◌*◌, ◌/◌, ◌%◌, ◌^◌, ◌<◌, ◌≡◌, refl, ◌∙◌, Bool, true, false, arith, bit_or, bit_and_mask,
  bit_or_fields', ◌<<<◌, ◌>>>◌, u64,
}
use canboat_rs.Name.{Name, to_u64, as_u64}

-- A field that is put above the ones before it.
put :
    (k low v : ℕ) → low < 2 ^ k → v * 2 ^ k < 2 ^ 64 → bit_or low (u64 (v <<< k)) ≡ low + v * 2 ^ k
put k low v below fits =
    let e : u64 (v <<< k) ≡ v * 2 ^ k = omega arith in rw e (bit_or_fields' k v low below)

-- The fields of a NAME, side by side.
packed : ℕ → ℕ → ℕ → ℕ → ℕ → ℕ → ℕ → ℕ → ℕ → ℕ
packed u m d e f c s g b =
    u
    + m * 2 ^ 21
    + d * 2 ^ 32
    + e * 2 ^ 35
    + f * 2 ^ 40
    + c * 2 ^ 49
    + s * 2 ^ 56
    + g * 2 ^ 60
    + b * 2 ^ 63

packed_lem :
    (u m d e f c s g b : ℕ)
    → u < 2 ^ 21
    → m < 2 ^ 11
    → d < 2 ^ 3
    → e < 2 ^ 5
    → f < 2 ^ 8
    → c < 2 ^ 7
    → s < 2 ^ 4
    → g < 2 ^ 3
    → b < 2
    → bit_or
        (bit_or
          (bit_or
            (bit_or
              (bit_or
                (bit_or (bit_or (bit_or u (u64 (m <<< 21))) (u64 (d <<< 32))) (u64 (e <<< 35)))
                (u64 (f <<< 40)))
              (u64 (c <<< 49)))
            (u64 (s <<< 56)))
          (u64 (g <<< 60)))
        (u64 (b <<< 63))
      ≡ packed u m d e f c s g b
unfolding packed
packed_lem u m d e f c s g b hu hm hd he hf hc hs hg hb =
    rw
      (
        put 21 u m (omega arith) (omega arith),
        put 32 (u + m * 2 ^ 21) d (omega arith) (omega arith),
        put 35 (u + m * 2 ^ 21 + d * 2 ^ 32) e (omega arith) (omega arith),
        put 40 (u + m * 2 ^ 21 + d * 2 ^ 32 + e * 2 ^ 35) f (omega arith) (omega arith),
        put 49 (u + m * 2 ^ 21 + d * 2 ^ 32 + e * 2 ^ 35 + f * 2 ^ 40) c (omega arith)
            (omega arith),
        put 56 (u + m * 2 ^ 21 + d * 2 ^ 32 + e * 2 ^ 35 + f * 2 ^ 40 + c * 2 ^ 49) s (omega arith)
            (omega arith),
        put 60 (u + m * 2 ^ 21 + d * 2 ^ 32 + e * 2 ^ 35 + f * 2 ^ 40 + c * 2 ^ 49 + s * 2 ^ 56) g
            (omega arith) (omega arith),
        put 63
            (u
              + m * 2 ^ 21
              + d * 2 ^ 32
              + e * 2 ^ 35
              + f * 2 ^ 40
              + c * 2 ^ 49
              + s * 2 ^ 56
              + g * 2 ^ 60)
            b (omega arith) (omega arith),
      )
      refl

as_u64-lt : (b : Bool) → as_u64 b < 2
as_u64-lt true = omega arith
as_u64-lt false = omega arith

abbrev as_sum : Name → ℕ
as_sum n =
    packed (n.unique_number % 2 ^ 21) (n.manufacturer_code % 2 ^ 11) (n.device_instance % 2 ^ 3)
      (n.device_instance / 2 ^ 3 % 2 ^ 5) (n.device_function % 2 ^ 8) (n.device_class % 2 ^ 7)
      (n.system_instance % 2 ^ 4) (n.industry_group % 2 ^ 3) (as_u64 n.arbitrary_address_capable)

to_u64_lem : (n : Name) → to_u64 n ≡ as_sum n
unfolding to_u64
to_u64_lem n =
    rw
      (
        bit_and_mask 21 n.unique_number,
        bit_and_mask 11 n.manufacturer_code,
        bit_and_mask 3 n.device_instance,
        bit_and_mask 5 (n.device_instance >>> 3),
        bit_and_mask 8 n.device_function,
        bit_and_mask 7 n.device_class,
        bit_and_mask 4 n.system_instance,
        bit_and_mask 3 n.industry_group,
      )
      (packed_lem (n.unique_number % 2 ^ 21) (n.manufacturer_code % 2 ^ 11)
        (n.device_instance % 2 ^ 3) (n.device_instance / 2 ^ 3 % 2 ^ 5) (n.device_function % 2 ^ 8)
        (n.device_class % 2 ^ 7) (n.system_instance % 2 ^ 4) (n.industry_group % 2 ^ 3)
        (as_u64 n.arbitrary_address_capable) (omega arith) (omega arith) (omega arith) (omega arith)
        (omega arith) (omega arith) (omega arith) (omega arith)
        (as_u64-lt n.arbitrary_address_capable))

packed_fields :
    (u m d e f c s g b : ℕ)
    → u < 2 ^ 21
    → m < 2 ^ 11
    → d < 2 ^ 3
    → e < 2 ^ 5
    → f < 2 ^ 8
    → c < 2 ^ 7
    → s < 2 ^ 4
    → g < 2 ^ 3
    → b < 2
    → let x = packed u m d e f c s g b in
      (x < 2 ^ 64)
      × (x % 2 ^ 21 ≡ u)
      × (x / 2 ^ 21 % 2 ^ 11 ≡ m)
      × (x / 2 ^ 32 % 2 ^ 8 ≡ d + e * 8)
      × (x / 2 ^ 40 % 2 ^ 8 ≡ f)
      × (x / 2 ^ 48 % 2 ≡ 0)
      × (x / 2 ^ 49 % 2 ^ 7 ≡ c)
      × (x / 2 ^ 56 % 2 ^ 4 ≡ s)
      × (x / 2 ^ 60 % 2 ^ 3 ≡ g)
      × (x / 2 ^ 63 ≡ b)
unfolding packed
packed_fields u m d e f c s g b hu hm hd he hf hc hs hg hb = (
  omega arith,
  omega arith,
  omega arith,
  omega arith,
  omega arith,
  omega arith,
  omega arith,
  omega arith,
  omega arith,
  omega arith,
)

-- A NAME fits 64 bits and holds every field in its place, cut to its width: the unique number at
-- bit 0 (21 bits), the manufacturer at 21 (11), the instance at 32 (8), the function at 40 (8), a
-- reserved bit 48 that is 0, the class at 49 (7), the system instance at 56 (4), the industry
-- group at 60 (3), and the arbitrary-address bit at 63.
pub to_u64-fields :
    (n : Name)
    → let x = to_u64 n in
      (x < 2 ^ 64)
      × (x % 2 ^ 21 ≡ n.unique_number % 2 ^ 21)
      × (x / 2 ^ 21 % 2 ^ 11 ≡ n.manufacturer_code % 2 ^ 11)
      × (x / 2 ^ 32 % 2 ^ 8 ≡ n.device_instance % 2 ^ 8)
      × (x / 2 ^ 40 % 2 ^ 8 ≡ n.device_function % 2 ^ 8)
      × (x / 2 ^ 48 % 2 ≡ 0)
      × (x / 2 ^ 49 % 2 ^ 7 ≡ n.device_class % 2 ^ 7)
      × (x / 2 ^ 56 % 2 ^ 4 ≡ n.system_instance % 2 ^ 4)
      × (x / 2 ^ 60 % 2 ^ 3 ≡ n.industry_group % 2 ^ 3)
      × (x / 2 ^ 63 ≡ as_u64 n.arbitrary_address_capable)
to_u64-fields n =
    let all =
      packed_fields (n.unique_number % 2 ^ 21) (n.manufacturer_code % 2 ^ 11)
        (n.device_instance % 2 ^ 3) (n.device_instance / 2 ^ 3 % 2 ^ 5) (n.device_function % 2 ^ 8)
        (n.device_class % 2 ^ 7) (n.system_instance % 2 ^ 4) (n.industry_group % 2 ^ 3)
        (as_u64 n.arbitrary_address_capable) (omega arith) (omega arith) (omega arith) (omega arith)
        (omega arith) (omega arith) (omega arith) (omega arith)
        (as_u64-lt n.arbitrary_address_capable) in
    rw (to_u64_lem n)
      (all.0, all.1, all.2, all.3 ∙ omega arith, all.4, all.5, all.6, all.7, all.8, all.9)
