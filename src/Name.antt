-- ===== src/Name.antt =====
-- crates/canboat-io/src/name.rs: the 64-bit ISO 11783-5 NAME. The fields are machine words of 32,
-- 16 and 8 bits; a shift on u64 drops what does not fit.
pub mod Fields
use canboat_rs.Prelude.{ℕ, Bool, true, bit_and, bit_or, ◌<<<◌, ◌>>>◌, u64, if◌then◌else◌}

pub record Name : Type 0 where
  pub unique_number : ℕ
  pub manufacturer_code : ℕ
  pub device_instance : ℕ
  pub device_function : ℕ
  pub device_class : ℕ
  pub system_instance : ℕ
  pub industry_group : ℕ
  pub arbitrary_address_capable : Bool

abbrev pub new : ℕ → ℕ → Name
new manufacturer_code unique_number = record {
  unique_number = unique_number;
  manufacturer_code = manufacturer_code;
  device_instance = 0;
  device_function = 0;
  device_class = 0;
  system_instance = 0;
  industry_group = 4;
  arbitrary_address_capable = true;
}

abbrev pub device_function : Name → ℕ → Name
device_function n v = record n { device_function = v }

abbrev pub device_class : Name → ℕ → Name
device_class n v = record n { device_class = v }

abbrev pub device_instance : Name → ℕ → Name
device_instance n v = record n { device_instance = v }

unfoldable pub system_instance : Name → ℕ → Name
system_instance n v = record n { system_instance = bit_and v 0x0f }

unfoldable pub industry_group : Name → ℕ → Name
industry_group n v = record n { industry_group = bit_and v 0x07 }

abbrev pub arbitrary_address_capable : Name → Bool → Name
arbitrary_address_capable n v = record n { arbitrary_address_capable = v }

-- `b as u64`.
abbrev pub as_u64 : Bool → ℕ
as_u64 b = if b then 1 else 0

-- The operands of `|`, in the order of the source.
unfoldable pub to_u64 : Name → ℕ
to_u64 n =
    let unique = bit_and n.unique_number 0x1f_ffff in
    let mfr = bit_and n.manufacturer_code 0x7ff in
    let di = n.device_instance in
    let a = bit_or unique (u64 (mfr <<< 21)) in
    let b = bit_or a (u64 (bit_and di 0x07 <<< 32)) in
    let c = bit_or b (u64 (bit_and (di >>> 3) 0x1f <<< 35)) in
    let d = bit_or c (u64 (bit_and n.device_function 0xff <<< 40)) in
    let e = bit_or d (u64 (bit_and n.device_class 0x7f <<< 49)) in
    let f = bit_or e (u64 (bit_and n.system_instance 0x0f <<< 56)) in
    let g = bit_or f (u64 (bit_and n.industry_group 0x07 <<< 60)) in
    bit_or g (u64 (as_u64 n.arbitrary_address_capable <<< 63))
