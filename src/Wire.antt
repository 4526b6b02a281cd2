-- ===== src/Wire.antt =====
-- crates/canboat-wire/src/lib.rs: the handshake and the framing of the binary stream between the
-- programs. What a message is turned into is up to the `postcard` crate, the interface `Postcard`.
pub mod Framing
pub mod Handshake
use canboat_rs.Prelude.{
  ℕ, ◌+◌, ◌^◌, ◌⊎◌, inl, inr, List, [], ◌∷◌, ◌++◌, Option, none, some, ltb, ◌==◌, ◌&&◌,
  if◌then◌else◌, length, take, drop, get_or, u32, u64, Bool, ◌<<<◌,
}
use canboat_rs.Frame.{Text, le_bytes}
use canboat_rs.Ngt1.{from_le_bytes}

abbrev pub magic_cbw1 : List ℕ
magic_cbw1 = 0x43 ∷ 0x42 ∷ 0x57 ∷ 0x31 ∷ []

abbrev pub wire_version : ℕ
wire_version = 2

abbrev pub max_frame_len : ℕ
max_frame_len = 2 ^ 20

-- `canboat_core::Units`.
pub data Units : Type 0 where
  metric si : Units

abbrev pub units_code : Units → ℕ
units_code metric = 0
units_code si = 1

abbrev pub units_from_code : ℕ → Units
units_from_code c = if c == 1 then si else metric

unfoldable pub hash_from : ℕ → Text → ℕ
hash_from h [] = h
hash_from h (b ∷ bs) = hash_from (u64 (u64 (u64 (h <<< 5) + h) + b)) bs

abbrev pub pgn_id_hash : Text → ℕ
pgn_id_hash id = hash_from 5381 id

pub record Hello : Type 0 where
  pub magic : List ℕ
  pub version : ℕ
  pub schema_hash : ℕ
  pub schema_version : Text
  pub canboat_version : Text
  pub units : ℕ

pub data HelloError : Type 0 where
  bad_magic : List ℕ → HelloError
  wrong_version wrong_schema : ℕ → ℕ → HelloError
  unknown_units : ℕ → HelloError

-- What the build puts into the program: the hash and the two versions of its schema.
pub record Build : Type 0 where
  pub schema_hash : ℕ
  pub schema_version : Text
  pub canboat_version : Text

abbrev pub for_units : Build → Units → Hello
for_units b u = record {
  magic = magic_cbw1;
  version = wire_version;
  schema_hash = b.schema_hash;
  schema_version = b.schema_version;
  canboat_version = b.canboat_version;
  units = units_code u;
}

abbrev pub producer_units : Hello → Units
producer_units h = units_from_code h.units

abbrev pub is_same : List ℕ → List ℕ → Bool
is_same [] [] = Bool.true
is_same (x ∷ xs) (y ∷ ys) = x == y && is_same xs ys
is_same _ _ = Bool.false

-- `none` for `Ok(())`.
unfoldable pub verify : Build → Hello → Option HelloError
verify b h =
    if is_same h.magic magic_cbw1
    then if h.version == wire_version
      then if h.schema_hash == b.schema_hash
        then if ltb 1 h.units then some (unknown_units h.units) else none
        else some (wrong_schema h.schema_hash b.schema_hash)
      else some (wrong_version h.version wire_version)
    else some (bad_magic h.magic)

-- `to_allocvec` and `from_bytes` for one type of message.
pub record Postcard (V : Type 0) : Type 1 where
  pub PostcardError : Type 0
  pub to_allocvec : V → PostcardError ⊎ List ℕ
  pub from_bytes : List ℕ → PostcardError ⊎ V

module _ (V : Type 0) (p : Postcard V) where
  open p use {PostcardError, to_allocvec, from_bytes}

  pub data FrameError : Type 0 where
    too_long : ℕ → FrameError
    decode : PostcardError → FrameError

  unfoldable pub append_frame : List ℕ → V → PostcardError ⊎ List ℕ
  append_frame out value = elim (to_allocvec value) [
    | inl e ↦ inl e
    | inr body ↦ inr ((out ++ le_bytes 4 (u32 (length body))) ++ body)
  ]

  unfoldable pub decode_frame : List ℕ → FrameError ⊎ V
  decode_frame body = elim (from_bytes body) [ inl e ↦ inl (decode e) | inr value ↦ inr value ]

  unfoldable pub with_size : ℕ → FrameError ⊎ V → FrameError ⊎ Option (V × ℕ)
  with_size total (inl e) = inl e
  with_size total (inr value) = inr (some (value, total))

  unfoldable pub try_read_frame : List ℕ → FrameError ⊎ Option (V × ℕ)
  try_read_frame buf =
      let len = from_le_bytes (take 4 buf) in
      if ltb (length buf) 4
      then inr none
      else if ltb max_frame_len len
      then inl (too_long len)
      else if ltb (length buf) (4 + len)
      then inr none
      else with_size (4 + len) (decode_frame (drop 4 (take (4 + len) buf)))
