-- ===== src/Decode/Strings.antt =====
-- The fields that hold text. Each starts at a whole byte.
use canboat_rs.Prelude.{
  ℕ, ◌+◌, ◌-◌, ◌*◌, ◌/◌, ◌%◌, List, [], ◌∷◌, Bool, not, ◌||◌, ltb, leb, ◌==◌, if◌then◌else◌, length,
  take, drop, get_or, min, max,
}
use canboat_rs.Utf8.{from_utf8_lossy, from_utf16_lossy, trim_string_padding, is_padding}
use canboat_rs.Decode.{FieldValue, text, not_available, unsupported}

abbrev pub is_filler : ℕ → Bool
is_filler b = is_padding b || b == 0xff

-- Without the filler at the end.
abbrev pub unless_filler : ℕ → List ℕ → List ℕ
unless_filler b [] = if is_filler b then [] else b ∷ []
unless_filler b (c ∷ rest) = b ∷ c ∷ rest

unfoldable pub trim_filler : List ℕ → List ℕ
trim_filler [] = []
trim_filler (b ∷ bytes) = unless_filler b (trim_filler bytes)

-- Up to the first NUL.
unfoldable pub before_nul : List ℕ → List ℕ
before_nul [] = []
before_nul (b ∷ bytes) = let rest = before_nul bytes in if b == 0 then [] else b ∷ rest

abbrev pub unless_empty : {N : Type 0} → List ℕ → FieldValue N
unless_empty [] = not_available
unless_empty (c ∷ s) = text (c ∷ s)

-- The text of bytes that are not empty.
abbrev pub lossy_text : {N : Type 0} → List ℕ → FieldValue N
lossy_text [] = not_available
lossy_text (b ∷ bytes) = text (from_utf8_lossy (b ∷ bytes))

-- Pairs of bytes as 16-bit units; an odd byte at the end is left out.
unfoldable pub utf16_units : List ℕ → List ℕ
utf16_units [] = []
utf16_units (b ∷ []) = []
utf16_units (b ∷ c ∷ bytes) = (b + 256 * c) ∷ utf16_units bytes

module _ {N : Type 0} where
  unfoldable pub decode_string_fix : List ℕ → ℕ → ℕ → FieldValue N
  decode_string_fix bytes bit_offset bit_length =
      let start = bit_offset / 8 in
      if not (bit_offset % 8 == 0) || not (bit_length % 8 == 0)
      then unsupported
      else if ltb (length bytes) (start + bit_length / 8)
      then not_available
      else lossy_text (trim_filler (before_nul (take (bit_length / 8) (drop start bytes))))

  -- The length, with the two bytes of the header, then the encoding. Gives the bits taken up, too.
  unfoldable pub decode_string_lau : List ℕ → ℕ → FieldValue N × ℕ
  decode_string_lau bytes bit_offset =
      let start = bit_offset / 8 in
      let total_len = get_or bytes start 0 in
      let encoding = get_or bytes (start + 1) 0 in
      let body = take (total_len - 2) (drop (start + 2) bytes) in
      if not (bit_offset % 8 == 0)
      then (unsupported, 8)
      else if ltb (length bytes) (start + 2)
      then (not_available, 16)
      else if ltb total_len 2
      then (not_available, max total_len 2 * 8)
      else if encoding == 0
      then (unless_empty (trim_string_padding (from_utf16_lossy (utf16_units body))), total_len * 8)
      else (unless_empty (trim_string_padding (from_utf8_lossy (trim_filler body))), total_len * 8)

  -- The length, then the text. No declared width is the rest of the payload.
  unfoldable pub decode_string_lz : List ℕ → ℕ → ℕ → FieldValue N
  decode_string_lz bytes bit_offset bit_length =
      let start = bit_offset / 8 in
      let region_end =
        if bit_length == 0 then length bytes else min (start + bit_length / 8) (length bytes) in
      let content =
        take (min (get_or bytes start 0) (region_end - (start + 1))) (drop (start + 1) bytes) in
      if not (bit_offset % 8 == 0)
      then unsupported
      else if leb (length bytes) start
      then not_available
      else unless_empty (trim_string_padding (from_utf8_lossy content))
