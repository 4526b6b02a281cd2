-- ===== src/Encode/Texts.antt =====
-- The three encodings of texts, written and read.
use canboat_rs.Prelude.{
  take_prefix, drop_prefix, drop_prefix1, drop_prefix2, get_or_prefix, get_or_prefix1, ℕ, zero, suc,
  ◌+◌, ◌-◌, ◌*◌, ◌/◌, ◌%◌, ◌≤◌, ◌≡◌, refl, ap, ◌∙◌, subst, List, [], ◌∷◌, ◌++◌, some, Bool, true,
  false, not, ◌&&◌, inr, arith, length, take, drop, replicate, min, get_or, length-append,
  length-replicate, leb, ltb, ◌==◌,
}
use mathlib.Core.List.{append_assoc}
use canboat_rs.Utf8.{from_utf8_lossy, trim_string_padding, trimmed_before, is_padding}
use canboat_rs.Schema.{Floats, FieldInfo}
use canboat_rs.Decode.{text}
use canboat_rs.Decode.Strings.{
  is_filler, trim_filler, before_nul, unless_empty, lossy_text, decode_string_fix,
  decode_string_lau, decode_string_lz,
}
use canboat_rs.Encode as Value
use canboat_rs.Encode.{
  Staged, verbatim, padded_to, stage_string_fix, stage_string_lz, stage_string_lau, stage_binary,
}

-- A text that does not end with what a reader takes for filler: NUL, `@`, a space, 0xff or U+00FF.
abbrev pub ends_plain : List ℕ → Bool
ends_plain [] = false
ends_plain (b ∷ []) = not (is_filler b)
ends_plain (b ∷ c ∷ []) = not (is_filler c) && not (b == 0xc3 && c == 0xbf)
ends_plain (b ∷ c ∷ d ∷ s) = ends_plain (c ∷ d ∷ s)

ends_plain-tail : (b c : ℕ) (s : List ℕ) → ends_plain (b ∷ c ∷ s) ≡ true → ends_plain (c ∷ s) ≡ true
ends_plain-tail b c [] h = ground arith
ends_plain-tail b c (d ∷ s) h = h

trim_filler-ends_plain : (s : List ℕ) → ends_plain s ≡ true → trim_filler s ≡ s
unfolding trim_filler
trim_filler-ends_plain [] h = refl
trim_filler-ends_plain (b ∷ []) h = ground arith
trim_filler-ends_plain (b ∷ c ∷ s) h =
    let rest = trim_filler-ends_plain (c ∷ s) (ends_plain-tail b c s h) in rw rest refl

trim_string_padding-ends_plain : (s : List ℕ) → ends_plain s ≡ true → trim_string_padding s ≡ s
unfolding trim_string_padding
trim_string_padding-ends_plain [] h = refl
trim_string_padding-ends_plain (b ∷ []) h = ground arith
trim_string_padding-ends_plain (b ∷ c ∷ []) h =
    let one : is_padding c ≡ false = ground arith in
    let two : (b == 0xc3 && c == 0xbf) ≡ false = ground arith in rw (one, two) refl
trim_string_padding-ends_plain (b ∷ c ∷ d ∷ s) h =
    let rest = trim_string_padding-ends_plain (c ∷ d ∷ s) h in ap (trimmed_before b) rest

unless_empty_lem : {N : Type 0} (s : List ℕ) → ends_plain s ≡ true → unless_empty {N = N} s ≡ text s
unless_empty_lem [] h = absurd (ground arith)
unless_empty_lem (c ∷ s) h = refl

-- Where a text starts, in bits and in bytes.
start_lem : (n : ℕ) → (8 * n / 8 ≡ n) × ((8 * n % 8 == 0) ≡ true)
start_lem n = (omega arith, ground arith)

decode_string_lau-written :
    {N : Type 0} (before s after : List ℕ)
    → from_utf8_lossy s ≡ s
    → ends_plain s ≡ true
    → let size = length s + 2 in
      decode_string_lau {N = N} (before ++ (size ∷ 1 ∷ (s ++ after))) (8 * length before)
      ≡ (text s, size * 8)
unfolding decode_string_lau
decode_string_lau-written before s after valid plain =
    let n = length before in
    let size = length s + 2 in
    let bytes = before ++ (size ∷ 1 ∷ (s ++ after)) in
    let place = start_lem n in
    let first : get_or bytes n 0 ≡ size = get_or_prefix before size (1 ∷ (s ++ after)) 0 in
    let second : get_or bytes (n + 1) 0 ≡ 1 = get_or_prefix1 before size 1 (s ++ after) 0 in
    let tail : drop (n + 2) bytes ≡ s ++ after = drop_prefix2 before size 1 (s ++ after) in
    let body : take (size - 2) (drop (n + 2) bytes) ≡ s =
      (let e : size - 2 ≡ length s = omega arith in rw (tail, e) (take_prefix s after)) in
    let there : ltb (length bytes) (n + 2) ≡ false =
      ground (arith, length-append before (size ∷ 1 ∷ (s ++ after))) in
    let long : ltb size 2 ≡ false = ground arith in
    let shown =
      ap trim_string_padding (ap from_utf8_lossy (trim_filler-ends_plain s plain) ∙ valid)
      ∙ trim_string_padding-ends_plain s plain in
    rw (place.0, place.1, first, second, there, long, body)
      (ap (λ t. (unless_empty t, size * 8)) shown
        ∙ ap (λ t. (t, size * 8)) (unless_empty_lem s plain))

decode_string_lz-written :
    {N : Type 0} (before s after : List ℕ) (k : ℕ)
    → from_utf8_lossy s ≡ s
    → ends_plain s ≡ true
    → length s + 1 ≤ k
    → decode_string_lz {N = N} (before ++ (length s ∷ (s ++ after))) (8 * length before) (8 * k)
      ≡ text s
unfolding decode_string_lz
decode_string_lz-written before s after k valid plain room =
    let n = length before in
    let bytes = before ++ (length s ∷ (s ++ after)) in
    let place = start_lem n in
    let first : get_or bytes n 0 ≡ length s = get_or_prefix before (length s) (s ++ after) 0 in
    let tail : drop (n + 1) bytes ≡ s ++ after = drop_prefix1 before (length s) (s ++ after) in
    let size =
      length-append before (length s ∷ (s ++ after))
      ∙ ap (λ t. n + suc t) (length-append s after) in
    let some_bits : (8 * k == 0) ≡ false = ground arith in
    let there : leb (length bytes) n ≡ false = ground (arith, size) in
    let width : 8 * k / 8 ≡ k = omega arith in
    let all : min (length s) (min (n + k) (length bytes) - (n + 1)) ≡ length s =
      omega (arith, size) in
    let shown = ap trim_string_padding valid ∙ trim_string_padding-ends_plain s plain in
    rw (place.0, place.1, first, there, tail, some_bits, width, all, take_prefix s after)
      (ap unless_empty shown ∙ unless_empty_lem s plain)

-- No NUL is in the text.
abbrev pub no_nul : List ℕ → Bool
no_nul [] = true
no_nul (b ∷ s) = not (b == 0) && no_nul s

before_nul-no_nul : (s : List ℕ) (k : ℕ) → no_nul s ≡ true → before_nul (s ++ replicate k 0) ≡ s
unfolding before_nul
before_nul-no_nul [] zero h = refl
before_nul-no_nul [] (suc k) h = refl
before_nul-no_nul (b ∷ s) k h = ground (arith, before_nul-no_nul s k (ground arith))

lossy_text_lem :
    {N : Type 0} (s : List ℕ)
    → from_utf8_lossy s ≡ s
    → ends_plain s ≡ true
    → lossy_text {N = N} s ≡ text s
lossy_text_lem [] valid plain = absurd (ground arith)
lossy_text_lem (b ∷ s) valid plain = ap text valid

decode_string_fix-written :
    {N : Type 0} (before s after : List ℕ) (k : ℕ)
    → from_utf8_lossy s ≡ s
    → ends_plain s ≡ true
    → no_nul s ≡ true
    → length s ≤ k
    → decode_string_fix {N = N} (before ++ (padded_to k s ++ after)) (8 * length before) (8 * k)
      ≡ text s
unfolding decode_string_fix
decode_string_fix-written before s after k valid plain nul room =
    let n = length before in
    let padded = padded_to k s in
    let bytes = before ++ (padded ++ after) in
    let place = start_lem n in
    let own : length padded ≡ k =
      length-append s (replicate (k - length s) 0)
      ∙ omega (arith, length-replicate {A = ℕ} (k - length s) 0) in
    let size =
      length-append before (padded ++ after) ∙ ap (λ t. n + t) (length-append padded after) in
    let there : ltb (length bytes) (n + k) ≡ false = ground (arith, size, own) in
    let width : 8 * k / 8 ≡ k = omega arith in
    let whole : (8 * k % 8 == 0) ≡ true = ground arith in
    let tail = drop_prefix before (padded ++ after) in
    let body : take k (padded ++ after) ≡ padded =
      subst (λ (t : ℕ). take t (padded ++ after) ≡ padded) own (take_prefix padded after) in
    let shown =
      ap trim_filler (before_nul-no_nul s (k - length s) nul) ∙ trim_filler-ends_plain s plain in
    rw (place.0, place.1, width, whole, there, tail, body)
      (ap lossy_text shown ∙ lossy_text_lem s valid plain)

-- A text of at most 253 bytes that is valid UTF-8, is not empty, has no NUL and does not end with
-- filler is read back where it was written, whatever stands before and after: as STRING_LAU, which
-- takes up the bits that were written, and as STRING_LZ and STRING_FIX in a field that has room for
-- it and one byte more.
pub decode-stage_text :
    (fl : Floats) (f : FieldInfo fl.Num) (before s after : List ℕ) (k : ℕ)
    → from_utf8_lossy s ≡ s
    → ends_plain s ≡ true
    → no_nul s ≡ true
    → length s ≤ 253
    → length s + 1 ≤ k
    → f.bit_length ≡ some (8 * k)
    → ((w : List ℕ) × (stage_string_lau fl f (Value.text s) ≡ inr (verbatim w))
        × (decode_string_lau {N = fl.Num} (before ++ (w ++ after)) (8 * length before)
            ≡ (text s, 8 * length w)))
      × ((w : List ℕ) × (stage_string_lz fl f (Value.text s) ≡ inr (verbatim w))
          × (decode_string_lz {N = fl.Num} (before ++ (w ++ after)) (8 * length before) (8 * k)
              ≡ text s))
      × ((w : List ℕ) × (stage_string_fix fl f (Value.text s) ≡ inr (verbatim w))
          × (decode_string_fix {N = fl.Num} (before ++ (w ++ after)) (8 * length before) (8 * k)
              ≡ text s))
unfolding stage_string_lau stage_string_lz stage_string_fix
decode-stage_text fl f before s after k valid plain nul short room wide =
    let width : 8 * k / 8 ≡ k = omega arith in
    let fits_lau : ltb 255 (length s + 2) ≡ false = ground arith in
    let fits_lz : ltb 255 (length s) ≡ false = ground arith in
    let in_lz : ltb k (suc (length s)) ≡ false = ground arith in
    let in_fix : ltb k (length s) ≡ false = ground arith in
    let pad : List ℕ = replicate (k - suc (length s)) 0 in
    let bits : (length s + 2) * 8 ≡ 8 * suc (suc (length s)) = omega arith in
    (
      (
        (length s + 2) ∷ 1 ∷ s,
        rw fits_lau refl,
        decode_string_lau-written before s after valid plain ∙ ap (λ t. (text s, t)) bits,
      ),
      (
        padded_to k (length s ∷ s),
        rw (fits_lz, wide, width, in_lz) refl,
        ap (λ t. decode_string_lz (before ++ (length s ∷ t)) (8 * length before) (8 * k))
              (append_assoc s pad after)
            ∙ decode_string_lz-written before s (pad ++ after) k valid plain room,
      ),
      (
        padded_to k s,
        rw (wide, width, in_fix) refl,
        decode_string_fix-written before s after k valid plain nul (omega arith),
      ),
    )
