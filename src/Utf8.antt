-- ===== src/Utf8.antt =====
-- What the field decoder uses of the standard library's strings. A `String` is the list of its UTF-8
-- bytes. `from_utf8_lossy` and `from_utf16_lossy` put U+FFFD for what is no character, one for each
-- longest part that could begin one.
use Prim.Native.Char.{code}
use Prim.Native.String.{String}
use canboat_rs.Prelude.{
  ℕ, zero, suc, ◌+◌, ◌-◌, ◌*◌, ◌/◌, ◌%◌, List, [], ◌∷◌, ◌++◌, Bool, true, false, ◌&&◌, ◌||◌, ltb,
  leb, ◌==◌, if◌then◌else◌, length, drop,
}

-- The bytes of an ASCII literal.
abbrev pub codes : String → List ℕ
codes String.[] = []
codes (String.◌∷◌ c s) = code c ∷ codes s

abbrev pub text_eq : List ℕ → List ℕ → Bool
text_eq [] [] = true
text_eq [] (y ∷ ys) = false
text_eq (x ∷ xs) [] = false
text_eq (x ∷ xs) (y ∷ ys) = (x == y) && text_eq xs ys

abbrev pub starts_with : List ℕ → List ℕ → Bool
starts_with s [] = true
starts_with [] (p ∷ ps) = false
starts_with (c ∷ s) (p ∷ ps) = (c == p) && starts_with s ps

abbrev replacement : List ℕ
replacement = 0xef ∷ 0xbf ∷ 0xbd ∷ []

abbrev is_between : ℕ → ℕ → ℕ → Bool
is_between lo hi b = leb lo b && leb b hi

abbrev is_continuation : ℕ → Bool
is_continuation b = is_between 0x80 0xbf b

-- How many bytes may follow a first byte, and whether the second one may stand after it.
abbrev following : ℕ → ℕ
following b =
    if is_between 0xc2 0xdf b
    then 1
    else if is_between 0xe0 0xef b
    then 2
    else if is_between 0xf0 0xf4 b
    then 3
    else 0

abbrev second_fits : ℕ → ℕ → Bool
second_fits b next =
    if b == 0xe0
    then is_between 0xa0 0xbf next
    else if b == 0xed
    then is_between 0x80 0x9f next
    else if b == 0xf0
    then is_between 0x90 0xbf next
    else if b == 0xf4
    then is_between 0x80 0x8f next
    else is_continuation next

-- The bytes of this character, so far as they fit: of the `n` that should follow.
unfoldable pub continuations : ℕ → List ℕ → List ℕ
continuations zero bytes = []
continuations (suc n) [] = []
continuations (suc n) (b ∷ bytes) = if is_continuation b then b ∷ continuations n bytes else []

unfoldable pub tail_of : ℕ → List ℕ → List ℕ
tail_of b [] = []
tail_of b (next ∷ bytes) =
    if following b == 0
    then []
    else if second_fits b next
    then next ∷ continuations (following b - 1) bytes
    else []

-- One character a round, so as many rounds as there are bytes are enough.
unfoldable pub lossy : ℕ → List ℕ → List ℕ
lossy zero bytes = []
lossy (suc n) [] = []
lossy (suc n) (b ∷ bytes) =
    let tail = tail_of b bytes in
    let one =
      if ltb b 0x80 || (ltb 0 (following b) && (length tail == following b))
      then b ∷ tail
      else replacement in
    one ++ lossy n (drop (length tail) bytes)

unfoldable pub from_utf8_lossy : List ℕ → List ℕ
from_utf8_lossy bytes = lossy (length bytes) bytes

-- The UTF-8 bytes of a character.
unfoldable pub utf8_of : ℕ → List ℕ
utf8_of c =
    if ltb c 0x80
    then c ∷ []
    else if ltb c 0x800
    then (0xc0 + c / 64) ∷ (0x80 + c % 64) ∷ []
    else if ltb c 0x10000
    then (0xe0 + c / 4096) ∷ (0x80 + c / 64 % 64) ∷ (0x80 + c % 64) ∷ []
    else (0xf0 + c / 262144) ∷ (0x80 + c / 4096 % 64) ∷ (0x80 + c / 64 % 64) ∷ (0x80 + c % 64) ∷ []

-- A high surrogate and the low one after it make one character.
unfoldable pub from_utf16_lossy : List ℕ → List ℕ
from_utf16_lossy [] = []
from_utf16_lossy (u ∷ []) = if is_between 0xd800 0xdfff u then replacement else utf8_of u
from_utf16_lossy (u ∷ v ∷ units) =
    let one = from_utf16_lossy (v ∷ units) in
    let two = from_utf16_lossy units in
    if is_between 0xd800 0xdbff u && is_between 0xdc00 0xdfff v
    then utf8_of (0x10000 + (u - 0xd800) * 1024 + (v - 0xdc00)) ++ two
    else if is_between 0xd800 0xdfff u
    then replacement ++ one
    else utf8_of u ++ one

abbrev pub is_padding : ℕ → Bool
is_padding b = b == 0 || b == 0x40 || b == 0x20

-- `trim_end_matches(['\0', '@', ' ', '\u{ff}'])`; the last of these is two bytes.
abbrev pub trimmed_before : ℕ → List ℕ → List ℕ
trimmed_before b [] = if is_padding b then [] else b ∷ []
trimmed_before b (c ∷ []) = if b == 0xc3 && c == 0xbf then [] else b ∷ c ∷ []
trimmed_before b (c ∷ d ∷ rest) = b ∷ c ∷ d ∷ rest

unfoldable pub trim_string_padding : List ℕ → List ℕ
trim_string_padding [] = []
trim_string_padding (b ∷ bytes) = trimmed_before b (trim_string_padding bytes)
