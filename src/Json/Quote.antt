-- ===== src/Json/Quote.antt =====
-- How encoding/json quotes a string: line breaks and other control characters, quotes, backslashes,
-- and the characters that matter in HTML are escaped, invalid UTF-8 is replaced.
use go_kis.Prelude.{
  ℕ, zero, suc, ◌+◌, ◌/◌, ◌%◌, Bool, true, false, ◌&&◌, ◌||◌, [], ◌∷◌, ◌++◌, ltb, leb, ◌==◌,
  if◌then◌else◌,
}
use go_kis.Text.{Bytes, codes}

abbrev pub hex_digit : ℕ → ℕ
hex_digit d = if ltb d 10 then 48 + d else 87 + d

-- The letter of a short escape, 0 where there is none.
unfoldable pub short_escape : ℕ → ℕ
short_escape c =
    if c == 34 || c == 92
    then c
    else if c == 8
    then b'b'
    else if c == 12
    then b'f'
    else if c == 10
    then b'n'
    else if c == 13
    then b'r'
    else if c == 9
    then b't'
    else 0

unfoldable pub is_plain : ℕ → Bool
is_plain c =
    if ltb c 32 || c == 34 || c == 92 || c == b'<' || c == b'>' || c == b'&' then false else true

-- A character below 128.
unfoldable pub escape_ascii : ℕ → Bytes
unfolding short_escape is_plain
escape_ascii c =
    if is_plain c
    then c ∷ []
    else if short_escape c == 0
    then codes "\\u00" ++ (hex_digit (c / 16) ∷ hex_digit (c % 16) ∷ [])
    else 92 ∷ short_escape c ∷ []

-- How many bytes follow a first byte in UTF-8, 0 where no sequence starts with it.
unfoldable pub tail_length : ℕ → ℕ
tail_length c =
    if leb 194 c && leb c 223
    then 1
    else if leb 224 c && leb c 239
    then 2
    else if leb 240 c && leb c 244
    then 3
    else 0

-- The second byte of a sequence: no overlong form, no surrogate, nothing beyond U+10FFFF.
unfoldable pub is_second : ℕ → ℕ → Bool
is_second c d =
    leb (if c == 224 then 160 else if c == 240 then 144 else 128) d
    && leb d (if c == 237 then 159 else if c == 244 then 143 else 191)

unfoldable pub are_continued : ℕ → Bytes → Bool
are_continued zero s = true
are_continued (suc n) [] = false
are_continued (suc n) (d ∷ s) = leb 128 d && leb d 191 && are_continued n s

unfoldable pub starts_rune : ℕ → ℕ → Bytes → Bool
unfolding is_second are_continued
starts_rune c zero s = false
starts_rune c (suc n) [] = false
starts_rune c (suc n) (d ∷ s) = is_second c d && are_continued n s

-- The bytes that follow `c` in its sequence, 0 where the sequence is invalid.
unfoldable pub rune_tail : ℕ → Bytes → ℕ
unfolding tail_length starts_rune
rune_tail c s = if starts_rune c (tail_length c) s then tail_length c else 0

-- U+2028 and U+2029, whose last digit is given, or else 0.
unfoldable pub separator : ℕ → Bytes → ℕ
separator c (d ∷ e ∷ s) =
    if c == 226 && d == 128 then (if e == 168 then b'8' else if e == 169 then b'9' else 0) else 0
separator c _ = 0

-- What a character turns into, whether the bytes behind it are copied, and how many they are.
unfoldable pub escape_rune : ℕ → Bytes → Bytes × Bool × ℕ
unfolding escape_ascii rune_tail separator
escape_rune c s =
    if ltb c 128
    then (escape_ascii c, true, 0)
    else if rune_tail c s == 0
    then (codes "\\ufffd", true, 0)
    else if separator c s == 0
    then (c ∷ [], true, rune_tail c s)
    else (codes "\\u202" ++ (separator c s ∷ []), false, 2)

-- With the number of bytes that are copied, or left out, before the next character. The text
-- stands in front of `rest`.
unfoldable pub escape : Bool → ℕ → Bytes → Bytes → Bytes
unfolding escape_rune
escape copied n [] rest = 34 ∷ rest
escape copied (suc n) (c ∷ s) rest =
    let tail = escape copied n s rest in if copied then c ∷ tail else tail
escape copied zero (c ∷ s) rest =
    let (piece, next, n) = escape_rune c s in piece ++ escape next n s rest

unfoldable pub quote : Bytes → Bytes → Bytes
unfolding escape
quote s rest = 34 ∷ escape true 0 s rest
