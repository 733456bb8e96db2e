-- ===== src/Json/Unquote.antt =====
-- The string that a quoted text stands for.
pub mod Characters
pub mod Escaped
use go_kis.Prelude.{
  ℕ, zero, suc, ◌+◌, ◌*◌, ◌-◌, ◌/◌, ◌%◌, Bool, true, false, ◌&&◌, ◌||◌, [], ◌∷◌, ◌++◌, Option, none,
  some, ltb, leb, ◌==◌, if◌then◌else◌,
}
use go_kis.Text.{Bytes, codes}

-- Between characters, behind a backslash, or behind some digits of \u with their value.
pub data Mode : Type 0 where
  plain escaped : Mode
  digits : ℕ → ℕ → Mode

pub data Advance : Type 0 where
  closed broken : Advance
  on : Bytes → Mode → Advance

-- The character of a short escape, 0 where there is none.
unfoldable pub short_character : ℕ → ℕ
short_character c =
    if c == 34 || c == 92 || c == b'/'
    then c
    else if c == b'b'
    then 8
    else if c == b'f'
    then 12
    else if c == b'n'
    then 10
    else if c == b'r'
    then 13
    else if c == b't'
    then 9
    else 0

unfoldable pub hex_value : ℕ → Option ℕ
hex_value c =
    if leb 48 c && leb c 57
    then some (c - 48)
    else if leb 97 c && leb c 102
    then some (c - 87)
    else if leb 65 c && leb c 70
    then some (c - 55)
    else none

-- UTF-8, for numbers below 65536.
unfoldable pub utf8 : ℕ → Bytes
utf8 n =
    if ltb n 128
    then n ∷ []
    else if ltb n 2048
    then (192 + n / 64) ∷ (128 + n % 64) ∷ []
    else (224 + n / 4096) ∷ (128 + n / 64 % 64) ∷ (128 + n % 64) ∷ []

unfoldable pub after_digit : ℕ → ℕ → Option ℕ → Advance
unfolding utf8
after_digit k acc none = Advance.broken
after_digit zero acc (some d) = Advance.on (utf8 (16 * acc + d)) Mode.plain
after_digit (suc k) acc (some d) = Advance.on [] (Mode.digits k (16 * acc + d))

unfoldable pub advance : Mode → ℕ → Advance
unfolding short_character hex_value after_digit
advance Mode.plain c =
    if c == 34
    then Advance.closed
    else if c == 92
    then Advance.on [] Mode.escaped
    else if ltb c 32
    then Advance.broken
    else Advance.on (c ∷ []) Mode.plain
advance Mode.escaped c =
    if c == b'u'
    then Advance.on [] (Mode.digits 3 0)
    else if short_character c == 0
    then Advance.broken
    else Advance.on (short_character c ∷ []) Mode.plain
advance (Mode.digits k acc) c = after_digit k acc (hex_value c)

-- What was read stands in front of what was read behind it.
unfoldable pub put : Bytes → Option (Bytes × Bytes) → Option (Bytes × Bytes)
put piece none = none
put piece (some (s, rest)) = some (piece ++ s, rest)

-- The string up to its closing quote, and what stands behind that.
unfoldable pub unquote : Mode → Bytes → Option (Bytes × Bytes)
unfolding advance put
unquote m [] = none
unquote m (c ∷ s) = elim (advance m c) [
  | Advance.closed ↦ some ([], s)
  | Advance.broken ↦ none
  | Advance.on piece next ↦ put piece (unquote next s)
]
