-- ===== src/Text/Trim.antt =====
-- strings.TrimSpace and strings.TrimLeft with a cutset of ASCII bytes.
pub mod Plain
use go_kis.Prelude.{
  ℕ, zero, suc, Bool, false, ◌&&◌, ◌||◌, [], ◌∷◌, reverse, leb, ◌==◌, if◌then◌else◌,
}
use go_kis.Text.Equal.{Bytes}

-- The Unicode white space that unicode.IsSpace knows, by its UTF-8 bytes.
unfoldable pub is_space1 : ℕ → Bool
is_space1 a = leb 9 a && leb a 13 || a == 32

is_space2 : ℕ → ℕ → Bool
is_space2 a b = a == 0xc2 && (b == 0x85 || b == 0xa0)

is_space3 : ℕ → ℕ → ℕ → Bool
is_space3 a b c =
    a == 0xe1 && b == 0x9a && c == 0x80
    || a == 0xe2 && b == 0x80 && (leb 0x80 c && leb c 0x8a || c == 0xa8 || c == 0xa9 || c == 0xaf)
    || a == 0xe2 && b == 0x81 && c == 0x9f
    || a == 0xe3 && b == 0x80 && c == 0x80

-- The length in bytes of the white space character at the front, 0 where there is none.
unfoldable pub lead_space : Bytes → ℕ
unfolding is_space1 is_space2 is_space3
lead_space [] = 0
lead_space (a ∷ []) = if is_space1 a then 1 else 0
lead_space (a ∷ b ∷ []) = if is_space1 a then 1 else if is_space2 a b then 2 else 0
lead_space (a ∷ b ∷ c ∷ s) =
    if is_space1 a then 1 else if is_space2 a b then 2 else if is_space3 a b c then 3 else 0

-- The same at the end of a text whose bytes are given last first.
unfoldable pub trail_space : Bytes → ℕ
unfolding is_space1 is_space2 is_space3
trail_space [] = 0
trail_space (a ∷ []) = if is_space1 a then 1 else 0
trail_space (b ∷ a ∷ []) = if is_space1 b then 1 else if is_space2 a b then 2 else 0
trail_space (c ∷ b ∷ a ∷ s) =
    if is_space1 c then 1 else if is_space2 b c then 2 else if is_space3 a b c then 3 else 0

-- Drops characters from the front while `width` finds one there. The number counts the bytes of
-- the character at hand that are still to be dropped.
unfoldable pub drop_chars : (Bytes → ℕ) → ℕ → Bytes → Bytes
drop_chars width k [] = []
drop_chars width (suc k) (c ∷ s) = drop_chars width k s
drop_chars width zero (c ∷ s) = elim (width (c ∷ s)) [ zero ↦ c ∷ s | suc k ↦ drop_chars width k s ]

unfoldable pub trim_space : Bytes → Bytes
unfolding drop_chars lead_space trail_space
trim_space s = reverse (drop_chars trail_space 0 (reverse (drop_chars lead_space 0 s)))

-- strings.TrimLeft(s, " \t\r\n").
unfoldable pub trim_left_blank : Bytes → Bytes
trim_left_blank [] = []
trim_left_blank (c ∷ s) =
    if c == b' ' || c == 9 || c == 13 || c == 10 then trim_left_blank s else c ∷ s

unfoldable pub has_prefix_byte : ℕ → Bytes → Bool
has_prefix_byte b [] = false
has_prefix_byte b (c ∷ s) = c == b
