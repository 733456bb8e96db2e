-- ===== src/Text/Number.antt =====
-- strconv.Atoi and strconv.ParseInt(s, 10, 64), which agree where int has 64 bits.
use go_kis.Prelude.{
  ℕ, ◌+◌, ◌-◌, ◌*◌, ◌^◌, Bool, ◌&&◌, [], ◌∷◌, Option, none, some, leb, ltb, ◌==◌, if◌then◌else◌, ℤ,
  pos, neg_ℕ,
}
use go_kis.Text.Equal.{Bytes}

unfoldable pub is_digit : ℕ → Bool
is_digit c = leb b'0' c && leb c b'9'

unfoldable pub digits_value : ℕ → Bytes → Option ℕ
unfolding is_digit
digits_value acc [] = some acc
digits_value acc (c ∷ s) = if is_digit c then digits_value (10 * acc + (c - b'0')) s else none

unfoldable pub parse_digits : Bytes → Option ℕ
unfolding digits_value
parse_digits [] = none
parse_digits (c ∷ s) = digits_value 0 (c ∷ s)

-- A magnitude beyond the 64-bit range is an error, strconv.ErrRange.
unfoldable pub in_range : Bool → ℕ → Option ℤ
in_range negative n =
    if negative
    then (if leb n (2 ^ 63) then some (neg_ℕ n) else none)
    else (if ltb n (2 ^ 63) then some (pos n) else none)

unfoldable pub signed : Bool → Option ℕ → Option ℤ
unfolding in_range
signed negative none = none
signed negative (some n) = in_range negative n

unfoldable pub parse_int : Bytes → Option ℤ
unfolding parse_digits signed
parse_int [] = none
parse_int (c ∷ s) =
    if c == b'-'
    then signed Bool.true (parse_digits s)
    else if c == b'+'
    then signed Bool.false (parse_digits s)
    else signed Bool.false (parse_digits (c ∷ s))
