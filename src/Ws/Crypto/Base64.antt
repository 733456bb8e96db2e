-- ===== src/Ws/Crypto/Base64.antt =====
-- base64.StdEncoding: decoding, with and without the check of Strict() on the unused bits.
pub mod Encoding
use go_kis.Prelude.{
  ◌>>=◌, ℕ, ◌+◌, ◌-◌, ◌*◌, ◌/◌, ◌%◌, Bool, not, ◌&&◌, ◌||◌, [], ◌∷◌, Option, none, some,
  if◌then◌else◌, ◌==◌, leb,
}
use go_kis.Text.{Bytes}

sextet : ℕ → Option ℕ
sextet c =
    if leb b'A' c && leb c b'Z'
    then some (c - 65)
    else if leb b'a' c && leb c b'z'
    then some (c - 71)
    else if leb b'0' c && leb c b'9'
    then some (c + 4)
    else if c == b'+'
    then some 62
    else if c == b'/'
    then some 63
    else none

-- A last group that ends in "==" or "=": the flag is the check of the bits that no byte takes.
last_byte : Bool → ℕ → ℕ → Option Bytes
last_byte strict a b = do
  x ← sextet a
  y ← sextet b
  if strict && not (y % 16 == 0) then none else some ((x * 4 + y / 16) ∷ [])

last_two_bytes : Bool → ℕ → ℕ → ℕ → Option Bytes
last_two_bytes strict a b c = do
  x ← sextet a
  y ← sextet b
  z ← sextet c
  if strict && not (z % 4 == 0) then none else some ((x * 4 + y / 16) ∷ (y % 16 * 16 + z / 4) ∷ [])

last_group : Bool → ℕ → ℕ → ℕ → Option Bytes
unfolding sextet last_byte last_two_bytes
last_group strict a b c = if c == b'=' then last_byte strict a b else last_two_bytes strict a b c

full_group : ℕ → ℕ → ℕ → ℕ → Option Bytes → Option Bytes
unfolding sextet
full_group a b c d rest = do
  x ← sextet a
  y ← sextet b
  z ← sextet c
  w ← sextet d
  more ← rest
  some ((x * 4 + y / 16) ∷ (y % 16 * 16 + z / 4) ∷ (z % 4 * 64 + w) ∷ more)

groups : Bool → Bytes → Option Bytes
unfolding last_group full_group
groups strict [] = some []
groups strict (a ∷ b ∷ c ∷ d ∷ s) =
    if d == b'='
    then elim s [ [] ↦ last_group strict a b c | _ ∷ _ ↦ none ]
    else full_group a b c d (groups strict s)
groups strict _ = none

-- The decoder passes over line ends wherever they stand.
drop_line_ends : Bytes → Bytes
drop_line_ends [] = []
drop_line_ends (c ∷ s) = if c == 10 || c == 13 then drop_line_ends s else c ∷ drop_line_ends s

unfoldable pub base64_decode : Bool → Bytes → Option Bytes
unfolding groups drop_line_ends
base64_decode strict s = groups strict (drop_line_ends s)
