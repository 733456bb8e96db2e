-- ===== src/Ws/Crypto/Base64/Encoding.antt =====
-- The standard Base64 encoding, which the server puts around a ciphertext, and what the decoder
-- of the source makes of it.
use go_kis.Prelude.{
  ℕ, ◌+◌, ◌-◌, ◌*◌, ◌/◌, ◌%◌, ◌<◌, ◌≡◌, refl, ap, ◌∙◌, Bool, false, [], ◌∷◌, some, arith,
  if◌then◌else◌, ◌==◌, ltb, All,
}
use go_kis.Text.{Bytes}
use go_kis.Text.Trim.Plain.{IsGraphic}
use go_kis.Ws.Crypto.Base64.{
  sextet, last_byte, last_two_bytes, last_group, full_group, groups, drop_line_ends, base64_decode,
}

abbrev pub IsByte : ℕ → Type 0
IsByte b = b < 256

letter : ℕ → ℕ
letter n =
    if ltb n 26
    then n + 65
    else if ltb n 52
    then n + 71
    else if ltb n 62
    then n - 4
    else if n == 62
    then b'+'
    else b'/'

pub base64_encode : Bytes → Bytes
base64_encode [] = []
base64_encode (x ∷ []) = letter (x / 4) ∷ letter (x % 4 * 16) ∷ b'=' ∷ b'=' ∷ []
base64_encode (x ∷ y ∷ []) =
    letter (x / 4) ∷ letter (x % 4 * 16 + y / 16) ∷ letter (y % 16 * 4) ∷ b'=' ∷ []
base64_encode (x ∷ y ∷ z ∷ s) =
    letter (x / 4)
    ∷ letter (x % 4 * 16 + y / 16)
    ∷ letter (y % 16 * 4 + z / 64)
    ∷ letter (z % 64)
    ∷ base64_encode s

sextet-letter : (n : ℕ) → n < 64 → sextet (letter n) ≡ some n
unfolding sextet letter
sextet-letter n h = ground arith

letter-IsGraphic : (n : ℕ) → n < 64 → IsGraphic (letter n) × ((letter n == b'=') ≡ false)
unfolding letter
letter-IsGraphic n h = ground arith

pub base64_encode-IsGraphic : (s : Bytes) → All IsByte s → All IsGraphic (base64_encode s)
unfolding base64_encode
base64_encode-IsGraphic [] h = tt
base64_encode-IsGraphic (x ∷ []) h = (
  (letter-IsGraphic (x / 4) (omega arith)).0,
  ((letter-IsGraphic (x % 4 * 16) (omega arith)).0, (ground arith, (ground arith, tt))),
)
base64_encode-IsGraphic (x ∷ y ∷ []) h = (
  (letter-IsGraphic (x / 4) (omega arith)).0,
  (
    (letter-IsGraphic (x % 4 * 16 + y / 16) (omega arith)).0,
    ((letter-IsGraphic (y % 16 * 4) (omega arith)).0, (ground arith, tt)),
  ),
)
base64_encode-IsGraphic (x ∷ y ∷ z ∷ s) h = (
  (letter-IsGraphic (x / 4) (omega arith)).0,
  (
    (letter-IsGraphic (x % 4 * 16 + y / 16) (omega arith)).0,
    (
      (letter-IsGraphic (y % 16 * 4 + z / 64) (omega arith)).0,
      ((letter-IsGraphic (z % 64) (omega arith)).0, base64_encode-IsGraphic s h.1.1.1),
    ),
  ),
)

drop_line_ends-IsGraphic : (s : Bytes) → All IsGraphic s → drop_line_ends s ≡ s
unfolding drop_line_ends
drop_line_ends-IsGraphic [] h = refl
drop_line_ends-IsGraphic (c ∷ s) h = ground (arith, drop_line_ends-IsGraphic s h.1)

groups-encode :
    (strict : Bool) (s : Bytes) → All IsByte s → groups strict (base64_encode s) ≡ some s
unfolding groups base64_encode last_group last_byte last_two_bytes full_group
groups-encode strict [] h = refl
groups-encode strict (x ∷ []) h =
    rw (sextet-letter (x / 4) (omega arith), sextet-letter (x % 4 * 16) (omega arith))
      (ground arith)
groups-encode strict (x ∷ y ∷ []) h =
    rw
      (
        (letter-IsGraphic (y % 16 * 4) (omega arith)).1,
        sextet-letter (x / 4) (omega arith),
        sextet-letter (x % 4 * 16 + y / 16) (omega arith),
        sextet-letter (y % 16 * 4) (omega arith),
      )
      (ground arith)
groups-encode strict (x ∷ y ∷ z ∷ s) h =
    rw
      (
        (letter-IsGraphic (z % 64) (omega arith)).1,
        sextet-letter (x / 4) (omega arith),
        sextet-letter (x % 4 * 16 + y / 16) (omega arith),
        sextet-letter (y % 16 * 4 + z / 64) (omega arith),
        sextet-letter (z % 64) (omega arith),
        groups-encode strict s h.1.1.1,
      )
      (ground arith)

pub base64_decode-encode :
    (strict : Bool) (s : Bytes) → All IsByte s → base64_decode strict (base64_encode s) ≡ some s
unfolding base64_decode
base64_decode-encode strict s h =
    ap (groups strict) (drop_line_ends-IsGraphic (base64_encode s) (base64_encode-IsGraphic s h))
    ∙ groups-encode strict s h
