-- ===== src/Text/Format.antt =====
-- package fmt: texts put together, and the verb %d for numbers that are not negative and fit in 64
-- bits.
use go_kis.Prelude.{
  List, ℕ, zero, suc, ◌+◌, ◌*◌, ◌-◌, ◌/◌, ◌%◌, ◌^◌, ◌≡◌, ◌≢◌, ◌<◌, ◌∙◌, refl, ap, [], ◌∷◌, ◌++◌,
  some, arith, ltb, if◌then◌else◌, if-cases,
}
use go_kis.Text.Equal.{Bytes}
use go_kis.Text.Number.{is_digit, digits_value, parse_digits}

-- A format with its operands, piece after piece.
unfoldable pub sprint : List Bytes → Bytes
sprint [] = []
sprint (piece ∷ pieces) = piece ++ sprint pieces

-- At most so many digits.
unfoldable pub decimal_on : ℕ → ℕ → Bytes
decimal_on zero n = []
decimal_on (suc places) n =
    let front = decimal_on places (n / 10) in
    if ltb n 10 then (b'0' + n) ∷ [] else front ++ ((b'0' + n % 10) ∷ [])

-- A number of 64 bits has at most 20 digits.
unfoldable pub decimal : ℕ → Bytes
unfolding decimal_on
decimal n = decimal_on 20 n

digits_value-append :
    (acc : ℕ) (s : Bytes) (v d : ℕ)
    → digits_value acc s ≡ some v
    → d < 10
    → digits_value acc (s ++ ((b'0' + d) ∷ [])) ≡ some (10 * v + d)
unfolding digits_value is_digit
digits_value-append acc [] v d h small = ground arith
digits_value-append acc (c ∷ s) v d h small =
    let rest = digits_value-append (10 * acc + (c - b'0')) s v d in ground arith

digits_value-decimal_on :
    (places n : ℕ) → n < 10 ^ suc places → digits_value 0 (decimal_on (suc places) n) ≡ some n
unfolding decimal_on digits_value is_digit
digits_value-decimal_on zero n h = ground arith
digits_value-decimal_on (suc places) n h =
    if-cases (λ s. digits_value 0 s ≡ some n) (ltb n 10) _ _ (λ small. ground arith)
      (λ large.
        digits_value-append 0 (decimal_on (suc places) (n / 10)) (n / 10) (n % 10)
          (digits_value-decimal_on places (n / 10) (omega arith)) (omega arith)
        ∙ ap some (omega arith))

parse_digits-value : (s : Bytes) → s ≢ [] → parse_digits s ≡ digits_value 0 s
unfolding parse_digits
parse_digits-value [] h = absurd (h refl)
parse_digits-value (c ∷ s) h = refl

snoc-ne_nil : (s : Bytes) (c : ℕ) → s ++ (c ∷ []) ≢ []
snoc-ne_nil [] c e = absurd cc
snoc-ne_nil (x ∷ s) c e = absurd cc

decimal-ne_nil : (n : ℕ) → decimal n ≢ []
unfolding decimal decimal_on
decimal-ne_nil n =
    if-cases (λ s. s ≢ []) (ltb n 10) _ _ (λ small e. absurd cc) (λ large. snoc-ne_nil _ _)

-- What is printed reads back, so that different numbers have different texts.
parse_digits-decimal : (n : ℕ) → n < 2 ^ 64 → parse_digits (decimal n) ≡ some n
unfolding decimal
parse_digits-decimal n h =
    parse_digits-value (decimal n) (decimal-ne_nil n) ∙ digits_value-decimal_on 19 n (omega arith)
