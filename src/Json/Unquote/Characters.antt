-- ===== src/Json/Unquote/Characters.antt =====
-- What the escape of one character reads as.
use go_kis.Prelude.{
  ℕ, zero, suc, ◌≡◌, ◌<◌, refl, ap, ◌∙◌, ◌+◌, ◌*◌, ◌/◌, ◌%◌, true, false, [], ◌∷◌, ◌++◌, Option,
  none, some, arith, append_assoc, ltb, ◌==◌, if◌then◌else◌,
}
use go_kis.Text.{Bytes, codes}
use go_kis.Json.Quote.{hex_digit, short_escape, is_plain, rune_tail}
use go_kis.Json.Unquote.{
  Mode, Advance, short_character, hex_value, utf8, after_digit, advance, put, unquote,
}

-- Valid UTF-8 stays as it is, an invalid byte becomes U+FFFD.
unfoldable pub coerced_rune : ℕ → Bytes → Bytes × ℕ
unfolding rune_tail
coerced_rune c s =
    if ltb c 128
    then (c ∷ [], 0)
    else if rune_tail c s == 0
    then (239 ∷ 191 ∷ 189 ∷ [], 0)
    else (c ∷ [], rune_tail c s)

-- With the number of bytes that belong to the last character.
unfoldable pub coerced : ℕ → Bytes → Bytes
unfolding coerced_rune
coerced n [] = []
coerced (suc n) (c ∷ s) = c ∷ coerced n s
coerced zero (c ∷ s) = let (piece, n) = coerced_rune c s in piece ++ coerced n s

pub put-put : (p q : Bytes) (r : Option (Bytes × Bytes)) → put p (put q r) ≡ put (p ++ q) r
unfolding put
put-put p q none = refl
put-put p q (some (s, rest)) = simp append_assoc

pub put-nil : (r : Option (Bytes × Bytes)) → put [] r ≡ r
unfolding put
put-nil none = refl
put-nil (some r) = refl

pub unquote_on :
    (m next : Mode) (c : ℕ) (piece s : Bytes)
    → advance m c ≡ Advance.on piece next
    → unquote m (c ∷ s) ≡ put piece (unquote next s)
unfolding unquote
unquote_on m next c piece s h = rw (h, unquote) refl

pub hex_value-hex_digit : (d : ℕ) → d < 16 → hex_value (hex_digit d) ≡ some d
unfolding hex_value
hex_value-hex_digit d h = ground arith

pub advance_plain :
    (c : ℕ) → is_plain c ≡ true → advance Mode.plain c ≡ Advance.on (c ∷ []) Mode.plain
unfolding advance is_plain
advance_plain c h = ground arith

pub advance_short :
    (c : ℕ)
    → (short_escape c == 0) ≡ false
    → advance Mode.escaped (short_escape c) ≡ Advance.on (c ∷ []) Mode.plain
unfolding advance short_escape short_character
advance_short c h = ground arith

pub utf8_ascii :
    (c : ℕ) → c < 128 → utf8 (16 * (16 * (16 * (16 * 0 + 0) + 0) + c / 16) + c % 16) ≡ c ∷ []
unfolding utf8
utf8_ascii c h = ground arith

pub unquote_digit :
    (k acc c d : ℕ) (s : Bytes)
    → hex_value c ≡ some d
    → unquote (Mode.digits (suc k) acc) (c ∷ s) ≡ unquote (Mode.digits k (16 * acc + d)) s
unfolding unquote advance after_digit
unquote_digit k acc c d s h = rw (h, unquote) (put-nil _)

pub unquote_last :
    (acc c d : ℕ) (s : Bytes)
    → hex_value c ≡ some d
    → unquote (Mode.digits 0 acc) (c ∷ s) ≡ put (utf8 (16 * acc + d)) (unquote Mode.plain s)
unfolding unquote advance after_digit
unquote_last acc c d s h = rw (h, unquote) refl

pub unquote_u : (s : Bytes) → unquote Mode.plain (codes "\\u" ++ s) ≡ unquote (Mode.digits 3 0) s
unfolding unquote advance
unquote_u s = put-nil _ ∙ put-nil _

-- The four digits of an escape.
pub unquote_digits :
    (p q r t p' q' r' t' : ℕ) (s : Bytes)
    → hex_value p ≡ some p'
    → hex_value q ≡ some q'
    → hex_value r ≡ some r'
    → hex_value t ≡ some t'
    → unquote Mode.plain (codes "\\u" ++ (p ∷ q ∷ r ∷ t ∷ s))
      ≡ put (utf8 (16 * (16 * (16 * (16 * 0 + p') + q') + r') + t')) (unquote Mode.plain s)
unquote_digits p q r t p' q' r' t' s hp hq hr ht =
    unquote_u _
    ∙ unquote_digit 2 0 p p' _ hp
    ∙ unquote_digit 1 _ q q' _ hq
    ∙ unquote_digit 0 _ r r' _ hr
    ∙ unquote_last _ t t' s ht

pub unquote_short :
    (c : ℕ) (s : Bytes)
    → (short_escape c == 0) ≡ false
    → unquote Mode.plain (92 ∷ short_escape c ∷ s) ≡ put (c ∷ []) (unquote Mode.plain s)
unfolding advance
unquote_short c s h =
    unquote_on Mode.plain Mode.escaped 92 [] _ refl
    ∙ put-nil _
    ∙ unquote_on Mode.escaped Mode.plain (short_escape c) (c ∷ []) s (advance_short c h)

pub unquote_hex :
    (c : ℕ) (s : Bytes)
    → c < 128
    → unquote Mode.plain (codes "\\u00" ++ (hex_digit (c / 16) ∷ hex_digit (c % 16) ∷ s))
      ≡ put (c ∷ []) (unquote Mode.plain s)
unfolding hex_value
unquote_hex c s h =
    unquote_digits b'0' b'0' _ _ 0 0 (c / 16) (c % 16) s refl refl
      (hex_value-hex_digit (c / 16) (omega arith)) (hex_value-hex_digit (c % 16) (omega arith))
    ∙ ap (λ u. put u (unquote Mode.plain s)) (utf8_ascii c h)
