-- ===== src/Json/Unquote/Escaped.antt =====
-- What a quoted string reads as.
use go_kis.Prelude.{
  ℕ, zero, suc, ◌≡◌, refl, ap, ◌∙◌, ◌⊎◌, inl, inr, Bool, true, false, [], ◌∷◌, ◌++◌, some, arith,
  drop, ltb, ltb→lt, ◌==◌, if◌then◌else◌, Bool-cases,
}
use go_kis.Text.{Bytes, codes}
use go_kis.Json.Quote.{
  short_escape, is_plain, escape_ascii, is_second, are_continued, starts_rune, rune_tail,
  tail_length, separator, escape_rune, escape,
}
use go_kis.Json.Unquote.{Mode, Advance, hex_value, utf8, advance, put, unquote}
use go_kis.Json.Unquote.Characters.{
  coerced_rune, coerced, unquote_on, advance_plain, unquote_digits, unquote_short, unquote_hex,
}

unquote-escape_ascii :
    (c : ℕ) (s : Bytes)
    → ltb c 128 ≡ true
    → unquote Mode.plain (escape_ascii c ++ s) ≡ put (c ∷ []) (unquote Mode.plain s)
unfolding escape_ascii
unquote-escape_ascii c s h = elim (Bool-cases (is_plain c)) [
  | inl here ↦
      rw (here, escape_ascii) (unquote_on Mode.plain Mode.plain c (c ∷ []) s (advance_plain c here))
  | inr off ↦
      rw (off, escape_ascii)
        (elim (Bool-cases (short_escape c == 0)) [
          | inl long ↦ rw (long, escape_ascii) (unquote_hex c s (ltb→lt c 128 h))
          | inr short ↦ rw (short, escape_ascii) (unquote_short c s short)
        ])
]

are_continued-starts_rune :
    (c n : ℕ) (s : Bytes) → starts_rune c n s ≡ true → are_continued n s ≡ true
unfolding starts_rune are_continued is_second
are_continued-starts_rune c zero s h = refl
are_continued-starts_rune c (suc n) [] h = ground arith
are_continued-starts_rune c (suc n) (d ∷ s) h = ground arith

are_continued-rune_tail : (c : ℕ) (s : Bytes) → are_continued (rune_tail c s) s ≡ true
unfolding rune_tail are_continued
are_continued-rune_tail c s = elim (Bool-cases (starts_rune c (tail_length c) s)) [
  | inl here ↦ rw (here, rune_tail) (are_continued-starts_rune c (tail_length c) s here)
  | inr off ↦ rw (off, rune_tail) refl
]

continued_byte :
    (n c : ℕ) (s : Bytes)
    → are_continued (suc n) (c ∷ s) ≡ true
    → (advance Mode.plain c ≡ Advance.on (c ∷ []) Mode.plain) × (are_continued n s ≡ true)
unfolding are_continued advance
continued_byte n c s h = ground arith

escape_left : (s rest : Bytes) → escape false 0 s rest ≡ escape true 0 s rest
unfolding escape
escape_left [] rest = refl
escape_left (c ∷ s) rest = refl

separator-cases :
    (c d e : ℕ) (s : Bytes)
    → (separator c (d ∷ e ∷ s) == 0) ≡ false
    → (c ≡ 226) × (d ≡ 128) × ((e ≡ 168) ⊎ (e ≡ 169))
unfolding separator
separator-cases c d e s h = ground arith

-- U+2028 and U+2029 are escaped by their numbers.
unquote-separator :
    (c : ℕ) (s rest : Bytes)
    → (separator c s == 0) ≡ false
    → unquote Mode.plain (escape false 2 s rest) ≡ some (coerced 0 (drop 2 s), rest)
    → unquote Mode.plain (codes "\\u202" ++ (separator c s ∷ escape false 2 s rest))
      ≡ some (c ∷ coerced (rune_tail c s) s, rest)
unfolding separator rune_tail tail_length starts_rune is_second are_continued coerced hex_value utf8
    put escape
unquote-separator c [] rest h ih = ground arith
unquote-separator c (d ∷ []) rest h ih = ground arith
unquote-separator c (d ∷ e ∷ s) rest h ih =
    let (hc, hd, he) = separator-cases c d e s h in
    elim he [
      | inl first ↦
          rw (hc, hd, first)
            (unquote_digits b'2' b'0' b'2' b'8' 2 0 2 8 _ refl refl refl refl
              ∙ ap (put (226 ∷ 128 ∷ 168 ∷ [])) ih)
      | inr second ↦
          rw (hc, hd, second)
            (unquote_digits b'2' b'0' b'2' b'9' 2 0 2 9 _ refl refl refl refl
              ∙ ap (put (226 ∷ 128 ∷ 169 ∷ [])) ih)
    ]

advance_wide : (c : ℕ) → ltb c 128 ≡ false → advance Mode.plain c ≡ Advance.on (c ∷ []) Mode.plain
unfolding advance
advance_wide c h = ground arith

are_continued-separator :
    (c : ℕ) (s : Bytes) → (separator c s == 0) ≡ false → are_continued 2 s ≡ true
unfolding separator are_continued
are_continued-separator c [] h = ground arith
are_continued-separator c (d ∷ []) h = ground arith
are_continued-separator c (d ∷ e ∷ s) h = ground arith

abbrev read_back : Bool → ℕ → Bytes → Bytes
read_back copied n s = if copied then coerced n s else coerced 0 (drop n s)

-- One character, where the rest of the text reads back.
unquote_char :
    (c : ℕ) (s rest : Bytes)
    → ((copied : Bool) (n : ℕ)
        → are_continued n s ≡ true
        → unquote Mode.plain (escape copied n s rest) ≡ some (read_back copied n s, rest))
    → unquote Mode.plain (escape true 0 (c ∷ s) rest) ≡ some (coerced 0 (c ∷ s), rest)
unfolding escape coerced escape_rune coerced_rune are_continued put hex_value utf8 advance unquote
unquote_char c s rest ih = elim (Bool-cases (ltb c 128)) [
  | inl ascii ↦
      rw (ascii, escape_rune, coerced_rune)
        (unquote-escape_ascii c _ ascii ∙ ap (put (c ∷ [])) (ih true 0 refl))
  | inr wide ↦
      rw (wide, escape_rune, coerced_rune)
        (elim (Bool-cases (rune_tail c s == 0)) [
          | inl bad ↦
              rw (bad, escape_rune, coerced_rune)
                (unquote_digits b'f' b'f' b'f' b'd' 15 15 15 13 (escape true 0 s rest) refl refl
                    refl refl
                  ∙ ap (put (239 ∷ 191 ∷ 189 ∷ [])) (ih true 0 refl))
          | inr good ↦
              rw (good, escape_rune, coerced_rune)
                (elim (Bool-cases (separator c s == 0)) [
                  | inl kept ↦
                      rw (kept, escape_rune)
                        (unquote_on Mode.plain Mode.plain c (c ∷ [])
                            (escape true (rune_tail c s) s rest) (advance_wide c wide)
                          ∙ ap (put (c ∷ []))
                              (ih true (rune_tail c s) (are_continued-rune_tail c s)))
                  | inr split ↦
                      rw (split, escape_rune)
                        (unquote-separator c s rest split
                          (ih false 2 (are_continued-separator c s split)))
                ])
        ])
]

unquote-escape :
    (copied : Bool) (n : ℕ) (s rest : Bytes)
    → are_continued n s ≡ true
    → unquote Mode.plain (escape copied n s rest) ≡ some (read_back copied n s, rest)
unfolding unquote advance escape coerced put
unquote-escape true n [] rest h = refl
unquote-escape false zero [] rest h = refl
unquote-escape false (suc n) [] rest h = refl
unquote-escape true (suc n) (c ∷ s) rest h =
    let (step, more) = continued_byte n c s h in
    unquote_on Mode.plain Mode.plain c (c ∷ []) _ step
    ∙ ap (put (c ∷ [])) (unquote-escape true n s rest more)
unquote-escape false (suc n) (c ∷ s) rest h =
    unquote-escape false n s rest (continued_byte n c s h).1
unquote-escape true zero (c ∷ s) rest h = unquote_char c s rest (λ b m. unquote-escape b m s rest)
unquote-escape false zero (c ∷ s) rest h = unquote_char c s rest (λ b m. unquote-escape b m s rest)

-- A quoted string reads as itself, coerced to valid UTF-8, whatever stands behind it.
pub unquote-quote :
    (s rest : Bytes) → unquote Mode.plain (escape true 0 s rest) ≡ some (coerced 0 s, rest)
unfolding are_continued
unquote-quote s rest = unquote-escape true 0 s rest refl
