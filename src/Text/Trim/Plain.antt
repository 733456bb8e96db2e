-- ===== src/Text/Trim/Plain.antt =====
-- Texts without white space, which strings.TrimSpace leaves as they are.
use go_kis.Prelude.{
  ℕ, ◌≤◌, ◌<◌, ◌≡◌, refl, ap, ◌∙◌, [], ◌∷◌, arith, reverse, All, All-append, reverse-append,
  reverse-reverse,
}
use go_kis.Text.Equal.{Bytes}
use go_kis.Text.Trim.{
  is_space1, is_space2, is_space3, lead_space, trail_space, drop_chars, trim_space,
}

-- An ASCII byte that is neither a control character nor white space.
abbrev pub IsGraphic : ℕ → Type 0
IsGraphic c = (33 ≤ c) × (c < 128)

lead_space-IsGraphic : (s : Bytes) → All IsGraphic s → lead_space s ≡ 0
unfolding lead_space is_space1 is_space2 is_space3
lead_space-IsGraphic [] h = refl
lead_space-IsGraphic (a ∷ []) h = ground arith
lead_space-IsGraphic (a ∷ b ∷ []) h = ground arith
lead_space-IsGraphic (a ∷ b ∷ c ∷ s) h = ground arith

trail_space-IsGraphic : (s : Bytes) → All IsGraphic s → trail_space s ≡ 0
unfolding trail_space is_space1 is_space2 is_space3
trail_space-IsGraphic [] h = refl
trail_space-IsGraphic (a ∷ []) h = ground arith
trail_space-IsGraphic (a ∷ b ∷ []) h = ground arith
trail_space-IsGraphic (a ∷ b ∷ c ∷ s) h = ground arith

reverse-IsGraphic : (s : Bytes) → All IsGraphic s → All IsGraphic (reverse s)
reverse-IsGraphic [] h = tt
reverse-IsGraphic (c ∷ s) h =
    rw (reverse-append (c ∷ []) s)
      (All-append IsGraphic (reverse s) (c ∷ []) (reverse-IsGraphic s h.1) (h.0, tt))

drop_chars-keep : (width : Bytes → ℕ) (s : Bytes) → width s ≡ 0 → drop_chars width 0 s ≡ s
unfolding drop_chars
drop_chars-keep width [] h = refl
drop_chars-keep width (c ∷ s) h = rw (h, drop_chars) refl

pub trim_space-IsGraphic : (s : Bytes) → All IsGraphic s → trim_space s ≡ s
unfolding trim_space
trim_space-IsGraphic s h =
    ap (λ t. reverse (drop_chars trail_space 0 (reverse t)))
      (drop_chars-keep lead_space s (lead_space-IsGraphic s h))
    ∙ ap reverse (
        drop_chars-keep trail_space (reverse s)
          (trail_space-IsGraphic (reverse s) (reverse-IsGraphic s h)))
    ∙ reverse-reverse s
