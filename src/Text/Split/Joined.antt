-- ===== src/Text/Split/Joined.antt =====
-- Splitting a text that strings.Join has made.
use go_kis.Prelude.{ℕ, ◌≡◌, ◌≢◌, refl, ap, ◌∙◌, true, false, List, [], ◌∷◌, ◌++◌, arith, All}
use go_kis.Text.Equal.{Bytes}
use go_kis.Text.Split.{contains_byte, split_push, split, join}

module _ (sep : ℕ) where
  abbrev pub IsFree : Bytes → Type 0
  IsFree s = contains_byte sep s ≡ false

  split-free : (s : Bytes) → IsFree s → split sep s ≡ s ∷ []
  unfolding split split_push contains_byte
  split-free [] h = refl
  split-free (c ∷ s) h = ground (arith, split-free s)

  split-append : (s rest : Bytes) → IsFree s → split sep (s ++ (sep ∷ rest)) ≡ s ∷ split sep rest
  unfolding split split_push contains_byte
  split-append [] rest h = ground arith
  split-append (c ∷ s) rest h = ground (arith, split-append s rest)

  -- Pieces without the separator come back.
  pub split-join :
      (pieces : List Bytes) → pieces ≢ [] → All IsFree pieces → split sep (join sep pieces) ≡ pieces
  unfolding join
  split-join [] h free = absurd (h refl)
  split-join (x ∷ []) h free = split-free x free.0
  split-join (x ∷ y ∷ pieces) h free =
      split-append x (join sep (y ∷ pieces)) free.0
      ∙ ap (◌∷◌ x) (split-join (y ∷ pieces) (λ e. cc) free.1)

  contains_byte-append : (s rest : Bytes) → contains_byte sep (s ++ (sep ∷ rest)) ≡ true
  unfolding contains_byte
  contains_byte-append [] rest = ground arith
  contains_byte-append (c ∷ s) rest = ground (arith, contains_byte-append s rest)

  pub contains_byte-join :
      (x y : Bytes) (pieces : List Bytes) → contains_byte sep (join sep (x ∷ y ∷ pieces)) ≡ true
  unfolding join
  contains_byte-join x y pieces = contains_byte-append x (join sep (y ∷ pieces))
