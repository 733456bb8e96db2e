-- ===== src/Text/Split.antt =====
-- strings.Contains, Split and SplitN with a separator of one byte.
pub mod Joined
use go_kis.Prelude.{
  ℕ, zero, suc, ◌≡◌, refl, ap, ◌∙◌, ◌≢◌, inl, inr, sym, Option-cases, Bool, true, false, List, [],
  ◌∷◌, ◌++◌, Option, none, some, arith, ◌==◌, if◌then◌else◌, Bool-cases,
}
use go_kis.Text.Equal.{Bytes}

unfoldable pub contains_byte : ℕ → Bytes → Bool
contains_byte b [] = false
contains_byte b (c ∷ s) = if c == b then true else contains_byte b s

cut_push : ℕ → Option (Bytes × Bytes) → Option (Bytes × Bytes)
cut_push c none = none
cut_push c (some (a, b)) = some (c ∷ a, b)

-- What stands before and after the first separator.
unfoldable pub cut : ℕ → Bytes → Option (Bytes × Bytes)
unfolding cut_push
cut sep [] = none
cut sep (c ∷ s) = if c == sep then some ([], s) else cut_push c (cut sep s)

unfoldable pub split_n : ℕ → ℕ → Bytes → List Bytes
split_n sep zero s = []
split_n sep (suc zero) s = s ∷ []
split_n sep (suc (suc n)) s = elim (cut sep s) [
  | none ↦ s ∷ []
  | some (a, b) ↦ a ∷ split_n sep (suc n) b
]

unfoldable pub split_push : ℕ → List Bytes → List Bytes
split_push c [] = (c ∷ []) ∷ []
split_push c (x ∷ xs) = (c ∷ x) ∷ xs

unfoldable pub split : ℕ → Bytes → List Bytes
unfolding split_push
split sep [] = [] ∷ []
split sep (c ∷ s) = if c == sep then [] ∷ split sep s else split_push c (split sep s)

-- strings.Join with a separator of one byte.
unfoldable pub join : ℕ → List Bytes → Bytes
join sep [] = []
join sep (x ∷ []) = x
join sep (x ∷ y ∷ xs) = x ++ (sep ∷ join sep (y ∷ xs))

pub cut-append :
    (sep : ℕ) (a b : Bytes) → contains_byte sep a ≡ false → cut sep (a ++ (sep ∷ b)) ≡ some (a, b)
unfolding cut contains_byte
cut-append sep [] b h = ground arith
cut-append sep (c ∷ a) b h = ground (arith, cut-append sep a b)

cut_push-eq-some :
    (c : ℕ) (m : Option (Bytes × Bytes)) {a b : Bytes}
    → cut_push c m ≡ some (a, b)
    → (a' : Bytes) × (m ≡ some (a', b)) × (a ≡ c ∷ a')
unfolding cut_push
cut_push-eq-some c none h = cc
cut_push-eq-some c (some (a', b')) h = (a', ground arith, ground arith)

-- What a cut finds: the text is put together again, and the first part has no separator.
pub cut_sound :
    (sep : ℕ) (s : Bytes) {a b : Bytes}
    → cut sep s ≡ some (a, b)
    → (s ≡ a ++ (sep ∷ b)) × (contains_byte sep a ≡ false)
unfolding cut contains_byte
cut_sound sep [] h = cc
cut_sound sep (c ∷ s) {a} {b} h = elim (Bool-cases (c == sep)) [
  | inl hit ↦ ground arith
  | inr miss ↦
      let (a', found, e) = cut_push-eq-some c (cut sep s) (rw miss at h) in
      let (joined, free) = cut_sound sep s found in (ground arith, ground arith)
]

-- No separator is found exactly in a text without one.
pub cut-none : (sep : ℕ) (s : Bytes) → contains_byte sep s ≡ false → cut sep s ≡ none
unfolding cut contains_byte
cut-none sep [] h = refl
cut-none sep (c ∷ s) h = ground (arith, cut-none sep s)

split_push-join :
    (sep c : ℕ) (xs : List Bytes) → xs ≢ [] → join sep (split_push c xs) ≡ c ∷ join sep xs
unfolding join split_push
split_push-join sep c [] h = absurd (h refl)
split_push-join sep c (x ∷ []) h = refl
split_push-join sep c (x ∷ y ∷ xs) h = refl

split_push-ne-nil : (c : ℕ) (xs : List Bytes) → split_push c xs ≢ []
unfolding split_push
split_push-ne-nil c [] = ground arith
split_push-ne-nil c (x ∷ xs) = ground arith

pub split-ne-nil : (sep : ℕ) (s : Bytes) → split sep s ≢ []
unfolding split
split-ne-nil sep [] = ground arith
split-ne-nil sep (c ∷ s) = ground (arith, split_push-ne-nil c (split sep s))

join-nil_cons : (sep : ℕ) (xs : List Bytes) → xs ≢ [] → join sep ([] ∷ xs) ≡ sep ∷ join sep xs
unfolding join
join-nil_cons sep [] h = absurd (h refl)
join-nil_cons sep (x ∷ xs) h = refl

pub join-split : (sep : ℕ) (s : Bytes) → join sep (split sep s) ≡ s
unfolding split
join-split sep [] = unfold join in refl
join-split sep (c ∷ s) = ground (
  arith,
  join-nil_cons sep (split sep s) (split-ne-nil sep s),
  split_push-join sep c (split sep s) (split-ne-nil sep s),
  join-split sep s,
)

-- One more part is split off in front of a separator.
pub split_n-append :
    (sep n : ℕ) (a b : Bytes)
    → contains_byte sep a ≡ false
    → split_n sep (suc (suc n)) (a ++ (sep ∷ b)) ≡ a ∷ split_n sep (suc n) b
unfolding split_n
split_n-append sep n a b h = rw (cut-append sep a b h, split_n)

split_n-ne-nil : (sep n : ℕ) (s : Bytes) → split_n sep (suc n) s ≢ []
unfolding split_n
split_n-ne-nil sep zero s = ground arith
split_n-ne-nil sep (suc n) s = ground arith

join-cons :
    (sep : ℕ) (x : Bytes) (xs : List Bytes) → xs ≢ [] → join sep (x ∷ xs) ≡ x ++ (sep ∷ join sep xs)
unfolding join
join-cons sep x [] h = absurd (h refl)
join-cons sep x (y ∷ xs) h = refl

join-split_n_step :
    (sep n : ℕ) (s : Bytes)
    → ((b : Bytes) → join sep (split_n sep (suc n) b) ≡ b)
    → join sep (split_n sep (suc (suc n)) s) ≡ s
unfolding split_n
join-split_n_step sep n s ih = elim (Option-cases (cut sep s)) [
  | inl e ↦ unfold join in rw (e, split_n)
  | inr ((a, b), e) ↦
      rw (e, split_n)
        (join-cons sep a (split_n sep (suc n) b) (split_n-ne-nil sep n b)
          ∙ ap (λ t. a ++ (sep ∷ t)) (ih b)
          ∙ sym (cut_sound sep s e).0)
]

pub join-split_n : (sep n : ℕ) (s : Bytes) → join sep (split_n sep (suc n) s) ≡ s
unfolding split_n join
join-split_n sep zero s = refl
join-split_n sep (suc n) s = join-split_n_step sep n s (λ b. join-split_n sep n b)

-- Every part but the last is free of the separator.
abbrev pub AllButLastFree : ℕ → List Bytes → Type 0
AllButLastFree sep [] = Unit {0}
AllButLastFree sep (x ∷ []) = Unit {0}
AllButLastFree sep (x ∷ y ∷ xs) = (contains_byte sep x ≡ false) × AllButLastFree sep (y ∷ xs)

AllButLastFree-cons :
    (sep : ℕ) (x : Bytes) (xs : List Bytes)
    → contains_byte sep x ≡ false
    → AllButLastFree sep xs
    → AllButLastFree sep (x ∷ xs)
AllButLastFree-cons sep x [] h r = tt
AllButLastFree-cons sep x (y ∷ xs) h r = (h, r)

pub split_n-AllButLastFree : (sep n : ℕ) (s : Bytes) → AllButLastFree sep (split_n sep (suc n) s)
unfolding split_n
split_n-AllButLastFree sep zero s = tt
split_n-AllButLastFree sep (suc n) s = elim (Option-cases (cut sep s)) [
  | inl e ↦ rw (e, split_n) tt
  | inr ((a, b), e) ↦
      rw (e, split_n)
        (AllButLastFree-cons sep a _ (cut_sound sep s e).1 (split_n-AllButLastFree sep n b))
]
