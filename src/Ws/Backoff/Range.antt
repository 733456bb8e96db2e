-- ===== src/Ws/Backoff/Range.antt =====
-- The floor and the ceiling of a normalized config.
use go_kis.Prelude.{
  ℕ, zero, suc, ◌≤◌, ◌≡◌, ◌⊎◌, refl, inl, inr, arith, ltb, ℤ, pos, negsuc, Bool-cases,
}
use go_kis.Ws.Backoff.Laws.{exact_limit}
use go_kis.Ws.Backoff.{is_unset, int_lt, rounds, normal_min, normal_max}

-- A duration that is exact as a floating-point number: at most some 104 days.
abbrev pub IsExact : ℤ → Type 0
IsExact (pos n) = n ≤ exact_limit
IsExact (negsuc n) = Unit

-- A floor and a ceiling as `normalized` leaves them.
pub record IsRange (min max : ℤ) (lo hi : ℕ) : Type 0 where
  pub min_pos : min ≡ pos lo
  pub max_pos : max ≡ pos hi
  pub positive : 1 ≤ lo
  pub ordered : lo ≤ hi
  pub exact : hi ≤ exact_limit

pub normal_min_pos :
    (min : ℤ) → IsExact min → (lo : ℕ) × (normal_min min ≡ pos lo) × (1 ≤ lo) × (lo ≤ exact_limit)
unfolding normal_min is_unset
normal_min_pos (pos zero) h = (500000000, refl, omega arith, omega arith)
normal_min_pos (pos (suc n)) h = (suc n, refl, omega arith, h)
normal_min_pos (negsuc n) h = (500000000, refl, omega arith, omega arith)

-- The ceiling is the floor, or an exact one that is not below it.
pub normal_max-cases :
    (lo : ℕ) (max : ℤ)
    → IsExact max
    → (normal_max (pos lo) max ≡ pos lo)
      ⊎ ((hi : ℕ) × (normal_max (pos lo) max ≡ pos hi) × (lo ≤ hi) × (hi ≤ exact_limit))
unfolding normal_max is_unset int_lt
normal_max-cases lo (pos zero) h = elim (Bool-cases (ltb 30000000000 lo)) [
  | inl low ↦ inl (rw (low) refl)
  | inr high ↦ inr (30000000000, rw (high) refl, ground arith, omega arith)
]
normal_max-cases lo (pos (suc n)) h = elim (Bool-cases (ltb (suc n) lo)) [
  | inl low ↦ inl (rw (low) refl)
  | inr high ↦ inr (suc n, rw (high) refl, ground arith, h)
]
normal_max-cases lo (negsuc n) h = elim (Bool-cases (ltb 30000000000 lo)) [
  | inl low ↦ inl (rw (low) refl)
  | inr high ↦ inr (30000000000, rw (high) refl, ground arith, omega arith)
]

pub normal_max_pos :
    (lo : ℕ) (max : ℤ)
    → 1 ≤ lo
    → lo ≤ exact_limit
    → IsExact max
    → (hi : ℕ) × IsRange (pos lo) (normal_max (pos lo) max) lo hi
normal_max_pos lo max positive fits h = elim (normal_max-cases lo max h) [
  | inl e ↦ (
    lo,
    record {
      min_pos = refl;
      max_pos = e;
      positive = positive;
      ordered = omega arith;
      exact = fits;
    },
  )
  | inr (hi, e, ordered, exact) ↦ (
    hi,
    record { min_pos = refl; max_pos = e; positive = positive; ordered = ordered; exact = exact },
  )
]

-- The floor and the ceiling are positive, in order and exact.
pub normalized-IsRange :
    (min max : ℤ)
    → IsExact min
    → IsExact max
    → (lo : ℕ) × (hi : ℕ) × IsRange (normal_min min) (normal_max (normal_min min) max) lo hi
normalized-IsRange min max hmin hmax =
    let (lo, e, positive, fits) = normal_min_pos min hmin in
    let (hi, range) = normal_max_pos lo max positive fits hmax in (lo, hi, rw (e) range)

pub rounds_pos : (attempt : ℤ) → (n : ℕ) × (rounds attempt ≡ pos n)
unfolding rounds
rounds_pos (pos zero) = (0, refl)
rounds_pos (pos (suc n)) = (n, refl)
rounds_pos (negsuc n) = (0, refl)
