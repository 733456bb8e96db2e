-- ===== src/Ws/Backoff/Bounded.antt =====
-- The bounds of a delay.
use go_kis.Prelude.{
  ℕ, ◌≤◌, ◌≡◌, ◌⊎◌, inl, inr, true, arith, ◌||◌, if◌then◌else◌, ℤ, pos, Bool-cases,
}
use go_kis.Ws.Backoff.Laws.{Laws, exact_limit}
use go_kis.Ws.Backoff.{
  Float64, BackoffConfig, normal_factor, normal_jitter, normalized, capped, jittered, raised, delay,
}
use go_kis.Ws.Backoff.Range.{IsExact, IsRange, normalized-IsRange, rounds_pos}

module _ (float : Float64) (laws : Laws float) where
  open float use {
    F, zero_float, one_float, two_float, fifth_float, of_int, to_duration, lt, eq, is_inf, mul, sub,
    pow,
  }
  open laws use {
    Le, le_trans, le_of_lt, le_of_not_lt, of_int_mono, of_int_zero, one_nonneg, one-le-two,
    one-le-one, pow_nonneg, mul_nonneg, mul_shrinks, sub_shrinks, truncates,
  }

  -- A factor that is no NaN.
  abbrev pub IsNumber : F → Type 0
  IsNumber x = (lt x one_float ≡ true) ⊎ Le one_float x

  one-le-normal_factor : (f : F) → IsNumber f → Le one_float (normal_factor float f)
  unfolding normal_factor
  one-le-normal_factor f (inl small) = rw (small) one-le-two
  one-le-normal_factor f (inr large) = elim (Bool-cases (lt f one_float)) [
    | inl small ↦ rw (small, normal_factor) one-le-two
    | inr big ↦ rw (big, normal_factor) large
  ]

  clamped-le-one :
      (j : F)
      → lt zero_float (if lt one_float j then one_float else j) ≡ true
      → Le (if lt one_float j then one_float else j) one_float
  clamped-le-one j h = elim (Bool-cases (lt one_float j)) [
    | inl above ↦ rw (above) one-le-one
    | inr below ↦
        rw (below)
          (le_of_not_lt one_float j one_nonneg (le_of_lt zero_float j (rw (below) at h)) below)
  ]

  -- A jitter that is taken off is at most all of the delay.
  normal_jitter-le-one :
      (j : F) → lt zero_float (normal_jitter float j) ≡ true → Le (normal_jitter float j) one_float
  unfolding normal_jitter
  normal_jitter-le-one j h = clamped-le-one (if eq j zero_float then fifth_float else j) h

  nonneg : (n : ℕ) → Le zero_float (of_int (pos n))
  nonneg n = rw (← of_int_zero) (of_int_mono 0 n (omega arith))

  capped_bounds :
      (hi : ℕ) (grown : F)
      → Le zero_float grown
      → Le zero_float (capped float (of_int (pos hi)) grown)
        × Le (capped float (of_int (pos hi)) grown) (of_int (pos hi))
  unfolding capped
  capped_bounds hi grown h = elim (Bool-cases (lt (of_int (pos hi)) grown || is_inf grown)) [
    | inl above ↦ rw (above, capped) (nonneg hi, of_int_mono hi hi (omega arith))
    | inr below ↦
        rw (below, capped) (h, le_of_not_lt (of_int (pos hi)) grown (nonneg hi) h (ground arith))
  ]

  jittered_bounds :
      (hi : ℕ) (j draw grown : F)
      → hi ≤ exact_limit
      → Le zero_float draw
      → Le draw one_float
      → (lt zero_float j ≡ true → Le j one_float)
      → Le zero_float grown
      → Le grown (of_int (pos hi))
      → Le zero_float (jittered float j draw grown)
        × Le (jittered float j draw grown) (of_int (pos hi))
  unfolding jittered
  jittered_bounds hi j draw grown exact low high share h k = elim (Bool-cases (lt zero_float j)) [
    | inl some_jitter ↦
        let low_j = le_of_lt zero_float j some_jitter in
        let part = mul_shrinks grown j hi exact h k low_j (share some_jitter) in
        let piece =
          mul_shrinks (mul grown j) draw hi exact part.0 (le_trans _ grown _ part.1 k) low high in
        let rest =
          sub_shrinks grown (mul (mul grown j) draw) hi exact piece.0
            (le_trans _ (mul grown j) _ piece.1 part.1) k in
        rw (some_jitter, jittered) (rest.0, le_trans _ grown _ rest.1 k)
    | inr no_jitter ↦ rw (no_jitter, jittered) (h, k)
  ]

  raised_bounds :
      (lo hi : ℕ) (grown : F)
      → lo ≤ hi
      → Le zero_float grown
      → Le grown (of_int (pos hi))
      → Le (of_int (pos lo)) (raised float (of_int (pos lo)) grown)
        × Le (raised float (of_int (pos lo)) grown) (of_int (pos hi))
  unfolding raised
  raised_bounds lo hi grown ordered h k = elim (Bool-cases (lt grown (of_int (pos lo)))) [
    | inl low ↦ rw (low, raised) (of_int_mono lo lo (omega arith), of_int_mono lo hi ordered)
    | inr high ↦ rw (high, raised) (le_of_not_lt grown (of_int (pos lo)) h (nonneg lo) high, k)
  ]

  delay_between :
      (lo hi n : ℕ) (factor jitter draw : F)
      → 1 ≤ lo
      → lo ≤ hi
      → hi ≤ exact_limit
      → Le one_float factor
      → (lt zero_float jitter ≡ true → Le jitter one_float)
      → Le zero_float draw
      → Le draw one_float
      → (d : ℕ) × (to_duration (
            raised float (of_int (pos lo)) (
              jittered float jitter draw (
                capped float
                  (of_int (pos hi))
                  (mul (of_int (pos lo)) (pow factor (of_int (pos n)))))))
          ≡ pos d)
        × (lo ≤ d)
        × (d ≤ hi)
  delay_between lo hi n factor jitter draw positive ordered exact grows share low high =
      let grown = mul (of_int (pos lo)) (pow factor (of_int (pos n))) in
      let (c0, c1) =
        capped_bounds hi grown
          (mul_nonneg lo _ positive (omega arith) (pow_nonneg factor n grows)) in
      let (j0, j1) = jittered_bounds hi jitter draw _ exact low high share c0 c1 in
      let (r0, r1) = raised_bounds lo hi _ ordered j0 j1 in
      truncates lo hi _ (omega arith) exact r0 r1

  -- With a factor that is no NaN, and a floor and a ceiling that are exact as floating-point
  -- numbers, every delay of the normalized config lies between the floor and the ceiling that it
  -- has then, whatever the jitter, the draw from [0, 1] and the attempt; the floor is positive.
  pub delay-normalized :
      (b : BackoffConfig float) (draw : F) (attempt : ℤ)
      → IsExact b.min
      → IsExact b.max
      → IsNumber b.factor
      → Le zero_float draw
      → Le draw one_float
      → (lo : ℕ) × (hi : ℕ) × (d : ℕ) × IsRange
          (normalized float b).min
          (normalized float b).max
          lo
          hi
        × (delay float (normalized float b) draw attempt ≡ pos d)
        × (lo ≤ d)
        × (d ≤ hi)
  unfolding delay normalized
  delay-normalized b draw attempt exact_min exact_max number low high =
      let (lo, hi, range) = normalized-IsRange b.min b.max exact_min exact_max in
      let (n, round) = rounds_pos attempt in
      let (d, value, above, below) =
        delay_between lo hi n (normal_factor float b.factor) (normal_jitter float b.jitter) draw
          range.positive range.ordered range.exact (one-le-normal_factor b.factor number)
          (normal_jitter-le-one b.jitter) low high in
      (lo, hi, d, range, rw (delay, range.max_pos, range.min_pos, round) value, above, below)
