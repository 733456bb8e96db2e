-- ===== src/Ws/Backoff/Laws.antt =====
-- What a delay relies on of float64 and package math.
use go_kis.Prelude.{ℕ, ◌^◌, ◌≤◌, ◌≡◌, true, false, pos}
use go_kis.Ws.Backoff.{Float64}

-- Integers up to this one are exact as floating-point numbers.
abbrev pub exact_limit : ℕ
exact_limit = 2 ^ 53

-- What IEEE 754 and the documentation of package math say of the operations. `Le` is <= between
-- numbers; it holds of no NaN. Beyond the limit an integer is rounded, and may change.
pub record Laws (float : Float64) : Type 1 where
  pub Le : float.F → float.F → Type 0
  pub le_trans : (x y z : float.F) → Le x y → Le y z → Le x z
  pub le_of_lt : (x y : float.F) → float.lt x y ≡ true → Le x y
  pub le_of_not_lt :
      (x y : float.F)
      → Le float.zero_float x
      → Le float.zero_float y
      → float.lt x y ≡ false
      → Le y x
  pub of_int_mono : (a b : ℕ) → a ≤ b → Le (float.of_int (pos a)) (float.of_int (pos b))
  pub of_int_zero : float.of_int (pos 0) ≡ float.zero_float
  pub one_nonneg : Le float.zero_float float.one_float
  pub one-le-two : Le float.one_float float.two_float
  pub one-le-one : Le float.one_float float.one_float
  pub pow_nonneg :
      (f : float.F) (n : ℕ)
      → Le float.one_float f
      → Le float.zero_float (float.pow f (float.of_int (pos n)))
  pub mul_nonneg :
      (n : ℕ) (x : float.F)
      → 1 ≤ n
      → n ≤ exact_limit
      → Le float.zero_float x
      → Le float.zero_float (float.mul (float.of_int (pos n)) x)
  pub mul_shrinks :
      (x y : float.F) (n : ℕ)
      → n ≤ exact_limit
      → Le float.zero_float x
      → Le x (float.of_int (pos n))
      → Le float.zero_float y
      → Le y float.one_float
      → Le float.zero_float (float.mul x y) × Le (float.mul x y) x
  pub sub_shrinks :
      (x y : float.F) (n : ℕ)
      → n ≤ exact_limit
      → Le float.zero_float y
      → Le y x
      → Le x (float.of_int (pos n))
      → Le float.zero_float (float.sub x y) × Le (float.sub x y) x
  pub truncates :
      (a b : ℕ) (x : float.F)
      → a ≤ exact_limit
      → b ≤ exact_limit
      → Le (float.of_int (pos a)) x
      → Le x (float.of_int (pos b))
      → (d : ℕ) × (float.to_duration x ≡ pos d) × (a ≤ d) × (d ≤ b)
