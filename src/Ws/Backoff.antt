-- ===== src/Ws/Backoff.antt =====
-- kis/ws/backoff.go: the delays between reconnects. The float64 operations, math.Pow and the
-- conversions from and to a time.Duration are a record of operations; a Duration is an integer of
-- nanoseconds.
pub mod Laws
pub mod Range
pub mod Bounded
use go_kis.Prelude.{
  ℕ, zero, suc, ◌*◌, ◌-◌, ◌^◌, ◌≤◌, ◌≡◌, Bool, true, false, ◌||◌, if◌then◌else◌, ltb, ℤ, pos,
  negsuc,
}

pub record Float64 : Type 1 where
  pub F : Type 0
  pub zero_float : F
  pub one_float : F
  pub two_float : F
  pub fifth_float : F
  pub of_int : ℤ → F
  pub to_duration : F → ℤ
  pub lt : F → F → Bool
  pub eq : F → F → Bool
  pub is_inf : F → Bool
  pub mul : F → F → F
  pub sub : F → F → F
  pub pow : F → F → F

abbrev pub default_backoff_min : ℤ
default_backoff_min = pos 500000000

abbrev pub default_backoff_max : ℤ
default_backoff_max = pos 30000000000

unfoldable pub is_unset : ℤ → Bool
is_unset (pos zero) = true
is_unset (pos (suc n)) = false
is_unset (negsuc n) = true

-- Less, on integers.
unfoldable pub int_lt : ℤ → ℤ → Bool
int_lt (pos a) (pos b) = ltb a b
int_lt (pos a) (negsuc b) = false
int_lt (negsuc a) (pos b) = true
int_lt (negsuc a) (negsuc b) = ltb b a

unfoldable pub normal_min : ℤ → ℤ
unfolding is_unset
normal_min min = if is_unset min then default_backoff_min else min

-- The ceiling, given the floor.
unfoldable pub normal_max : ℤ → ℤ → ℤ
unfolding is_unset int_lt
normal_max min max =
    let given = if is_unset max then default_backoff_max else max in
    if int_lt given min then min else given

-- attempt - 1, where an attempt below 1 counts as 1.
unfoldable pub rounds : ℤ → ℤ
rounds (pos zero) = pos 0
rounds (pos (suc n)) = pos n
rounds (negsuc n) = pos 0

module _ (float : Float64) where
  open float use {
    F, zero_float, one_float, two_float, fifth_float, of_int, to_duration, lt, eq, is_inf, mul, sub,
    pow,
  }

  pub record BackoffConfig : Type 0 where
    pub min : ℤ
    pub max : ℤ
    pub factor : F
    pub jitter : F

  unfoldable pub normal_factor : F → F
  normal_factor factor = if lt factor one_float then two_float else factor

  unfoldable pub normal_jitter : F → F
  normal_jitter jitter =
      let given = if eq jitter zero_float then fifth_float else jitter in
      if lt one_float given then one_float else given

  unfoldable pub normalized : BackoffConfig → BackoffConfig
  unfolding normal_min normal_max normal_factor normal_jitter
  normalized b = record {
    min = normal_min b.min;
    max = normal_max (normal_min b.min) b.max;
    factor = normal_factor b.factor;
    jitter = normal_jitter b.jitter;
  }

  unfoldable pub capped : F → F → F
  capped max grown = if lt max grown || is_inf grown then max else grown

  -- `draw` is what rand.Float64 gives.
  unfoldable pub jittered : F → F → F → F
  jittered jitter draw grown =
      if lt zero_float jitter then sub grown (mul (mul grown jitter) draw) else grown

  unfoldable pub raised : F → F → F
  raised min grown = if lt grown min then min else grown

  unfoldable pub delay : BackoffConfig → F → ℤ → ℤ
  unfolding rounds capped jittered raised
  delay b draw attempt =
      let grown = mul (of_int b.min) (pow b.factor (of_int (rounds attempt))) in
      to_duration (raised (of_int b.min) (jittered b.jitter draw (capped (of_int b.max) grown)))
