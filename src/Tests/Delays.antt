-- ===== src/Tests/Delays.antt =====
-- Delays at concrete inputs.
use go_kis.Prelude.{
  leb, if◌then◌else◌, ◌+◌, ◌/◌, All, List, [], ◌∷◌, ◌++◌, some, length, ℕ, zero, suc, ◌-◌, ◌*◌, ◌≤◌,
  ◌≡◌, refl, inr, true, false, arith, ltb, ◌==◌, ℤ, pos, negsuc,
}
use native.Mathlib.Nat.{mul-le-mul_left}
use go_kis.Ws.Backoff.{BackoffConfig, Float64, delay, normalized}
use go_kis.Ws.Backoff.Bounded.{delay-normalized}
use go_kis.Ws.Backoff.Range.{IsRange}
use go_kis.Ws.Backoff.Laws.{Laws, exact_limit}
use go_kis.Text.{codes}
use go_kis.Ws.Reconnect.{Move}
use go_kis.Ws.System.{Action, act, perform, start}
use go_kis.Ws.System.Pacing.{sleeps, delays, count_from, IsPause, perform-delays}
use go_kis.Tests.Samples.{plain_block, sample_unmarshal, busy}

abbrev nat_of : ℤ → ℕ
nat_of (pos n) = n
nat_of (negsuc n) = 0

-- Numbers in thousandths, which round as floating-point numbers do: a product is rounded down, and
-- an integer above 2 ^ 53 to an even one.
abbrev thousandth : ℕ → ℕ
thousandth n = n / 1000

abbrev rounded : ℕ → ℕ
rounded n = if leb n exact_limit then n else 2 * (n / 2)

-- With a whole exponent.
power : ℕ → ℕ → ℕ
power x zero = 1000
power x (suc n) = thousandth (x * power x n)

abbrev thousandths : Float64
thousandths = record {
  F = ℕ;
  zero_float = 0;
  one_float = 1000;
  two_float = 2000;
  fifth_float = 200;
  of_int = λ i. 1000 * rounded (nat_of i);
  to_duration = λ x. pos (thousandth x);
  lt = ltb;
  eq = ◌==◌;
  is_inf = λ x. false;
  mul = λ x y. thousandth (x * y);
  sub = ◌-◌;
  pow = λ x y. power x (thousandth y);
}

-- As with float64, 2 ^ 53 + 1 becomes 2 ^ 53.
rounds_off : thousandths.of_int (pos (exact_limit + 1)) ≡ thousandths.of_int (pos exact_limit)
rounds_off = refl

rounded_mono : (a b : ℕ) → a ≤ b → 1000 * rounded a ≤ 1000 * rounded b
rounded_mono a b h = ground arith

thousandth_shrinks : (x y : ℕ) → y ≤ 1000 → (0 ≤ thousandth (x * y)) × (thousandth (x * y) ≤ x)
thousandth_shrinks x y h =
    let most : x * y ≤ x * 1000 = mul-le-mul_left x h in (omega arith, omega arith)

truncates_thousandths :
    (a b x : ℕ)
    → a ≤ exact_limit
    → b ≤ exact_limit
    → 1000 * rounded a ≤ x
    → x ≤ 1000 * rounded b
    → (a ≤ thousandth x) × (thousandth x ≤ b)
truncates_thousandths a b x small exact p q = (ground arith, ground arith)

le_of_ltb : (x y : ℕ) → ltb x y ≡ true → x ≤ y
le_of_ltb x y h = ground arith

le_of_not_ltb : (x y : ℕ) → ltb x y ≡ false → y ≤ x
le_of_not_ltb x y h = ground arith

abbrev laws_thousandths : Laws thousandths
laws_thousandths = record {
  Le = λ x y. x ≤ y;
  le_trans = λ x y z p q. omega arith;
  le_of_lt = le_of_ltb;
  le_of_not_lt = λ x y p q h. le_of_not_ltb x y h;
  of_int_mono = rounded_mono;
  of_int_zero = refl;
  one_nonneg = omega arith;
  one-le-two = omega arith;
  one-le-one = omega arith;
  pow_nonneg = λ f n h. omega arith;
  mul_nonneg = λ n x p q r. omega arith;
  mul_shrinks = λ x y n e p q r h. thousandth_shrinks x y h;
  sub_shrinks = λ x y n e p q r. (omega arith, omega arith);
  truncates = λ a b x l h p q.
      let (low, high) = truncates_thousandths a b x l h p q in (thousandth x, refl, low, high);
}

abbrev backoff : BackoffConfig thousandths
backoff = record { min = pos 500000000; max = pos 0; factor = 1500; jitter = 500 }

delay-normalized_example :
    (lo : ℕ) × (hi : ℕ) × (d : ℕ) × IsRange
      (normalized thousandths backoff).min
      (normalized thousandths backoff).max
      lo
      hi
    × (delay thousandths (normalized thousandths backoff) 250 (pos 4) ≡ pos d)
    × (lo ≤ d)
    × (d ≤ hi)
delay-normalized_example =
    delay-normalized thousandths laws_thousandths backoff 250 (pos 4) (omega arith) (omega arith)
      (inr (omega arith)) (omega arith) (omega arith)

fourth_delay : delay thousandths (normalized thousandths backoff) 250 (pos 4) ≡ pos 1476562500
unfolding delay normalized power
fourth_delay = refl

-- Two sockets in turn break, the second one after it was in use.
abbrev broken_twice : List Action
broken_twice = broken ++ broken
  where
    broken : List Action
    broken =
        Action.reader (Move.read_error (codes "EOF"))
        ∷ Action.reader (Move.proceed 1)
        ∷ Action.reader (Move.proceed 2)
        ∷ Action.reader (Move.proceed 3)
        ∷ Action.reader Move.timer
        ∷ Action.reader (Move.key_reply (some (codes "k")))
        ∷ Action.reader (Move.dial_reply (some 9))
        ∷ []

slept_twice : sleeps plain_block sample_unmarshal (start busy) broken_twice ≡ 1 ∷ 2 ∷ []
unfolding sleeps act go_kis.Text.is_empty go_kis.Ws.Errors.is_approval_rejected
    go_kis.Ws.System.Pacing.falls_asleep go_kis.Ws.Reconnect.move go_kis.Ws.Conn.fail_pending
    go_kis.Ws.Conn.resolve_all go_kis.Ws.Conn.verdict_of go_kis.Ws.Errors.is_session_occupied
slept_twice = refl

perform-delays_example :
    (sleeps plain_block sample_unmarshal (start busy) broken_twice
      ≡ count_from 1 (length (sleeps plain_block sample_unmarshal (start busy) broken_twice)))
    × All
        (IsPause plain_block sample_unmarshal thousandths laws_thousandths
          (normalized thousandths backoff))
        (delays plain_block sample_unmarshal thousandths
          (normalized thousandths backoff)
          (λ n. 250)
          (start busy)
          broken_twice)
perform-delays_example =
    perform-delays plain_block sample_unmarshal thousandths laws_thousandths backoff (λ n. 250) busy
      broken_twice (omega arith) (omega arith) (inr (omega arith)) (λ n. omega arith)
      (λ n. omega arith)
