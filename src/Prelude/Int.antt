-- ===== src/Prelude/Int.antt =====
-- Signed integers over the native numbers, as Go's int and int64 values.
use Prim.Native.Nat.{ℕ, suc, ◌≤◌}

-- `negsuc n` is -(n + 1).
pub data ℤ : Type 0 where
  pos : ℕ → ℤ
  negsuc : ℕ → ℤ

-- The integer -n.
abbrev pub neg_ℕ : ℕ → ℤ
neg_ℕ Prim.Native.Nat.zero = pos 0
neg_ℕ (suc n) = negsuc n
