-- ===== src/Kis/Limiter.antt =====
-- kis/limiter.go: the spacing of transmissions. Times and durations are natural numbers of
-- nanoseconds, the zero time is 0.
pub mod Spacing
use go_kis.Prelude.{ℕ, ◌+◌, ◌-◌, Bool, List, [], ◌∷◌, ltb, if◌then◌else◌}

-- The clock is a parameter: its readings are inputs. The interval does not change.
pub record Limiter : Type 0 where
  pub interval : ℕ
  pub next : ℕ

-- How Wait ends: nil, at the time from which on the clock lets it pass, or the context's error.
pub data Waited : Type 0 where
  passed : ℕ → Waited
  cancelled : Waited

-- A call of Wait: what the clock reads, and whether the context ends before the wait does.
pub record Call : Type 0 where
  pub now : ℕ
  pub ended : Bool

unfoldable pub deadline_of : Limiter → ℕ → ℕ
deadline_of l now = if ltb l.next now then now else l.next

-- After the lock: the wait, or its absence.
unfoldable pub wait_until : ℕ → Call → Waited
wait_until deadline call =
    if ltb 0 (deadline - call.now)
    then if call.ended then Waited.cancelled else Waited.passed deadline
    else Waited.passed call.now

unfoldable pub wait : Limiter → Call → Limiter × Waited
unfolding deadline_of wait_until
wait l call =
    let deadline = deadline_of l call.now in
    (record l { next = deadline + l.interval }, wait_until deadline call)

-- The times at which the calls pass, in the order in which they take the lock.
unfoldable pub pass : Waited → List ℕ → List ℕ
pass (Waited.passed t) ts = t ∷ ts
pass Waited.cancelled ts = ts

unfoldable pub passes : Limiter → List Call → List ℕ
unfolding wait pass
passes l [] = []
passes l (call ∷ calls) = pass (wait l call).1 (passes (wait l call).0 calls)
