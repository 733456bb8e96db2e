-- ===== src/Kis/Limiter/Spacing.antt =====
-- How many transmissions the limiter lets through in a stretch of time.
use go_kis.Prelude.{
  ℕ, zero, suc, ◌+◌, ◌*◌, ◌≤◌, ◌⊎◌, inl, inr, List, [], ◌∷◌, arith, ltb, leb, if◌then◌else◌, ◌&&◌,
  Bool-cases, ◌≡◌,
}
use go_kis.Kis.Limiter.{Limiter, Call, Waited, deadline_of, wait_until, wait, pass, passes}

-- The first time is not before `lo`, and each next one at least an interval later.
abbrev pub IsSpaced : ℕ → ℕ → List ℕ → Type 0
IsSpaced interval lo [] = Unit
IsSpaced interval lo (t ∷ ts) = (lo ≤ t) × IsSpaced interval (t + interval) ts

-- How many of the times stand in [from, to).
abbrev pub within : ℕ → ℕ → List ℕ → ℕ
within from to [] = 0
within from to (t ∷ ts) = (if leb from t && ltb t to then 1 else 0) + within from to ts

IsSpaced-weaken :
    (interval lo lo' : ℕ) (ts : List ℕ)
    → lo ≤ lo'
    → IsSpaced interval lo' ts
    → IsSpaced interval lo ts
IsSpaced-weaken interval lo lo' [] h s = tt
IsSpaced-weaken interval lo lo' (t ∷ ts) h s = (omega arith, s.1)

deadline_of-le : (l : Limiter) (now : ℕ) → (l.next ≤ deadline_of l now) × (now ≤ deadline_of l now)
unfolding deadline_of
deadline_of-le l now = ground arith

-- A call passes at its deadline, or not at all.
wait_until-cases :
    (deadline : ℕ) (call : Call)
    → call.now ≤ deadline
    → (wait_until deadline call ≡ Waited.passed deadline)
      ⊎ (wait_until deadline call ≡ Waited.cancelled)
unfolding wait_until
wait_until-cases deadline call h = ground arith

pass-IsSpaced :
    (interval lo deadline : ℕ) (w : Waited) (ts : List ℕ)
    → (w ≡ Waited.passed deadline) ⊎ (w ≡ Waited.cancelled)
    → lo ≤ deadline
    → IsSpaced interval (deadline + interval) ts
    → IsSpaced interval lo (pass w ts)
unfolding pass
pass-IsSpaced interval lo deadline w ts (inl e) h s = rw (e, pass) (h, s)
pass-IsSpaced interval lo deadline w ts (inr e) h s =
    rw (e, pass) (IsSpaced-weaken interval lo (deadline + interval) ts (omega arith) s)

pub passes-IsSpaced :
    (l : Limiter) (calls : List Call) → IsSpaced l.interval l.next (passes l calls)
unfolding passes wait
passes-IsSpaced l [] = tt
passes-IsSpaced l (call ∷ calls) =
    let (after, due) = deadline_of-le l call.now in
    pass-IsSpaced l.interval l.next (deadline_of l call.now)
      (wait_until (deadline_of l call.now) call) _
      (wait_until-cases (deadline_of l call.now) call due) after
      (passes-IsSpaced (wait l call).0 calls)

IsSpaced-within :
    (interval lo from to k : ℕ) (ts : List ℕ)
    → IsSpaced interval lo ts
    → (to ≤ from + k * interval) ⊎ (to ≤ lo + k * interval)
    → within from to ts ≤ k
IsSpaced-within interval lo from to k [] s h = omega arith
IsSpaced-within interval lo from to zero (t ∷ ts) s h =
    let ih = IsSpaced-within interval (t + interval) from to zero ts s.1 (ground arith) in
    ground arith
IsSpaced-within interval lo from to (suc k) (t ∷ ts) s h =
    elim (Bool-cases (leb from t && ltb t to)) [
      | inl inside ↦
          let ih = IsSpaced-within interval (t + interval) from to k ts s.1 (inr (ground arith)) in
          ground arith
      | inr outside ↦
          let ih = IsSpaced-within interval (t + interval) from to (suc k) ts s.1 (ground arith) in
          ground arith
    ]

-- However the calls come, a stretch of `k` intervals sees at most `k` of them pass.
pub within-passes :
    (l : Limiter) (calls : List Call) (from k : ℕ)
    → within from (from + k * l.interval) (passes l calls) ≤ k
within-passes l calls from k =
    IsSpaced-within l.interval l.next from (from + k * l.interval) k (passes l calls)
      (passes-IsSpaced l calls) (inl (omega arith))
