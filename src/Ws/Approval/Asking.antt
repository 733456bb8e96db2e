-- ===== src/Ws/Approval/Asking.antt =====
-- How often the provider asks the server for a key, and what it answers.
use go_kis.Prelude.{ℕ, ◌+◌, ◌≤◌, ◌≡◌, List, [], ◌∷◌, Option, none, some, arith, if◌then◌else◌}
use go_kis.Text.{Bytes, is_empty}
use go_kis.Ws.Approval.{
  ClientProvider, Call, issue_reply, issue, approval_key, reissue_key, answer, serve,
}

-- The key in the cache, as an answer.
abbrev pub held : ClientProvider → Option Bytes
held p = if is_empty p.cached then none else some p.cached

abbrev pub is_reissue : Call → ℕ
is_reissue (Call.approval_key_call reply) = 0
is_reissue (Call.reissue_call reply) = 1

abbrev pub is_failed : Option Bytes → ℕ
is_failed none = 1
is_failed (some key) = 0

abbrev pub reissues : List Call → ℕ
reissues [] = 0
reissues (call ∷ calls) = is_reissue call + reissues calls

abbrev pub failures : List (Option Bytes) → ℕ
failures [] = 0
failures (key ∷ keys) = is_failed key + failures keys

-- 1 while the cache is empty: the next call has to ask.
abbrev pub owed : ClientProvider → ℕ
owed p = if is_empty p.cached then 1 else 0

-- Whatever is called, the answer is the key that the cache holds afterwards, or an error where it
-- holds none.
pub answer-held : (p : ClientProvider) (call : Call) → (answer p call).1 ≡ held (answer p call).0
unfolding answer approval_key reissue_key issue issue_reply is_empty
answer-held p (Call.approval_key_call none) = ground arith
answer-held p (Call.approval_key_call (some key)) = ground arith
answer-held p (Call.reissue_call none) = ground arith
answer-held p (Call.reissue_call (some key)) = ground arith

answer-asked :
    (p : ClientProvider) (call : Call)
    → (answer p call).0.asked + owed (answer p call).0
      ≤ p.asked + owed p + is_reissue call + is_failed (answer p call).1
unfolding answer approval_key reissue_key issue issue_reply is_empty
answer-asked p (Call.approval_key_call none) = ground arith
answer-asked p (Call.approval_key_call (some key)) = ground arith
answer-asked p (Call.reissue_call none) = ground arith
answer-asked p (Call.reissue_call (some key)) = ground arith

-- The server is asked at most once at first, once for each reissue and once more for each call
-- that failed: a cached key is never asked for again.
pub serve-asked :
    (p : ClientProvider) (calls : List Call)
    → (serve p calls).0.asked ≤ p.asked + owed p + reissues calls + failures (serve p calls).1
unfolding serve
serve-asked p [] = omega arith
serve-asked p (call ∷ calls) =
    let now = answer-asked p call in let later = serve-asked (answer p call).0 calls in omega arith
