-- ===== src/Ws/Approval.antt =====
-- kis/ws/approval.go: the provider that caches the approval key of a client.
pub mod Asking
use go_kis.Prelude.{ℕ, ◌+◌, Bool, not, List, [], ◌∷◌, Option, none, some, if◌then◌else◌}
use go_kis.Text.{Bytes, is_empty}

-- `asked` counts the calls of Client.IssueApprovalKey.
pub record ClientProvider : Type 0 where
  pub has_client : Bool
  pub cached : Bytes
  pub asked : ℕ

unfoldable pub new_client_approval_provider : Bool → ClientProvider
new_client_approval_provider has_client = record { has_client = has_client; cached = []; asked = 0 }

-- `reply` is what Client.IssueApprovalKey gives, `none` an error; the result `none` is
-- errApprovalUnavailable.
unfoldable pub issue_reply : ClientProvider → Option Bytes → ClientProvider × Option Bytes
issue_reply p none = (p, none)
issue_reply p (some key) = if is_empty key then (p, none) else (record p { cached = key }, some key)

unfoldable pub issue : ClientProvider → Option Bytes → ClientProvider × Option Bytes
unfolding issue_reply
issue p reply =
    if not p.has_client then (p, none) else issue_reply (record p { asked = p.asked + 1 }) reply

unfoldable pub approval_key : ClientProvider → Option Bytes → ClientProvider × Option Bytes
approval_key p reply = if not (is_empty p.cached) then (p, some p.cached) else issue p reply

unfoldable pub reissue_key : ClientProvider → Option Bytes → ClientProvider × Option Bytes
reissue_key p reply = issue (record p { cached = [] }) reply

-- The calls of a provider, each with the reply that it gets if it asks.
pub data Call : Type 0 where
  approval_key_call : Option Bytes → Call
  reissue_call : Option Bytes → Call

unfoldable pub answer : ClientProvider → Call → ClientProvider × Option Bytes
answer p (Call.approval_key_call reply) = approval_key p reply
answer p (Call.reissue_call reply) = reissue_key p reply

unfoldable pub serve : ClientProvider → List Call → ClientProvider × List (Option Bytes)
serve p [] = (p, [])
serve p (call ∷ calls) =
    let (q, key) = answer p call in let (r, keys) = serve q calls in (r, key ∷ keys)
