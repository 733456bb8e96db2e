-- ===== src/Ws/Reconnect/Resubscribe.antt =====
-- kis/ws/reconnect.go: resubscribe, the pass that restores the subscriptions on a new socket.
pub mod Restoring
pub mod Steady
pub mod Order
use go_kis.Prelude.{
  ℕ, Bool, true, false, not, ◌||◌, List, [], ◌∷◌, Option, none, some, if◌then◌else◌, ◌==◌, length,
}
use go_kis.Ws.Conn.{Conn, Subscription, ReconnectInfo, Answer, request, tr_type_subscribe}
use go_kis.Ws.Errors.{WsError}
use go_kis.Ws.Reconnect.{notify}

unfoldable pub generation_changed : Conn → ℕ → Bool
generation_changed c generation = c.closed || not (c.generation == generation)

unfoldable pub is_failure : Option WsError → Bool
is_failure none = false
is_failure (some e) = true

-- The loop over the subscriptions, each with what its request meets. The flag says that the loop
-- has come to its end; where no answer is left the pass still waits.
unfoldable pub restore : Conn → ℕ → List Subscription → List Answer → Conn × Bool
unfolding generation_changed is_failure
restore c generation [] answers = (c, true)
restore c generation (s ∷ subs) [] = (c, false)
restore c generation (s ∷ subs) (a ∷ answers) =
    let (d, error) = request c tr_type_subscribe s.tr s.key a in
    let rest = restore d generation subs answers in
    if generation_changed c generation
    then (c, false)
    else if is_failure error
    then (if generation_changed d generation then (d, false) else rest)
    else rest

unfoldable pub resubscribe : Conn → ℕ → ℕ → ℕ → List Answer → Conn
unfolding generation_changed
resubscribe c generation attempt now answers =
    let (d, finished) = restore c generation c.subs answers in
    if not finished
    then d
    else if generation_changed d generation
    then d
    else notify d (record {
      attempt = attempt;
      subscriptions = length c.subs;
      stopped = false;
      error = none;
      observed_at = now;
    })
