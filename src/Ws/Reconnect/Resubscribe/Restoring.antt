-- ===== src/Ws/Reconnect/Resubscribe/Restoring.antt =====
-- What a restoring pass sends, and when it loses a subscription.
use go_kis.Prelude.{ℕ, ◌≡◌, refl, ◌⊎◌, inl, inr, false, Option, none, some, arith, Option-cases}
use go_kis.Text.{Bytes, text_eq, text_eq_refl}
use go_kis.Ws.Conn.Subscriptions.{finish-has_subscription}
use go_kis.Ws.Conn.{
  Conn, PendingAck, Answer, Outcome, Begun, begin, write, request, request_rest, request_frame,
  tr_type_subscribe, has_subscription,
}
use go_kis.Kis.Subscribe.{Subscribe}
use go_kis.Ws.Errors.{WsError}

-- The frame of the request cannot be sent: there is no socket at the moment, or its Write fails.
abbrev pub IsUnsent : Conn → Answer → Type 0
IsUnsent c a = (c.transport ≡ none) ⊎ ((e : WsError) × (a.write_failure ≡ some e))

pub begin_open :
    (c : Conn) (tr_type tr key : Bytes)
    → c.closed ≡ false
    → (b : Begun) × (begin c tr_type tr key ≡ some b) × (b.transport ≡ c.transport)
unfolding begin
begin_open c tr_type tr key h = elim (Option-cases (begin c tr_type tr key)) [
  | inl e ↦ absurd (ground arith)
  | inr (b, e) ↦ (b, e, ground arith)
]

write-unsent :
    (c : Conn) (t : Option ℕ) (frame : Subscribe) (f : Option WsError)
    → (t ≡ none) ⊎ ((e : WsError) × (f ≡ some e))
    → (e : WsError) × ((write c t frame f).1 ≡ some e)
unfolding write
write-unsent c none frame f h = (WsError.conn_closed, refl)
write-unsent c (some t) frame f (inl e) = cc
write-unsent c (some t) frame f (inr (e, h)) = (e, h)

request_rest-failed :
    (tr key : Bytes) (w : PendingAck) (a : Answer) (r : Conn × Option WsError) {e : WsError}
    → r.1 ≡ some e
    → has_subscription tr key (request_rest tr_type_subscribe tr key w a r).0.subs ≡ false
unfolding request_rest text_eq
request_rest-failed tr key w a (c, none) h = cc
request_rest-failed tr key w a (c, some f) h = ground (
  arith,
  finish-has_subscription c tr_type_subscribe tr key tr key w (Outcome.write_failed f),
  text_eq_refl tr,
  text_eq_refl key,
)

-- A request to subscribe on an open connection whose frame cannot be sent leaves its subscription
-- unregistered, also one that was registered before the request.
pub request-forgets :
    (c : Conn) (tr key : Bytes) (a : Answer)
    → c.closed ≡ false
    → IsUnsent c a
    → has_subscription tr key (request c tr_type_subscribe tr key a).0.subs ≡ false
unfolding request
request-forgets c tr key a is_open unsent =
    let (b, begun, link) = begin_open c tr_type_subscribe tr key is_open in
    let frame = request_frame b.approval_key tr_type_subscribe tr key in
    let (e, failed) =
      write-unsent b.conn b.transport frame a.write_failure (rw (← link) at unsent) in
    rw (begun, request)
      (request_rest-failed tr key b.wait a (write b.conn b.transport frame a.write_failure) failed)
