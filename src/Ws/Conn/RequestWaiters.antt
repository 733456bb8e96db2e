-- ===== src/Ws/Conn/RequestWaiters.antt =====
-- The sections of a request keep `WaitersInv`.
use go_kis.Prelude.{ℕ, suc, ◌≡◌, List, [], ◌∷◌, ◌++◌, Option, none, some, arith, All-append}
use go_kis.Text.{Bytes}
use go_kis.Ws.Conn.Pending.{verdict_of, forget}
use go_kis.Ws.Conn.Request.{
  Begun, begin, add_subscription, remove_subscription, drop_subscription_on_failure, Outcome,
  write_failed, answered, cancelled, stopped, finish_answered, finish,
}
use go_kis.Ws.Conn.State.{PendingAck, Conn}
use go_kis.Ws.Conn.Waiters.{Ascending, WaitersInv, SameWaiters, SameWaiters-WaitersInv}
use go_kis.Ws.Errors.{WsError}
use go_kis.Ws.Conn.WaitersInv.{forget-WaitersInv}

Ascending-concat :
    (lo hi : ℕ) (ws : List PendingAck) (w : PendingAck)
    → w.id ≡ hi
    → Ascending lo ws hi
    → Ascending lo (ws ++ (w ∷ [])) (suc hi)
Ascending-concat lo hi [] w e a = (omega arith, omega arith)
Ascending-concat lo hi (x ∷ ws) w e a = (a.0, Ascending-concat (suc x.id) hi ws w e a.1)

-- What a request's first section does to the waiters.
record Registered (c : Conn) (b : Begun) : Type 0 where
  pending : b.conn.pending ≡ c.pending ++ (b.wait ∷ [])
  id : b.wait.id ≡ c.next_waiter
  next : b.conn.next_waiter ≡ suc c.next_waiter
  mailbox : b.conn.mailbox ≡ c.mailbox

begin-Registered :
    (c : Conn) (tr_type tr key : Bytes) {b : Begun}
    → begin c tr_type tr key ≡ some b
    → Registered c b
unfolding begin add_subscription remove_subscription
begin-Registered c tr_type tr key h = record {
  pending = ground arith;
  id = ground arith;
  next = ground arith;
  mailbox = ground arith;
}

pub begin-WaitersInv :
    (c : Conn) (tr_type tr key : Bytes) {b : Begun}
    → begin c tr_type tr key ≡ some b
    → WaitersInv c
    → WaitersInv b.conn
begin-WaitersInv c tr_type tr key {b} h inv =
    let r = begin-Registered c tr_type tr key h in
    record {
      ascending =
          rw (r.pending, r.next)
            (Ascending-concat 0 c.next_waiter c.pending b.wait r.id inv.ascending);
      quiet =
          rw (r.pending, r.mailbox)
            (All-append (λ w. verdict_of w.id c.mailbox ≡ none) c.pending (b.wait ∷ []) inv.quiet
              (inv.unused b.wait.id (omega (arith, r.id)), tt));
      unused = λ j h. rw r.mailbox (inv.unused j (omega (arith, r.next, h)));
    }

finish_answered-SameWaiters :
    (c : Conn) (tr_type tr key : Bytes) (v : Option WsError)
    → SameWaiters c (finish_answered c tr_type tr key v)
unfolding finish_answered drop_subscription_on_failure remove_subscription
finish_answered-SameWaiters c tr_type tr key none = ground arith
finish_answered-SameWaiters c tr_type tr key (some e) = ground arith

drop_subscription-SameWaiters :
    (c : Conn) (tr_type tr key : Bytes)
    → SameWaiters c (drop_subscription_on_failure c tr_type tr key)
unfolding drop_subscription_on_failure remove_subscription
drop_subscription-SameWaiters c tr_type tr key = ground arith

pub finish-WaitersInv :
    (c : Conn) (tr_type tr key : Bytes) (w : PendingAck) (o : Outcome)
    → WaitersInv c
    → WaitersInv (finish c tr_type tr key w o).0
unfolding finish
finish-WaitersInv c tr_type tr key w (write_failed e) inv =
    SameWaiters-WaitersInv (drop_subscription-SameWaiters (forget c w) tr_type tr key)
      (forget-WaitersInv c w inv)
finish-WaitersInv c tr_type tr key w (answered v) inv =
    SameWaiters-WaitersInv (finish_answered-SameWaiters c tr_type tr key v) inv
finish-WaitersInv c tr_type tr key w (cancelled e) inv = forget-WaitersInv c w inv
finish-WaitersInv c tr_type tr key w stopped inv = forget-WaitersInv c w inv
