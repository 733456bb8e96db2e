-- ===== src/Ws/Conn/Request.antt =====
-- kis/ws/conn.go: Subscribe, Unsubscribe and Close. A request is cut where it waits: `begin` is
-- its first critical section, `write` the write, `finish` what it does with the outcome.
use go_kis.Prelude.{
  ℕ, ◌+◌, Bool, true, false, not, ◌&&◌, List, [], ◌∷◌, ◌++◌, Option, none, some, if◌then◌else◌,
}
use go_kis.Text.{Bytes, codes, text_eq}
use go_kis.Kis.Subscribe.{Subscribe, new_subscribe}
use go_kis.Ws.Conn.State.{Subscription, PendingAck, Conn, Effect, logged}
use go_kis.Ws.Conn.Pending.{forget}
use go_kis.Ws.Errors.{WsError, is_subscribe_error}

abbrev pub tr_type_subscribe : Bytes
tr_type_subscribe = codes "1"

abbrev pub tr_type_unsubscribe : Bytes
tr_type_unsubscribe = codes "2"

unfoldable pub same_subscription : Bytes → Bytes → Subscription → Bool
same_subscription tr key s = text_eq s.tr tr && text_eq s.key key

unfoldable pub has_subscription : Bytes → Bytes → List Subscription → Bool
unfolding same_subscription
has_subscription tr key [] = false
has_subscription tr key (s ∷ subs) =
    if same_subscription tr key s then true else has_subscription tr key subs

unfoldable pub delete_subscription : Bytes → Bytes → List Subscription → List Subscription
unfolding same_subscription
delete_subscription tr key [] = []
delete_subscription tr key (s ∷ subs) =
    if same_subscription tr key s
    then delete_subscription tr key subs
    else s ∷ delete_subscription tr key subs

unfoldable pub add_subscription : Conn → Bytes → Bytes → Conn
add_subscription c tr key =
    if has_subscription tr key c.subs
    then c
    else record c { subs = c.subs ++ (record { tr = tr; key = key } ∷ []) }

unfoldable pub remove_subscription : Conn → Bytes → Bytes → Conn
remove_subscription c tr key = record c { subs = delete_subscription tr key c.subs }

unfoldable pub drop_subscription_on_failure : Conn → Bytes → Bytes → Bytes → Conn
drop_subscription_on_failure c tr_type tr key =
    if not (text_eq tr_type tr_type_subscribe) then c else remove_subscription c tr key

unfoldable pub request_frame : Bytes → Bytes → Bytes → Bytes → Subscribe
unfolding new_subscribe
request_frame approval_key tr_type tr key =
    let request = new_subscribe approval_key tr key in
    record request { header = record request.header { tr_type = tr_type } }

-- What `begin` hands to the rest of the request.
pub record Begun : Type 0 where
  pub conn : Conn
  pub transport : Option ℕ
  pub approval_key : Bytes
  pub wait : PendingAck

-- The critical section at the start; `none` is errConnClosed.
unfoldable pub begin : Conn → Bytes → Bytes → Bytes → Option Begun
begin c tr_type tr key =
    if c.closed
    then none
    else (let changed =
          if text_eq tr_type tr_type_subscribe
          then add_subscription c tr key
          else remove_subscription c tr key in
        let wait : PendingAck = record { id = c.next_waiter; tr = tr } in
        some (record {
          conn = record changed {
            pending = changed.pending ++ (wait ∷ []);
            next_waiter = c.next_waiter + 1;
          };
          transport = c.transport;
          approval_key = c.key;
          wait = wait;
        }))

-- A write on a missing transport is errConnClosed; `failure` is what the transport's Write gives.
unfoldable pub write : Conn → Option ℕ → Subscribe → Option WsError → Conn × Option WsError
write c none frame failure = (c, some WsError.conn_closed)
write c (some t) frame failure = (logged c (Effect.wrote t frame failure), failure)

-- How a request ends: its write failed, its verdict came, its context ended, the connection
-- stopped.
pub data Outcome : Type 0 where
  write_failed : WsError → Outcome
  answered : Option WsError → Outcome
  cancelled : WsError → Outcome
  stopped : Outcome

-- After a verdict: only a refusal of the subscription itself drops it.
unfoldable pub finish_answered : Conn → Bytes → Bytes → Bytes → Option WsError → Conn
finish_answered c tr_type tr key none = c
finish_answered c tr_type tr key (some error) =
    if is_subscribe_error error then drop_subscription_on_failure c tr_type tr key else c

unfoldable pub finish : Conn → Bytes → Bytes → Bytes → PendingAck → Outcome → Conn × Option WsError
finish c tr_type tr key wait (Outcome.write_failed error) =
    (drop_subscription_on_failure (forget c wait) tr_type tr key, some error)
finish c tr_type tr key wait (Outcome.answered verdict) =
    (finish_answered c tr_type tr key verdict, verdict)
finish c tr_type tr key wait (Outcome.cancelled error) = (forget c wait, some error)
finish c tr_type tr key wait Outcome.stopped = (forget c wait, some WsError.conn_closed)

-- What Write gives for the unsubscribe frame of each subscription.
abbrev pub Writes : Type 0
Writes = Subscription → Option WsError

-- The unsubscribe frames of Close; a write that fails does not stop the ones after it.
unfoldable pub write_all : Conn → ℕ → Bytes → Writes → List Subscription → Conn
unfolding request_frame write
write_all c t approval_key writes [] = c
write_all c t approval_key writes (s ∷ subs) =
    write_all
      (write c (some t) (request_frame approval_key tr_type_unsubscribe s.tr s.key) (writes s)).0 t
      approval_key writes subs

-- The critical section of Close, which takes over the subscriptions and the transport; closeOnce
-- lets it pass once.
unfoldable pub close_begin : Conn → Conn
close_begin c = record c { closed = true; subs = [] }

unfoldable pub start_close : Conn → Conn
unfolding close_begin
start_close c = if c.closed then c else close_begin c

-- The end of Close, on the transport that its critical section found.
abbrev pub close_end : Conn → Option ℕ → Conn
close_end c none = record c { done = true }
close_end c (some t) = logged (record c { done = true }) (Effect.closed_transport t)

unfoldable pub close_rest : Conn → Option ℕ → Bytes → Writes → List Subscription → Conn
unfolding write_all
close_rest c none approval_key writes subs = close_end c none
close_rest c (some t) approval_key writes subs =
    close_end (write_all c t approval_key writes subs) (some t)

-- The body of closeOnce.Do; a later call of Close does nothing.
unfoldable pub close : Conn → Writes → Conn
unfolding close_begin close_rest
close c writes = if c.closed then c else close_rest (close_begin c) c.transport c.key writes c.subs

-- What a request meets: whether the transport's Write fails, what the other goroutines do while
-- it waits, and how it ends then.
pub record Answer : Type 0 where
  pub write_failure : Option WsError
  pub meanwhile : Conn → Conn
  pub outcome : Outcome

-- After the write.
unfoldable pub request_rest :
    Bytes → Bytes → Bytes → PendingAck → Answer → Conn × Option WsError → Conn × Option WsError
request_rest tr_type tr key wait answer (c, some error) =
    finish c tr_type tr key wait (Outcome.write_failed error)
request_rest tr_type tr key wait answer (c, none) =
    finish (answer.meanwhile c) tr_type tr key wait answer.outcome

-- A whole request.
unfoldable pub request : Conn → Bytes → Bytes → Bytes → Answer → Conn × Option WsError
unfolding request_rest
request c tr_type tr key answer = elim (begin c tr_type tr key) [
  | none ↦ (c, some WsError.conn_closed)
  | some b ↦
      request_rest tr_type tr key b.wait answer (
        write b.conn b.transport (request_frame b.approval_key tr_type tr key) answer.write_failure)
]

unfoldable pub subscribe : Conn → Bytes → Bytes → Answer → Conn × Option WsError
subscribe c tr key answer = request c tr_type_subscribe tr key answer

unfoldable pub unsubscribe : Conn → Bytes → Bytes → Answer → Conn × Option WsError
unsubscribe c tr key answer = request c tr_type_unsubscribe tr key answer
