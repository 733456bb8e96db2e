-- ===== src/Ws/System/Tally/Level.antt =====
-- How the parts of a connection change the number of its events and drops.
use go_kis.Prelude.{
  ℕ, ◌+◌, ◌≤◌, ◌≡◌, refl, true, List, [], ◌∷◌, Option, none, some, arith, length, length-append,
  if◌then◌else◌,
}
use go_kis.Text.{Bytes}
use go_kis.Kis.Subscribe.{Subscribe}
use go_kis.Ws.Conn.{
  Conn, Event, PendingAck, Outcome, begin, add_subscription, remove_subscription, write, finish,
  finish_answered, drop_subscription_on_failure, forget, start_close, close_begin, close_end,
  resolve, resolve_all, fail_pending, take_pending,
}
use go_kis.Ws.Errors.{WsError, classify_ack}
use go_kis.Ws.Reader.{
  AckMessage, AckOutput, Surroundings, count_drop, store_material, clear_rejection, accept,
  resolve_waiter, apply_ack, pong, ack_tr, send_event,
}
use go_kis.Ws.Reconnect.{
  Pc, Session, drop_transport, notify, reissue, install, if_connected, after_read, judge,
  mark_rejection, go_on, key_known, dial_known,
}
use go_kis.Ws.System.{begin_or_refuse}

-- The events that were sent and the frames that were counted as dropped.
unfoldable pub tally : Conn → ℕ
tally c = length c.events + c.stats.dropped_frames

-- The tally grows by `lo` at least and by `hi` at most.
pub record Grows (lo hi : ℕ) (c d : Conn) : Type 0 where
  pub above : tally c + lo ≤ tally d
  pub below : tally d ≤ tally c + hi

pub Grows-trans :
    {a b x y : ℕ} {c d e : Conn} → Grows a b c d → Grows x y d e → Grows (a + x) (b + y) c e
Grows-trans p q = record {
  above = omega (arith, p.above, q.above);
  below = omega (arith, p.below, q.below);
}

-- Nothing was published or dropped.
pub level : {c d : Conn} → tally d ≡ tally c → Grows 0 0 c d
level h = record { above = omega (arith, h); below = omega (arith, h) }

pub resolve-tally :
    (c : Conn) (w : PendingAck) (v : Option WsError) → tally (resolve c w v) ≡ tally c
unfolding resolve tally
resolve-tally c w v = ground arith

pub resolve_all-tally :
    (c : Conn) (ws : List PendingAck) (e : WsError) → tally (resolve_all c ws e) ≡ tally c
unfolding resolve_all
resolve_all-tally c [] e = refl
resolve_all-tally c (w ∷ ws) e =
    omega (arith, resolve-tally c w (some e), resolve_all-tally (resolve c w (some e)) ws e)

pub fail_pending-tally : (c : Conn) (e : WsError) → tally (fail_pending c e) ≡ tally c
unfolding fail_pending tally
fail_pending-tally c e = resolve_all-tally (record c { pending = [] }) c.pending e

pub after_read-tally :
    (s : Session) (now : ℕ) (e : WsError) → tally (after_read s now e).conn ≡ tally s.conn
unfolding after_read drop_transport notify tally
after_read-tally s now e = ground arith

pub judge-tally : (s : Session) (e : WsError) → tally (judge s e).conn ≡ tally s.conn
unfolding judge mark_rejection tally
judge-tally s e = ground arith

pub go_on-tally : (s : Session) (now : ℕ) (pc : Pc) → tally (go_on s now pc).conn ≡ tally s.conn
unfolding go_on if_connected
go_on-tally s now Pc.reading = ground arith
go_on-tally s now (Pc.failing e) = fail_pending-tally s.conn e
go_on-tally s now (Pc.ended e) = ground (arith, after_read-tally s now e)
go_on-tally s now (Pc.judging e) = judge-tally s e
go_on-tally s now _ = refl

pub reissue-tally : (c : Conn) (reply : Option Bytes) → tally (reissue c reply) ≡ tally c
unfolding reissue tally
reissue-tally c reply = ground arith

pub key_known-tally :
    (s : Session) (reply : Option Bytes) → tally (key_known s reply).conn ≡ tally s.conn
unfolding key_known tally
key_known-tally s reply = ground arith

pub dial_known-tally :
    (s : Session) (key : Bytes) (reply : Option ℕ)
    → tally (dial_known s key reply).conn ≡ tally s.conn
unfolding dial_known install tally
dial_known-tally s key reply = ground arith

pub begin_or_refuse-tally :
    (c : Conn) (tr_type tr key : Bytes) → tally (begin_or_refuse c tr_type tr key) ≡ tally c
unfolding begin_or_refuse begin add_subscription remove_subscription tally
begin_or_refuse-tally c tr_type tr key = ground arith

pub write-tally :
    (c : Conn) (t : Option ℕ) (frame : Subscribe) (failure : Option WsError)
    → tally (write c t frame failure).0 ≡ tally c
unfolding write tally
write-tally c t frame failure = ground arith

pub finish-tally :
    (c : Conn) (tr_type tr key : Bytes) (w : PendingAck) (o : Outcome)
    → tally (finish c tr_type tr key w o).0 ≡ tally c
unfolding finish finish_answered drop_subscription_on_failure remove_subscription forget tally
finish-tally c tr_type tr key w o = ground arith

pub start_close-tally : (c : Conn) → tally (start_close c) ≡ tally c
unfolding start_close close_begin tally
start_close-tally c = ground arith

pub ends_close-tally :
    (c : Conn) (t : Option ℕ) → tally (if c.closed then close_end c t else c) ≡ tally c
unfolding tally
ends_close-tally c none = ground arith
ends_close-tally c (some t) = ground arith

pub count_drop-Grows : (c : Conn) (tr reason : Bytes) → Grows 1 1 c (count_drop c tr reason)
unfolding count_drop tally
count_drop-Grows c tr reason = record { above = omega arith; below = omega arith }

pub widen : {lo hi : ℕ} {c d : Conn} → lo ≤ 1 → hi ≤ 1 → Grows lo hi c d → Grows 0 1 c d
widen p q w = record { above = omega (arith, w.above); below = omega (arith, w.below) }

pub store_material-Grows : (c : Conn) (tr key iv : Bytes) → Grows 0 1 c (store_material c tr key iv)
unfolding store_material tally count_drop
store_material-Grows c tr key iv = record { above = ground arith; below = ground arith }

pub accept-Grows :
    (c : Conn) (v : Option WsError) (tr : Bytes) (o : AckOutput) → Grows 0 1 c (accept c v tr o)
unfolding accept clear_rejection tally
accept-Grows c none tr o =
    let w = store_material-Grows (record c { reissued_for = [] }) tr o.key o.iv in
    record { above = w.above; below = w.below }
accept-Grows c (some e) tr o = record { above = omega arith; below = omega arith }

pub resolve_waiter-tally :
    (c : Conn) (w : Option PendingAck) (v : Option WsError) → tally (resolve_waiter c w v) ≡ tally c
unfolding resolve_waiter
resolve_waiter-tally c none v = refl
resolve_waiter-tally c (some w) v = resolve-tally c w v

pub apply_ack-Grows : (c : Conn) (m : AckMessage) → Grows 0 1 c (apply_ack c m).0
unfolding apply_ack take_pending tally
apply_ack-Grows c m =
    let (waiter, taken) = take_pending c m.header.tr_id in
    let tr = ack_tr m.header.tr_id waiter in
    let verdict = classify_ack tr m.body.rt_cd m.body.msg_cd m.body.msg1 in
    let w = accept-Grows taken verdict tr m.body.output in
    let same = resolve_waiter-tally (accept taken verdict tr m.body.output) waiter verdict in
    record { above = omega (arith, w.above, same); below = omega (arith, w.below, same) }

pub pong-tally : (c : Conn) (env : Surroundings) (raw : Bytes) → tally (pong c env raw).0 ≡ tally c
unfolding pong tally
pong-tally c env raw = ground arith

pub send_event-Grows :
    (c : Conn) (env : Surroundings) (e : Event)
    → env.event_taken ≡ true
    → Grows 1 1 c (send_event c env e)
unfolding send_event tally
send_event-Grows c env e taken = record {
  above = ground (arith, length-append c.events (e ∷ []));
  below = ground (arith, length-append c.events (e ∷ []));
}
