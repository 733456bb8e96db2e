-- ===== src/Ws/System/Quiet.antt =====
-- Which parts of a connection publish no event, and keep the stored material usable.
use go_kis.Prelude.{
  ℕ, refl, inl, inr, Bool, true, false, [], Option, none, some, arith, if◌then◌else◌, if-holds,
  Option-cases, Bool-cases,
}
use go_kis.Text.{Bytes, codes, text_eq}
use go_kis.Kis.Subscribe.{Subscribe}
use go_kis.Ws.Conn.{
  Conn, PendingAck, Outcome, begin, add_subscription, remove_subscription, write, finish,
  finish_answered, drop_subscription_on_failure, forget, close_begin, start_close, close_end,
  ReconnectInfo,
}
use go_kis.Ws.Errors.{WsError, is_session_occupied}
use go_kis.Ws.Reader.{AckMessage, Surroundings, tr_ping_pong, count_drop, pong, handle_system}
use go_kis.Ws.Reconnect.{
  Pc, Session, drop_transport, notify, reissue, install, if_connected, after_read, judge,
  mark_rejection, go_on, key_known, dial_known,
}
use go_kis.Ws.System.{begin_or_refuse}
use go_kis.Ws.System.QuietAcks.{
  IsQuiet, same, IsQuiet-trans, fail_pending-IsQuiet, apply_ack-IsQuiet,
}

drop_transport-IsQuiet : (c : Conn) → IsQuiet c (drop_transport c)
unfolding drop_transport
drop_transport-IsQuiet c = same (ground arith) (ground arith)

notify-IsQuiet : (c : Conn) (info : ReconnectInfo) → IsQuiet c (notify c info)
unfolding notify
notify-IsQuiet c info = same (ground arith) (ground arith)

after_read-IsQuiet :
    (s : Session) (now : ℕ) (e : WsError) → IsQuiet s.conn (after_read s now e).conn
unfolding after_read
after_read-IsQuiet s now e = elim (Bool-cases (is_session_occupied e)) [
  | inl occupied ↦
      rw (occupied, after_read)
        (IsQuiet-trans (drop_transport-IsQuiet s.conn) (notify-IsQuiet (drop_transport s.conn) _))
  | inr other ↦ rw (other, after_read) (drop_transport-IsQuiet s.conn)
]

judge-IsQuiet : (s : Session) (e : WsError) → IsQuiet s.conn (judge s e).conn
unfolding judge mark_rejection
judge-IsQuiet s e = same (ground arith) (ground arith)

if-IsQuiet :
    (c : Conn) (b : Bool) (x y : Session)
    → IsQuiet c x.conn
    → IsQuiet c y.conn
    → IsQuiet c (if b then x else y).conn
if-IsQuiet c true x y p q = p
if-IsQuiet c false x y p q = q

if_connected-IsQuiet :
    (c : Conn) (t : Option ℕ) (x y : Session)
    → IsQuiet c x.conn
    → IsQuiet c y.conn
    → IsQuiet c (if_connected t x y).conn
unfolding if_connected
if_connected-IsQuiet c none x y p q = p
if_connected-IsQuiet c (some t) x y p q = q

pub go_on-IsQuiet : (s : Session) (now : ℕ) (pc : Pc) → IsQuiet s.conn (go_on s now pc).conn
unfolding go_on
go_on-IsQuiet s now Pc.reading =
    if_connected-IsQuiet s.conn s.conn.transport _ _ (same refl refl) (same refl refl)
go_on-IsQuiet s now (Pc.failing e) = fail_pending-IsQuiet s.conn e
go_on-IsQuiet s now (Pc.ended e) =
    if-IsQuiet s.conn s.conn.closed _ _ (same refl refl) (after_read-IsQuiet s now e)
go_on-IsQuiet s now (Pc.judging e) = judge-IsQuiet s e
go_on-IsQuiet s now _ = same refl refl

pub reissue-IsQuiet : (c : Conn) (reply : Option Bytes) → IsQuiet c (reissue c reply)
unfolding reissue
reissue-IsQuiet c reply = same (ground arith) (ground arith)

pub key_known-IsQuiet :
    (s : Session) (reply : Option Bytes) → IsQuiet s.conn (key_known s reply).conn
unfolding key_known
key_known-IsQuiet s reply = same (ground arith) (ground arith)

pub dial_known-IsQuiet :
    (s : Session) (key : Bytes) (reply : Option ℕ) → IsQuiet s.conn (dial_known s key reply).conn
unfolding dial_known install
dial_known-IsQuiet s key none = same refl refl
dial_known-IsQuiet s key (some t) = elim (Bool-cases s.conn.closed) [
  | inl closed ↦ rw (closed, dial_known, install) (same refl refl)
  | inr live ↦ rw (live, dial_known, install) (record { events = refl; usable = λ h. tt })
]

pub begin_or_refuse-IsQuiet :
    (c : Conn) (tr_type tr key : Bytes) → IsQuiet c (begin_or_refuse c tr_type tr key)
unfolding begin_or_refuse begin add_subscription remove_subscription
begin_or_refuse-IsQuiet c tr_type tr key = same (ground arith) (ground arith)

pub write-IsQuiet :
    (c : Conn) (t : Option ℕ) (frame : Subscribe) (failure : Option WsError)
    → IsQuiet c (write c t frame failure).0
unfolding write
write-IsQuiet c none frame failure = same refl refl
write-IsQuiet c (some t) frame failure = same refl refl

pub finish-IsQuiet :
    (c : Conn) (tr_type tr key : Bytes) (w : PendingAck) (o : Outcome)
    → IsQuiet c (finish c tr_type tr key w o).0
unfolding finish finish_answered drop_subscription_on_failure remove_subscription forget
finish-IsQuiet c tr_type tr key w (Outcome.write_failed e) = same (ground arith) (ground arith)
finish-IsQuiet c tr_type tr key w (Outcome.answered none) = same refl refl
finish-IsQuiet c tr_type tr key w (Outcome.answered (some e)) = same (ground arith) (ground arith)
finish-IsQuiet c tr_type tr key w _ = same refl refl

pub start_close-IsQuiet : (c : Conn) → IsQuiet c (start_close c)
unfolding start_close close_begin
start_close-IsQuiet c = if-holds (IsQuiet c) c.closed c _ (same refl refl) (same refl refl)

close_end-IsQuiet : (c : Conn) (t : Option ℕ) → IsQuiet c (close_end c t)
close_end-IsQuiet c none = same refl refl
close_end-IsQuiet c (some t) = same refl refl

pub ends_close-IsQuiet :
    (c : Conn) (t : Option ℕ) → IsQuiet c (if c.closed then close_end c t else c)
ends_close-IsQuiet c t =
    if-holds (IsQuiet c) c.closed (close_end c t) c (close_end-IsQuiet c t) (same refl refl)

pub count_drop-IsQuiet : (c : Conn) (tr reason : Bytes) → IsQuiet c (count_drop c tr reason)
unfolding count_drop
count_drop-IsQuiet c tr reason = same refl refl

pong-IsQuiet : (c : Conn) (env : Surroundings) (raw : Bytes) → IsQuiet c (pong c env raw).0
unfolding pong
pong-IsQuiet c env raw = same (ground arith) (ground arith)

pub handle_system-IsQuiet :
    (block : Bytes → Bytes → Bytes) (unmarshal : Bytes → Option AckMessage) (c : Conn)
    (env : Surroundings) (raw : Bytes)
    → IsQuiet c (handle_system block unmarshal c env raw).0
unfolding handle_system
handle_system-IsQuiet block unmarshal c env raw = elim (Option-cases (unmarshal raw)) [
  | inl e ↦ rw (e, handle_system) (count_drop-IsQuiet c [] (codes "unrecognised frame"))
  | inr (m, e) ↦ elim (Bool-cases (text_eq m.header.tr_id tr_ping_pong)) [
    | inl ping ↦ rw (e, handle_system, ping) (pong-IsQuiet c env raw)
    | inr ack ↦ rw (e, handle_system, ack) (apply_ack-IsQuiet c m)
  ]
]
