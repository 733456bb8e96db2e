-- ===== src/Ws/Reconnect/Keeping.antt =====
-- The reader's moves change neither the registered subscriptions nor `closed`, and keep the
-- invariant of the waiters.
use go_kis.Prelude.{
  ℕ, inl, inr, Bool, true, false, Option, none, some, arith, if◌then◌else◌, Bool-cases,
}
use go_kis.Text.{Bytes}
use go_kis.Ws.Conn.Unchanged.{Keeps, Keeps-refl, Keeps-trans, SameState-Keeps, fail_pending-Keeps}
use go_kis.Ws.Conn.{Conn, ReconnectInfo}
use go_kis.Ws.Errors.{WsError, is_session_occupied}
use go_kis.Ws.Reader.Handle.{handle-Keeps}
use go_kis.Ws.Reader.{AckMessage, Surroundings, handle}
use go_kis.Ws.Reconnect.{
  Pc, Session, Move, drop_transport, notify, reissue, after_handle, if_connected, after_read, judge,
  go_on, key_known, dial_known, read_message, move,
}

if-Keeps :
    (c : Conn) (b : Bool) (x y : Session)
    → Keeps c x.conn
    → Keeps c y.conn
    → Keeps c (if b then x else y).conn
if-Keeps c true x y hx hy = hx
if-Keeps c false x y hx hy = hy

if_connected-Keeps :
    (c : Conn) (t : Option ℕ) (x y : Session)
    → Keeps c x.conn
    → Keeps c y.conn
    → Keeps c (if_connected t x y).conn
unfolding if_connected
if_connected-Keeps c none x y hx hy = hx
if_connected-Keeps c (some t) x y hx hy = hy

after_handle-Keeps :
    (s : Session) (r : Conn × Option WsError)
    → Keeps s.conn r.0
    → Keeps s.conn (after_handle s r).conn
unfolding after_handle
after_handle-Keeps s (c, none) h = h
after_handle-Keeps s (c, some e) h = h

drop_transport-Keeps : (c : Conn) → Keeps c (drop_transport c)
unfolding drop_transport
drop_transport-Keeps c = SameState-Keeps (ground arith)

notify-Keeps : (c : Conn) (info : ReconnectInfo) → Keeps c (notify c info)
unfolding notify
notify-Keeps c info = SameState-Keeps (ground arith)

reissue-Keeps : (c : Conn) (reply : Option Bytes) → Keeps c (reissue c reply)
unfolding reissue
reissue-Keeps c reply = SameState-Keeps (ground arith)

after_read-Keeps : (s : Session) (now : ℕ) (e : WsError) → Keeps s.conn (after_read s now e).conn
unfolding after_read
after_read-Keeps s now e = elim (Bool-cases (is_session_occupied e)) [
  | inl occupied ↦
      rw (occupied, after_read)
        (Keeps-trans (drop_transport-Keeps s.conn) (notify-Keeps (drop_transport s.conn) _))
  | inr other ↦ rw (other, after_read) (drop_transport-Keeps s.conn)
]

judge-Keeps : (s : Session) (e : WsError) → Keeps s.conn (judge s e).conn
unfolding judge
judge-Keeps s e = SameState-Keeps (ground arith)

key_known-Keeps : (s : Session) (reply : Option Bytes) → Keeps s.conn (key_known s reply).conn
unfolding key_known
key_known-Keeps s reply = SameState-Keeps (ground arith)

dial_known-Keeps :
    (s : Session) (key : Bytes) (reply : Option ℕ) → Keeps s.conn (dial_known s key reply).conn
unfolding dial_known
dial_known-Keeps s key reply = SameState-Keeps (ground arith)

go_on-Keeps : (s : Session) (now : ℕ) (pc : Pc) → Keeps s.conn (go_on s now pc).conn
unfolding go_on
go_on-Keeps s now Pc.reading = SameState-Keeps (ground arith)
go_on-Keeps s now (Pc.failing e) = fail_pending-Keeps s.conn e
go_on-Keeps s now (Pc.ended e) =
    if-Keeps s.conn s.conn.closed _ _ (Keeps-refl s.conn) (after_read-Keeps s now e)
go_on-Keeps s now (Pc.judging e) = judge-Keeps s e
go_on-Keeps s now _ = Keeps-refl s.conn

module _ (block : Bytes → Bytes → Bytes) (unmarshal : Bytes → Option AckMessage) where
  read_message-Keeps :
      (s : Session) (env : Surroundings) (raw : Bytes)
      → Keeps s.conn (read_message block unmarshal s env raw).conn
  unfolding read_message
  read_message-Keeps s env raw =
      if_connected-Keeps s.conn s.conn.transport s _ (Keeps-refl s.conn) (
        after_handle-Keeps s (handle block unmarshal s.conn env raw)
          (handle-Keeps block unmarshal s.conn env raw))

  pub move-Keeps :
      (s : Session) (pc : Pc) (m : Move) → Keeps s.conn (move block unmarshal s pc m).conn
  unfolding move
  move-Keeps s Pc.reading (Move.receive env raw) = read_message-Keeps s env raw
  move-Keeps s Pc.reading (Move.read_error text) =
      if_connected-Keeps s.conn s.conn.transport s _ (Keeps-refl s.conn) (Keeps-refl s.conn)
  move-Keeps s Pc.reissuing (Move.reissue_reply reply) = reissue-Keeps s.conn reply
  move-Keeps s Pc.sleeping Move.timer = Keeps-refl s.conn
  move-Keeps s Pc.sleeping Move.done_closed =
      if-Keeps s.conn s.conn.done _ _ (Keeps-refl s.conn) (Keeps-refl s.conn)
  move-Keeps s Pc.redialing (Move.key_reply reply) = key_known-Keeps s reply
  move-Keeps s (Pc.dialing key) (Move.dial_reply reply) = dial_known-Keeps s key reply
  move-Keeps s pc (Move.proceed now) = go_on-Keeps s now pc
  move-Keeps s _ _ = Keeps-refl s.conn
