-- ===== src/Ws/Reconnect.antt =====
-- kis/ws/reader.go's `run` and kis/ws/reconnect.go: the goroutine that owns the socket. `Pc` says
-- where it stands; a move is one of its critical sections or the return of a call that it waits
-- for, so what other goroutines do stands between two moves.
pub mod Keeping
pub mod Verdicts
pub mod Calm
pub mod Tries
pub mod Recovery
pub mod Reissue
pub mod Resubscribe
use go_kis.Prelude.{
  ℕ, ◌+◌, Bool, true, false, ◌&&◌, not, List, [], ◌∷◌, ◌++◌, Option, none, some, if◌then◌else◌,
}
use go_kis.Text.{Bytes, text_eq, is_empty}
use go_kis.Ws.Conn.{Conn, Effect, ReconnectInfo, logged, fail_pending}
use go_kis.Ws.Errors.{WsError, is_session_occupied, is_approval_rejected, rejection_code}
use go_kis.Ws.Reader.{AckMessage, Surroundings, handle}

abbrev pub is_closed : Conn → Bool
is_closed c = c.closed

-- The socket in use.
abbrev pub current_transport : Conn → Option ℕ
current_transport c = c.transport

unfoldable pub drop_transport : Conn → Conn
drop_transport c = elim c.transport [
  | none ↦ c
  | some t ↦ logged (record c { transport = none }) (Effect.closed_transport t)
]

unfoldable pub notify : Conn → ReconnectInfo → Conn
notify c info = if c.has_on_reconnect then logged c (Effect.notified info) else c

-- The result says whether a reissue is warranted.
unfoldable pub mark_rejection : Conn → Bytes → Conn × Bool
mark_rejection c code =
    if text_eq c.reissued_for code then (c, false) else (record c { reissued_for = code }, true)

-- The provider's answer to Reissue; `none` is an error.
unfoldable pub reissue : Conn → Option Bytes → Conn
reissue c none = c
reissue c (some key) = if is_empty key then c else record c { key = key }

-- The last critical section of redial, on a transport that was dialed with `key`.
unfoldable pub install : Conn → Bytes → ℕ → Conn
install c key t =
    if c.closed
    then logged c (Effect.closed_transport t)
    else record c { transport = some t; key = key; material = []; generation = c.generation + 1 }

pub data Pc : Type 0 where
  reading : Pc
  failing : WsError → Pc
  ended : WsError → Pc
  judging : WsError → Pc
  reissuing sleeping redialing : Pc
  dialing : Bytes → Pc
  stopped : Pc

-- `spawned` lists the resubscribe passes started, each with its generation and attempt.
pub record Session : Type 0 where
  pub conn : Conn
  pub pc : Pc
  pub attempt : ℕ
  pub spawned : List (ℕ × ℕ)

-- What lets the goroutine go on: a message or an error of Read, nothing, the answer of the
-- provider to Reissue, the end of the delay or the closing of `done`, the answers of the provider
-- to ApprovalKey and of the dialer, whose errors are `none`.
pub data Move : Type 0 where
  receive : Surroundings → Bytes → Move
  read_error : Bytes → Move
  proceed : ℕ → Move
  reissue_reply : Option Bytes → Move
  timer : Move
  done_closed : Move
  key_reply : Option Bytes → Move
  dial_reply : Option ℕ → Move

abbrev pub at : Session → Pc → Conn → Session
at s pc c = record s { conn = c; pc = pc }

-- The test of readLoop for a socket: without one it returns, with one it reads.
unfoldable pub if_connected : Option ℕ → Session → Session → Session
if_connected none without with_one = without
if_connected (some t) without with_one = with_one

unfoldable pub after_handle : Session → Conn × Option WsError → Session
after_handle s (c, none) = at s Pc.reading c
after_handle s (c, some error) = at s (Pc.failing error) c

-- readLoop has returned `error`, and the connection is not closed.
unfoldable pub after_read : Session → ℕ → WsError → Session
unfolding drop_transport notify
after_read s now error =
    let dropped = drop_transport s.conn in
    if is_session_occupied error
    then at s Pc.stopped (
        notify dropped (record {
          attempt = s.attempt;
          subscriptions = 0;
          stopped = true;
          error = some WsError.session_occupied;
          observed_at = now;
        }))
    else record s { conn = dropped; pc = Pc.judging error; attempt = s.attempt + 1 }

unfoldable pub judge : Session → WsError → Session
unfolding mark_rejection
judge s error =
    if is_approval_rejected error
    then (let (marked, warranted) = mark_rejection s.conn (rejection_code error) in
        if warranted
        then at s Pc.reissuing (logged marked Effect.asked_reissue)
        else at s Pc.sleeping marked)
    else at s Pc.sleeping s.conn

-- The two ways in which `sleep` ends; the channel `done` can only be received from once it is
-- closed.
abbrev pub after_timer : Session → Session
after_timer s = at s (if is_closed s.conn then Pc.stopped else Pc.redialing) s.conn

abbrev pub after_done : Session → Session
after_done s = if s.conn.done then at s Pc.stopped s.conn else s

unfoldable pub go_on : Session → ℕ → Pc → Session
unfolding after_read judge if_connected
go_on s now Pc.reading =
    if_connected (current_transport s.conn) (at s (Pc.ended WsError.conn_closed) s.conn) s
go_on s now (Pc.failing error) = at s (Pc.ended error) (fail_pending s.conn error)
go_on s now (Pc.ended error) =
    if is_closed s.conn then at s Pc.stopped s.conn else after_read s now error
go_on s now (Pc.judging error) = judge s error
go_on s now _ = s

-- ApprovalKey is called at `redialing`; without a key the loop starts anew, with no transport.
unfoldable pub key_known : Session → Option Bytes → Session
key_known s none = at s Pc.reading (logged s.conn Effect.asked_key)
key_known s (some key) =
    if is_empty key
    then at s Pc.reading (logged s.conn Effect.asked_key)
    else at s (Pc.dialing key) (logged s.conn Effect.asked_key)

unfoldable pub dial_known : Session → Bytes → Option ℕ → Session
unfolding install
dial_known s key none = at s Pc.reading (logged s.conn (Effect.dialed s.conn.endpoint))
dial_known s key (some t) =
    let c = install (logged s.conn (Effect.dialed s.conn.endpoint)) key t in
    if s.conn.closed then at s Pc.reading c else record s {
      conn = c;
      pc = Pc.reading;
      spawned = s.spawned ++ ((c.generation, s.attempt) ∷ []);
    }

module _ (block : Bytes → Bytes → Bytes) (unmarshal : Bytes → Option AckMessage) where
  -- A message is read from a transport only.
  unfoldable pub read_message : Session → Surroundings → Bytes → Session
  unfolding after_handle if_connected
  read_message s env raw =
      if_connected s.conn.transport s (after_handle s (handle block unmarshal s.conn env raw))

  -- A move that the goroutine does not wait for changes nothing.
  unfoldable pub move : Session → Pc → Move → Session
  unfolding go_on key_known dial_known read_message if_connected
  move s Pc.reading (Move.receive env raw) = read_message s env raw
  move s Pc.reading (Move.read_error text) =
      if_connected s.conn.transport s (at s (Pc.failing (WsError.external text)) s.conn)
  move s Pc.reissuing (Move.reissue_reply reply) = at s Pc.sleeping (reissue s.conn reply)
  move s Pc.sleeping Move.timer = after_timer s
  move s Pc.sleeping Move.done_closed = after_done s
  move s Pc.redialing (Move.key_reply reply) = key_known s reply
  move s (Pc.dialing key) (Move.dial_reply reply) = dial_known s key reply
  move s pc (Move.proceed now) = go_on s now pc
  move s _ _ = s

  unfoldable pub run : Session → List Move → Session
  unfolding move
  run s [] = s
  run s (m ∷ moves) = run (move s s.pc m) moves
