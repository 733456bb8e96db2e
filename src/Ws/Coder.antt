-- ===== src/Ws/Coder.antt =====
-- kis/ws/dialer_coder.go: the default dialer and transport. What the package
-- github.com/coder/websocket answers is an argument; the calls that are made of it are listed.
mod Calls
pub mod Served
use go_kis.Prelude.{ℕ, ◌*◌, ◌^◌, not, List, [], ◌∷◌, ◌++◌, Option, none, some, if◌then◌else◌, ◌==◌}
use go_kis.Text.{Bytes, codes}
use go_kis.Kis.Socket.{pong_message}
use go_kis.Kis.Subscribe.{Subscribe}
use go_kis.Ws.Conn.{Effect}
use go_kis.Ws.Dial.{Dialed}
use go_kis.Ws.Errors.{WsError}
use go_kis.Ws.Message.{ws_error_text}

abbrev pub read_limit : ℕ
read_limit = 1024 * 1024

-- A connection of the package and the body of a response are named by numbers. A message is sent
-- with type MessageText, a connection closed with StatusNormalClosure and an empty reason.
-- A message stands with the error that the package's Write gave.
pub data CoderCall : Type 0 where
  dialed_url : Bytes → CoderCall
  closed_body : ℕ → CoderCall
  set_read_limit : ℕ → ℕ → CoderCall
  wrote_text : ℕ → Bytes → Option Bytes → CoderCall
  closed_normally : ℕ → CoderCall

-- The answer of websocket.Dial: the connection, the body of the response where there is one, and
-- the error.
pub record DialReply : Type 0 where
  pub conn : ℕ
  pub body : Option ℕ
  pub failure : Option Bytes

unfoldable pub close_body : Option ℕ → List CoderCall
close_body none = []
close_body (some b) = CoderCall.closed_body b ∷ []

unfoldable pub coder_dial : Bytes → DialReply → List CoderCall × Dialed
unfolding close_body
coder_dial endpoint reply = elim reply.failure [
  | some text ↦ (
    CoderCall.dialed_url endpoint ∷ close_body reply.body,
    Dialed.failure (codes "ws: dial failed: " ++ text),
  )
  | none ↦ (
    (CoderCall.dialed_url endpoint ∷ close_body reply.body)
        ++ (CoderCall.set_read_limit reply.conn read_limit ∷ []),
    Dialed.transport reply.conn,
  )
]

-- The type of a message is dropped.
unfoldable pub coder_read : ℕ × Bytes × Option Bytes → Bytes × Option Bytes
coder_read (kind, data_, failure) = (data_, failure)

-- `failure` is what the package's Write gives.
unfoldable pub coder_write : ℕ → Bytes → Option Bytes → List CoderCall × Option Bytes
coder_write conn message failure = (CoderCall.wrote_text conn message failure ∷ [], failure)

unfoldable pub coder_write_control : ℕ → ℕ → Bytes → Option Bytes → List CoderCall × Option Bytes
coder_write_control conn kind message failure =
    if not (kind == pong_message)
    then ([], some (codes "ws: unsupported control frame"))
    else (CoderCall.wrote_text conn message failure ∷ [], failure)

unfoldable pub coder_close : ℕ → List CoderCall
coder_close conn = CoderCall.closed_normally conn ∷ []

unfoldable pub failure_text : Option WsError → Option Bytes
failure_text none = none
failure_text (some error) = some (ws_error_text error)

-- The calls behind an effect of a connection on its transport; `marshal` is encoding/json.
unfoldable pub calls_of : (Subscribe → Bytes) → Effect → List CoderCall
unfolding coder_write coder_write_control coder_close failure_text
calls_of marshal (Effect.wrote t frame failure) =
    (coder_write t (marshal frame) (failure_text failure)).0
calls_of marshal (Effect.ponged t raw failure) = (coder_write_control t pong_message raw failure).0
calls_of marshal (Effect.closed_transport t) = coder_close t
calls_of marshal _ = []

unfoldable pub all_calls : (Subscribe → Bytes) → List Effect → List CoderCall
unfolding calls_of
all_calls marshal [] = []
all_calls marshal (e ∷ effects) = calls_of marshal e ++ all_calls marshal effects
