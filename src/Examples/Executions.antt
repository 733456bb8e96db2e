-- ===== src/Examples/Executions.antt =====
-- examples/ws_executions/main.go: the execution stream of an account, configured through the
-- environment (`getenv` is package os's Getenv). What is printed stands as data.
pub mod Agreeing
use go_kis.Prelude.{
  ℕ, zero, suc, ◌*◌, Bool, true, false, not, List, [], ◌∷◌, ◌++◌, Option, none, some, if◌then◌else◌,
  ltb, pos,
}
use go_kis.Text.{Bytes, codes, is_empty, text_eq}
use go_kis.Kis.Client.{second}
use go_kis.Kis.Create.{ClientConfig}
use go_kis.Kis.Host.{host_vts, host_live}
use go_kis.Kis.Mode.{mock, live, transaction_id}
use go_kis.Kis.Subscribe.{endpoint_vts, endpoint_live}
use go_kis.Ws.Conn.{Event, ReconnectInfo, Stats}
use go_kis.Ws.Dial.{Config}
use go_kis.Ws.Errors.{WsError}
use go_kis.Ws.Execution.{Execution, Side}
use go_kis.Ws.Frame.{tr_execution_vts, tr_execution_live}

unfoldable pub env_or : (Bytes → Bytes) → Bytes → Bytes → Bytes
env_or getenv name fallback = if not (is_empty (getenv name)) then getenv name else fallback

pub record Target : Type 0 where
  pub host : Bytes
  pub endpoint : Bytes

-- `none` is ErrInvalidMode.
unfoldable pub target : Bytes → Option Target
target mode =
    if text_eq mode live
    then some (record { host = host_live; endpoint = endpoint_live })
    else if text_eq mode mock
    then some (record { host = host_vts; endpoint = endpoint_vts })
    else none

-- What the program gives to NewClient, Dial and Subscribe.
pub record Setup : Type 0 where
  pub client : ClientConfig
  pub stream : Config
  pub execution : Bytes
  pub hts_id : Bytes

pub data Fatal : Type 0 where
  invalid_mode hts_id_required : Fatal

pub data Prepared : Type 0 where
  ready : Setup → Prepared
  fatal : Fatal → Prepared

unfoldable pub setup_of : (Bytes → Bytes) → Target → Bytes → Setup
setup_of getenv to execution = record {
  client = record {
    host = to.host;
    app_key = getenv (codes "KIS_APP_KEY");
    app_secret = getenv (codes "KIS_APP_SECRET");
    http_client = none;
    request_timeout = pos (10 * second);
    has_token_provider = false;
  };
  stream = record {
    endpoint = to.endpoint;
    has_approval = false;
    has_client = true;
    has_dialer = true;
    event_buffer = pos 0;
    has_on_reconnect = true;
  };
  execution = execution;
  hts_id = getenv (codes "KIS_HTS_ID");
}

unfoldable pub with_execution : (Bytes → Bytes) → Target → Option Bytes → Prepared
unfolding setup_of
with_execution getenv to none = Prepared.fatal Fatal.invalid_mode
with_execution getenv to (some execution) =
    if is_empty (getenv (codes "KIS_HTS_ID"))
    then Prepared.fatal Fatal.hts_id_required
    else Prepared.ready (setup_of getenv to execution)

unfoldable pub with_target : (Bytes → Bytes) → Bytes → Option Target → Prepared
unfolding with_execution
with_target getenv mode none = Prepared.fatal Fatal.invalid_mode
with_target getenv mode (some to) =
    with_execution getenv to (transaction_id mode tr_execution_vts tr_execution_live)

-- main, as far as NewClient.
unfoldable pub prepare : (Bytes → Bytes) → Prepared
unfolding env_or target with_target
prepare getenv =
    let mode = env_or getenv (codes "KIS_MODE") mock in with_target getenv mode (target mode)

-- The line that a reconnection is logged with.
pub data Report : Type 0 where
  stream_stopped : ℕ → Option WsError → Report
  reconnected : ℕ → ℕ → Report

unfoldable pub on_reconnect : ReconnectInfo → Report
on_reconnect info =
    if info.stopped
    then Report.stream_stopped info.attempt info.error
    else Report.reconnected info.attempt info.subscriptions

unfoldable pub side_text : Side → Bytes
side_text Side.unknown = []
side_text Side.sell = codes "sell"
side_text Side.buy = codes "buy"

unfoldable pub line_of : Execution → Bytes
unfolding side_text
line_of e =
    e.filled_at
    ++ codes " "
    ++ e.symbol
    ++ codes " "
    ++ side_text e.side
    ++ codes " x"
    ++ e.qty
    ++ codes " @"
    ++ e.price
    ++ codes " (order "
    ++ e.order_no
    ++ codes ")\n"

-- The lines of the loop over the events.
unfoldable pub lines_of : List Event → List Bytes
unfolding line_of
lines_of [] = []
lines_of (event ∷ events) = elim event.execution [
  | none ↦ lines_of events
  | some filled ↦ line_of filled ∷ lines_of events
]

-- The counters that are logged at the end, where a frame was dropped.
unfoldable pub last_report : Stats → Option Stats
last_report stats = if ltb 0 stats.dropped_frames then some stats else none
