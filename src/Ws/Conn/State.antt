-- ===== src/Ws/Conn/State.antt =====
-- kis/ws/conn.go: the types.
use go_kis.Prelude.{ℕ, Bool, List, [], ◌∷◌, ◌++◌, Option}
use go_kis.Text.{Bytes}
use go_kis.Kis.Subscribe.{Subscribe}
use go_kis.Ws.Crypto.{AesMaterial}
use go_kis.Ws.Errors.{WsError}
use go_kis.Ws.Execution.{Execution}

pub record ReconnectInfo : Type 0 where
  pub attempt : ℕ
  pub subscriptions : ℕ
  pub stopped : Bool
  pub error : Option WsError
  pub observed_at : ℕ

-- `execution_error` is the number of fields in an executionFieldCountError.
pub record Event : Type 0 where
  pub tr : Bytes
  pub key : Bytes
  pub fields : List Bytes
  pub execution : Option Execution
  pub execution_error : Option ℕ
  pub raw : Bytes
  pub received_at : ℕ

pub record Stats : Type 0 where
  pub dropped_frames : ℕ
  pub last_drop_tr : Bytes
  pub last_drop_reason : Bytes

pub record Subscription : Type 0 where
  pub tr : Bytes
  pub key : Bytes

-- `id` stands for the identity of the pointer, and of the channel that it holds.
pub record PendingAck : Type 0 where
  pub id : ℕ
  pub tr : Bytes

-- The calls that a connection makes of the interfaces it is given, in their order. A transport is
-- named by a number; a Write and a Pong stand with the
-- error that they gave.
pub data Effect : Type 0 where
  wrote : ℕ → Subscribe → Option WsError → Effect
  ponged : ℕ → Bytes → Option Bytes → Effect
  closed_transport : ℕ → Effect
  asked_key : Effect
  asked_reissue : Effect
  dialed : Bytes → Effect
  notified : ReconnectInfo → Effect

-- The fields of Conn that change after Dial, and what its channels and interfaces have seen:
-- `mailbox` the verdicts sent to waiters, `events` all events sent so far, `log` the calls.
-- `done` says that the channel of that name is closed; `next_waiter` is a fresh identity.
pub record Conn : Type 0 where
  pub endpoint : Bytes
  pub has_on_reconnect : Bool
  pub transport : Option ℕ
  pub key : Bytes
  pub generation : ℕ
  pub subs : List Subscription
  pub material : List (Bytes × AesMaterial)
  pub pending : List PendingAck
  pub closed : Bool
  pub done : Bool
  pub stats : Stats
  pub reissued_for : Bytes
  pub next_waiter : ℕ
  pub mailbox : List (ℕ × Option WsError)
  pub events : List Event
  pub log : List Effect

-- A call that is added to the log.
abbrev pub logged : Conn → Effect → Conn
logged c e = record c { log = c.log ++ (e ∷ []) }
