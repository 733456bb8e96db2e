-- ===== src/Ws/System.antt =====
-- A connection with all its goroutines, as a sequence of their critical sections: the reader's
-- moves, the sections of requests (of callers and of resubscribe passes) and those of Close. The
-- order is any; what a request or Close does after its first section may stand anywhere later. The
-- frames of both are written by `writes`; Close ends only where its first section came before.
pub mod Invariant
pub mod Registration
pub mod Forgetting
pub mod Stopping
mod QuietAcks
mod Quiet
pub mod Delivery
pub mod Material
pub mod Pacing
pub mod Tally
pub mod Closing
use go_kis.Prelude.{if◌then◌else◌, Option, none, some, List, [], ◌∷◌}
use go_kis.Text.{Bytes}
use go_kis.Kis.Subscribe.{Subscribe}
use go_kis.Ws.Conn.{Conn, PendingAck, Outcome, begin, write, finish, start_close, close_end}
use go_kis.Ws.Errors.{WsError}
use go_kis.Ws.Reader.{AckMessage}
use go_kis.Ws.Reconnect.{Pc, Session, Move, move}

pub data Action : Type 0 where
  reader : Move → Action
  begins : Bytes → Bytes → Bytes → Action
  writes : Option Prim.Native.Nat.ℕ → Subscribe → Option WsError → Action
  finishes : Bytes → Bytes → Bytes → PendingAck → Outcome → Action
  closing : Action
  ends_close : Option Prim.Native.Nat.ℕ → Action

-- The session that Dial leaves.
abbrev pub start : Conn → Session
start c = record { conn = c; pc = Pc.reading; attempt = 0; spawned = [] }

unfoldable pub begin_or_refuse : Conn → Bytes → Bytes → Bytes → Conn
begin_or_refuse c tr_type tr key = elim (begin c tr_type tr key) [ none ↦ c | some b ↦ b.conn ]

module _ (block : Bytes → Bytes → Bytes) (unmarshal : Bytes → Option AckMessage) where
  unfoldable pub act : Session → Action → Session
  act s (Action.reader m) = move block unmarshal s s.pc m
  act s (Action.begins tr_type tr key) = record s { conn = begin_or_refuse s.conn tr_type tr key }
  act s (Action.writes t frame failure) = record s { conn = (write s.conn t frame failure).0 }
  act s (Action.finishes tr_type tr key w o) = record s {
    conn = (finish s.conn tr_type tr key w o).0;
  }
  act s Action.closing = record s { conn = start_close s.conn }
  act s (Action.ends_close t) = record s {
    conn = if s.conn.closed then close_end s.conn t else s.conn;
  }

  unfoldable pub perform : Session → List Action → Session
  perform s [] = s
  perform s (a ∷ actions) = perform (act s a) actions
