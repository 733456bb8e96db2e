-- ===== src/Ws/System/Stopping.antt =====
-- The end of the goroutine that owns the socket: after Close it stops, whatever it was doing.
use go_kis.Prelude.{
  ℕ, ◌+◌, ◌≤◌, ◌≡◌, ◌⊎◌, refl, ◌∙◌, inl, inr, Bool, true, false, not, Option, none, some, List, [],
  ◌∷◌, arith, Option-cases, if◌then◌else◌,
}
use go_kis.Text.{Bytes}
use go_kis.Kis.Subscribe.{Subscribe}
use go_kis.Ws.Conn.Closing.{start_close-closed, ends_close-closed}
use go_kis.Ws.Conn.Registered.{finish-flags}
use go_kis.Ws.Conn.{Conn, begin, write}
use go_kis.Ws.Errors.{WsError}
use go_kis.Ws.Reader.{AckMessage, Surroundings, handle}
use go_kis.Ws.Reconnect.Keeping.{move-Keeps}
use go_kis.Ws.Reconnect.{
  Pc, Session, Move, after_handle, if_connected, judge, mark_rejection, go_on, key_known,
  dial_known, read_message, move,
}
use go_kis.Ws.System.{Action, begin_or_refuse, act, perform}

abbrev has_socket : Option ℕ → Bool
has_socket none = false
has_socket (some t) = true

-- Whether the goroutine waits for this move where it stands. Taking another message from the
-- socket does not count: it may leave the goroutine where it is.
pub awaits : Session → Pc → Move → Bool
awaits s Pc.reading (Move.read_error text) = has_socket s.conn.transport
awaits s Pc.reading (Move.proceed now) = not (has_socket s.conn.transport)
awaits s (Pc.failing e) (Move.proceed now) = true
awaits s (Pc.ended e) (Move.proceed now) = true
awaits s (Pc.judging e) (Move.proceed now) = true
awaits s Pc.reissuing (Move.reissue_reply reply) = true
awaits s Pc.sleeping Move.timer = true
awaits s Pc.sleeping Move.done_closed = s.conn.done
awaits s Pc.redialing (Move.key_reply reply) = true
awaits s (Pc.dialing key) (Move.dial_reply reply) = true
awaits s pc m = false

-- How many moves are left at most once the connection is closed.
rank : Pc → ℕ
rank Pc.stopped = 0
rank (Pc.ended e) = 1
rank Pc.sleeping = 1
rank (Pc.failing e) = 2
rank Pc.reissuing = 2
rank Pc.reading = 3
rank (Pc.judging e) = 3
rank (Pc.dialing key) = 4
rank Pc.redialing = 5

rank-bound : (pc : Pc) → rank pc ≤ 5
unfolding rank
rank-bound Pc.stopped = omega arith
rank-bound _ = ground arith

abbrev counted : Bool → ℕ
counted b = if b then 1 else 0

judge-rank : (s : Session) (e : WsError) → rank (judge s e).pc ≤ 2
unfolding judge mark_rejection rank
judge-rank s e = ground arith

key_known-rank : (s : Session) (reply : Option Bytes) → rank (key_known s reply).pc ≤ 4
unfolding key_known rank
key_known-rank s none = omega arith
key_known-rank s (some key) = ground arith

dial_known-rank :
    (s : Session) (key : Bytes) (reply : Option ℕ) → rank (dial_known s key reply).pc ≤ 3
unfolding dial_known rank
dial_known-rank s key none = omega arith
dial_known-rank s key (some t) = ground arith

after_handle-rank : (s : Session) (r : Conn × Option WsError) → rank (after_handle s r).pc ≤ 3
unfolding after_handle rank
after_handle-rank s (c, none) = omega arith
after_handle-rank s (c, some e) = omega arith

-- A goroutine has stopped, or it waits for something.
awaits_some : (s : Session) (pc : Pc) → (pc ≡ Pc.stopped) ⊎ ((m : Move) × (awaits s pc m ≡ true))
unfolding awaits
awaits_some s Pc.reading = elim (Option-cases s.conn.transport) [
  | inl without ↦ inr (Move.proceed 0, rw (without, has_socket) refl)
  | inr (t, with_one) ↦ inr (Move.read_error [], rw (with_one, has_socket) refl)
]
awaits_some s (Pc.failing e) = inr (Move.proceed 0, refl)
awaits_some s (Pc.ended e) = inr (Move.proceed 0, refl)
awaits_some s (Pc.judging e) = inr (Move.proceed 0, refl)
awaits_some s Pc.reissuing = inr (Move.reissue_reply none, refl)
awaits_some s Pc.sleeping = inr (Move.timer, refl)
awaits_some s Pc.redialing = inr (Move.key_reply none, refl)
awaits_some s (Pc.dialing key) = inr (Move.dial_reply none, refl)
awaits_some s Pc.stopped = inl refl

if_connected-rank :
    (t : Option ℕ) (x y : Session)
    → rank x.pc ≤ 3
    → rank y.pc ≤ 3
    → rank (if_connected t x y).pc ≤ 3
unfolding if_connected
if_connected-rank none x y hx hy = hx
if_connected-rank (some t) x y hx hy = hy

begin_or_refuse-closed :
    (c : Conn) (tr_type tr key : Bytes)
    → c.closed ≡ true
    → (begin_or_refuse c tr_type tr key).closed ≡ true
unfolding begin_or_refuse begin
begin_or_refuse-closed c tr_type tr key h = ground arith

write-closed :
    (c : Conn) (t : Option ℕ) (frame : Subscribe) (failure : Option WsError)
    → (write c t frame failure).0.closed ≡ c.closed
unfolding write
write-closed c none frame failure = refl
write-closed c (some t) frame failure = refl

module _ (block : Bytes → Bytes → Bytes) (unmarshal : Bytes → Option AckMessage) where
  read_message-rank :
      (s : Session) (env : Surroundings) (raw : Bytes)
      → s.pc ≡ Pc.reading
      → rank (read_message block unmarshal s env raw).pc ≤ 3
  unfolding read_message if_connected rank
  read_message-rank s env raw here =
      if_connected-rank s.conn.transport s (after_handle s (handle block unmarshal s.conn env raw))
        (ground arith) (after_handle-rank s (handle block unmarshal s.conn env raw))

  move-rank :
      (s : Session) (pc : Pc) (m : Move)
      → s.pc ≡ pc
      → s.conn.closed ≡ true
      → rank (move block unmarshal s pc m).pc + counted (awaits s pc m) ≤ rank pc
  unfolding move awaits rank go_on if_connected
  move-rank s Pc.reading (Move.receive env raw) here closed =
      ground (arith, read_message-rank s env raw here)
  move-rank s Pc.redialing (Move.key_reply reply) here closed =
      ground (arith, key_known-rank s reply)
  move-rank s (Pc.dialing key) (Move.dial_reply reply) here closed =
      ground (arith, dial_known-rank s key reply)
  move-rank s (Pc.judging e) (Move.proceed now) here closed = ground (arith, judge-rank s e)
  move-rank s _ _ here closed = ground arith

  act-closed :
      (s : Session) (a : Action)
      → s.conn.closed ≡ true
      → (act block unmarshal s a).conn.closed ≡ true
  unfolding act
  act-closed s (Action.reader m) h = (move-Keeps block unmarshal s s.pc m).subs.closed ∙ h
  act-closed s (Action.begins tr_type tr key) h = begin_or_refuse-closed s.conn tr_type tr key h
  act-closed s (Action.writes t frame failure) h = write-closed s.conn t frame failure ∙ h
  act-closed s (Action.finishes tr_type tr key w o) h =
      (finish-flags s.conn tr_type tr key w o).0 ∙ h
  act-closed s Action.closing h = start_close-closed s.conn
  act-closed s (Action.ends_close t) h = ends_close-closed s.conn t ∙ h

  progressed : Session → Action → ℕ
  progressed s (Action.reader m) = counted (awaits s s.pc m)
  progressed s _ = 0

  act-rank :
      (s : Session) (a : Action)
      → s.conn.closed ≡ true
      → rank (act block unmarshal s a).pc + progressed s a ≤ rank s.pc
  unfolding act progressed
  act-rank s (Action.reader m) closed = move-rank s s.pc m refl closed
  act-rank s _ closed = omega arith

  -- The moves of a history that the goroutine waited for when they came.
  pub progress : Session → List Action → ℕ
  progress s [] = 0
  progress s (a ∷ actions) = progressed s a + progress (act block unmarshal s a) actions

  progress-rank :
      (s : Session) (actions : List Action)
      → s.conn.closed ≡ true
      → rank (perform block unmarshal s actions).pc + progress s actions ≤ rank s.pc
  unfolding perform progress
  progress-rank s [] closed = omega arith
  progress-rank s (a ∷ actions) closed = ground (
    arith,
    act-rank s a closed,
    progress-rank (act block unmarshal s a) actions (act-closed s a closed),
  )

  -- A closed connection's goroutine makes at most five moves that it waits for, whatever calls of
  -- other goroutines stand between them and however many messages it still takes from the socket;
  -- after any history it has stopped, or there is a move that it waits for.
  pub progress-bound :
      (s : Session) (actions : List Action)
      → s.conn.closed ≡ true
      → (progress s actions ≤ 5)
        × (((perform block unmarshal s actions).pc ≡ Pc.stopped)
            ⊎ ((m : Move) × (awaits
                    (perform block unmarshal s actions)
                    (perform block unmarshal s actions).pc
                    m
                  ≡ true)))
  progress-bound s actions closed = (
    ground (arith, progress-rank s actions closed, rank-bound s.pc),
    awaits_some (perform block unmarshal s actions) (perform block unmarshal s actions).pc,
  )
