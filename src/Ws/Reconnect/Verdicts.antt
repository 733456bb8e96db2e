-- ===== src/Ws/Reconnect/Verdicts.antt =====
-- An occupied session ends the connection: no redial, no new key.
use go_kis.Prelude.{
  ℕ, ◌≡◌, refl, ap, ◌∙◌, true, false, Option, none, some, List, [], ◌∷◌, ◌++◌, arith, if◌then◌else◌,
  append_assoc, append-nil,
}
use go_kis.Text.{Bytes, text_eq}
use go_kis.Ws.Conn.Unchanged.{fail_pending-SameSubs}
use go_kis.Ws.Conn.{Conn, Effect, ReconnectInfo, fail_pending}
use go_kis.Ws.Errors.{WsError, msg_code_session_occupied, is_session_occupied}
use go_kis.Ws.Frame.{parse_realtime}
use go_kis.Ws.Reader.Ack.{apply_ack-fatal, apply_ack-SameSubs, fatal_by_code}
use go_kis.Ws.Reader.Link.{apply_ack-SameLink, fail_pending-SameLink}
use go_kis.Ws.Reader.{AckMessage, Surroundings, tr_ping_pong, handle_system, handle, apply_ack}
use go_kis.Ws.Reconnect.{
  Pc, Session, Move, at, drop_transport, notify, if_connected, after_handle, after_read, go_on,
  read_message, move, run,
}

-- A message that is an ACK, not a realtime frame and not a PINGPONG.
pub record IsAck (unmarshal : Bytes → Option AckMessage) (raw : Bytes) (m : AckMessage)
    : Type 0 where
  pub not_realtime : parse_realtime raw ≡ none
  pub decoded : unmarshal raw ≡ some m
  pub not_ping : text_eq m.header.tr_id tr_ping_pong ≡ false

-- The report that the loop has stopped.
abbrev pub occupied_info : ℕ → ℕ → ReconnectInfo
occupied_info attempt now = record {
  attempt = attempt;
  subscriptions = 0;
  stopped = true;
  error = some WsError.session_occupied;
  observed_at = now;
}

-- What the reader does at the end of an occupied session.
abbrev pub farewell : Conn → ℕ → ReconnectInfo → List Effect
farewell c t info =
    Effect.closed_transport t ∷ (if c.has_on_reconnect then Effect.notified info ∷ [] else [])

drop_transport-some :
    (c : Conn) (t : ℕ)
    → c.transport ≡ some t
    → ((drop_transport c).transport ≡ none)
      × ((drop_transport c).has_on_reconnect ≡ c.has_on_reconnect)
      × ((drop_transport c).log ≡ c.log ++ (Effect.closed_transport t ∷ []))
unfolding drop_transport
drop_transport-some c t h = ground arith

notify-log :
    (c : Conn) (info : ReconnectInfo)
    → ((notify c info).transport ≡ c.transport)
      × ((notify c info).log
          ≡ c.log ++ (if c.has_on_reconnect then Effect.notified info ∷ [] else []))
unfolding notify
notify-log c info = ground (arith, append-nil c.log)

-- The end of the loop, from the point where readLoop has returned.
after_read-occupied :
    (s : Session) (now t : ℕ)
    → s.conn.transport ≡ some t
    → ((after_read s now WsError.session_occupied).pc ≡ Pc.stopped)
      × ((after_read s now WsError.session_occupied).conn.transport ≡ none)
      × ((after_read s now WsError.session_occupied).spawned ≡ s.spawned)
      × ((after_read s now WsError.session_occupied).conn.log
          ≡ s.conn.log ++ farewell s.conn t (occupied_info s.attempt now))
unfolding after_read is_session_occupied
after_read-occupied s now t h =
    let (gone, same, said) = drop_transport-some s.conn t h in
    let (kept, told) = notify-log (drop_transport s.conn) (occupied_info s.attempt now) in
    (refl, kept ∙ gone, refl, told ∙ rw (said, same, append_assoc))

module _ (block : Bytes → Bytes → Bytes) (unmarshal : Bytes → Option AckMessage) where
  handle_system-IsAck :
      (c : Conn) (env : Surroundings) (raw : Bytes) {m : AckMessage}
      → IsAck unmarshal raw m
      → handle_system block unmarshal c env raw ≡ apply_ack c m
  unfolding handle_system
  handle_system-IsAck c env raw ack = rw (ack.decoded, handle_system, ack.not_ping)

  pub handle-IsAck :
      (c : Conn) (env : Surroundings) (raw : Bytes) {m : AckMessage}
      → IsAck unmarshal raw m
      → handle block unmarshal c env raw ≡ apply_ack c m
  unfolding handle
  handle-IsAck c env raw ack = rw (ack.not_realtime, handle) (handle_system-IsAck c env raw ack)

  move_stopped : (s : Session) (m : Move) → move block unmarshal s Pc.stopped m ≡ s
  unfolding move
  move_stopped s (Move.proceed now) = refl
  move_stopped s _ = refl

  run_stopped :
      (s : Session) (moves : List Move) → s.pc ≡ Pc.stopped → run block unmarshal s moves ≡ s
  unfolding run
  run_stopped s [] h = refl
  run_stopped s (m ∷ moves) h =
      ap (λ q. run block unmarshal q moves)
        (ap (λ pc. move block unmarshal s pc m) h ∙ move_stopped s m)
      ∙ run_stopped s moves h

  -- The reader reads an ACK that is fatal.
  receive-fatal :
      (s : Session) (t : ℕ) (env : Surroundings) (raw : Bytes) {m : AckMessage} {e : WsError}
      → s.conn.transport ≡ some t
      → IsAck unmarshal raw m
      → fatal_by_code m.body.msg_cd ≡ some e
      → move block unmarshal s Pc.reading (Move.receive env raw)
        ≡ at s (Pc.failing e) (apply_ack s.conn m).0
  unfolding move read_message
  receive-fatal s t env raw {m} {e} connected ack verdict =
      ap (λ link. if_connected link s (after_handle s (handle block unmarshal s.conn env raw)))
        connected
      ∙ ap (after_handle s) (handle-IsAck s.conn env raw ack)
      ∙ after_handle-fatal (apply_ack s.conn m) (apply_ack-fatal s.conn m ∙ verdict)
    where
      after_handle-fatal :
          (r : Conn × Option WsError) → r.1 ≡ some e → after_handle s r ≡ at s (Pc.failing e) r.0
      after_handle-fatal (c, none) h = cc
      after_handle-fatal (c, some f) h = ground arith

  -- The session as the reader leaves it after an ACK of an occupied session, and after the
  -- section that fails the waiters.
  abbrev occupied_ended : Session → AckMessage → Session
  occupied_ended s m =
      at s (Pc.ended WsError.session_occupied)
        (fail_pending (apply_ack s.conn m).0 WsError.session_occupied)

  go_on_open :
      (s : Session) (now : ℕ) (e : WsError)
      → s.conn.closed ≡ false
      → go_on s now (Pc.ended e) ≡ after_read s now e
  unfolding go_on
  go_on_open s now e h = ap (λ b. if b then at s Pc.stopped s.conn else after_read s now e) h

  occupied_ended-same :
      (s : Session) (m : AckMessage)
      → ((occupied_ended s m).conn.closed ≡ s.conn.closed)
        × ((occupied_ended s m).conn.transport ≡ s.conn.transport)
        × ((occupied_ended s m).conn.has_on_reconnect ≡ s.conn.has_on_reconnect)
        × ((occupied_ended s m).conn.log ≡ s.conn.log)
  occupied_ended-same s m =
      let acked = (apply_ack s.conn m).0 in
      let link = apply_ack-SameLink s.conn m in
      let failed = fail_pending-SameLink acked WsError.session_occupied in
      (
        (fail_pending-SameSubs acked WsError.session_occupied).closed
            ∙ (apply_ack-SameSubs s.conn m).closed,
        failed.transport ∙ link.transport,
        failed.has_on_reconnect ∙ link.has_on_reconnect,
        failed.log ∙ link.log,
      )

  run-occupied :
      (s : Session) (t : ℕ) (env : Surroundings) (raw : Bytes) {m : AckMessage} (n n' : ℕ)
      (moves : List Move)
      → s.pc ≡ Pc.reading
      → s.conn.transport ≡ some t
      → s.conn.closed ≡ false
      → IsAck unmarshal raw m
      → m.body.msg_cd ≡ msg_code_session_occupied
      → run block unmarshal s (Move.receive env raw ∷ Move.proceed n ∷ Move.proceed n' ∷ moves)
        ≡ run block unmarshal (after_read (occupied_ended s m) n' WsError.session_occupied) moves
  unfolding run move go_on
  run-occupied s t env raw {m} n n' moves at_pc connected is_open ack code =
      ap (λ q. run block unmarshal q (Move.proceed n ∷ Move.proceed n' ∷ moves))
        (ap (λ pc. move block unmarshal s pc (Move.receive env raw)) at_pc
          ∙ receive-fatal s t env raw connected ack (rw code (unfold text_eq in refl)))
      ∙ ap (λ q. run block unmarshal q moves)
          (go_on_open (occupied_ended s m) n' WsError.session_occupied
            ((occupied_ended-same s m).0 ∙ is_open))

  -- An ACK that says that the session is held elsewhere ends the connection. Whatever comes
  -- later, the reader has stopped and has no socket; it never asks for a key, reissues one or
  -- dials again: after the ACK its only calls are to close the socket and to report the verdict.
  pub occupied_stops :
      (s : Session) (t : ℕ) (env : Surroundings) (raw : Bytes) {m : AckMessage} (n n' : ℕ)
      (moves : List Move)
      → s.pc ≡ Pc.reading
      → s.conn.transport ≡ some t
      → s.conn.closed ≡ false
      → IsAck unmarshal raw m
      → m.body.msg_cd ≡ msg_code_session_occupied
      → let q =
          run block unmarshal s (Move.receive env raw ∷ Move.proceed n ∷ Move.proceed n' ∷ moves) in
        (q.pc ≡ Pc.stopped)
        × (q.conn.transport ≡ none)
        × (q.spawned ≡ s.spawned)
        × (q.conn.log ≡ s.conn.log ++ farewell s.conn t (occupied_info s.attempt n'))
  occupied_stops s t env raw {m} n n' moves at_pc connected is_open ack code =
      let last = occupied_ended s m in
      let (_, link, callback, said) = occupied_ended-same s m in
      let (stops, gone, none_spawned, told) = after_read-occupied last n' t (link ∙ connected) in
      let whole =
        run-occupied s t env raw n n' moves at_pc connected is_open ack code
        ∙ run_stopped (after_read last n' WsError.session_occupied) moves stops in
      (
        ap (λ q. q.pc) whole ∙ stops,
        ap (λ q. q.conn.transport) whole ∙ gone,
        ap (λ q. q.spawned) whole ∙ none_spawned,
        ap (λ q. q.conn.log) whole ∙ told ∙ rw (said, callback),
      )
