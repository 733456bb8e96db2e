-- ===== src/Ws/System/Tally.antt =====
-- What becomes of the messages that the reader takes: events and drops.
pub mod Level
use go_kis.Prelude.{
  ℕ, ◌+◌, ◌≤◌, ◌≡◌, refl, inl, inr, Bool, true, false, ◌||◌, List, [], ◌∷◌, ◌++◌, Option, none,
  some, arith, length, length-append, All, if◌then◌else◌, if-holds, Bool-cases, Option-cases,
}
use go_kis.Text.{Bytes, codes, is_empty, text_eq, trim_space}
use go_kis.Kis.Subscribe.{Subscribe}
use go_kis.Ws.Conn.{
  Conn, Event, PendingAck, Outcome, begin, add_subscription, remove_subscription, write, finish,
  finish_answered, drop_subscription_on_failure, forget, start_close, close_begin, close_end,
  resolve, resolve_all, fail_pending, take_pending, ReconnectInfo,
}
use go_kis.Ws.Crypto.Usable.{Decoded-cases}
use go_kis.Ws.Crypto.{new_material}
use go_kis.Ws.Errors.{WsError, classify_ack, is_session_occupied}
use go_kis.Ws.Frame.{RealtimeFrame, parse_realtime}
use go_kis.Ws.Reader.Publish.{sum-cases}
use go_kis.Ws.Reader.{
  AckMessage, AckOutput, Surroundings, tr_ping_pong, count_drop, store_material, clear_rejection,
  accept, resolve_waiter, apply_ack, pong, handle_system, ack_tr, event_of, send_event,
  open_payload, publish, handle,
}
use go_kis.Ws.Reconnect.{
  Pc, Session, Move, drop_transport, notify, reissue, install, if_connected, after_handle,
  after_read, judge, mark_rejection, go_on, key_known, dial_known, read_message, move,
}
use go_kis.Ws.System.Tally.Level.{
  tally, Grows, Grows-trans, level, resolve-tally, resolve_all-tally, fail_pending-tally,
  after_read-tally, judge-tally, go_on-tally, reissue-tally, key_known-tally, dial_known-tally,
  begin_or_refuse-tally, write-tally, finish-tally, start_close-tally, ends_close-tally,
  count_drop-Grows, widen, store_material-Grows, accept-Grows, resolve_waiter-tally,
  apply_ack-Grows, pong-tally, send_event-Grows,
}
use go_kis.Ws.System.{Action, begin_or_refuse, act, perform}

unfoldable pub is_realtime : Bytes → Bool
is_realtime raw = elim (parse_realtime raw) [ none ↦ false | some frame ↦ true ]

-- The realtime frames among some texts.
unfoldable pub realtimes : List Bytes → ℕ
unfolding is_realtime
realtimes [] = 0
realtimes (raw ∷ texts) = (if is_realtime raw then 1 else 0) + realtimes texts

realtimes-none : (raw : Bytes) → parse_realtime raw ≡ none → realtimes (raw ∷ []) ≡ 0
unfolding realtimes is_realtime
realtimes-none raw e = rw (e, is_realtime) (omega arith)

realtimes-some :
    (raw : Bytes) {frame : RealtimeFrame}
    → parse_realtime raw ≡ some frame
    → realtimes (raw ∷ []) ≡ 1
unfolding realtimes is_realtime
realtimes-some raw e = rw (e, is_realtime) (omega arith)

realtimes-append : (xs ys : List Bytes) → realtimes (xs ++ ys) ≡ realtimes xs + realtimes ys
unfolding realtimes
realtimes-append [] ys = omega arith
realtimes-append (x ∷ xs) ys = omega (arith, realtimes-append xs ys)

-- What the reader takes of a text that arrives: nothing where it does not read.
unfoldable pub taken_at : Pc → Option ℕ → Bytes → List Bytes
taken_at Pc.reading (some t) raw = raw ∷ []
taken_at _ _ raw = []

unfoldable pub taken_of : Pc → Option ℕ → Move → List Bytes
unfolding taken_at
taken_of pc t (Move.receive env raw) = taken_at pc t raw
taken_of pc t _ = []

unfoldable pub taken_by : Session → Action → List Bytes
unfolding taken_of
taken_by s (Action.reader m) = taken_of s.pc s.conn.transport m
taken_by s _ = []

-- The consumer takes the event that the action sends, if any.
abbrev pub is_served : Action → Bool
is_served (Action.reader (Move.receive env raw)) = env.event_taken
is_served _ = true

module _ (block : Bytes → Bytes → Bytes) where
  publish-Grows :
      (c : Conn) (env : Surroundings) (frame : RealtimeFrame) (raw : Bytes)
      → env.event_taken ≡ true
      → Grows 1 1 c (publish block c env frame raw)
  unfolding publish
  publish-Grows c env frame raw taken = elim (sum-cases (open_payload block c frame)) [
    | inl (payload, e) ↦
        rw (e, publish) (send_event-Grows c env (event_of frame payload raw env.now) taken)
    | inr (reason, e) ↦ rw (e, publish) (count_drop-Grows c frame.tr reason)
  ]

  module _ (unmarshal : Bytes → Option AckMessage) where
    handle_system-Grows :
        (c : Conn) (env : Surroundings) (raw : Bytes)
        → Grows 0 1 c (handle_system block unmarshal c env raw).0
    unfolding handle_system
    handle_system-Grows c env raw = elim (Option-cases (unmarshal raw)) [
      | inl e ↦
          rw (e, handle_system)
            (widen (omega arith) (omega arith) (count_drop-Grows c [] (codes "unrecognised frame")))
      | inr (m, e) ↦ elim (Bool-cases (text_eq m.header.tr_id tr_ping_pong)) [
        | inl ping ↦
            rw (e, handle_system, ping)
              (widen (omega arith) (omega arith) (level (pong-tally c env raw)))
        | inr ack ↦ rw (e, handle_system, ack) (apply_ack-Grows c m)
      ]
    ]

    handle-Grows :
        (c : Conn) (env : Surroundings) (raw : Bytes)
        → env.event_taken ≡ true
        → Grows (realtimes (raw ∷ [])) 1 c (handle block unmarshal c env raw).0
    unfolding handle
    handle-Grows c env raw taken = elim (Option-cases (parse_realtime raw)) [
      | inl e ↦ rw (e, handle, realtimes-none raw e) (handle_system-Grows c env raw)
      | inr (frame, e) ↦ rw (e, handle, realtimes-some raw e) (publish-Grows c env frame raw taken)
    ]

    after_handle-tally :
        (s : Session) (r : Conn × Option WsError) → tally (after_handle s r).conn ≡ tally r.0
    unfolding after_handle
    after_handle-tally s (c, none) = refl
    after_handle-tally s (c, some e) = refl

    -- A part of a history with the texts that it takes.
    abbrev Accounts : Conn → Conn → List Bytes → Type 0
    Accounts c d taken = Grows (realtimes taken) (length taken) c d

    idle : (c d : Conn) → tally d ≡ tally c → Accounts c d []
    unfolding realtimes
    idle c d h = level h

    if_connected-Accounts :
        (s q : Session) (t : Option ℕ) (raw : Bytes)
        → Grows (realtimes (raw ∷ [])) 1 s.conn q.conn
        → Accounts s.conn (if_connected t s q).conn (taken_at Pc.reading t raw)
    unfolding if_connected taken_at
    if_connected-Accounts s q none raw w = idle s.conn s.conn refl
    if_connected-Accounts s q (some t) raw w = w

    read_message-Accounts :
        (s : Session) (env : Surroundings) (raw : Bytes)
        → env.event_taken ≡ true
        → Accounts s.conn
            (read_message block unmarshal s env raw).conn
            (taken_at Pc.reading s.conn.transport raw)
    unfolding read_message
    read_message-Accounts s env raw taken =
        let w = handle-Grows s.conn env raw taken in
        let same = after_handle-tally s (handle block unmarshal s.conn env raw) in
        if_connected-Accounts s _ s.conn.transport raw
          (record { above = omega (arith, w.above, same); below = omega (arith, w.below, same) })

    move-Accounts :
        (s : Session) (pc : Pc) (m : Move)
        → is_served (Action.reader m) ≡ true
        → Accounts s.conn (move block unmarshal s pc m).conn (taken_of pc s.conn.transport m)
    unfolding move taken_of taken_at if_connected
    move-Accounts s Pc.reading (Move.receive env raw) taken = read_message-Accounts s env raw taken
    move-Accounts s Pc.reading (Move.read_error text) taken = idle s.conn _ (ground arith)
    move-Accounts s Pc.reissuing (Move.reissue_reply reply) taken =
        idle s.conn _ (reissue-tally s.conn reply)
    move-Accounts s Pc.sleeping Move.timer taken = idle s.conn _ refl
    move-Accounts s Pc.sleeping Move.done_closed taken = idle s.conn _ (ground arith)
    move-Accounts s Pc.redialing (Move.key_reply reply) taken =
        idle s.conn _ (key_known-tally s reply)
    move-Accounts s (Pc.dialing key) (Move.dial_reply reply) taken =
        idle s.conn _ (dial_known-tally s key reply)
    move-Accounts s pc (Move.proceed now) taken = idle s.conn _ (go_on-tally s now pc)
    move-Accounts s pc m taken = idle s.conn s.conn refl

    act-Accounts :
        (s : Session) (a : Action)
        → is_served a ≡ true
        → Accounts s.conn (act block unmarshal s a).conn (taken_by s a)
    unfolding act taken_by
    act-Accounts s (Action.reader m) served = move-Accounts s s.pc m served
    act-Accounts s (Action.begins tr_type tr key) served =
        idle s.conn _ (begin_or_refuse-tally s.conn tr_type tr key)
    act-Accounts s (Action.writes t frame failure) served =
        idle s.conn _ (write-tally s.conn t frame failure)
    act-Accounts s (Action.finishes tr_type tr key w o) served =
        idle s.conn _ (finish-tally s.conn tr_type tr key w o)
    act-Accounts s Action.closing served = idle s.conn _ (start_close-tally s.conn)
    act-Accounts s (Action.ends_close t) served = idle s.conn _ (ends_close-tally s.conn t)

    -- The texts that the reader takes from its sockets in a history.
    unfoldable pub taken : Session → List Action → List Bytes
    taken s [] = []
    taken s (a ∷ actions) = taken_by s a ++ taken (act block unmarshal s a) actions

    -- While the consumer takes events, the number of events sent and of frames counted as dropped
    -- grows, over any history of a connection, by the number of realtime frames that the reader
    -- has taken from its sockets at least, and by the number of all messages that it has taken at
    -- most: no frame vanishes, and no message counts twice.
    pub perform-tally :
        (s : Session) (actions : List Action)
        → All (λ a. is_served a ≡ true) actions
        → (tally s.conn + realtimes (taken s actions)
            ≤ tally (perform block unmarshal s actions).conn)
          × (tally (perform block unmarshal s actions).conn
              ≤ tally s.conn + length (taken s actions))
    unfolding perform taken realtimes
    perform-tally s [] all = (omega arith, omega arith)
    perform-tally s (a ∷ actions) (served, all) =
        let q = act block unmarshal s a in
        let w = act-Accounts s a served in
        let (above, below) = perform-tally q actions all in
        (
          omega (arith, w.above, above, realtimes-append (taken_by s a) (taken q actions)),
          omega (arith, w.below, below, length-append (taken_by s a) (taken q actions)),
        )
