-- ===== src/Ws/Reconnect/Reissue.antt =====
-- How often the approval key is reissued: once for a rejection, until a request is accepted.
use go_kis.Prelude.{
  ℕ, ◌+◌, ◌≤◌, ◌≡◌, refl, sym, ◌∙◌, inl, inr, Bool, true, false, Option, none, some, List, [], ◌∷◌,
  arith, if◌then◌else◌, Bool-cases, Option-cases, All,
}
use go_kis.Text.{Bytes, text_eq, text_eq_iff, text_eq_refl}
use go_kis.Ws.Conn.{Conn, Effect, fail_pending}
use go_kis.Ws.Errors.{
  WsError, msg_code_approval_rejected, is_session_occupied, is_approval_rejected, rejection_code,
}
use go_kis.Ws.Frame.{parse_realtime}
use go_kis.Ws.Reader.Ack.{apply_ack-fatal}
use go_kis.Ws.Reader.{AckMessage, Surroundings, tr_ping_pong, handle_system, handle}
use go_kis.Ws.Reconnect.Calm.{
  reissues, budget, reissues-append, IsCalm, IsCalm-trans, IsCalm-refl, accepts, IsOwn, IsOwnPc,
  fatal_by_code-IsOwn, pong-IsOwn, drop_transport-IsCalm, notify-IsCalm, fail_pending-IsCalm,
  reissue-IsCalm, key_known-IsCalm, dial_known-IsCalm, handle-IsCalm,
}
use go_kis.Ws.Reconnect.{
  Pc, Session, Move, at, drop_transport, if_connected, after_handle, after_read, judge, go_on,
  key_known, dial_known, read_message, move, run,
}

-- What one move does to the reissues made and left, and to the errors met.
record Accounts (s q : Session) : Type 0 where
  balance : reissues q.conn.log + budget q.conn ≡ reissues s.conn.log + budget s.conn
  own : IsOwnPc q.pc

IsCalm-Accounts : (s q : Session) → IsCalm s.conn q.conn → IsOwnPc q.pc → Accounts s q
IsCalm-Accounts s q calm own = record { balance = rw (calm.on_record, calm.spent); own = own }

if-Accounts :
    (s : Session) (b : Bool) (x y : Session)
    → Accounts s x
    → Accounts s y
    → Accounts s (if b then x else y)
if-Accounts s true x y hx hy = hx
if-Accounts s false x y hx hy = hy

if_connected-Accounts :
    (s : Session) (t : Option ℕ) (x y : Session)
    → Accounts s x
    → Accounts s y
    → Accounts s (if_connected t x y)
unfolding if_connected
if_connected-Accounts s none x y hx hy = hx
if_connected-Accounts s (some t) x y hx hy = hy

judge-Accounts : (s : Session) (e : WsError) → IsOwn e → Accounts s (judge s e)
unfolding judge reissues is_approval_rejected rejection_code
judge-Accounts s (WsError.approval_rejection code) own =
    elim (Bool-cases (text_eq s.conn.reissued_for code)) [
      | inl known ↦ record { balance = ground arith; own = ground arith }
      | inr new ↦ record {
        balance = ground (
          arith,
          reissues-append s.conn.log (Effect.asked_reissue ∷ []),
          text_eq_refl msg_code_approval_rejected,
        );
        own = ground arith;
      }
    ]
judge-Accounts s _ own = IsCalm-Accounts s _ (IsCalm-refl s.conn) tt

after_read-Accounts :
    (s : Session) (now : ℕ) (e : WsError) → IsOwn e → Accounts s (after_read s now e)
unfolding after_read
after_read-Accounts s now e own = elim (Bool-cases (is_session_occupied e)) [
  | inl occupied ↦
      rw (occupied, after_read)
        (IsCalm-Accounts s _
          (IsCalm-trans (drop_transport-IsCalm s.conn) (notify-IsCalm (drop_transport s.conn) _))
          tt)
  | inr other ↦ rw (other, after_read) (IsCalm-Accounts s _ (drop_transport-IsCalm s.conn) own)
]

go_on-Accounts :
    (s : Session) (now : ℕ) (pc : Pc) → s.pc ≡ pc → IsOwnPc pc → Accounts s (go_on s now pc)
unfolding go_on
go_on-Accounts s now Pc.reading same own =
    if_connected-Accounts s s.conn.transport _ _ (IsCalm-Accounts s _ (IsCalm-refl s.conn) tt)
      (IsCalm-Accounts s s (IsCalm-refl s.conn) (rw same tt))
go_on-Accounts s now (Pc.failing e) same own =
    IsCalm-Accounts s (at s (Pc.ended e) (fail_pending s.conn e)) (fail_pending-IsCalm s.conn e) own
go_on-Accounts s now (Pc.ended e) same own =
    if-Accounts s s.conn.closed _ _ (IsCalm-Accounts s _ (IsCalm-refl s.conn) tt)
      (after_read-Accounts s now e own)
go_on-Accounts s now (Pc.judging e) same own = judge-Accounts s e own
go_on-Accounts s now pc same own = IsCalm-Accounts s s (IsCalm-refl s.conn) (rw same own)

key_known-IsOwnPc : (s : Session) (reply : Option Bytes) → IsOwnPc (key_known s reply).pc
unfolding key_known
key_known-IsOwnPc s none = tt
key_known-IsOwnPc s (some key) = ground arith

dial_known-IsOwnPc :
    (s : Session) (key : Bytes) (reply : Option ℕ) → IsOwnPc (dial_known s key reply).pc
unfolding dial_known
dial_known-IsOwnPc s key none = tt
dial_known-IsOwnPc s key (some t) = ground arith

after_handle-Accounts :
    (s : Session) (r : Conn × Option WsError)
    → IsCalm s.conn r.0
    → ((e : WsError) → r.1 ≡ some e → IsOwn e)
    → Accounts s (after_handle s r)
unfolding after_handle
after_handle-Accounts s (c, none) calm own = IsCalm-Accounts s _ calm tt
after_handle-Accounts s (c, some e) calm own = IsCalm-Accounts s _ calm (own e refl)

module _ (block : Bytes → Bytes → Bytes) (unmarshal : Bytes → Option AckMessage) where
  handle_system-IsOwn :
      (c : Conn) (env : Surroundings) (raw : Bytes) (e : WsError)
      → (handle_system block unmarshal c env raw).1 ≡ some e
      → IsOwn e
  unfolding handle_system
  handle_system-IsOwn c env raw e h = elim (Option-cases (unmarshal raw)) [
    | inl p ↦ absurd (ground arith)
    | inr (m, p) ↦ elim (Bool-cases (text_eq m.header.tr_id tr_ping_pong)) [
      | inl ping ↦ pong-IsOwn c env raw e (rw (p, handle_system, ping) at h)
      | inr ack ↦
          fatal_by_code-IsOwn m.body.msg_cd e
            (sym (apply_ack-fatal c m) ∙ (rw (p, handle_system, ack) at h))
    ]
  ]

  handle-IsOwn :
      (c : Conn) (env : Surroundings) (raw : Bytes) (e : WsError)
      → (handle block unmarshal c env raw).1 ≡ some e
      → IsOwn e
  unfolding handle
  handle-IsOwn c env raw e h = elim (Option-cases (parse_realtime raw)) [
    | inl p ↦ handle_system-IsOwn c env raw e (rw (p, handle) at h)
    | inr (frame, p) ↦ absurd (ground arith)
  ]

  move-Accounts :
      (s : Session) (pc : Pc) (m : Move)
      → s.pc ≡ pc
      → accepts block unmarshal m ≡ false
      → IsOwnPc pc
      → Accounts s (move block unmarshal s pc m)
  unfolding move read_message
  move-Accounts s Pc.reading (Move.receive env raw) same quiet own =
      if_connected-Accounts s s.conn.transport _ _
        (IsCalm-Accounts s s (IsCalm-refl s.conn) (rw same tt))
        (after_handle-Accounts s (handle block unmarshal s.conn env raw)
          (handle-IsCalm block unmarshal s.conn env raw quiet) (handle-IsOwn s.conn env raw))
  move-Accounts s Pc.reading (Move.read_error text) same quiet own =
      if_connected-Accounts s s.conn.transport _ _
        (IsCalm-Accounts s s (IsCalm-refl s.conn) (rw same tt))
        (IsCalm-Accounts s _ (IsCalm-refl s.conn) tt)
  move-Accounts s Pc.reissuing (Move.reissue_reply reply) same quiet own =
      IsCalm-Accounts s _ (reissue-IsCalm s.conn reply) tt
  move-Accounts s Pc.sleeping Move.timer same quiet own =
      IsCalm-Accounts s _ (IsCalm-refl s.conn) (ground arith)
  move-Accounts s Pc.sleeping Move.done_closed same quiet own =
      if-Accounts s s.conn.done _ _ (IsCalm-Accounts s _ (IsCalm-refl s.conn) tt)
        (IsCalm-Accounts s s (IsCalm-refl s.conn) (rw same tt))
  move-Accounts s Pc.redialing (Move.key_reply reply) same quiet own =
      IsCalm-Accounts s _ (key_known-IsCalm s reply) (key_known-IsOwnPc s reply)
  move-Accounts s (Pc.dialing key) (Move.dial_reply reply) same quiet own =
      IsCalm-Accounts s _ (dial_known-IsCalm s key reply) (dial_known-IsOwnPc s key reply)
  move-Accounts s pc (Move.proceed now) same quiet own = go_on-Accounts s now pc same own
  move-Accounts s pc _ same quiet own = IsCalm-Accounts s s (IsCalm-refl s.conn) (rw same own)

  run-balance :
      (s : Session) (moves : List Move)
      → IsOwnPc s.pc
      → All (λ m. accepts block unmarshal m ≡ false) moves
      → reissues (run block unmarshal s moves).conn.log + budget (run block unmarshal s moves).conn
        ≡ reissues s.conn.log + budget s.conn
  unfolding run
  run-balance s [] own quiet = refl
  run-balance s (m ∷ moves) own quiet =
      let step = move-Accounts s s.pc m refl quiet.0 own in
      run-balance (move block unmarshal s s.pc m) moves step.own quiet.1 ∙ step.balance

  -- While no request is accepted, the reader asks for at most one reissue, however often the key
  -- is rejected, the socket fails or a redial does.
  pub reissues-le :
      (s : Session) (moves : List Move)
      → IsOwnPc s.pc
      → All (λ m. accepts block unmarshal m ≡ false) moves
      → reissues (run block unmarshal s moves).conn.log ≤ reissues s.conn.log + 1
  reissues-le s moves own quiet = let balance = run-balance s moves own quiet in ground arith

  -- And it asks for none where one was made already for the rejection on record.
  pub reissues-le_on_record :
      (s : Session) (moves : List Move)
      → IsOwnPc s.pc
      → s.conn.reissued_for ≡ msg_code_approval_rejected
      → All (λ m. accepts block unmarshal m ≡ false) moves
      → reissues (run block unmarshal s moves).conn.log ≤ reissues s.conn.log
  reissues-le_on_record s moves own known quiet =
      let balance = run-balance s moves own quiet in
      ground (arith, text_eq_iff s.conn.reissued_for msg_code_approval_rejected)
