-- ===== src/Ws/Reconnect/Calm.antt =====
-- What neither reissues the approval key nor changes the rejection on record.
use go_kis.Prelude.{
  ℕ, suc, ◌+◌, ◌≡◌, refl, ap, ◌∙◌, inl, inr, Bool, false, not, ◌&&◌, Option, none, some, List, [],
  ◌∷◌, ◌++◌, arith, if◌then◌else◌, Bool-cases, Option-cases,
}
use go_kis.Text.{Bytes, codes, text_eq}
use go_kis.Ws.Conn.{Conn, Effect, fail_pending, logged, ReconnectInfo}
use go_kis.Ws.Errors.{WsError, msg_code_session_occupied, msg_code_approval_rejected, classify_ack}
use go_kis.Ws.Frame.{RealtimeFrame, parse_realtime}
use go_kis.Ws.Reader.Ack.{classify_ack-eq, fatal_by_code}
use go_kis.Ws.Reader.Link.{
  apply_ack-SameLink, fail_pending-SameLink, fail_pending-reissued_for, resolve_waiter-reissued_for,
}
use go_kis.Ws.Reader.{
  AckMessage, AckOutput, Surroundings, tr_ping_pong, pong, publish, handle_system, handle, accept,
  ack_tr, apply_ack, count_drop,
}
use go_kis.Ws.Conn.{take_pending}
use go_kis.Ws.Reconnect.{Pc, Session, Move, drop_transport, notify, reissue, key_known, dial_known}

-- The calls of Reissue in a log.
unfoldable pub reissues : List Effect → ℕ
reissues [] = 0
reissues (Effect.asked_reissue ∷ log) = suc (reissues log)
reissues (_ ∷ log) = reissues log

-- What is left to be spent: one reissue, unless one was made for the code already.
abbrev pub budget : Conn → ℕ
budget c = if text_eq c.reissued_for msg_code_approval_rejected then 0 else 1

pub reissues-append : (xs ys : List Effect) → reissues (xs ++ ys) ≡ reissues xs + reissues ys
unfolding reissues
reissues-append [] ys = omega arith
reissues-append (Effect.asked_reissue ∷ xs) ys = omega (arith, reissues-append xs ys)
reissues-append (_ ∷ xs) ys = reissues-append xs ys

-- Neither reissue nor a change of the code on record.
pub record IsCalm (c d : Conn) : Type 0 where
  pub on_record : d.reissued_for ≡ c.reissued_for
  pub spent : reissues d.log ≡ reissues c.log

pub IsCalm-trans : {c d e : Conn} → IsCalm c d → IsCalm d e → IsCalm c e
IsCalm-trans p q = record { on_record = q.on_record ∙ p.on_record; spent = q.spent ∙ p.spent }

pub IsCalm-refl : (c : Conn) → IsCalm c c
IsCalm-refl c = record { on_record = refl; spent = refl }

pub IsCalm-logged : (c : Conn) (e : Effect) → reissues (e ∷ []) ≡ 0 → IsCalm c (logged c e)
IsCalm-logged c e h = record {
  on_record = refl;
  spent = omega (arith, reissues-append c.log (e ∷ []), h);
}

-- The ACK accepts a request.
abbrev pub accepts_request : AckMessage → Bool
accepts_request m =
    text_eq m.body.rt_cd (codes "0")
    && not (text_eq m.body.msg_cd msg_code_approval_rejected)
    && not (text_eq m.body.msg_cd msg_code_session_occupied)

accept-on_record :
    (c : Conn) (tr rt_cd msg_cd msg1 tr' : Bytes) (o : AckOutput)
    → (text_eq rt_cd (codes "0")
        && not (text_eq msg_cd msg_code_approval_rejected)
        && not (text_eq msg_cd msg_code_session_occupied))
      ≡ false
    → (accept c (classify_ack tr rt_cd msg_cd msg1) tr' o).reissued_for ≡ c.reissued_for
unfolding accept
accept-on_record c tr rt_cd msg_cd msg1 tr' o h =
    ground (arith, classify_ack-eq tr rt_cd msg_cd msg1)

pub apply_ack-IsCalm :
    (c : Conn) (m : AckMessage) → accepts_request m ≡ false → IsCalm c (apply_ack c m).0
unfolding apply_ack take_pending
apply_ack-IsCalm c m h =
    let (found, taken) = take_pending c m.header.tr_id in
    let tr = ack_tr m.header.tr_id found in
    let body = m.body in
    let v = classify_ack tr body.rt_cd body.msg_cd body.msg1 in
    record {
      on_record =
          resolve_waiter-reissued_for (accept taken v tr body.output) found v
          ∙ accept-on_record taken tr body.rt_cd body.msg_cd body.msg1 tr body.output h;
      spent = ap reissues (apply_ack-SameLink c m).log;
    }

pub pong-IsCalm : (c : Conn) (env : Surroundings) (raw : Bytes) → IsCalm c (pong c env raw).0
unfolding pong reissues
pong-IsCalm c env raw = grind (arith, reissues-append)

module _ (block : Bytes → Bytes → Bytes) (unmarshal : Bytes → Option AckMessage) where
  -- The message is an ACK that accepts a request.
  abbrev pub accepts : Move → Bool
  accepts (Move.receive env raw) = elim (unmarshal raw) [
    | none ↦ false
    | some m ↦ accepts_request m
  ]
  accepts _ = false

  pub handle_system-IsCalm :
      (c : Conn) (env : Surroundings) (raw : Bytes)
      → accepts (Move.receive env raw) ≡ false
      → IsCalm c (handle_system block unmarshal c env raw).0
  unfolding handle_system
  handle_system-IsCalm c env raw h = elim (Option-cases (unmarshal raw)) [
    | inl e ↦ rw (e, handle_system) (unfold count_drop in record { on_record = refl; spent = refl })
    | inr (m, e) ↦ elim (Bool-cases (text_eq m.header.tr_id tr_ping_pong)) [
      | inl ping ↦ rw (e, handle_system, ping) (pong-IsCalm c env raw)
      | inr ack ↦ rw (e, handle_system, ack) (apply_ack-IsCalm c m (ground arith))
    ]
  ]

  pub publish-IsCalm :
      (c : Conn) (env : Surroundings) (frame : RealtimeFrame) (raw : Bytes)
      → IsCalm c (publish block c env frame raw)
  unfolding publish
  publish-IsCalm c env frame raw = ground arith

  pub handle-IsCalm :
      (c : Conn) (env : Surroundings) (raw : Bytes)
      → accepts (Move.receive env raw) ≡ false
      → IsCalm c (handle block unmarshal c env raw).0
  unfolding handle
  handle-IsCalm c env raw h = elim (Option-cases (parse_realtime raw)) [
    | inl e ↦ rw (e, handle) (handle_system-IsCalm c env raw h)
    | inr (frame, e) ↦ rw (e, handle) (publish-IsCalm c env frame raw)
  ]

-- The errors that the reader meets name no other rejection code.
abbrev pub IsOwn : WsError → Type 0
IsOwn (WsError.approval_rejection code) = code ≡ msg_code_approval_rejected
IsOwn _ = Unit {0}

abbrev pub IsOwnPc : Pc → Type 0
IsOwnPc (Pc.failing e) = IsOwn e
IsOwnPc (Pc.ended e) = IsOwn e
IsOwnPc (Pc.judging e) = IsOwn e
IsOwnPc _ = Unit {0}

pub fatal_by_code-IsOwn : (msg_cd : Bytes) (e : WsError) → fatal_by_code msg_cd ≡ some e → IsOwn e
fatal_by_code-IsOwn msg_cd (WsError.approval_rejection code) h = ground arith
fatal_by_code-IsOwn msg_cd _ h = tt

pub pong-IsOwn :
    (c : Conn) (env : Surroundings) (raw : Bytes) (e : WsError)
    → (pong c env raw).1 ≡ some e
    → IsOwn e
unfolding pong
pong-IsOwn c env raw (WsError.approval_rejection code) h = absurd (ground arith)
pong-IsOwn c env raw _ h = tt

pub drop_transport-IsCalm : (c : Conn) → IsCalm c (drop_transport c)
unfolding drop_transport reissues
drop_transport-IsCalm c = grind (arith, reissues-append)

pub notify-IsCalm : (c : Conn) (info : ReconnectInfo) → IsCalm c (notify c info)
unfolding notify reissues
notify-IsCalm c info = grind (arith, reissues-append)

pub fail_pending-IsCalm : (c : Conn) (e : WsError) → IsCalm c (fail_pending c e)
fail_pending-IsCalm c e = record {
  on_record = fail_pending-reissued_for c e;
  spent = ap reissues (fail_pending-SameLink c e).log;
}

pub reissue-IsCalm : (c : Conn) (reply : Option Bytes) → IsCalm c (reissue c reply)
unfolding reissue
reissue-IsCalm c reply = ground arith

pub key_known-IsCalm : (s : Session) (reply : Option Bytes) → IsCalm s.conn (key_known s reply).conn
unfolding key_known reissues
key_known-IsCalm s reply = grind (arith, reissues-append)

pub dial_known-IsCalm :
    (s : Session) (key : Bytes) (reply : Option ℕ) → IsCalm s.conn (dial_known s key reply).conn
unfolding dial_known reissues
dial_known-IsCalm s key reply = grind (arith, reissues-append)
