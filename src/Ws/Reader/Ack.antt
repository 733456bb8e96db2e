-- ===== src/Ws/Reader/Ack.antt =====
-- What an ACK does: its verdict, who gets it, and which verdicts end the session.
use go_kis.Prelude.{
  ℕ, ◌<◌, ◌≡◌, refl, ap, ◌∙◌, inl, inr, List, [], ◌∷◌, Option, none, some, arith, if◌then◌else◌,
  Option-cases,
}
use go_kis.Text.{Bytes, codes, text_eq, elem, is_empty, text_eq_iff}
use go_kis.Ws.Conn.Unchanged.{SameSubs, SameSubs-trans, resolve-SameSubs}
use go_kis.Ws.Conn.Waiters.{
  WaitersInv, SameWaiters, SameWaiters-WaitersInv, IsFirstMatch, IsFirstMatch-take_pending,
  resolve_self, resolve-frame,
}
use go_kis.Ws.Conn.WaitersInv.{
  take_pending-WaitersInv, take_pending-none-WaitersInv, resolve-WaitersInv,
}
use go_kis.Ws.Conn.{PendingAck, Conn, verdict_of, take_pending}
use go_kis.Ws.Errors.{
  WsError, session_occupied, approval_rejection, subscribe_rejected, classify_ack,
  is_session_occupied, is_approval_rejected, msg_code_session_occupied, msg_code_approval_rejected,
}
use go_kis.Ws.Reader.{
  AckOutput, AckMessage, store_material, accept, ack_tr, resolve_waiter, fatal, apply_ack,
}

-- The verdict of an envelope by its codes: OPSP0011 asks for a new key, OPSP8996 says that the
-- session is held elsewhere, and of the others exactly rt_cd 0 accepts.
abbrev pub verdict_by_code : Bytes → Bytes → Bytes → Bytes → Option WsError
verdict_by_code tr rt_cd msg_cd msg1 =
    if text_eq msg_cd msg_code_approval_rejected
    then some (approval_rejection msg_code_approval_rejected)
    else if text_eq msg_cd msg_code_session_occupied
    then some session_occupied
    else if text_eq rt_cd (codes "0")
    then none
    else some (subscribe_rejected (record { tr = tr; rt_cd = rt_cd; msg_cd = msg_cd; msg1 = msg1 }))

elem-reissuable :
    (msg_cd : Bytes)
    → elem msg_cd (msg_code_approval_rejected ∷ []) ≡ text_eq msg_cd msg_code_approval_rejected
unfolding elem
elem-reissuable msg_cd = ground (
  arith,
  text_eq_iff msg_code_approval_rejected msg_cd,
  text_eq_iff msg_cd msg_code_approval_rejected,
)

pub classify_ack-eq :
    (tr rt_cd msg_cd msg1 : Bytes)
    → classify_ack tr rt_cd msg_cd msg1 ≡ verdict_by_code tr rt_cd msg_cd msg1
unfolding classify_ack
classify_ack-eq tr rt_cd msg_cd msg1 =
    ground (arith, elem-reissuable msg_cd, text_eq_iff msg_cd msg_code_approval_rejected)

-- The error that ends the session, by the code of the envelope.
abbrev pub fatal_by_code : Bytes → Option WsError
fatal_by_code msg_cd =
    if text_eq msg_cd msg_code_approval_rejected
    then some (approval_rejection msg_code_approval_rejected)
    else if text_eq msg_cd msg_code_session_occupied
    then some session_occupied
    else none

fatal-classify_ack :
    (tr rt_cd msg_cd msg1 : Bytes)
    → fatal (classify_ack tr rt_cd msg_cd msg1) ≡ fatal_by_code msg_cd
unfolding fatal is_session_occupied is_approval_rejected
fatal-classify_ack tr rt_cd msg_cd msg1 = ground (arith, classify_ack-eq tr rt_cd msg_cd msg1)

store_material-SameWaiters :
    (c : Conn) (tr key iv : Bytes) → SameWaiters c (store_material c tr key iv)
unfolding store_material
store_material-SameWaiters c tr key iv = record {
  pending = ground arith;
  next_waiter = ground arith;
  mailbox = ground arith;
}

store_material-SameSubs : (c : Conn) (tr key iv : Bytes) → SameSubs c (store_material c tr key iv)
unfolding store_material
store_material-SameSubs c tr key iv = record {
  subs = ground arith;
  closed = ground arith;
  done = ground arith;
}

accept-SameWaiters :
    (c : Conn) (v : Option WsError) (tr : Bytes) (o : AckOutput) → SameWaiters c (accept c v tr o)
unfolding accept
accept-SameWaiters c none tr o =
    let same = store_material-SameWaiters (record c { reissued_for = [] }) tr o.key o.iv in
    record { pending = same.pending; next_waiter = same.next_waiter; mailbox = same.mailbox }
accept-SameWaiters c (some e) tr o = record { pending = refl; next_waiter = refl; mailbox = refl }

accept-SameSubs :
    (c : Conn) (v : Option WsError) (tr : Bytes) (o : AckOutput) → SameSubs c (accept c v tr o)
unfolding accept
accept-SameSubs c none tr o =
    let same = store_material-SameSubs (record c { reissued_for = [] }) tr o.key o.iv in
    record { subs = same.subs; closed = same.closed; done = same.done }
accept-SameSubs c (some e) tr o = record { subs = refl; closed = refl; done = refl }

-- The verdict that an ACK carries for the request it is given to.
abbrev pub verdict_for : PendingAck → AckMessage → Option WsError
verdict_for w m =
    verdict_by_code (if is_empty m.header.tr_id then w.tr else m.header.tr_id) m.body.rt_cd
      m.body.msg_cd m.body.msg1

-- An ACK goes to the oldest outstanding request of its transaction, or to the oldest of all where
-- it names none. That request gets the verdict of the ACK's codes, and is outstanding no longer;
-- the others still are, in their order. The read loop ends exactly for the two session codes.
pub apply_ack-delivers :
    (c : Conn) (m : AckMessage) {w : PendingAck} {rest : List PendingAck}
    → WaitersInv c
    → IsFirstMatch m.header.tr_id c.pending w rest
    → (verdict_of w.id (apply_ack c m).0.mailbox ≡ some (verdict_for w m))
      × ((apply_ack c m).0.pending ≡ rest)
      × ((apply_ack c m).1 ≡ fatal_by_code m.body.msg_cd)
unfolding apply_ack ack_tr
apply_ack-delivers c m {w} {rest} inv first =
    let taken = IsFirstMatch-take_pending c m.header.tr_id first in
    let (_, quiet, _, _) = take_pending-WaitersInv c m.header.tr_id (ap (λ p. p.0) taken) inv in
    let tr = if is_empty m.header.tr_id then w.tr else m.header.tr_id in
    let left = record c { pending = rest } in
    let v = classify_ack tr m.body.rt_cd m.body.msg_cd m.body.msg1 in
    let accepted = accept-SameWaiters left v tr m.body.output in
    let after = accept left v tr m.body.output in
    (
      rw taken (
          resolve_self after w v (rw accepted.mailbox quiet)
          ∙ ap some (classify_ack-eq tr m.body.rt_cd m.body.msg_cd m.body.msg1)),
      rw taken ((resolve-frame after w v).0 ∙ accepted.pending),
      rw taken (fatal-classify_ack tr m.body.rt_cd m.body.msg_cd m.body.msg1),
    )

resolve_waiter-SameSubs :
    (c : Conn) (found : Option PendingAck) (v : Option WsError)
    → SameSubs c (resolve_waiter c found v)
unfolding resolve_waiter
resolve_waiter-SameSubs c none v = record { subs = refl; closed = refl; done = refl }
resolve_waiter-SameSubs c (some w) v = resolve-SameSubs c w v

pub apply_ack-SameSubs : (c : Conn) (m : AckMessage) → SameSubs c (apply_ack c m).0
unfolding apply_ack take_pending
apply_ack-SameSubs c m =
    let (found, taken) = take_pending c m.header.tr_id in
    let tr = ack_tr m.header.tr_id found in
    let v = classify_ack tr m.body.rt_cd m.body.msg_cd m.body.msg1 in
    let accepted = accept-SameSubs taken v tr m.body.output in
    SameSubs-trans (record { subs = accepted.subs; closed = accepted.closed; done = accepted.done })
      (resolve_waiter-SameSubs (accept taken v tr m.body.output) found v)

take_pending-next :
    (c : Conn) (tr : Bytes) {n : ℕ} → n < c.next_waiter → n < (take_pending c tr).1.next_waiter
unfolding take_pending
take_pending-next c tr h = h

pub apply_ack-WaitersInv : (c : Conn) (m : AckMessage) → WaitersInv c → WaitersInv (apply_ack c m).0
unfolding apply_ack
apply_ack-WaitersInv c m inv = elim (Option-cases (take_pending c m.header.tr_id).0) [
  | inl e ↦
      rw (e, apply_ack)
        (SameWaiters-WaitersInv
          (accept-SameWaiters (take_pending c m.header.tr_id).1 _ _ m.body.output)
          (take_pending-none-WaitersInv c m.header.tr_id e inv))
  | inr (w, e) ↦
      let (kept, _, below, apart) = take_pending-WaitersInv c m.header.tr_id e inv in
      let taken = (take_pending c m.header.tr_id).1 in
      let tr = ack_tr m.header.tr_id (some w) in
      let v = classify_ack tr m.body.rt_cd m.body.msg_cd m.body.msg1 in
      let same = accept-SameWaiters taken v tr m.body.output in
      rw (e, apply_ack)
        (resolve-WaitersInv (accept taken v tr m.body.output) w v
          (rw same.next_waiter (take_pending-next c m.header.tr_id below)) (rw same.pending apart)
          (SameWaiters-WaitersInv same kept))
]

-- The read loop ends exactly for the two session codes.
pub apply_ack-fatal : (c : Conn) (m : AckMessage) → (apply_ack c m).1 ≡ fatal_by_code m.body.msg_cd
unfolding apply_ack
apply_ack-fatal c m =
    fatal-classify_ack (ack_tr m.header.tr_id (take_pending c m.header.tr_id).0) m.body.rt_cd
      m.body.msg_cd m.body.msg1
