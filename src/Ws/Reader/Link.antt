-- ===== src/Ws/Reader/Link.antt =====
-- What ACKs and failed waiters leave alone of the link: socket, key, generation, calls made.
use go_kis.Prelude.{◌≡◌, refl, ◌∙◌, List, [], ◌∷◌, Option, none, some, arith}
use go_kis.Text.{Bytes}
use go_kis.Ws.Conn.{PendingAck, Conn, resolve, resolve_all, fail_pending, take_pending}
use go_kis.Ws.Errors.{WsError, classify_ack}
use go_kis.Ws.Reader.{
  AckOutput, AckMessage, store_material, accept, ack_tr, resolve_waiter, apply_ack,
}

pub record SameLink (c d : Conn) : Type 0 where
  pub transport : d.transport ≡ c.transport
  pub has_on_reconnect : d.has_on_reconnect ≡ c.has_on_reconnect
  pub key : d.key ≡ c.key
  pub generation : d.generation ≡ c.generation
  pub log : d.log ≡ c.log

SameLink-trans : {c d e : Conn} → SameLink c d → SameLink d e → SameLink c e
SameLink-trans p q = record {
  transport = q.transport ∙ p.transport;
  has_on_reconnect = q.has_on_reconnect ∙ p.has_on_reconnect;
  key = q.key ∙ p.key;
  generation = q.generation ∙ p.generation;
  log = q.log ∙ p.log;
}

resolve-SameLink : (c : Conn) (w : PendingAck) (v : Option WsError) → SameLink c (resolve c w v)
unfolding resolve
resolve-SameLink c w v = ground arith

-- What resolving does to the rejection on record: nothing.
pub resolve_waiter-reissued_for :
    (c : Conn) (found : Option PendingAck) (v : Option WsError)
    → (resolve_waiter c found v).reissued_for ≡ c.reissued_for
unfolding resolve_waiter resolve
resolve_waiter-reissued_for c none v = refl
resolve_waiter-reissued_for c (some w) v = ground arith

resolve_all-SameLink :
    (c : Conn) (ws : List PendingAck) (e : WsError)
    → SameLink c (resolve_all c ws e) × ((resolve_all c ws e).reissued_for ≡ c.reissued_for)
unfolding resolve_all
resolve_all-SameLink c [] e = (ground arith, refl)
resolve_all-SameLink c (w ∷ ws) e =
    let (same, kept) = resolve_all-SameLink (resolve c w (some e)) ws e in
    (
      SameLink-trans (resolve-SameLink c w (some e)) same,
      kept ∙ unfold resolve_waiter in resolve_waiter-reissued_for c (some w) (some e),
    )

pub fail_pending-SameLink : (c : Conn) (e : WsError) → SameLink c (fail_pending c e)
unfolding fail_pending
fail_pending-SameLink c e =
    let same = (resolve_all-SameLink (record c { pending = [] }) c.pending e).0 in ground arith

pub fail_pending-reissued_for :
    (c : Conn) (e : WsError) → (fail_pending c e).reissued_for ≡ c.reissued_for
unfolding fail_pending
fail_pending-reissued_for c e = (resolve_all-SameLink (record c { pending = [] }) c.pending e).1

store_material-SameLink : (c : Conn) (tr key iv : Bytes) → SameLink c (store_material c tr key iv)
unfolding store_material
store_material-SameLink c tr key iv = ground arith

accept-SameLink :
    (c : Conn) (v : Option WsError) (tr : Bytes) (o : AckOutput) → SameLink c (accept c v tr o)
unfolding accept
accept-SameLink c none tr o =
    let same = store_material-SameLink (record c { reissued_for = [] }) tr o.key o.iv in
    ground arith
accept-SameLink c (some e) tr o = ground arith

resolve_waiter-SameLink :
    (c : Conn) (found : Option PendingAck) (v : Option WsError)
    → SameLink c (resolve_waiter c found v)
unfolding resolve_waiter
resolve_waiter-SameLink c none v = ground arith
resolve_waiter-SameLink c (some w) v = resolve-SameLink c w v

pub apply_ack-SameLink : (c : Conn) (m : AckMessage) → SameLink c (apply_ack c m).0
unfolding apply_ack take_pending
apply_ack-SameLink c m =
    let (found, taken) = take_pending c m.header.tr_id in
    let tr = ack_tr m.header.tr_id found in
    let v = classify_ack tr m.body.rt_cd m.body.msg_cd m.body.msg1 in
    let accepted = accept-SameLink taken v tr m.body.output in
    SameLink-trans (ground arith)
      (SameLink-trans accepted (resolve_waiter-SameLink (accept taken v tr m.body.output) found v))
