-- ===== src/Ws/Conn/Registered.antt =====
-- The sections of a request keep the registered subscriptions without duplicates.
use go_kis.Prelude.{◌≡◌, refl, inl, inr, Option, none, some, arith, Bool-cases}
use go_kis.Text.{Bytes, text_eq}
use go_kis.Ws.Conn.Pending.{forget}
use go_kis.Ws.Conn.Request.{
  delete_subscription, remove_subscription, drop_subscription_on_failure, Begun, begin, Outcome,
  write_failed, answered, cancelled, stopped, finish_answered, finish, tr_type_subscribe,
}
use go_kis.Ws.Conn.State.{PendingAck, Conn}
use go_kis.Ws.Errors.{WsError, is_subscribe_error}
use go_kis.Ws.Conn.Subscriptions.{
  SubsInv, IsDistinct-delete, add_subscription-IsDistinct, begin-subs, begin-flags,
}

remove_subscription-SubsInv :
    (c : Conn) (tr key : Bytes) → SubsInv c → SubsInv (remove_subscription c tr key)
unfolding remove_subscription delete_subscription
remove_subscription-SubsInv c tr key inv = record {
  distinct = IsDistinct-delete tr key c.subs inv.distinct;
  none_when_closed = λ h. rw (inv.none_when_closed h, delete_subscription);
}

drop_subscription-SubsInv :
    (c : Conn) (tr_type tr key : Bytes)
    → SubsInv c
    → SubsInv (drop_subscription_on_failure c tr_type tr key)
unfolding drop_subscription_on_failure
drop_subscription-SubsInv c tr_type tr key inv =
    elim (Bool-cases (text_eq tr_type tr_type_subscribe)) [
      | inl subscribing ↦
          rw (subscribing, drop_subscription_on_failure) (remove_subscription-SubsInv c tr key inv)
      | inr other ↦ rw (other, drop_subscription_on_failure) inv
    ]

forget-SubsInv : (c : Conn) (w : PendingAck) → SubsInv c → SubsInv (forget c w)
unfolding forget
forget-SubsInv c w inv = record { distinct = inv.distinct; none_when_closed = inv.none_when_closed }

pub begin-SubsInv :
    (c : Conn) (tr_type tr key : Bytes) {b : Begun}
    → begin c tr_type tr key ≡ some b
    → SubsInv c
    → SubsInv b.conn
begin-SubsInv c tr_type tr key {b} h inv =
    let (is_open, same) = begin-subs c tr_type tr key h in
    let (_, still_open, _) = begin-flags c tr_type tr key h in
    record {
      distinct = elim (Bool-cases (text_eq tr_type tr_type_subscribe)) [
        | inl subscribing ↦
            rw (same, subscribing) (add_subscription-IsDistinct c tr key inv.distinct)
        | inr other ↦ rw (same, other) (remove_subscription-SubsInv c tr key inv).distinct
      ];
      none_when_closed = λ e. cc;
    }

finish_answered-SubsInv :
    (c : Conn) (tr_type tr key : Bytes) (v : Option WsError)
    → SubsInv c
    → SubsInv (finish_answered c tr_type tr key v)
unfolding finish_answered
finish_answered-SubsInv c tr_type tr key none inv = inv
finish_answered-SubsInv c tr_type tr key (some e) inv = elim (Bool-cases (is_subscribe_error e)) [
  | inl refused ↦ rw (refused, finish_answered) (drop_subscription-SubsInv c tr_type tr key inv)
  | inr other ↦ rw (other, finish_answered) inv
]

pub finish-flags :
    (c : Conn) (tr_type tr key : Bytes) (w : PendingAck) (o : Outcome)
    → ((finish c tr_type tr key w o).0.closed ≡ c.closed)
      × ((finish c tr_type tr key w o).0.done ≡ c.done)
unfolding finish finish_answered drop_subscription_on_failure remove_subscription forget
finish-flags c tr_type tr key w (write_failed e) = ground arith
finish-flags c tr_type tr key w (answered none) = (refl, refl)
finish-flags c tr_type tr key w (answered (some e)) = ground arith
finish-flags c tr_type tr key w _ = (refl, refl)

pub finish-SubsInv :
    (c : Conn) (tr_type tr key : Bytes) (w : PendingAck) (o : Outcome)
    → SubsInv c
    → SubsInv (finish c tr_type tr key w o).0
unfolding finish
finish-SubsInv c tr_type tr key w (write_failed e) inv =
    drop_subscription-SubsInv (forget c w) tr_type tr key (forget-SubsInv c w inv)
finish-SubsInv c tr_type tr key w (answered v) inv = finish_answered-SubsInv c tr_type tr key v inv
finish-SubsInv c tr_type tr key w (cancelled e) inv = forget-SubsInv c w inv
finish-SubsInv c tr_type tr key w stopped inv = forget-SubsInv c w inv
