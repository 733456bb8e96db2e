-- ===== src/Ws/Conn/Subscriptions.antt =====
-- The registered subscriptions: no duplicates, subscribe order, nothing left after Close.
use go_kis.Prelude.{
  ◌≡◌, refl, ap₂, inl, inr, List, [], ◌∷◌, ◌++◌, Bool, true, false, ◌&&◌, none, some, arith,
  if◌then◌else◌, Bool-cases,
}
use go_kis.Text.{Bytes, text_eq, text_eq_iff}
use go_kis.Ws.Conn.Pending.{forget}
use go_kis.Ws.Conn.Request.{
  same_subscription, has_subscription, delete_subscription, add_subscription, remove_subscription,
  drop_subscription_on_failure, Begun, begin, Outcome, write_failed, answered, cancelled, stopped,
  finish_answered, finish, tr_type_subscribe,
}
use go_kis.Ws.Conn.State.{Subscription, PendingAck, Conn}
use go_kis.Ws.Errors.{is_subscribe_error}

-- No subscription stands in the list twice.
abbrev pub IsDistinct : List Subscription → Type 0
IsDistinct [] = Unit {0}
IsDistinct (s ∷ subs) = (has_subscription s.tr s.key subs ≡ false) × IsDistinct subs

pub record SubsInv (c : Conn) : Type 0 where
  pub distinct : IsDistinct c.subs
  pub none_when_closed : c.closed ≡ true → c.subs ≡ []

-- Whether (t, k) is (tr, key).
abbrev pub same_key : Bytes → Bytes → Bytes → Bytes → Bool
same_key tr key t k = text_eq tr t && text_eq key k

pub has_subscription-append :
    (t k : Bytes) (xs : List Subscription) (s : Subscription)
    → has_subscription t k (xs ++ (s ∷ []))
      ≡ (if has_subscription t k xs then true else same_subscription t k s)
unfolding has_subscription same_subscription
has_subscription-append t k [] s = ground arith
has_subscription-append t k (x ∷ xs) s = ground (arith, has_subscription-append t k xs s)

pub has_subscription-delete :
    (tr key t k : Bytes) (subs : List Subscription)
    → has_subscription t k (delete_subscription tr key subs)
      ≡ (if same_key tr key t k then false else has_subscription t k subs)
unfolding has_subscription delete_subscription
has_subscription-delete tr key t k [] = ground arith
has_subscription-delete tr key t k (s ∷ subs) = ground (
  arith,
  has_subscription-delete tr key t k subs,
  text_eq_iff s.tr tr,
  text_eq_iff s.key key,
  text_eq_iff s.tr t,
  text_eq_iff s.key k,
  text_eq_iff tr t,
  text_eq_iff key k,
)

pub IsDistinct-delete :
    (tr key : Bytes) (subs : List Subscription)
    → IsDistinct subs
    → IsDistinct (delete_subscription tr key subs)
unfolding delete_subscription
IsDistinct-delete tr key [] d = tt
IsDistinct-delete tr key (s ∷ subs) d = elim (Bool-cases (same_subscription tr key s)) [
  | inl hit ↦ rw (hit, delete_subscription) (IsDistinct-delete tr key subs d.1)
  | inr miss ↦
      rw (miss, delete_subscription)
        (
          ground (arith, has_subscription-delete tr key s.tr s.key subs),
          IsDistinct-delete tr key subs d.1,
        )
]

has_subscription-sym :
    (s : Subscription) (t k : Bytes) → same_subscription t k s ≡ same_key t k s.tr s.key
unfolding same_subscription
has_subscription-sym s t k =
    ground (arith, text_eq_iff s.tr t, text_eq_iff s.key k, text_eq_iff t s.tr, text_eq_iff k s.key)

IsDistinct-concat :
    (xs : List Subscription) (s : Subscription)
    → has_subscription s.tr s.key xs ≡ false
    → IsDistinct xs
    → IsDistinct (xs ++ (s ∷ []))
unfolding has_subscription
IsDistinct-concat [] s h d = (refl, tt)
IsDistinct-concat (x ∷ xs) s h d = (
  ground (
    arith,
    has_subscription-append x.tr x.key xs s,
    text_eq_iff x.tr s.tr,
    text_eq_iff x.key s.key,
    text_eq_iff s.tr x.tr,
    text_eq_iff s.key x.key,
  ),
  IsDistinct-concat xs s (ground arith) d.1,
)

pub add_subscription-IsDistinct :
    (c : Conn) (tr key : Bytes) → IsDistinct c.subs → IsDistinct (add_subscription c tr key).subs
unfolding add_subscription
add_subscription-IsDistinct c tr key d = elim (Bool-cases (has_subscription tr key c.subs)) [
  | inl old ↦ rw (old, add_subscription) d
  | inr new ↦
      rw (new, add_subscription) (IsDistinct-concat c.subs (record { tr = tr; key = key }) new d)
]

-- The registered subscriptions after a request's first section.
pub begin-subs :
    (c : Conn) (tr_type tr key : Bytes) {b : Begun}
    → begin c tr_type tr key ≡ some b
    → (c.closed ≡ false)
      × (b.conn.subs
          ≡ (if text_eq tr_type tr_type_subscribe
              then add_subscription c tr key
              else remove_subscription c tr key).subs)
unfolding begin
begin-subs c tr_type tr key h = (ground arith, ground arith)

pub begin-flags :
    (c : Conn) (tr_type tr key : Bytes) {b : Begun}
    → begin c tr_type tr key ≡ some b
    → (c.closed ≡ false) × (b.conn.closed ≡ false) × (b.conn.done ≡ c.done)
unfolding begin add_subscription remove_subscription
begin-flags c tr_type tr key h = ground arith

-- The outcomes of a subscribe request that drop its subscription again: the frame was not
-- written, or the server refused the subscription itself.
abbrev pub drops_subscription : Outcome → Bool
drops_subscription (write_failed e) = true
drops_subscription (answered none) = false
drops_subscription (answered (some e)) = is_subscribe_error e
drops_subscription (cancelled e) = false
drops_subscription stopped = false

-- A subscribe request that ends removes its own subscription exactly where its write failed or the
-- server refused the subscription itself, and never another one. The end of an unsubscribe request
-- changes no subscription.
pub finish-has_subscription :
    (c : Conn) (tr_type tr key t k : Bytes) (w : PendingAck) (o : Outcome)
    → has_subscription t k (finish c tr_type tr key w o).0.subs ≡ (
        if text_eq tr_type tr_type_subscribe && drops_subscription o && same_key tr key t k
        then false
        else has_subscription t k c.subs)
unfolding finish finish_answered drop_subscription_on_failure remove_subscription forget
finish-has_subscription c tr_type tr key t k w (write_failed e) =
    ground (arith, has_subscription-delete tr key t k c.subs)
finish-has_subscription c tr_type tr key t k w (answered none) = ground arith
finish-has_subscription c tr_type tr key t k w (answered (some e)) =
    ground (arith, has_subscription-delete tr key t k c.subs)
finish-has_subscription c tr_type tr key t k w _ = ground arith

has_subscription-same :
    (tr key t k : Bytes) (subs : List Subscription)
    → same_key tr key t k ≡ true
    → has_subscription t k subs ≡ has_subscription tr key subs
has_subscription-same tr key t k subs h =
    ap₂ (λ x y. has_subscription x y subs) (ground (arith, text_eq_iff tr t))
      (ground (arith, text_eq_iff key k))

add_subscription-has :
    (c : Conn) (tr key t k : Bytes)
    → has_subscription t k (add_subscription c tr key).subs
      ≡ (if same_key tr key t k then true else has_subscription t k c.subs)
unfolding add_subscription same_subscription
add_subscription-has c tr key t k = ground (
  arith,
  has_subscription-append t k c.subs (record { tr = tr; key = key }),
  has_subscription-same tr key t k c.subs,
)

remove_subscription-has :
    (c : Conn) (tr key t k : Bytes)
    → has_subscription t k (remove_subscription c tr key).subs
      ≡ (if same_key tr key t k then false else has_subscription t k c.subs)
unfolding remove_subscription
remove_subscription-has c tr key t k = has_subscription-delete tr key t k c.subs

-- A request that begins registers its subscription, or takes it out, at once; it changes no other
-- one. No request begins on a closed connection.
pub begin-has_subscription :
    (c : Conn) (tr_type tr key t k : Bytes) {b : Begun}
    → begin c tr_type tr key ≡ some b
    → (c.closed ≡ false)
      × (has_subscription t k b.conn.subs ≡ (
          if same_key tr key t k
          then text_eq tr_type tr_type_subscribe
          else has_subscription t k c.subs))
begin-has_subscription c tr_type tr key t k {b} h =
    let (is_open, same) = begin-subs c tr_type tr key h in
    elim (Bool-cases (text_eq tr_type tr_type_subscribe)) [
      | inl subscribing ↦ (is_open, rw (same, subscribing) (add_subscription-has c tr key t k))
      | inr other ↦ (is_open, rw (same, other) (remove_subscription-has c tr key t k))
    ]
