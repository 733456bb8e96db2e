-- ===== src/Ws/System/Registration.antt =====
-- Subscribe, Unsubscribe and Close as seen from outside: what they promise of one subscription.
use go_kis.Prelude.{
  ◌≡◌, refl, ap, ap₂, ◌∙◌, inl, inr, Bool, true, false, ◌&&◌, ◌||◌, not, Option, none, some, List,
  [], ◌∷◌, arith, Option-cases, if◌then◌else◌,
}
use go_kis.Text.{Bytes, text_eq}
use go_kis.Ws.Conn.Closing.{
  start_close-closed, start_close-subs, ends_close-closed, ends_close-subs,
}
use go_kis.Ws.Conn.Registered.{finish-flags}
use go_kis.Ws.Conn.Subscriptions.{
  same_key, drops_subscription, begin-flags, begin-has_subscription, finish-has_subscription,
}
use go_kis.Kis.Subscribe.{Subscribe}
use go_kis.Ws.Errors.{WsError}
use go_kis.Ws.Conn.{
  start_close, close_end, Conn, PendingAck, Outcome, begin, write, finish, has_subscription,
  tr_type_subscribe,
}
use go_kis.Ws.Dial.{Config, Dialed, dial, opened, Opened, new_conn}
use go_kis.Ws.Dial.Opening.{dial_iff}
use go_kis.Ws.Reader.{AckMessage}
use go_kis.Ws.Reconnect.Keeping.{move-Keeps}
use go_kis.Ws.Reconnect.{Session}
use go_kis.Ws.System.Invariant.{ConnInv, act-ConnInv, dial-ConnInv}
use go_kis.Ws.System.{Action, start, begin_or_refuse, act, perform}

-- All that a caller can know of one subscription.
pub record Registry : Type 0 where
  pub closed : Bool
  pub registered : Bool

abbrev pub registry : Bool → Bool → Registry
registry closed registered = record { closed = closed; registered = registered }

-- The subscription (t, k) in the state of a connection.
abbrev pub view : Bytes → Bytes → Conn → Registry
view t k c = registry c.closed (has_subscription t k c.subs)

-- What one action does to the subscription (t, k). Nothing is said here of waiters, sockets, keys,
-- ciphers, reads or reconnection attempts.
unfoldable pub effect : Bytes → Bytes → Registry → Action → Registry
effect t k r (Action.reader m) = r
effect t k r (Action.begins tr_type tr key) =
    if r.closed || not (same_key tr key t k)
    then r
    else registry r.closed (text_eq tr_type tr_type_subscribe)
effect t k r (Action.writes i frame failure) = r
effect t k r (Action.finishes tr_type tr key w o) =
    if text_eq tr_type tr_type_subscribe && drops_subscription o && same_key tr key t k
    then registry r.closed false
    else r
effect t k r Action.closing = registry true false
effect t k r (Action.ends_close i) = r

unfoldable pub replay : Bytes → Bytes → Registry → List Action → Registry
replay t k r [] = r
replay t k r (a ∷ actions) = replay t k (effect t k r a) actions

registry-eq : {a b : Bool} {x y : Bool} → a ≡ b → x ≡ y → registry a x ≡ registry b y
registry-eq p q = ap₂ registry p q

begins-effect :
    (c : Conn) (tr_type tr key t k : Bytes)
    → view t k (begin_or_refuse c tr_type tr key) ≡ (
        if c.closed || not (same_key tr key t k)
        then view t k c
        else registry c.closed (text_eq tr_type tr_type_subscribe))
unfolding begin_or_refuse begin
begins-effect c tr_type tr key t k = elim (Option-cases (begin c tr_type tr key)) [
  | inl refused ↦ rw (refused, begin_or_refuse) (ground arith)
  | inr (b, begun) ↦
      rw (begun, begin_or_refuse)
        (ground (
          arith,
          begin-has_subscription c tr_type tr key t k begun,
          begin-flags c tr_type tr key begun,
        ))
]

finishes-effect :
    (c : Conn) (tr_type tr key t k : Bytes) (w : PendingAck) (o : Outcome)
    → view t k (finish c tr_type tr key w o).0 ≡ (
        if text_eq tr_type tr_type_subscribe && drops_subscription o && same_key tr key t k
        then registry c.closed false
        else view t k c)
finishes-effect c tr_type tr key t k w o =
    registry-eq (finish-flags c tr_type tr key w o).0
      (finish-has_subscription c tr_type tr key t k w o)
    ∙ if-registry c.closed
        (text_eq tr_type tr_type_subscribe && drops_subscription o && same_key tr key t k)
        (has_subscription t k c.subs)
  where
    if-registry :
        (closed hit old : Bool)
        → registry closed (if hit then false else old)
          ≡ (if hit then registry closed false else registry closed old)
    if-registry closed true old = refl
    if-registry closed false old = refl

writes-effect :
    (c : Conn) (t k : Bytes) (i : Option Prim.Native.Nat.ℕ) (frame : Subscribe)
    (failure : Option WsError)
    → view t k (write c i frame failure).0 ≡ view t k c
unfolding write
writes-effect c t k none frame failure = refl
writes-effect c t k (some i) frame failure = refl

closing-effect :
    (c : Conn) (t k : Bytes) → ConnInv c → view t k (start_close c) ≡ registry true false
unfolding has_subscription
closing-effect c t k inv =
    registry-eq (start_close-closed c) (ap (has_subscription t k) (start_close-subs c inv.subs))

ends_close-effect :
    (c : Conn) (i : Option Prim.Native.Nat.ℕ) (t k : Bytes)
    → view t k (if c.closed then close_end c i else c) ≡ view t k c
ends_close-effect c i t k =
    registry-eq (ends_close-closed c i) (ap (has_subscription t k) (ends_close-subs c i))

dial-view :
    (cfg : Config) (key_reply : Option Bytes) (dialed : Dialed) (t k : Bytes) {o : Opened}
    → dial cfg key_reply dialed ≡ opened o
    → view t k o.conn ≡ registry false false
unfolding new_conn has_subscription
dial-view cfg key_reply dialed t k {o} h = rw ((dial_iff cfg key_reply dialed o).0 h).conn refl

module _ (block : Bytes → Bytes → Bytes) (unmarshal : Bytes → Option AckMessage) where
  act-effect :
      (s : Session) (a : Action) (t k : Bytes)
      → ConnInv s.conn
      → view t k (act block unmarshal s a).conn ≡ effect t k (view t k s.conn) a
  unfolding act effect
  act-effect s (Action.reader m) t k inv =
      let same = (move-Keeps block unmarshal s s.pc m).subs in
      registry-eq same.closed (ap (has_subscription t k) same.subs)
  act-effect s (Action.begins tr_type tr key) t k inv = begins-effect s.conn tr_type tr key t k
  act-effect s (Action.writes i frame failure) t k inv = writes-effect s.conn t k i frame failure
  act-effect s (Action.finishes tr_type tr key w o) t k inv =
      finishes-effect s.conn tr_type tr key t k w o
  act-effect s Action.closing t k inv = closing-effect s.conn t k inv
  act-effect s (Action.ends_close i) t k inv = ends_close-effect s.conn i t k

  perform-replay :
      (s : Session) (actions : List Action) (t k : Bytes)
      → ConnInv s.conn
      → view t k (perform block unmarshal s actions).conn ≡ replay t k (view t k s.conn) actions
  unfolding perform replay
  perform-replay s [] t k inv = refl
  perform-replay s (a ∷ actions) t k inv =
      perform-replay (act block unmarshal s a) actions t k (act-ConnInv block unmarshal s a inv)
      ∙ ap (λ r. replay t k r actions) (act-effect s a t k inv)

  -- After every history of a connection that Dial has opened, whatever the server sent, whatever
  -- sockets broke and in whatever order the sections of the goroutines came, a subscription is
  -- registered exactly if the registry says so that starts open and empty and replays the history.
  -- The registry looks at the requests and at Close only: a request that begins sets the
  -- subscription it names (subscribe) or clears it (unsubscribe), a subscribe whose frame was not
  -- written or that the server refused clears it, and the first
  -- section of Close clears all for good.
  pub perform-replay-dial :
      (cfg : Config) (key_reply : Option Bytes) (dialed : Dialed) (actions : List Action)
      (t k : Bytes) {o : Opened}
      → dial cfg key_reply dialed ≡ opened o
      → view t k (perform block unmarshal (start o.conn) actions).conn
        ≡ replay t k (registry false false) actions
  perform-replay-dial cfg key_reply dialed actions t k {o} h =
      perform-replay (start o.conn) actions t k (dial-ConnInv cfg key_reply dialed h)
      ∙ ap (λ r. replay t k r actions) (dial-view cfg key_reply dialed t k h)
