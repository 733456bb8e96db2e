-- ===== src/Ws/System/Forgetting.antt =====
-- A subscription that was dropped stays away.
use go_kis.Prelude.{
  ◌≡◌, refl, ap, ◌∙◌, Bool, true, false, ◌&&◌, List, [], ◌∷◌, ◌++◌, Option, arith, All,
}
use go_kis.Text.{Bytes, text_eq, text_eq_refl}
use go_kis.Ws.Conn.Subscriptions.{drops_subscription, same_key}
use go_kis.Ws.Conn.{Outcome, PendingAck, has_subscription, tr_type_subscribe}
use go_kis.Ws.Dial.{Config, Dialed, Opened, dial, opened}
use go_kis.Ws.Reader.{AckMessage}
use go_kis.Ws.System.Registration.{Registry, effect, registry, replay, perform-replay-dial}
use go_kis.Ws.System.{Action, perform, start}

-- A request to subscribe to (t, k), of a caller or of a restoring pass, begins.
abbrev pub asks : Bytes → Bytes → Action → Bool
asks t k (Action.begins tr_type tr key) = text_eq tr_type tr_type_subscribe && same_key tr key t k
asks t k _ = false

effect-unregistered :
    (t k : Bytes) (r : Registry) (a : Action)
    → asks t k a ≡ false
    → r.registered ≡ false
    → (effect t k r a).registered ≡ false
unfolding effect
effect-unregistered t k r (Action.reader m) unasked h = h
effect-unregistered t k r (Action.begins tr_type tr key) unasked h = ground arith
effect-unregistered t k r (Action.writes i frame failure) unasked h = h
effect-unregistered t k r (Action.finishes tr_type tr key w o) unasked h = ground arith
effect-unregistered t k r Action.closing unasked h = refl
effect-unregistered t k r (Action.ends_close i) unasked h = h

replay-unregistered :
    (t k : Bytes) (r : Registry) (actions : List Action)
    → All (λ a. asks t k a ≡ false) actions
    → r.registered ≡ false
    → (replay t k r actions).registered ≡ false
unfolding replay
replay-unregistered t k r [] unasked h = h
replay-unregistered t k r (a ∷ actions) unasked h =
    replay-unregistered t k (effect t k r a) actions unasked.1
      (effect-unregistered t k r a unasked.0 h)

replay-append :
    (t k : Bytes) (r : Registry) (xs ys : List Action)
    → replay t k r (xs ++ ys) ≡ replay t k (replay t k r xs) ys
unfolding replay
replay-append t k r [] ys = refl
replay-append t k r (x ∷ xs) ys = replay-append t k (effect t k r x) xs ys

drop-unregistered :
    (t k : Bytes) (r : Registry) (w : PendingAck) (o : Outcome)
    → drops_subscription o ≡ true
    → (effect t k r (Action.finishes tr_type_subscribe t k w o)).registered ≡ false
unfolding effect text_eq
drop-unregistered t k r w o drops = ground (arith, text_eq_refl t, text_eq_refl k)

-- Where a request to subscribe ends because its frame could not be written, or because the server
-- refused the subscription, that subscription is registered no longer, and it is not after any
-- later history in which no request subscribes to it again: no read, reconnect, reissue, other
-- request or Close registers it. This holds in every history of a connection that Dial has opened,
-- and for the requests of restoring passes too.
pub perform-forgets :
    (block : Bytes → Bytes → Bytes) (unmarshal : Bytes → Option AckMessage) (cfg : Config)
    (key_reply : Option Bytes) (dialed : Dialed) (before later : List Action) (t k : Bytes)
    (w : PendingAck) (o : Outcome) {opening : Opened}
    → dial cfg key_reply dialed ≡ opened opening
    → drops_subscription o ≡ true
    → All (λ a. asks t k a ≡ false) later
    → has_subscription t k
        (perform block unmarshal
          (start opening.conn)
          (before ++ (Action.finishes tr_type_subscribe t k w o ∷ later))).conn.subs
      ≡ false
unfolding replay
perform-forgets block unmarshal cfg key_reply dialed before later t k w o from_dial drops unasked =
    let dropped = Action.finishes tr_type_subscribe t k w o in
    let r = replay t k (registry false false) before in
    ap (λ r. r.registered)
      (perform-replay-dial block unmarshal cfg key_reply dialed (before ++ (dropped ∷ later)) t k
        from_dial)
    ∙ ap (λ r. r.registered) (replay-append t k (registry false false) before (dropped ∷ later))
    ∙ replay-unregistered t k (effect t k r dropped) later unasked
        (drop-unregistered t k r w o drops)
