-- ===== src/Ws/Conn/Unchanged.antt =====
-- Which parts of the state an operation leaves alone, and the invariants that rest on them.
use go_kis.Prelude.{◌≡◌, refl, ◌∙◌, List, Option, arith}
use go_kis.Ws.Conn.Pending.{resolve, resolve_all, fail_pending}
use go_kis.Ws.Conn.State.{PendingAck, Conn}
use go_kis.Ws.Conn.Subscriptions.{SubsInv}
use go_kis.Ws.Conn.Waiters.{WaitersInv, SameWaiters, SameWaiters-WaitersInv}
use go_kis.Ws.Conn.WaitersInv.{fail_pending-WaitersInv}
use go_kis.Ws.Errors.{WsError}

pub record SameSubs (c d : Conn) : Type 0 where
  pub subs : d.subs ≡ c.subs
  pub closed : d.closed ≡ c.closed
  pub done : d.done ≡ c.done

pub SameSubs-SubsInv : {c d : Conn} → SameSubs c d → SubsInv c → SubsInv d
SameSubs-SubsInv same inv = record {
  distinct = rw same.subs inv.distinct;
  none_when_closed = λ h. rw same.subs (inv.none_when_closed (rw same.closed at h));
}

pub SameSubs-trans : {c d e : Conn} → SameSubs c d → SameSubs d e → SameSubs c e
SameSubs-trans p q = record {
  subs = q.subs ∙ p.subs;
  closed = q.closed ∙ p.closed;
  done = q.done ∙ p.done;
}

pub SameWaiters-trans : {c d e : Conn} → SameWaiters c d → SameWaiters d e → SameWaiters c e
SameWaiters-trans p q = record {
  pending = q.pending ∙ p.pending;
  next_waiter = q.next_waiter ∙ p.next_waiter;
  mailbox = q.mailbox ∙ p.mailbox;
}

pub resolve-SameSubs : (c : Conn) (w : PendingAck) (v : Option WsError) → SameSubs c (resolve c w v)
unfolding resolve
resolve-SameSubs c w v = record { subs = ground arith; closed = ground arith; done = ground arith }

resolve_all-SameSubs :
    (c : Conn) (ws : List PendingAck) (e : WsError) → SameSubs c (resolve_all c ws e)
unfolding resolve_all
resolve_all-SameSubs c List.[] e = record { subs = refl; closed = refl; done = refl }
resolve_all-SameSubs c (List.◌∷◌ w ws) e =
    SameSubs-trans (resolve-SameSubs c w (Option.some e))
      (resolve_all-SameSubs (resolve c w (Option.some e)) ws e)

pub fail_pending-SameSubs : (c : Conn) (e : WsError) → SameSubs c (fail_pending c e)
unfolding fail_pending
fail_pending-SameSubs c e =
    let rest = resolve_all-SameSubs (record c { pending = List.[] }) c.pending e in
    record { subs = rest.subs; closed = rest.closed; done = rest.done }

-- What every move of the reader keeps.
pub record Keeps (c d : Conn) : Type 0 where
  pub subs : SameSubs c d
  pub waiters : WaitersInv c → WaitersInv d

-- Nothing of the waiters and the subscriptions is touched.
pub record SameState (c d : Conn) : Type 0 where
  pub waiters : SameWaiters c d
  pub subs : SameSubs c d

pub SameState-Keeps : {c d : Conn} → SameState c d → Keeps c d
SameState-Keeps same = record { subs = same.subs; waiters = SameWaiters-WaitersInv same.waiters }

pub Keeps-trans : {c d e : Conn} → Keeps c d → Keeps d e → Keeps c e
Keeps-trans p q = record {
  subs = SameSubs-trans p.subs q.subs;
  waiters = λ inv. q.waiters (p.waiters inv);
}

pub Keeps-refl : (c : Conn) → Keeps c c
Keeps-refl c = record {
  subs = record { subs = refl; closed = refl; done = refl };
  waiters = λ inv. inv;
}

pub fail_pending-Keeps : (c : Conn) (e : WsError) → Keeps c (fail_pending c e)
fail_pending-Keeps c e = record {
  subs = fail_pending-SameSubs c e;
  waiters = fail_pending-WaitersInv c e;
}
