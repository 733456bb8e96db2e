-- ===== src/Ws/System/Invariant.antt =====
-- What holds in every state that a connection can get into.
use go_kis.Prelude.{
  ℕ, ◌≡◌, refl, sym, ◌∙◌, inl, inr, true, Option, none, some, List, [], ◌∷◌, arith, Option-cases,
  if-holds, if-cases, if◌then◌else◌,
}
use go_kis.Text.{Bytes}
use go_kis.Kis.Subscribe.{Subscribe}
use go_kis.Ws.Conn.Registered.{begin-SubsInv, finish-SubsInv, finish-flags}
use go_kis.Ws.Conn.Subscriptions.{SubsInv, begin-flags}
use go_kis.Ws.Conn.Unchanged.{SameSubs-SubsInv}
use go_kis.Ws.Conn.Waiters.{WaitersInv, SameWaiters-WaitersInv}
use go_kis.Ws.Conn.RequestWaiters.{begin-WaitersInv, finish-WaitersInv}
use go_kis.Ws.Conn.{
  Conn, PendingAck, Outcome, begin, write, finish, start_close, close_begin, close_end, verdict_of,
}
use go_kis.Ws.Dial.{Config, Dialed, dial, new_conn, opened, Opened}
use go_kis.Ws.Dial.Opening.{dial_iff}
use go_kis.Ws.Errors.{WsError}
use go_kis.Ws.Reader.{AckMessage}
use go_kis.Ws.Reconnect.Keeping.{move-Keeps}
use go_kis.Ws.Reconnect.{Session}
use go_kis.Ws.System.{Action, start, begin_or_refuse, act, perform}

-- Waiters have identities of their own and no verdict yet; no subscription is registered twice;
-- none is left on a closed connection, and `done` is closed by Close only.
pub record ConnInv (c : Conn) : Type 0 where
  pub waiters : WaitersInv c
  pub subs : SubsInv c
  pub done_closed : c.done ≡ true → c.closed ≡ true

write-ConnInv :
    (c : Conn) (t : Option ℕ) (frame : Subscribe) (failure : Option WsError)
    → ConnInv c
    → ConnInv (write c t frame failure).0
unfolding write
write-ConnInv c none frame failure inv = inv
write-ConnInv c (some t) frame failure inv = record {
  waiters = SameWaiters-WaitersInv (ground arith) inv.waiters;
  subs = SameSubs-SubsInv (ground arith) inv.subs;
  done_closed = inv.done_closed;
}

begin_or_refuse-ConnInv :
    (c : Conn) (tr_type tr key : Bytes) → ConnInv c → ConnInv (begin_or_refuse c tr_type tr key)
unfolding begin_or_refuse
begin_or_refuse-ConnInv c tr_type tr key inv = elim (Option-cases (begin c tr_type tr key)) [
  | inl e ↦ rw (e, begin_or_refuse) inv
  | inr (b, e) ↦
      rw (e, begin_or_refuse)
        (record {
          waiters = begin-WaitersInv c tr_type tr key e inv.waiters;
          subs = begin-SubsInv c tr_type tr key e inv.subs;
          done_closed = λ h. ground (arith, begin-flags c tr_type tr key e, inv.done_closed);
        })
]

finish-ConnInv :
    (c : Conn) (tr_type tr key : Bytes) (w : PendingAck) (o : Outcome)
    → ConnInv c
    → ConnInv (finish c tr_type tr key w o).0
finish-ConnInv c tr_type tr key w o inv =
    let (closed, done) = finish-flags c tr_type tr key w o in
    record {
      waiters = finish-WaitersInv c tr_type tr key w o inv.waiters;
      subs = finish-SubsInv c tr_type tr key w o inv.subs;
      done_closed = λ h. closed ∙ inv.done_closed (sym done ∙ h);
    }

start_close-ConnInv : (c : Conn) → ConnInv c → ConnInv (start_close c)
unfolding start_close close_begin
start_close-ConnInv c inv = if-holds ConnInv c.closed c (close_begin c) inv (record {
  waiters = SameWaiters-WaitersInv (ground arith) inv.waiters;
  subs = record { distinct = tt; none_when_closed = λ h. refl };
  done_closed = λ h. refl;
})

close_end-ConnInv :
    (c : Conn) (t : Option ℕ) → c.closed ≡ true → ConnInv c → ConnInv (close_end c t)
close_end-ConnInv c none closed inv = record {
  waiters = SameWaiters-WaitersInv (ground arith) inv.waiters;
  subs = record { distinct = inv.subs.distinct; none_when_closed = inv.subs.none_when_closed };
  done_closed = λ h. closed;
}
close_end-ConnInv c (some t) closed inv = record {
  waiters = SameWaiters-WaitersInv (ground arith) inv.waiters;
  subs = record { distinct = inv.subs.distinct; none_when_closed = inv.subs.none_when_closed };
  done_closed = λ h. closed;
}

ends_close-ConnInv :
    (c : Conn) (t : Option ℕ) → ConnInv c → ConnInv (if c.closed then close_end c t else c)
ends_close-ConnInv c t inv =
    if-cases ConnInv c.closed (close_end c t) c (λ closed. close_end-ConnInv c t closed inv)
      (λ _. inv)

new_conn-ConnInv :
    (cfg : Config) (endpoint key : Bytes) (t : ℕ) → ConnInv (new_conn cfg endpoint key t)
unfolding new_conn verdict_of
new_conn-ConnInv cfg endpoint key t = record {
  waiters = record { ascending = omega arith; quiet = tt; unused = λ j h. refl };
  subs = record { distinct = tt; none_when_closed = λ h. refl };
  done_closed = λ h. cc;
}

pub dial-ConnInv :
    (cfg : Config) (key_reply : Option Bytes) (dialed : Dialed) {o : Opened}
    → dial cfg key_reply dialed ≡ opened o
    → ConnInv o.conn
dial-ConnInv cfg key_reply dialed {o} h =
    let w = (dial_iff cfg key_reply dialed o).0 h in
    rw w.conn (new_conn-ConnInv cfg cfg.endpoint w.key w.socket)

module _ (block : Bytes → Bytes → Bytes) (unmarshal : Bytes → Option AckMessage) where
  -- Every critical section, of the reader, of a request or of Close, keeps the invariant.
  pub act-ConnInv :
      (s : Session) (a : Action) → ConnInv s.conn → ConnInv (act block unmarshal s a).conn
  unfolding act
  act-ConnInv s (Action.reader m) inv =
      let keeps = move-Keeps block unmarshal s s.pc m in
      record {
        waiters = keeps.waiters inv.waiters;
        subs = SameSubs-SubsInv keeps.subs inv.subs;
        done_closed = λ h. keeps.subs.closed ∙ inv.done_closed (sym keeps.subs.done ∙ h);
      }
  act-ConnInv s (Action.begins tr_type tr key) inv =
      begin_or_refuse-ConnInv s.conn tr_type tr key inv
  act-ConnInv s (Action.writes t frame failure) inv = write-ConnInv s.conn t frame failure inv
  act-ConnInv s (Action.finishes tr_type tr key w o) inv =
      finish-ConnInv s.conn tr_type tr key w o inv
  act-ConnInv s Action.closing inv = start_close-ConnInv s.conn inv
  act-ConnInv s (Action.ends_close t) inv = ends_close-ConnInv s.conn t inv

  perform-ConnInv :
      (s : Session) (actions : List Action)
      → ConnInv s.conn
      → ConnInv (perform block unmarshal s actions).conn
  unfolding perform
  perform-ConnInv s [] inv = inv
  perform-ConnInv s (a ∷ actions) inv =
      perform-ConnInv (act block unmarshal s a) actions (act-ConnInv s a inv)

  -- So it holds after every history of a connection that Dial has opened, in whatever order the
  -- critical sections of its goroutines come.
  pub perform-dial-ConnInv :
      (cfg : Config) (key_reply : Option Bytes) (dialed : Dialed) (actions : List Action)
      {o : Opened}
      → dial cfg key_reply dialed ≡ opened o
      → ConnInv (perform block unmarshal (start o.conn) actions).conn
  perform-dial-ConnInv cfg key_reply dialed actions {o} h =
      perform-ConnInv (start o.conn) actions (dial-ConnInv cfg key_reply dialed h)
