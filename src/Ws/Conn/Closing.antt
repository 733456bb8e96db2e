-- ===== src/Ws/Conn/Closing.antt =====
-- Close: break before make.
use go_kis.Prelude.{
  ℕ, ◌≡◌, refl, ap, ◌∙◌, List, [], ◌∷◌, ◌++◌, map, true, false, Option, none, some, arith,
  if◌then◌else◌, append_assoc, append-nil,
}
use go_kis.Text.{Bytes}
use go_kis.Ws.Conn.Request.{
  Writes, write, begin, request_frame, tr_type_unsubscribe, write_all, close_begin, close_rest,
  close_end, start_close, close,
}
use go_kis.Ws.Conn.Subscriptions.{SubsInv}
use go_kis.Ws.Conn.State.{Subscription, Conn, Effect}

-- The frames that take back subscriptions, in their order.
abbrev pub unsubscribe_frames : ℕ → Bytes → Writes → List Subscription → List Effect
unsubscribe_frames t approval_key writes =
    map (λ s. Effect.wrote t (request_frame approval_key tr_type_unsubscribe s.tr s.key) (writes s))

pub write_all-eq :
    (c : Conn) (t : ℕ) (approval_key : Bytes) (writes : Writes) (subs : List Subscription)
    → write_all c t approval_key writes subs
      ≡ record c { log = c.log ++ unsubscribe_frames t approval_key writes subs }
unfolding write_all write
write_all-eq c t approval_key writes [] = rw append-nil
write_all-eq c t approval_key writes (s ∷ subs) =
    write_all-eq
      (write c (some t) (request_frame approval_key tr_type_unsubscribe s.tr s.key) (writes s)).0 t
      approval_key writes subs
    ∙ simp append_assoc

-- Close on an open connection with a socket: the log gains one unsubscribe frame for each
-- subscription, in subscribe order and under the key in use, whatever their writes give, and the closing of the socket after
-- them all. No subscription is left, and the rest of the state is unchanged.
pub close_lem :
    (c : Conn) (t : ℕ) (writes : Writes)
    → c.closed ≡ false
    → c.transport ≡ some t
    → close c writes ≡ record c {
      closed = true;
      done = true;
      subs = [];
      log = c.log ++ (unsubscribe_frames t c.key writes c.subs ++ (Effect.closed_transport t ∷ []));
    }
unfolding close close_begin close_rest
close_lem c t writes is_open connected = rw (is_open, connected, write_all-eq) (simp append_assoc)

close_rest-closed :
    (c : Conn) (t : Option ℕ) (approval_key : Bytes) (writes : Writes) (subs : List Subscription)
    → (close_rest c t approval_key writes subs).closed ≡ c.closed
unfolding close_rest
close_rest-closed c none approval_key writes subs = refl
close_rest-closed c (some t) approval_key writes subs =
    ap (λ d. d.closed) (write_all-eq c t approval_key writes subs)

pub close-closed : (c : Conn) (writes : Writes) → (close c writes).closed ≡ true
unfolding close close_begin
close-closed c writes =
    ground (arith, close_rest-closed (close_begin c) c.transport c.key writes c.subs)

close_again : (c : Conn) (writes : Writes) → c.closed ≡ true → close c writes ≡ c
unfolding close
close_again c writes h = rw (h, close)

begin_closed : (c : Conn) (tr_type tr key : Bytes) → c.closed ≡ true → begin c tr_type tr key ≡ none
unfolding begin
begin_closed c tr_type tr key h = rw (h, begin)

-- After Close no request begins, and a second Close does nothing.
pub close-begin :
    (c : Conn) (tr_type tr key : Bytes) (writes again : Writes)
    → (begin (close c writes) tr_type tr key ≡ none)
      × (close (close c writes) again ≡ close c writes)
close-begin c tr_type tr key writes again = (
  begin_closed (close c writes) tr_type tr key (close-closed c writes),
  close_again (close c writes) again (close-closed c writes),
)

pub start_close-closed : (c : Conn) → (start_close c).closed ≡ true
unfolding start_close close_begin
start_close-closed c = ground arith

-- On a closed connection nothing is registered.
pub start_close-subs : (c : Conn) → SubsInv c → (start_close c).subs ≡ []
unfolding start_close close_begin
start_close-subs c inv = ground (arith, inv.none_when_closed)

pub ends_close-closed :
    (c : Conn) (t : Option ℕ) → (if c.closed then close_end c t else c).closed ≡ c.closed
ends_close-closed c none = ground arith
ends_close-closed c (some t) = ground arith

pub ends_close-subs :
    (c : Conn) (t : Option ℕ) → (if c.closed then close_end c t else c).subs ≡ c.subs
ends_close-subs c none = ground arith
ends_close-subs c (some t) = ground arith
