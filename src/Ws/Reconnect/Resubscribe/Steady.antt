-- ===== src/Ws/Reconnect/Resubscribe/Steady.antt =====
-- A request that nothing disturbs: the calls that it makes, and what it leaves as it was.
use go_kis.Prelude.{
  ℕ, ◌≡◌, refl, sym, ap, subst, ◌∙◌, false, List, [], ◌∷◌, ◌++◌, Option, none, some, arith,
  append_assoc, append-nil,
}
use go_kis.Text.{Bytes}
use go_kis.Kis.Subscribe.{Subscribe}
use go_kis.Ws.Conn.{
  Conn, Effect, PendingAck, Answer, Outcome, Begun, begin, write, finish, finish_answered, request,
  request_rest, request_frame, tr_type_subscribe, add_subscription, remove_subscription,
  drop_subscription_on_failure,
}
use go_kis.Ws.Errors.{WsError}
use go_kis.Ws.Reconnect.Resubscribe.Restoring.{begin_open}

-- The socket, the key and the flags are the same, and the calls made in between are `sent`.
pub record IsSteady (c d : Conn) (sent : List Effect) : Type 0 where
  pub transport : d.transport ≡ c.transport
  pub key : d.key ≡ c.key
  pub generation : d.generation ≡ c.generation
  pub closed : d.closed ≡ c.closed
  pub has_on_reconnect : d.has_on_reconnect ≡ c.has_on_reconnect
  pub log : d.log ≡ c.log ++ sent

pub IsSteady-trans :
    {c d e : Conn} {xs ys : List Effect}
    → IsSteady c d xs
    → IsSteady d e ys
    → IsSteady c e (xs ++ ys)
IsSteady-trans {c} {d} {e} {xs} {ys} p q = record {
  transport = q.transport ∙ p.transport;
  key = q.key ∙ p.key;
  generation = q.generation ∙ p.generation;
  closed = q.closed ∙ p.closed;
  has_on_reconnect = q.has_on_reconnect ∙ p.has_on_reconnect;
  log = q.log ∙ ap (λ l. l ++ ys) p.log ∙ append_assoc c.log xs ys;
}

-- A request whose frame is written, which is answered, and during which nobody else changes the
-- link or calls an interface.
pub record IsSmooth (a : Answer) : Type 0 where
  pub verdict : Option WsError
  pub written : a.write_failure ≡ none
  pub quiet : (d : Conn) → IsSteady d (a.meanwhile d) []
  pub answered : a.outcome ≡ Outcome.answered verdict

begin-IsSteady :
    (c : Conn) (tr_type tr key : Bytes) {b : Begun}
    → begin c tr_type tr key ≡ some b
    → IsSteady c b.conn [] × (b.approval_key ≡ c.key)
unfolding begin add_subscription remove_subscription
begin-IsSteady c tr_type tr key h = ground (arith, append-nil c.log)

finish-IsSteady :
    (c : Conn) (tr_type tr key : Bytes) (w : PendingAck) (v : Option WsError)
    → IsSteady c (finish c tr_type tr key w (Outcome.answered v)).0 []
unfolding finish finish_answered drop_subscription_on_failure remove_subscription
finish-IsSteady c tr_type tr key w none = ground (arith, append-nil c.log)
finish-IsSteady c tr_type tr key w (some v) = ground (arith, append-nil c.log)

write-IsSteady :
    (c : Conn) (t : ℕ) (frame : Subscribe)
    → IsSteady c (write c (some t) frame none).0 (Effect.wrote t frame none ∷ [])
unfolding write
write-IsSteady c t frame = record {
  transport = refl;
  key = refl;
  generation = refl;
  closed = refl;
  has_on_reconnect = refl;
  log = refl;
}

rest_answered-IsSteady :
    (c : Conn) (t : ℕ) (tr key : Bytes) (frame : Subscribe) (wait : PendingAck) (a : Answer)
    → IsSmooth a
    → IsSteady c
        (request_rest tr_type_subscribe tr key wait a (write c (some t) frame none)).0
        (Effect.wrote t frame none ∷ [])
unfolding request_rest write
rest_answered-IsSteady c t tr key frame wait a w = rw (w.answered) (
    IsSteady-trans (write-IsSteady c t frame) (
      IsSteady-trans (w.quiet (write c (some t) frame none).0) (
        finish-IsSteady (a.meanwhile (write c (some t) frame none).0) tr_type_subscribe tr key wait
          w.verdict)))

request_rest-IsSteady :
    (c : Conn) (t : ℕ) (link : Option ℕ) (tr key k l : Bytes) (wait : PendingAck) (a : Answer)
    → link ≡ some t
    → k ≡ l
    → IsSmooth a
    → IsSteady c
        (request_rest tr_type_subscribe tr key wait a
          (write c link (request_frame k tr_type_subscribe tr key) a.write_failure)).0
        (Effect.wrote t (request_frame l tr_type_subscribe tr key) none ∷ [])
request_rest-IsSteady c t link tr key k l wait a up same w =
    let rest : Option ℕ → Bytes → Option WsError → Conn × Option WsError = λ x y f.
      request_rest tr_type_subscribe tr key wait a
        (write c x (request_frame y tr_type_subscribe tr key) f) in
    let e : rest link k a.write_failure ≡ rest (some t) l none =
      ap (λ x. rest x k a.write_failure) up
      ∙ ap (λ y. rest (some t) y a.write_failure) same
      ∙ ap (rest (some t) l) w.written in
    subst
      (λ r. IsSteady c r.0 (Effect.wrote t (request_frame l tr_type_subscribe tr key) none ∷ []))
      (sym e)
      (rest_answered-IsSteady c t tr key (request_frame l tr_type_subscribe tr key) wait a w)

pub request-IsSteady :
    (c : Conn) (t : ℕ) (k tr key : Bytes) (a : Answer)
    → c.closed ≡ false
    → c.transport ≡ some t
    → c.key ≡ k
    → IsSmooth a
    → IsSteady c
        (request c tr_type_subscribe tr key a).0
        (Effect.wrote t (request_frame k tr_type_subscribe tr key) none ∷ [])
unfolding request
request-IsSteady c t k tr key a is_open up same w =
    let (b, begun, link) = begin_open c tr_type_subscribe tr key is_open in
    let (steady, with_key) = begin-IsSteady c tr_type_subscribe tr key begun in
    rw (begun, request)
      (IsSteady-trans steady (
        request_rest-IsSteady b.conn t b.transport tr key b.approval_key k b.wait a (link ∙ up)
          (with_key ∙ same) w))
