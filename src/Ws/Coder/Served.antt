-- ===== src/Ws/Coder/Served.antt =====
-- What a server reads of a connection on the default transport.
use go_kis.Prelude.{
  Bool, if◌then◌else◌, ℕ, ◌≡◌, refl, ap, ap₂, ◌∙◌, false, true, List, [], ◌∷◌, ◌++◌, map, Option,
  none, some, append-nil,
}
use go_kis.Text.{Bytes, codes}
use go_kis.Json.Unquote.Characters.{coerced}
use go_kis.Kis.Subscribe.Marshal.{
  marshal_subscribe, read_subscribe, coerced_subscribe, read-marshal_subscribe,
}
use go_kis.Kis.Subscribe.{Subscribe, new_subscribe}
use go_kis.Ws.Coder.Calls.{all_calls-append}
use go_kis.Ws.Coder.{CoderCall, calls_of, all_calls, coder_write, coder_close, failure_text}
use go_kis.Ws.Conn.Closing.{unsubscribe_frames, close_lem}
use go_kis.Ws.Reconnect.Resubscribe.{resubscribe}
use go_kis.Ws.Reconnect.Resubscribe.Order.{AllSmooth, frames, resubscribe-log}
use go_kis.Ws.Errors.{WsError}
use go_kis.Ws.Conn.{
  Writes, Answer, ReconnectInfo, tr_type_subscribe, Conn, Effect, Subscription, close,
  request_frame, tr_type_unsubscribe,
}

abbrev pub prepend : Option Subscribe → List Subscribe → List Subscribe
prepend none frames = frames
prepend (some frame) frames = frame ∷ frames

-- What the server reads: the texts that read as requests and whose Write succeeded, in the order in
-- which they were sent.
abbrev pub served : List CoderCall → List Subscribe
served [] = []
served (CoderCall.wrote_text t message none ∷ calls) =
    prepend (read_subscribe message) (served calls)
served (_ ∷ calls) = served calls

prepend-append :
    (o : Option Subscribe) (xs ys : List Subscribe) → prepend o (xs ++ ys) ≡ prepend o xs ++ ys
prepend-append none xs ys = refl
prepend-append (some frame) xs ys = refl

served-append : (xs ys : List CoderCall) → served (xs ++ ys) ≡ served xs ++ served ys
served-append [] ys = refl
served-append (CoderCall.wrote_text t message (some e) ∷ xs) ys = served-append xs ys
served-append (CoderCall.wrote_text t message none ∷ xs) ys =
    ap (prepend (read_subscribe message)) (served-append xs ys)
    ∙ prepend-append (read_subscribe message) (served xs) (served ys)
served-append (CoderCall.dialed_url url ∷ xs) ys = served-append xs ys
served-append (CoderCall.closed_body b ∷ xs) ys = served-append xs ys
served-append (CoderCall.set_read_limit t n ∷ xs) ys = served-append xs ys
served-append (CoderCall.closed_normally t ∷ xs) ys = served-append xs ys

-- The requests that the server has read of a connection.
abbrev pub served_by : List Effect → List Subscribe
served_by log = served (all_calls marshal_subscribe log)

served_by-append : (xs ys : List Effect) → served_by (xs ++ ys) ≡ served_by xs ++ served_by ys
served_by-append xs ys =
    ap served (all_calls-append marshal_subscribe xs ys)
    ∙ served-append (all_calls marshal_subscribe xs) (all_calls marshal_subscribe ys)

served_wrote :
    (t : ℕ) (frame : Subscribe) (log : List Effect)
    → served_by (Effect.wrote t frame none ∷ log) ≡ coerced_subscribe frame ∷ served_by log
unfolding all_calls calls_of coder_write failure_text
served_wrote t frame log = rw (read-marshal_subscribe frame) refl

-- What the server should read for a subscription: the type of request, "1" or "2", under which
-- key, and the pair, the last two as valid UTF-8.
abbrev pub request_for : Bytes → Bytes → Subscription → Subscribe
request_for approval_key tr_type s = record {
  header = record {
    approval_key = coerced 0 approval_key;
    cust_type = codes "P";
    tr_type = tr_type;
    content_type = codes "utf-8";
  };
  body = record { input = record { tr_id = coerced 0 s.tr; tr_key = coerced 0 s.key } };
}

served_frame :
    (approval_key tr_type : Bytes) (s : Subscription)
    → coerced 0 tr_type ≡ tr_type
    → coerced_subscribe (request_frame approval_key tr_type s.tr s.key)
      ≡ request_for approval_key tr_type s
unfolding request_frame new_subscribe coerced
served_frame approval_key tr_type s plain = ap (λ t. request_for approval_key t s) plain

served_frames :
    (t : ℕ) (approval_key tr_type : Bytes) (subs : List Subscription)
    → coerced 0 tr_type ≡ tr_type
    → served_by
        (map (λ s. Effect.wrote t (request_frame approval_key tr_type s.tr s.key) none) subs)
      ≡ map (request_for approval_key tr_type) subs
unfolding all_calls
served_frames t approval_key tr_type [] plain = refl
served_frames t approval_key tr_type (s ∷ subs) plain =
    served_wrote t (request_frame approval_key tr_type s.tr s.key)
      (map (λ s. Effect.wrote t (request_frame approval_key tr_type s.tr s.key) none) subs)
    ∙ ap₂ ◌∷◌ (served_frame approval_key tr_type s plain)
        (served_frames t approval_key tr_type subs plain)

abbrev pub where_written : Option WsError → Subscription → List Subscription → List Subscription
where_written none s subs = s ∷ subs
where_written (some e) s subs = subs

-- The subscriptions whose frame is written.
abbrev pub written : Writes → List Subscription → List Subscription
written writes [] = []
written writes (s ∷ subs) = where_written (writes s) s (written writes subs)

served_unsubscribe :
    (t : ℕ) (approval_key : Bytes) (s : Subscription) (o : Option WsError) (later : List Effect)
    (rest : List Subscription)
    → served_by later ≡ map (request_for approval_key (codes "2")) rest
    → served_by
        (Effect.wrote t (request_frame approval_key tr_type_unsubscribe s.tr s.key) o ∷ later)
      ≡ map (request_for approval_key (codes "2")) (where_written o s rest)
unfolding all_calls calls_of coder_write failure_text coerced
served_unsubscribe t approval_key s (some e) later rest h = h
served_unsubscribe t approval_key s none later rest h =
    served_wrote t (request_frame approval_key tr_type_unsubscribe s.tr s.key) later
    ∙ ap₂ ◌∷◌ (served_frame approval_key tr_type_unsubscribe s refl) h

served_unsubscribes :
    (t : ℕ) (approval_key : Bytes) (writes : Writes) (subs : List Subscription)
    → served_by (unsubscribe_frames t approval_key writes subs)
      ≡ map (request_for approval_key (codes "2")) (written writes subs)
unfolding all_calls
served_unsubscribes t approval_key writes [] = refl
served_unsubscribes t approval_key writes (s ∷ subs) =
    served_unsubscribe t approval_key s (writes s) (unsubscribe_frames t approval_key writes subs)
      (written writes subs) (served_unsubscribes t approval_key writes subs)

-- Close on an open connection with a socket of the default transport: behind what it has read
-- before, the server reads one request for each subscription whose frame is written, in subscribe
-- order, of type 2, which takes that subscription back under the key in use; there is nothing else
-- that it reads. A write that fails does not keep the ones after it from the server.
pub served_by-close :
    (c : Conn) (t : ℕ) (writes : Writes)
    → c.closed ≡ false
    → c.transport ≡ some t
    → served_by (close c writes).log
      ≡ served_by c.log ++ map (request_for c.key (codes "2")) (written writes c.subs)
unfolding all_calls calls_of coder_close coerced
served_by-close c t writes is_open up =
    ap (λ d. served_by d.log) (close_lem c t writes is_open up)
    ∙ served_by-append c.log _
    ∙ ap (λ r. served_by c.log ++ r)
        (served_by-append (unsubscribe_frames t c.key writes c.subs)
            (Effect.closed_transport t ∷ [])
          ∙ append-nil _
          ∙ served_unsubscribes t c.key writes c.subs)

served_notified :
    (b : Bool) (info : ReconnectInfo) → served_by (if b then Effect.notified info ∷ [] else []) ≡ []
unfolding all_calls calls_of
served_notified true info = refl
served_notified false info = refl

-- A restoring pass that nothing disturbs, on a socket of the default transport: behind what it has
-- read before, the server reads one request for each subscription, in subscribe order, of type 1, which
-- asks for that subscription under the key in use; there is nothing else that it reads.
pub served_by-resubscribe :
    (c : Conn) (t attempt now : ℕ) (answers : List Answer)
    → c.closed ≡ false
    → c.transport ≡ some t
    → AllSmooth c.subs answers
    → served_by (resubscribe c c.generation attempt now answers).log
      ≡ served_by c.log ++ map (request_for c.key (codes "1")) c.subs
unfolding coerced
served_by-resubscribe c t attempt now answers is_open up smooth =
    ap served_by (resubscribe-log c t attempt now answers is_open up smooth)
    ∙ served_by-append (c.log ++ frames t c.key c.subs) _
    ∙ ap₂ ◌++◌
        (served_by-append c.log (frames t c.key c.subs)
          ∙ ap (λ r. served_by c.log ++ r) (served_frames t c.key tr_type_subscribe c.subs refl))
        (served_notified c.has_on_reconnect _)
    ∙ append-nil _
