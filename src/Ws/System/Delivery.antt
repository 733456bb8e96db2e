-- ===== src/Ws/System/Delivery.antt =====
-- The channel of events: what a consumer gets of what the server sent.
use go_kis.Prelude.{
  ℕ, ◌≡◌, refl, sym, ap, ◌∙◌, inl, inr, List, [], ◌∷◌, ◌++◌, map, Option, none, some, arith,
  append_assoc, append-nil, Option-cases, Bool-cases,
}
use go_kis.Text.{Bytes}
use go_kis.Ws.Conn.{Conn, Event}
use go_kis.Ws.Errors.{WsError}
use go_kis.Ws.Frame.{RealtimeFrame, parse_realtime}
use go_kis.Ws.Reader.{AckMessage, Surroundings, event_of, send_event, open_payload, publish, handle}
use go_kis.Ws.Reconnect.{Pc, Session, Move, after_handle, if_connected, read_message, move}
use go_kis.Ws.Reader.Publish.{sum-cases}
use go_kis.Ws.System.QuietAcks.{AllUsable, IsQuiet, same}
use go_kis.Ws.System.Quiet.{
  reissue-IsQuiet, key_known-IsQuiet, dial_known-IsQuiet, go_on-IsQuiet, begin_or_refuse-IsQuiet,
  write-IsQuiet, finish-IsQuiet, start_close-IsQuiet, ends_close-IsQuiet, count_drop-IsQuiet,
  handle_system-IsQuiet,
}
use go_kis.Ws.System.{Action, act, perform}

-- One list of texts is the other with some texts left out.
pub data Sublist : List Bytes → List Bytes → Type 0 where
  done : Sublist [] []
  skip : {xs ys : List Bytes} → (y : Bytes) → Sublist xs ys → Sublist xs (y ∷ ys)
  keep : {xs ys : List Bytes} → (x : Bytes) → Sublist xs ys → Sublist (x ∷ xs) (x ∷ ys)

-- The messages of a history, in the order in which they were read.
abbrev pub message_of : Action → List Bytes
message_of (Action.reader (Move.receive env raw)) = raw ∷ []
message_of _ = []

pub messages : List Action → List Bytes
messages [] = []
messages (a ∷ actions) = message_of a ++ messages actions

abbrev raws : List Event → List Bytes
raws = map (λ e. e.raw)

-- `d` has some more events than `c`, made of the texts `sent`, at most one of each, in order.
pub record IsDelivered (c d : Conn) (sent : List Bytes) : Type 0 where
  pub new : List Event
  pub events : d.events ≡ c.events ++ new
  pub from : Sublist (raws new) sent

Sublist-nil : (ys : List Bytes) → Sublist [] ys
Sublist-nil [] = done
Sublist-nil (y ∷ ys) = skip y (Sublist-nil ys)

Sublist-append :
    {xs ys zs ws : List Bytes} → Sublist xs ys → Sublist zs ws → Sublist (xs ++ zs) (ys ++ ws)
Sublist-append done q = q
Sublist-append (skip y p) q = skip y (Sublist-append p q)
Sublist-append (keep x p) q = keep x (Sublist-append p q)

raws-append : (xs ys : List Event) → raws (xs ++ ys) ≡ raws xs ++ raws ys
raws-append [] ys = refl
raws-append (x ∷ xs) ys = ap (◌∷◌ x.raw) (raws-append xs ys)

-- A part of a history: what it delivers, and that it keeps the stored material usable.
pub record IsStep (c d : Conn) (sent : List Bytes) : Type 0 where
  pub delivered : IsDelivered c d sent
  pub usable : AllUsable c.material → AllUsable d.material

IsStep-trans :
    {c d e : Conn} {sent more : List Bytes}
    → IsStep c d sent
    → IsStep d e more
    → IsStep c e (sent ++ more)
IsStep-trans {c} {d} {e} p q =
    let first = p.delivered in
    let last = q.delivered in
    record {
      delivered = record {
        new = first.new ++ last.new;
        events =
            last.events
            ∙ ap (λ es. es ++ last.new) first.events
            ∙ append_assoc c.events first.new last.new;
        from = rw (raws-append first.new last.new) (Sublist-append first.from last.from);
      };
      usable = λ h. q.usable (p.usable h);
    }

-- Nothing is published.
nothing : {c d : Conn} (sent : List Bytes) → IsQuiet c d → IsStep c d sent
nothing {c} sent quiet = record {
  delivered = record {
    new = [];
    events = quiet.events ∙ sym (append-nil c.events);
    from = Sublist-nil sent;
  };
  usable = quiet.usable;
}

if_connected-IsStep :
    (c : Conn) (t : Option ℕ) (x y : Session) (sent : List Bytes)
    → IsStep c x.conn sent
    → IsStep c y.conn sent
    → IsStep c (if_connected t x y).conn sent
unfolding if_connected
if_connected-IsStep c none x y sent p q = p
if_connected-IsStep c (some t) x y sent p q = q

after_handle-IsStep :
    (s : Session) (r : Conn × Option WsError) (sent : List Bytes)
    → IsStep s.conn r.0 sent
    → IsStep s.conn (after_handle s r).conn sent
unfolding after_handle
after_handle-IsStep s (c, none) sent h = h
after_handle-IsStep s (c, some e) sent h = h

event_of-raw :
    (frame : RealtimeFrame) (payload raw : Bytes) (now : ℕ)
    → (event_of frame payload raw now).raw ≡ raw
unfolding event_of
event_of-raw frame payload raw now = refl

send_event-IsStep :
    (c : Conn) (env : Surroundings) (e : Event) (raw : Bytes)
    → e.raw ≡ raw
    → IsStep c (send_event c env e) (raw ∷ [])
unfolding send_event
send_event-IsStep c env e raw is_raw = elim (Bool-cases env.event_taken) [
  | inl taken ↦
      rw (taken, send_event)
        (record {
          delivered = record { new = e ∷ []; events = refl; from = rw is_raw (keep raw done) };
          usable = λ h. h;
        })
  | inr lost ↦ rw (lost, send_event) (nothing (raw ∷ []) (same refl refl))
]

module _ (block : Bytes → Bytes → Bytes) where
  publish-IsStep :
      (c : Conn) (env : Surroundings) (frame : RealtimeFrame) (raw : Bytes)
      → IsStep c (publish block c env frame raw) (raw ∷ [])
  unfolding publish
  publish-IsStep c env frame raw = elim (sum-cases (open_payload block c frame)) [
    | inl (payload, e) ↦
        rw (e, publish)
          (send_event-IsStep c env (event_of frame payload raw env.now) raw
            (event_of-raw frame payload raw env.now))
    | inr (reason, e) ↦ rw (e, publish) (nothing (raw ∷ []) (count_drop-IsQuiet c frame.tr reason))
  ]

  module _ (unmarshal : Bytes → Option AckMessage) where
    handle-IsStep :
        (c : Conn) (env : Surroundings) (raw : Bytes)
        → IsStep c (handle block unmarshal c env raw).0 (raw ∷ [])
    unfolding handle
    handle-IsStep c env raw = elim (Option-cases (parse_realtime raw)) [
      | inl e ↦
          rw (e, handle) (nothing (raw ∷ []) (handle_system-IsQuiet block unmarshal c env raw))
      | inr (frame, e) ↦ rw (e, handle) (publish-IsStep c env frame raw)
    ]

    read_message-IsStep :
        (s : Session) (env : Surroundings) (raw : Bytes)
        → IsStep s.conn (read_message block unmarshal s env raw).conn (raw ∷ [])
    unfolding read_message
    read_message-IsStep s env raw =
        if_connected-IsStep s.conn s.conn.transport s _ (raw ∷ [])
          (nothing (raw ∷ []) (same refl refl))
          (after_handle-IsStep s (handle block unmarshal s.conn env raw) (raw ∷ [])
            (handle-IsStep s.conn env raw))

    move-IsStep :
        (s : Session) (pc : Pc) (m : Move)
        → IsStep s.conn (move block unmarshal s pc m).conn (message_of (Action.reader m))
    unfolding move if_connected
    move-IsStep s Pc.reading (Move.receive env raw) = read_message-IsStep s env raw
    move-IsStep s Pc.reading (Move.read_error text) =
        if_connected-IsStep s.conn s.conn.transport s _ [] (nothing [] (same refl refl))
          (nothing [] (same refl refl))
    move-IsStep s Pc.reissuing (Move.reissue_reply reply) =
        nothing [] (reissue-IsQuiet s.conn reply)
    move-IsStep s Pc.sleeping Move.timer = nothing [] (same refl refl)
    move-IsStep s Pc.sleeping Move.done_closed = nothing [] (same (ground arith) (ground arith))
    move-IsStep s Pc.redialing (Move.key_reply reply) = nothing [] (key_known-IsQuiet s reply)
    move-IsStep s (Pc.dialing key) (Move.dial_reply reply) =
        nothing [] (dial_known-IsQuiet s key reply)
    move-IsStep s pc (Move.proceed now) = nothing [] (go_on-IsQuiet s now pc)
    move-IsStep s pc m = nothing (message_of (Action.reader m)) (same refl refl)

    act-IsStep :
        (s : Session) (a : Action) → IsStep s.conn (act block unmarshal s a).conn (message_of a)
    unfolding act
    act-IsStep s (Action.reader m) = move-IsStep s s.pc m
    act-IsStep s (Action.begins tr_type tr key) =
        nothing [] (begin_or_refuse-IsQuiet s.conn tr_type tr key)
    act-IsStep s (Action.writes t frame failure) = nothing [] (write-IsQuiet s.conn t frame failure)
    act-IsStep s (Action.finishes tr_type tr key w o) =
        nothing [] (finish-IsQuiet s.conn tr_type tr key w o)
    act-IsStep s Action.closing = nothing [] (start_close-IsQuiet s.conn)
    act-IsStep s (Action.ends_close t) = nothing [] (ends_close-IsQuiet s.conn t)

    pub perform-IsStep :
        (s : Session) (actions : List Action)
        → IsStep s.conn (perform block unmarshal s actions).conn (messages actions)
    unfolding perform messages
    perform-IsStep s [] = nothing [] (same refl refl)
    perform-IsStep s (a ∷ actions) =
        IsStep-trans (act-IsStep s a) (perform-IsStep (act block unmarshal s a) actions)

    -- Whatever happens to a connection, the events that a history adds stand behind those sent
    -- before, and the raw texts that they keep are texts that were read in that history, in the
    -- order in which they were read, each at most once: nothing is made up, sent twice or out of
    -- order.
    pub perform-IsDelivered :
        (s : Session) (actions : List Action)
        → IsDelivered s.conn (perform block unmarshal s actions).conn (messages actions)
    perform-IsDelivered s actions = (perform-IsStep s actions).delivered
