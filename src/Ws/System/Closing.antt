-- ===== src/Ws/System/Closing.antt =====
-- Close as a row of sections.
use go_kis.Prelude.{
  ℕ, ◌≡◌, refl, sym, ap, true, append_assoc, append-nil, if-true, if-false, ◌∙◌, false, List, [],
  ◌∷◌, ◌++◌, map, Option, none, some,
}
use go_kis.Text.{Bytes}
use go_kis.Ws.Conn.{
  Writes, Conn, Subscription, close, close_begin, close_rest, close_end, start_close, write,
  write_all, request_frame, tr_type_unsubscribe, Effect,
}
use go_kis.Ws.Conn.Closing.{unsubscribe_frames, write_all-eq}
use go_kis.Ws.Reader.{AckMessage}
use go_kis.Ws.Reconnect.{Session}
use go_kis.Ws.System.{Action, act, perform}

-- The writes of Close on a transport, if it has one, with what each of them gives.
abbrev pub tellings : Option ℕ → Bytes → Writes → List Subscription → List Action
tellings none approval_key writes subs = []
tellings (some t) approval_key writes subs =
    map
      (λ s.
        Action.writes (some t) (request_frame approval_key tr_type_unsubscribe s.tr s.key)
          (writes s))
      subs

-- The sections of a call of Close that finds this state.
abbrev pub close_actions : Conn → Writes → List Action
close_actions c writes =
    Action.closing
    ∷ (tellings c.transport c.key writes c.subs ++ (Action.ends_close c.transport ∷ []))

write_all-closed :
    (c : Conn) (t : ℕ) (approval_key : Bytes) (writes : Writes) (subs : List Subscription)
    → (write_all c t approval_key writes subs).closed ≡ c.closed
unfolding write_all write
write_all-closed c t approval_key writes [] = refl
write_all-closed c t approval_key writes (s ∷ subs) = write_all-closed _ t approval_key writes subs

-- What Close calls on the socket that it finds, if it finds one.
abbrev pub farewells : Option ℕ → Bytes → Writes → List Subscription → List Effect
farewells none approval_key writes subs = []
farewells (some t) approval_key writes subs =
    unsubscribe_frames t approval_key writes subs ++ (Effect.closed_transport t ∷ [])

-- A connection that is closed, its `done` too, with no subscription, and otherwise as it was.
abbrev pub after_close : Conn → Writes → Conn
after_close c writes = record c {
  closed = true;
  done = true;
  subs = [];
  log = c.log ++ farewells c.transport c.key writes c.subs;
}

close_rest-farewells :
    (c : Conn) (t : Option ℕ) (approval_key : Bytes) (writes : Writes) (subs : List Subscription)
    → close_rest c t approval_key writes subs
      ≡ record c { done = true; log = c.log ++ farewells t approval_key writes subs }
unfolding close_rest
close_rest-farewells c none approval_key writes subs =
    ap (λ l. record c { done = true; log = l }) (sym (append-nil c.log))
close_rest-farewells c (some t) approval_key writes subs =
    ap (λ d. close_end d (some t)) (write_all-eq c t approval_key writes subs)
    ∙ ap (λ l. record c { done = true; log = l })
        (append_assoc c.log (unsubscribe_frames t approval_key writes subs)
          (Effect.closed_transport t ∷ []))

close-after_close :
    (c : Conn) (writes : Writes) → c.closed ≡ false → close c writes ≡ after_close c writes
unfolding close close_begin
close-after_close c writes live =
    if-false c.closed c (close_rest (close_begin c) c.transport c.key writes c.subs) live
    ∙ close_rest-farewells (close_begin c) c.transport c.key writes c.subs

module _ (block : Bytes → Bytes → Bytes) (unmarshal : Bytes → Option AckMessage) where
  perform-tellings :
      (s : Session) (t : ℕ) (approval_key : Bytes) (writes : Writes) (subs : List Subscription)
      (rest : List Action)
      → perform block unmarshal s (tellings (some t) approval_key writes subs ++ rest)
        ≡ perform block unmarshal
            (record s { conn = write_all s.conn t approval_key writes subs })
            rest
  unfolding perform act write write_all
  perform-tellings s t approval_key writes [] rest = refl
  perform-tellings s t approval_key writes (x ∷ subs) rest =
      perform-tellings
        (record s {
          conn =
              (write s.conn (some t) (request_frame approval_key tr_type_unsubscribe x.tr x.key)
                (writes x)).0;
        })
        t approval_key writes subs rest

  abbrev resume : Session → List Action → Conn → Session
  resume s rest c = perform block unmarshal (record s { conn = c }) rest

  perform-ends_close :
      (s : Session) (t : Option ℕ) (rest : List Action)
      → s.conn.closed ≡ true
      → perform block unmarshal s (Action.ends_close t ∷ rest)
        ≡ perform block unmarshal (record s { conn = close_end s.conn t }) rest
  unfolding perform act
  perform-ends_close s t rest closed =
      ap (resume s rest) (if-true s.conn.closed (close_end s.conn t) s.conn closed)

  -- What stands behind the critical section of Close.
  perform-close_rest :
      (s : Session) (t : Option ℕ) (approval_key : Bytes) (writes : Writes)
      (subs : List Subscription) (rest : List Action)
      → s.conn.closed ≡ true
      → perform block unmarshal s
          ((tellings t approval_key writes subs ++ (Action.ends_close t ∷ [])) ++ rest)
        ≡ perform block unmarshal
            (record s { conn = close_rest s.conn t approval_key writes subs })
            rest
  unfolding close_rest
  perform-close_rest s none approval_key writes subs rest closed =
      perform-ends_close s none rest closed
  perform-close_rest s (some t) approval_key writes subs rest closed =
      ap (perform block unmarshal s) (
        append_assoc (tellings (some t) approval_key writes subs) (Action.ends_close (some t) ∷ [])
          rest)
      ∙ perform-tellings s t approval_key writes subs (Action.ends_close (some t) ∷ rest)
      ∙ perform-ends_close (record s { conn = write_all s.conn t approval_key writes subs })
          (some t) rest (write_all-closed s.conn t approval_key writes subs ∙ closed)

  perform-sections :
      (s : Session) (writes : Writes) (rest : List Action)
      → s.conn.closed ≡ false
      → perform block unmarshal s (close_actions s.conn writes ++ rest)
        ≡ perform block unmarshal (record s { conn = close s.conn writes }) rest
  unfolding perform act start_close close close_begin
  perform-sections s writes rest live =
      ap
        (λ c.
          resume s
            ((tellings s.conn.transport s.conn.key writes s.conn.subs
                ++ (Action.ends_close s.conn.transport ∷ []))
              ++ rest)
            c)
        (if-false s.conn.closed s.conn (close_begin s.conn) live)
      ∙ perform-close_rest (record s { conn = close_begin s.conn }) s.conn.transport s.conn.key
          writes s.conn.subs rest refl
      ∙ ap (resume s rest) (
          sym (
            if-false s.conn.closed s.conn
              (close_rest (close_begin s.conn) s.conn.transport s.conn.key writes s.conn.subs)
              live))

  -- On an open connection the sections of Close, with nothing between them, leave it closed, with
  -- `done` closed and no subscription; whatever the writes give, the calls that they add are one
  -- unsubscribe frame for each subscription, in subscribe order and under the key in use, and then
  -- the closing of the socket, and none where there is no socket. All else is as before, whatever
  -- comes after them goes on from there, and Close as a whole does the same.
  pub perform-close_actions :
      (s : Session) (writes : Writes) (rest : List Action)
      → s.conn.closed ≡ false
      → (perform block unmarshal s (close_actions s.conn writes ++ rest)
          ≡ perform block unmarshal (record s { conn = after_close s.conn writes }) rest)
        × (close s.conn writes ≡ after_close s.conn writes)
  perform-close_actions s writes rest live =
      let same = close-after_close s.conn writes live in
      (perform-sections s writes rest live ∙ ap (resume s rest) same, same)
