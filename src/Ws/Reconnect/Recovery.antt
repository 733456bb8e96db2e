-- ===== src/Ws/Reconnect/Recovery.antt =====
-- How a broken socket is replaced.
use go_kis.Prelude.{
  ℕ, suc, ◌+◌, ◌≡◌, ◌≢◌, refl, ap, ◌∙◌, false, List, [], ◌∷◌, Option, some, arith, All, length,
}
use go_kis.Text.{Bytes, is_empty}
use go_kis.Ws.Conn.{Effect, fail_pending, logged}
use go_kis.Ws.Conn.Unchanged.{fail_pending-SameSubs}
use go_kis.Ws.Reader.Link.{fail_pending-SameLink}
use go_kis.Ws.Errors.{WsError, is_approval_rejected, is_session_occupied}
use go_kis.Ws.Reader.{AckMessage}
use go_kis.Ws.Reconnect.{
  Move, Pc, Session, after_read, dial_known, drop_transport, go_on, if_connected, install, judge,
  key_known, move, run,
}
use go_kis.Ws.Reconnect.Tries.{
  Try, without_key, without_socket, try_moves, tries_then, broken_then, HasKey, IsDown, IsKept,
  IsRecovered, spawned_eq,
}

module _ (block : Bytes → Bytes → Bytes) (unmarshal : Bytes → Option AckMessage) where
  abbrev after_try : Session → Try → Session
  after_try s (without_key now) = record s {
    conn = logged s.conn Effect.asked_key;
    attempt = s.attempt + 1;
  }
  after_try s (without_socket now key) = record s {
    conn = logged (logged s.conn Effect.asked_key) (Effect.dialed s.conn.endpoint);
    attempt = s.attempt + 1;
  }

  run-try :
      (s : Session) (x : Try) (moves : List Move)
      → IsDown s
      → HasKey x
      → run block unmarshal s (try_moves x moves) ≡ run block unmarshal (after_try s x) moves
  unfolding run move go_on if_connected after_read drop_transport judge is_session_occupied
      is_approval_rejected key_known dial_known is_empty
  run-try s (without_key now) moves d h = rw (d.pc, d.transport, d.live) refl
  run-try s (without_socket now []) moves d h = absurd (h refl)
  run-try s (without_socket now (c ∷ key)) moves d h = rw (d.pc, d.transport, d.live) refl

  after_try-IsKept : (s : Session) (x : Try) → IsDown s → IsKept s (after_try s x) 1
  after_try-IsKept s (without_key now) d = record {
    down = record { pc = d.pc; transport = d.transport; live = d.live };
    subs = refl;
    generation = refl;
    attempt = refl;
    spawned = refl;
  }
  after_try-IsKept s (without_socket now key) d = record {
    down = record { pc = d.pc; transport = d.transport; live = d.live };
    subs = refl;
    generation = refl;
    attempt = refl;
    spawned = refl;
  }

  run-success :
      (s : Session) (key : Bytes) (t : ℕ)
      → IsDown s
      → key ≢ []
      → IsRecovered s (run block unmarshal s (tries_then [] key t)) key t 0
  unfolding run move key_known dial_known install is_empty
  run-success s [] t d h = absurd (h refl)
  run-success s (c ∷ key) t d h =
      rw (d.pc, d.live, install)
        (record {
          pc = refl;
          transport = refl;
          key_in_use = refl;
          material = refl;
          subs = refl;
          generation = refl;
          attempt = omega arith;
          spawned = spawned_eq refl refl (omega arith);
        })

  IsKept-IsRecovered :
      {s u v : Session} {key : Bytes} {t n : ℕ}
      → IsKept s u 1
      → IsRecovered u v key t n
      → IsRecovered s v key t (suc n)
  IsKept-IsRecovered kept rest = record {
    pc = rest.pc;
    transport = rest.transport;
    key_in_use = rest.key_in_use;
    material = rest.material;
    subs = rest.subs ∙ kept.subs;
    generation = rest.generation ∙ ap (λ g. g + 1) kept.generation;
    attempt = omega (arith, rest.attempt, kept.attempt);
    spawned =
        rest.spawned
        ∙ spawned_eq kept.spawned (ap (λ g. g + 1) kept.generation) (omega (arith, kept.attempt));
  }

  run-tries :
      (s : Session) (tries : List Try) (key : Bytes) (t : ℕ)
      → IsDown s
      → All HasKey tries
      → key ≢ []
      → IsRecovered s (run block unmarshal s (tries_then tries key t)) key t (length tries)
  run-tries s [] key t d hs h = run-success s key t d h
  run-tries s (x ∷ tries) key t d hs h =
      let kept = after_try-IsKept s x d in
      let rest = run-tries (after_try s x) tries key t kept.down hs.1 h in
      rw (run-try s x (tries_then tries key t) d hs.0) (IsKept-IsRecovered kept rest)

  -- The session before its first try.
  abbrev broken : Session → Bytes → Session
  broken s text = record s {
    conn = drop_transport (fail_pending s.conn (WsError.external text));
    pc = Pc.redialing;
    attempt = s.attempt + 1;
  }

  -- readLoop has returned, and the delay is over.
  run-ended :
      (u : Session) (text : Bytes) (now old : ℕ) (moves : List Move)
      → u.pc ≡ Pc.ended (WsError.external text)
      → u.conn.transport ≡ some old
      → u.conn.closed ≡ false
      → run block unmarshal u (Move.proceed now ∷ Move.proceed now ∷ Move.timer ∷ moves)
        ≡ run block unmarshal
            (record u { conn = drop_transport u.conn; pc = Pc.redialing; attempt = u.attempt + 1 })
            moves
  unfolding run move go_on after_read judge is_session_occupied is_approval_rejected drop_transport
  run-ended u text now old moves pc connected live = rw (pc, connected, live) refl

  run-failing :
      (s : Session) (text : Bytes) (now old : ℕ) (moves : List Move)
      → s.pc ≡ Pc.reading
      → s.conn.transport ≡ some old
      → run block unmarshal s (Move.read_error text ∷ Move.proceed now ∷ moves)
        ≡ run block unmarshal
            (record s {
              conn = fail_pending s.conn (WsError.external text);
              pc = Pc.ended (WsError.external text);
            })
            moves
  unfolding run move go_on if_connected
  run-failing s text now old moves pc connected = rw (pc, connected) refl

  run-broken :
      (s : Session) (text : Bytes) (now old : ℕ) (moves : List Move)
      → s.pc ≡ Pc.reading
      → s.conn.transport ≡ some old
      → s.conn.closed ≡ false
      → run block unmarshal s (broken_then text now moves)
        ≡ run block unmarshal (broken s text) moves
  run-broken s text now old moves pc connected live =
      run-failing s text now old (Move.proceed now ∷ Move.proceed now ∷ Move.timer ∷ moves) pc
        connected
      ∙ run-ended
          (record s {
            conn = fail_pending s.conn (WsError.external text);
            pc = Pc.ended (WsError.external text);
          })
          text now old moves refl
          ((fail_pending-SameLink s.conn (WsError.external text)).transport ∙ connected)
          ((fail_pending-SameSubs s.conn (WsError.external text)).closed ∙ live)

  broken-IsKept :
      (s : Session) (text : Bytes) (old : ℕ)
      → s.conn.transport ≡ some old
      → s.conn.closed ≡ false
      → IsKept s (broken s text) 1
  unfolding drop_transport
  broken-IsKept s text old connected live =
      let link = fail_pending-SameLink s.conn (WsError.external text) in
      let kept = fail_pending-SameSubs s.conn (WsError.external text) in
      record {
        down = record { pc = refl; transport = ground arith; live = ground arith };
        subs = ground arith;
        generation = ground arith;
        attempt = refl;
        spawned = refl;
      }

  -- A read that fails on an open connection with a socket, then any number of tries that fail for
  -- want of a key or of a socket, then one try that finds both: the reader is back at reading, on
  -- the new socket and key, with no material, the subscriptions it had and the next generation; as
  -- many attempts are counted as tries were made, and one restoring pass of the new generation and
  -- that attempt is started.
  pub run-IsRecovered :
      (s : Session) (text : Bytes) (now old : ℕ) (tries : List Try) (key : Bytes) (t : ℕ)
      → s.pc ≡ Pc.reading
      → s.conn.transport ≡ some old
      → s.conn.closed ≡ false
      → All HasKey tries
      → key ≢ []
      → IsRecovered s
          (run block unmarshal s (broken_then text now (tries_then tries key t)))
          key
          t
          (suc (length tries))
  run-IsRecovered s text now old tries key t pc connected live hs h =
      let kept = broken-IsKept s text old connected live in
      let rest = run-tries (broken s text) tries key t kept.down hs h in
      rw (run-broken s text now old (tries_then tries key t) pc connected live)
        (IsKept-IsRecovered kept rest)
