-- ===== src/Ws/System/Pacing.antt =====
-- How long the reader waits between its tries.
use go_kis.Prelude.{
  ℕ, zero, suc, ◌≤◌, ◌≡◌, refl, ap, ap₂, ◌∙◌, Bool, true, false, not, ◌&&◌, List, [], ◌∷◌, map,
  Option, none, some, arith, length, if◌then◌else◌, All, ℤ, pos,
}
use go_kis.Text.{Bytes}
use go_kis.Ws.Backoff.{Float64, BackoffConfig, normalized, delay}
use go_kis.Ws.Backoff.Laws.{Laws}
use go_kis.Ws.Backoff.Bounded.{IsNumber, delay-normalized}
use go_kis.Ws.Backoff.Range.{IsRange, IsExact}
use go_kis.Ws.Conn.{Conn}
use go_kis.Ws.Errors.{WsError}
use go_kis.Ws.Reader.{AckMessage, handle}
use go_kis.Ws.Reconnect.{
  Pc, Session, Move, if_connected, after_handle, after_read, judge, mark_rejection, go_on,
  key_known, dial_known, read_message, move,
}
use go_kis.Ws.System.{Action, act, start}

unfoldable pub is_sleeping : Pc → Bool
is_sleeping Pc.sleeping = true
is_sleeping _ = false

-- An attempt is counted, and its sleep not begun.
unfoldable pub is_counted : Pc → Bool
is_counted (Pc.judging e) = true
is_counted Pc.reissuing = true
is_counted _ = false

unfoldable pub falls_asleep : Pc → Pc → Bool
unfolding is_sleeping
falls_asleep before after = not (is_sleeping before) && is_sleeping after

-- The number of the attempt that the next sleep is for.
unfoldable pub due : Session → ℕ
unfolding is_counted
due s = if is_counted s.pc then s.attempt else suc s.attempt

-- What one move does to that number.
record IsPaced (s q : Session) : Type 0 where
  next : due q ≡ (if falls_asleep s.pc q.pc then suc (due s) else due s)
  attempt : falls_asleep s.pc q.pc ≡ true → q.attempt ≡ due s

-- A move that leaves the attempt, and the reader neither asleep nor judging.
record IsIdle (s q : Session) : Type 0 where
  attempt : q.attempt ≡ s.attempt
  awake : is_sleeping q.pc ≡ false
  uncounted : is_counted q.pc ≡ false

IsIdle-IsPaced : (s q : Session) → is_counted s.pc ≡ false → IsIdle s q → IsPaced s q
unfolding falls_asleep due
IsIdle-IsPaced s q h w = record {
  next = ground (arith, w.attempt, w.awake, w.uncounted);
  attempt = λ e. ground (arith, w.awake);
}

IsPaced-refl : (s : Session) → IsPaced s s
unfolding falls_asleep due
IsPaced-refl s = record { next = ground arith; attempt = λ e. ground arith }

key_known-IsIdle : (s : Session) (reply : Option Bytes) → IsIdle s (key_known s reply)
unfolding key_known is_sleeping is_counted
key_known-IsIdle s none = record { attempt = refl; awake = refl; uncounted = refl }
key_known-IsIdle s (some key) = record {
  attempt = ground arith;
  awake = ground arith;
  uncounted = ground arith;
}

dial_known-IsIdle :
    (s : Session) (key : Bytes) (reply : Option ℕ) → IsIdle s (dial_known s key reply)
unfolding dial_known is_sleeping is_counted
dial_known-IsIdle s key none = record { attempt = refl; awake = refl; uncounted = refl }
dial_known-IsIdle s key (some t) = record {
  attempt = ground arith;
  awake = ground arith;
  uncounted = ground arith;
}

after_handle-IsIdle : (s : Session) (r : Conn × Option WsError) → IsIdle s (after_handle s r)
unfolding after_handle is_sleeping is_counted
after_handle-IsIdle s (c, none) = record { attempt = refl; awake = refl; uncounted = refl }
after_handle-IsIdle s (c, some e) = record { attempt = refl; awake = refl; uncounted = refl }

if_connected-IsPaced :
    (s : Session) (t : Option ℕ) (x y : Session)
    → IsPaced s x
    → IsPaced s y
    → IsPaced s (if_connected t x y)
unfolding if_connected
if_connected-IsPaced s none x y hx hy = hx
if_connected-IsPaced s (some t) x y hx hy = hy

judge-IsPaced : (s : Session) (e : WsError) → s.pc ≡ Pc.judging e → IsPaced s (judge s e)
unfolding judge mark_rejection falls_asleep due is_sleeping is_counted
judge-IsPaced s e here = record { next = ground arith; attempt = λ h. ground arith }

ended-IsPaced :
    (s : Session) (now : ℕ) (e : WsError) → s.pc ≡ Pc.ended e → IsPaced s (go_on s now (Pc.ended e))
unfolding go_on after_read falls_asleep due is_sleeping is_counted
ended-IsPaced s now e here = record { next = ground arith; attempt = λ h. ground arith }

-- Consecutive numbers.
abbrev pub count_from : ℕ → ℕ → List ℕ
count_from n zero = []
count_from n (suc k) = n ∷ count_from (suc n) k

counted_on :
    (asleep : Bool) (attempt n after : ℕ) (later : List ℕ)
    → after ≡ (if asleep then suc n else n)
    → (asleep ≡ true → attempt ≡ n)
    → later ≡ count_from after (length later)
    → (let slept = if asleep then attempt ∷ later else later in slept ≡ count_from n (length slept))
counted_on true attempt n after later next now h =
    ap₂ ◌∷◌ (now refl) (h ∙ ap (λ m. count_from m (length later)) next)
counted_on false attempt n after later next now h = h ∙ ap (λ m. count_from m (length later)) next

module _ (block : Bytes → Bytes → Bytes) (unmarshal : Bytes → Option AckMessage) where
  move-IsPaced :
      (s : Session) (pc : Pc) (m : Move) → s.pc ≡ pc → IsPaced s (move block unmarshal s pc m)
  unfolding move go_on read_message if_connected is_counted is_sleeping falls_asleep due
  move-IsPaced s Pc.reading (Move.receive env raw) here =
      if_connected-IsPaced s s.conn.transport s _ (IsPaced-refl s) (
        IsIdle-IsPaced s _ (rw here refl)
          (after_handle-IsIdle s (handle block unmarshal s.conn env raw)))
  move-IsPaced s Pc.redialing (Move.key_reply reply) here =
      IsIdle-IsPaced s _ (rw here refl) (key_known-IsIdle s reply)
  move-IsPaced s (Pc.dialing key) (Move.dial_reply reply) here =
      IsIdle-IsPaced s _ (rw here refl) (dial_known-IsIdle s key reply)
  move-IsPaced s (Pc.judging e) (Move.proceed now) here = judge-IsPaced s e here
  move-IsPaced s (Pc.ended e) (Move.proceed now) here = ended-IsPaced s now e here
  move-IsPaced s _ _ here = record { next = ground arith; attempt = λ h. ground arith }

  act-IsPaced : (s : Session) (a : Action) → IsPaced s (act block unmarshal s a)
  unfolding act falls_asleep due
  act-IsPaced s (Action.reader m) = move-IsPaced s s.pc m refl
  act-IsPaced s _ = record { next = ground arith; attempt = λ h. ground arith }

  -- The attempts that the sleeps begun in a history are for, in their order.
  unfoldable pub sleeps : Session → List Action → List ℕ
  sleeps s [] = []
  sleeps s (a ∷ actions) =
      let q = act block unmarshal s a in
      let later = sleeps q actions in if falls_asleep s.pc q.pc then q.attempt ∷ later else later

  sleeps-due :
      (s : Session) (actions : List Action)
      → sleeps s actions ≡ count_from (due s) (length (sleeps s actions))
  unfolding sleeps
  sleeps-due s [] = refl
  sleeps-due s (a ∷ actions) =
      let q = act block unmarshal s a in
      let w = act-IsPaced s a in
      counted_on (falls_asleep s.pc q.pc) q.attempt (due s) (due q) (sleeps q actions) w.next
        w.attempt (sleeps-due q actions)

  -- What `delay` gives for those attempts, each with a draw of its own.
  abbrev pub delays :
      (float : Float64) → BackoffConfig float → (ℕ → float.F) → Session → List Action → List ℤ
  delays float b draw s actions = map (λ n. delay float b (draw n) (pos n)) (sleeps s actions)

  module _ (float : Float64) (laws : Laws float) where
    open float use {F, zero_float, one_float}
    open laws use {Le}

    -- Between the floor and the ceiling of the config, which both are exact.
    abbrev pub IsPause : BackoffConfig float → ℤ → Type 0
    IsPause b pause =
        (lo : ℕ) × (hi : ℕ) × (d : ℕ) × IsRange b.min b.max lo hi
        × (pause ≡ pos d)
        × (lo ≤ d)
        × (d ≤ hi)

    pauses :
        (b : BackoffConfig float) (draw : ℕ → F) (attempts : List ℕ)
        → ((n : ℕ) → IsPause b (delay float b (draw n) (pos n)))
        → All (IsPause b) (map (λ n. delay float b (draw n) (pos n)) attempts)
    pauses b draw [] h = tt
    pauses b draw (n ∷ attempts) h = (h n, pauses b draw attempts h)

    -- In every history of a connection the reader's sleeps are for the attempts 1, 2, 3 and so on,
    -- none left out and none twice, also after connections that succeeded; and with a factor that
    -- is no NaN, a floor and a ceiling that are exact as floating-point numbers and draws from
    -- [0, 1], each of them lasts between the floor and the ceiling of the normalized config.
    pub perform-delays :
        (b : BackoffConfig float) (draw : ℕ → F) (c : Conn) (actions : List Action)
        → IsExact b.min
        → IsExact b.max
        → IsNumber float laws b.factor
        → ((n : ℕ) → Le zero_float (draw n))
        → ((n : ℕ) → Le (draw n) one_float)
        → (sleeps (start c) actions ≡ count_from 1 (length (sleeps (start c) actions)))
          × All
              (IsPause (normalized float b))
              (delays float (normalized float b) draw (start c) actions)
    unfolding due is_counted
    perform-delays b draw c actions exact_min exact_max number low high = (
      sleeps-due (start c) actions,
      pauses (normalized float b) draw (sleeps (start c) actions) (λ n.
          delay-normalized float laws b (draw n) (pos n) exact_min exact_max number (low n)
            (high n)),
    )
