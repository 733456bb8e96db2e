-- ===== src/Ws/Reconnect/Tries.antt =====
-- The tries of the reader after a broken socket, and what they keep.
use go_kis.Prelude.{ℕ, ◌+◌, ◌≡◌, ◌≢◌, false, List, [], ◌∷◌, ◌++◌, none, some}
use go_kis.Text.{Bytes}
use go_kis.Ws.Reconnect.{Move, Pc, Session}

-- A try that fails, at a time: the provider has no key, or the dialer no socket.
pub data Try : Type 0 where
  without_key : ℕ → Try
  without_socket : ℕ → Bytes → Try

-- From the return of readLoop to the end of the delay.
abbrev pub waiting : ℕ → List Move → List Move
waiting now moves = Move.proceed now ∷ Move.proceed now ∷ Move.proceed now ∷ Move.timer ∷ moves

-- What a failed try hears, and what leads to the next one.
abbrev pub try_moves : Try → List Move → List Move
try_moves (without_key now) moves = Move.key_reply none ∷ waiting now moves
try_moves (without_socket now key) moves =
    Move.key_reply (some key) ∷ Move.dial_reply none ∷ waiting now moves

-- Failed tries, and then one that finds a key and a socket.
abbrev pub tries_then : List Try → Bytes → ℕ → List Move
tries_then [] key t = Move.key_reply (some key) ∷ Move.dial_reply (some t) ∷ []
tries_then (x ∷ tries) key t = try_moves x (tries_then tries key t)

-- The read that fails, and what leads to the first try.
abbrev pub broken_then : Bytes → ℕ → List Move → List Move
broken_then text now moves = Move.read_error text ∷ waiting now moves

abbrev pub HasKey : Try → Type 0
HasKey (without_key now) = Unit
HasKey (without_socket now key) = key ≢ []

-- The reader of an open connection is about to redial.
pub record IsDown (s : Session) : Type 0 where
  pub pc : s.pc ≡ Pc.redialing
  pub transport : s.conn.transport ≡ none
  pub live : s.conn.closed ≡ false

-- What tries leave as it was.
pub record IsKept (s u : Session) (tries : ℕ) : Type 0 where
  pub down : IsDown u
  pub subs : u.conn.subs ≡ s.conn.subs
  pub generation : u.conn.generation ≡ s.conn.generation
  pub attempt : u.attempt ≡ s.attempt + tries
  pub spawned : u.spawned ≡ s.spawned

-- The connection is on a new socket, with the subscriptions it had and a pass that restores them.
pub record IsRecovered (s u : Session) (key : Bytes) (t tries : ℕ) : Type 0 where
  pub pc : u.pc ≡ Pc.reading
  pub transport : u.conn.transport ≡ some t
  pub key_in_use : u.conn.key ≡ key
  pub material : u.conn.material ≡ []
  pub subs : u.conn.subs ≡ s.conn.subs
  pub generation : u.conn.generation ≡ s.conn.generation + 1
  pub attempt : u.attempt ≡ s.attempt + tries
  pub spawned : u.spawned ≡ s.spawned ++ ((s.conn.generation + 1, s.attempt + tries) ∷ [])

pub spawned_eq :
    {xs ys : List (ℕ × ℕ)} {g h n m : ℕ}
    → xs ≡ ys
    → g ≡ h
    → n ≡ m
    → ◌≡◌ {A = List (ℕ × ℕ)} (xs ++ ((g, n) ∷ [])) (ys ++ ((h, m) ∷ []))
spawned_eq p q r = cc
