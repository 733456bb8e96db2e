-- ===== src/Ws/Dial/Opening.antt =====
-- When Dial opens a connection, and which calls it makes when it does not.
use go_kis.Prelude.{ℕ, ◌≡◌, ◌≢◌, ◌↔◌, ◌⊎◌, refl, true, Option, none, some, [], arith}
use go_kis.Text.{Bytes, is_empty}
use go_kis.Kis.Subscribe.{endpoint_live, endpoint_vts}
use go_kis.Kis.Subscribe.Allowed.{validate_ws_url-cases, validate_ws_url_allowed}
use go_kis.Ws.Dial.{Config, Dialed, transport, failure, opened, Opened, buffer_size, new_conn, dial}

-- What has to be given for `dial` to open `o`.
pub record IsOpening (cfg : Config) (key_reply : Option Bytes) (dialed : Dialed) (o : Opened)
    : Type 0 where
  pub key : Bytes
  pub socket : ℕ
  pub allowed : (cfg.endpoint ≡ endpoint_vts) ⊎ (cfg.endpoint ≡ endpoint_live)
  pub dialer : cfg.has_dialer ≡ true
  pub provider : (cfg.has_approval ≡ true) ⊎ (cfg.has_client ≡ true)
  pub key_given : key_reply ≡ some key
  pub key_ne_nil : key ≢ []
  pub socket_given : dialed ≡ transport socket
  pub conn : o.conn ≡ new_conn cfg cfg.endpoint key socket
  pub buffer : o.buffer ≡ buffer_size cfg.event_buffer

dial-opened :
    (cfg : Config) (key_reply : Option Bytes) (dialed : Dialed) (o : Opened)
    → dial cfg key_reply dialed ≡ opened o
    → IsOpening cfg key_reply dialed o
unfolding dial is_empty
dial-opened cfg none dialed o h = absurd (ground arith)
dial-opened cfg (some key) (failure text) o h = absurd (ground arith)
dial-opened cfg (some key) (transport t) o h = record {
  key = key;
  socket = t;
  allowed = ground (arith, validate_ws_url-cases cfg.endpoint);
  dialer = ground arith;
  provider = ground arith;
  key_given = refl;
  key_ne_nil = λ e. ground arith;
  socket_given = refl;
  conn = ground (arith, validate_ws_url-cases cfg.endpoint);
  buffer = ground arith;
}

IsOpening-dial :
    (cfg : Config) (key_reply : Option Bytes) (dialed : Dialed) (o : Opened)
    → IsOpening cfg key_reply dialed o
    → dial cfg key_reply dialed ≡ opened o
unfolding dial is_empty
IsOpening-dial cfg key_reply dialed o w =
    rw (w.key_given, w.socket_given)
      (ground (arith, validate_ws_url_allowed cfg.endpoint w.allowed))

pub dial_iff :
    (cfg : Config) (key_reply : Option Bytes) (dialed : Dialed) (o : Opened)
    → (dial cfg key_reply dialed ≡ opened o) ↔ IsOpening cfg key_reply dialed o
dial_iff cfg key_reply dialed o =
    (dial-opened cfg key_reply dialed o, IsOpening-dial cfg key_reply dialed o)
