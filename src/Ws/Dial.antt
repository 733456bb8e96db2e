-- ===== src/Ws/Dial.antt =====
-- kis/ws/conn.go: Dial, up to the start of the reader goroutine. The answers of the approval
-- provider and of the dialer are arguments.
pub mod Opening
use go_kis.Prelude.{
  ℕ, ◌≡◌, Bool, true, false, not, List, [], ◌∷◌, Option, none, some, if◌then◌else◌, ℤ, pos, negsuc,
  ◌==◌,
}
use go_kis.Text.{Bytes, is_empty}
use go_kis.Kis.Subscribe.{validate_ws_url}
use go_kis.Ws.Conn.{Conn, Effect}

-- The fields of Config that Dial itself looks at; whether an interface or a callback is given is
-- a flag.
pub record Config : Type 0 where
  pub endpoint : Bytes
  pub has_approval : Bool
  pub has_client : Bool
  pub has_dialer : Bool
  pub event_buffer : ℤ
  pub has_on_reconnect : Bool

pub data DialError : Type 0 where
  endpoint_required not_allowlisted dialer_required approval_required : DialError
  approval_unavailable : DialError
  dial_failed : Bytes → DialError

pub data Dialed : Type 0 where
  transport : ℕ → Dialed
  failure : Bytes → Dialed

pub record Opened : Type 0 where
  pub conn : Conn
  pub buffer : ℕ

-- The connection or an error, with the calls made of the provider and the dialer.
pub data DialResult : Type 0 where
  opened : Opened → DialResult
  refused : DialError → List Effect → DialResult

abbrev pub default_event_buffer : ℕ
default_event_buffer = 256

unfoldable pub buffer_size : ℤ → ℕ
buffer_size (negsuc n) = default_event_buffer
buffer_size (pos n) = if n == 0 then default_event_buffer else n

unfoldable pub new_conn : Config → Bytes → Bytes → ℕ → Conn
new_conn cfg endpoint key t = record {
  endpoint = endpoint;
  has_on_reconnect = cfg.has_on_reconnect;
  transport = some t;
  key = key;
  generation = 0;
  subs = [];
  material = [];
  pending = [];
  closed = false;
  done = false;
  stats = record { dropped_frames = 0; last_drop_tr = []; last_drop_reason = [] };
  reissued_for = [];
  next_waiter = 0;
  mailbox = [];
  events = [];
  log = Effect.asked_key ∷ Effect.dialed endpoint ∷ [];
}

dial_with_key : Config → Bytes → Bytes → Dialed → DialResult
unfolding buffer_size
dial_with_key cfg endpoint key (failure text) =
    refused (DialError.dial_failed text) (Effect.asked_key ∷ Effect.dialed endpoint ∷ [])
dial_with_key cfg endpoint key (transport t) =
    opened (record { conn = new_conn cfg endpoint key t; buffer = buffer_size cfg.event_buffer })

-- The key is missing where the provider fails or gives an empty one.
dial_checked : Config → Bytes → Option Bytes → Dialed → DialResult
unfolding dial_with_key
dial_checked cfg endpoint none dialed =
    refused DialError.approval_unavailable (Effect.asked_key ∷ [])
dial_checked cfg endpoint (some key) dialed =
    if is_empty key
    then refused DialError.approval_unavailable (Effect.asked_key ∷ [])
    else dial_with_key cfg endpoint key dialed

unfoldable pub dial : Config → Option Bytes → Dialed → DialResult
unfolding dial_checked
dial cfg key_reply dialed = elim (validate_ws_url cfg.endpoint) [
  | none ↦
      if is_empty cfg.endpoint
      then refused DialError.endpoint_required []
      else refused DialError.not_allowlisted []
  | some endpoint ↦
      if not cfg.has_dialer
      then refused DialError.dialer_required []
      else if not cfg.has_approval
      then (if not cfg.has_client
          then refused DialError.approval_required []
          else dial_checked cfg endpoint key_reply dialed)
      else dial_checked cfg endpoint key_reply dialed
]
