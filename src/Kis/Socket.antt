-- ===== src/Kis/Socket.antt =====
-- kis/websocket.go: the WebSocket of package kis, without reconnects.
pub mod Connect
use go_kis.Prelude.{ℕ, Bool, not, List, [], ◌∷◌, Option, none, some, if◌then◌else◌, Option-cases}
use go_kis.Text.{Bytes, codes, text_eq}
use go_kis.Kis.ApprovalKey.{issue_approval_key}
use go_kis.Kis.Client.{Client, Exchange}
use go_kis.Kis.Subscribe.{Subscribe, validate_ws_url}

-- A connection of the caller's dialer is a number.
pub record WebSocket : Type 0 where
  pub connection : ℕ
  pub approval : Bytes

pub data ConnectError : Type 0 where
  dialer_required not_allowlisted approval_unavailable dial_failed : ConnectError

pub data Connected : Type 0 where
  socket : WebSocket → Connected
  refused : ConnectError → Connected

-- A call of ConnectWS leaves the client, the endpoints that were dialed and a result.
pub record Attempt : Type 0 where
  pub client : Client
  pub dialed : List Bytes
  pub result : Connected

-- What the dialer is asked for, and what it gives; `none` is an error.
unfoldable pub dial_with : Bytes → Client → Bytes → Option ℕ → Attempt
dial_with endpoint c key none = record {
  client = c;
  dialed = endpoint ∷ [];
  result = Connected.refused ConnectError.dial_failed;
}
dial_with endpoint c key (some connection) = record {
  client = c;
  dialed = endpoint ∷ [];
  result = Connected.socket (record { connection = connection; approval = key });
}

unfoldable pub with_key : Bytes → Option ℕ → Client × Option Bytes → Attempt
unfolding dial_with
with_key endpoint reply (c, none) = record {
  client = c;
  dialed = [];
  result = Connected.refused ConnectError.approval_unavailable;
}
with_key endpoint reply (c, some key) = dial_with endpoint c key reply

abbrev pub not_dialed : Client → ConnectError → Attempt
not_dialed c error = record { client = c; dialed = []; result = Connected.refused error }

module _ (rt_cd_of : Bytes → Option Bytes) (string_of : Bytes → Option Bytes)
    (key_error : Bytes → Option ℕ) (key_of : Bytes → Bytes) where
  unfoldable pub connect_to : Client → Exchange → Option ℕ → Option Bytes → Attempt
  unfolding with_key
  connect_to c exchange reply none = not_dialed c ConnectError.not_allowlisted
  connect_to c exchange reply (some endpoint) =
      with_key endpoint reply (issue_approval_key rt_cd_of string_of key_error key_of c exchange)

  unfoldable pub connect_ws : Client → Bool → Bytes → Exchange → Option ℕ → Attempt
  unfolding connect_to
  connect_ws c has_dialer endpoint exchange reply =
      if not has_dialer
      then not_dialed c ConnectError.dialer_required
      else connect_to c exchange reply (validate_ws_url endpoint)

-- What a socket writes: a text message, or a control frame of an opcode.
pub data Written : Type 0 where
  message : ℕ → Subscribe → Written
  control : ℕ → ℕ → Bytes → Written

abbrev pub pong_message : ℕ
pong_message = 10

-- The request as it is written, under the key of the socket.
unfoldable pub socket_subscribe : WebSocket → Subscribe → Written
socket_subscribe w request =
    Written.message w.connection
      (record request { header = record request.header { approval_key = w.approval } })

-- What Handle returns: the data for the caller, if any, and what is written.
pub record Handled : Type 0 where
  pub payload : Option Bytes
  pub written : List Written

abbrev pub ping_pong : Bytes
ping_pong = codes "PINGPONG"

abbrev pub delivered : Bytes → Handled
delivered raw = record { payload = some raw; written = [] }

-- `tr_id_of` is encoding/json's decoding of the header, `none` an error.
module _ (tr_id_of : Bytes → Option Bytes) where
  unfoldable pub handle_by : WebSocket → Bytes → Option Bytes → Handled
  handle_by w raw none = delivered raw
  handle_by w raw (some tr_id) =
      if text_eq tr_id ping_pong
      then record { payload = none; written = Written.control w.connection pong_message raw ∷ [] }
      else delivered raw

  unfoldable pub socket_handle : WebSocket → Bytes → Handled
  unfolding handle_by
  socket_handle w raw = handle_by w raw (tr_id_of raw)
