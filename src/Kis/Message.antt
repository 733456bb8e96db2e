-- ===== src/Kis/Message.antt =====
-- kis/request.go, kis/errors.go and kis/client.go: the texts of the errors that a read gives.
pub mod Printable
pub mod Readable
use go_kis.Prelude.{ℕ, Bool, not, List, [], ◌∷◌, ◌++◌, Option, none, some, if◌then◌else◌}
use go_kis.Text.{Bytes, codes, text_eq, is_empty}
use go_kis.Text.Format.{decimal, sprint}
use go_kis.Kis.Response.{RestError, invalid_envelope}

-- TransportError.Error.
unfoldable pub transport_error_text : Bytes → Bytes → Bytes
unfolding sprint
transport_error_text category location = sprint (
    codes "kis: transport failure (category="
    ∷ category
    ∷ codes ", location="
    ∷ location
    ∷ codes ")"
    ∷ [])

-- DecodeError.Error.
unfoldable pub decode_error_text : ℕ → ℕ → Bytes
unfolding sprint decimal
decode_error_text body_bytes json_offset = sprint (
    codes "kis: response decode failed (bytes="
    ∷ decimal body_bytes
    ∷ codes ", offset="
    ∷ decimal json_offset
    ∷ codes ")"
    ∷ [])

-- APIError.Error.
unfoldable pub api_error_text : ℕ → Bytes → Bytes → Bytes
unfolding sprint decimal
api_error_text status code message =
    if not (is_empty code)
    then sprint (
        codes "kis: API error (status="
        ∷ decimal status
        ∷ codes ", code="
        ∷ code
        ∷ codes "): "
        ∷ message
        ∷ [])
    else sprint (codes "kis: API error (status=" ∷ decimal status ∷ codes "): " ∷ message ∷ [])

-- The message that goes with a code.
unfoldable pub api_message : Bytes → Bytes
api_message code =
    if text_eq code invalid_envelope
    then codes "invalid response envelope"
    else codes "request rejected"

-- The text of an error of a client of this host, `none` where net/http or the context words it.
unfoldable pub error_message : Bytes → RestError → Option Bytes
unfolding transport_error_text decode_error_text api_error_text api_message
error_message host RestError.invalid_mode = some (codes "kis: mode must be kis.Mock or kis.Live")
error_message host RestError.read_not_allowed = some (codes "kis: read endpoint is not supported")
error_message host RestError.invalid_path = some (codes "kis: invalid API path")
error_message host RestError.request_refused = none
error_message host RestError.token_unavailable = some (codes "kis: token unavailable")
error_message host RestError.cancelled = none
error_message host RestError.redirect_blocked = some (codes "kis: redirect blocked")
error_message host (RestError.transport_failure category path) =
    some (transport_error_text category (host ++ path))
error_message host RestError.read_failed = some (codes "kis: read response failed")
error_message host RestError.too_large = some (codes "kis: response too large")
error_message host (RestError.api_error status code) =
    some (api_error_text status code (api_message code))
error_message host (RestError.decode_failed body_bytes json_offset) =
    some (decode_error_text body_bytes json_offset)
