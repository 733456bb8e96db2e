-- ===== src/Kis/Response.antt =====
-- kis/request.go: what the client makes of an exchange, and kis/types.go.
pub mod Accepted
use go_kis.Prelude.{
  ℕ, ◌+◌, ◌*◌, Bool, true, false, not, ◌&&◌, ◌||◌, List, [], ◌∷◌, Option, none, some, if◌then◌else◌,
  ltb, leb, length, take,
}
use go_kis.Text.{Bytes, codes, text_eq, is_empty, trim_space}

-- The errors that the client returns. `transport_failure` keeps the category and the path of its
-- location, the host is the client's; `request_refused` is net/http's refusal of a request,
-- `cancelled` the error of the context while the limiter waits.
pub data RestError : Type 0 where
  invalid_mode : RestError
  read_not_allowed : RestError
  invalid_path : RestError
  request_refused : RestError
  token_unavailable : RestError
  cancelled : RestError
  redirect_blocked : RestError
  transport_failure : Bytes → Bytes → RestError
  read_failed : RestError
  too_large : RestError
  api_error : ℕ → Bytes → RestError
  decode_failed : ℕ → ℕ → RestError

abbrev pub response_limit : ℕ
response_limit = 2 * 1048576

-- What errors.Is and errors.As find in an error of http.Client.Do.
pub record Failure : Type 0 where
  pub redirect_blocked : Bool
  pub deadline_exceeded : Bool
  pub dns_error : Bool
  pub unknown_authority : Bool
  pub hostname_error : Bool
  pub certificate_invalid : Bool
  pub network_timeout : Bool
  pub op_error : Bool

unfoldable pub classify_transport_failure : Failure → Bytes
classify_transport_failure f =
    if f.deadline_exceeded
    then codes "timeout"
    else if f.dns_error
    then codes "dns"
    else if f.unknown_authority || f.hostname_error || f.certificate_invalid
    then codes "tls"
    else if f.network_timeout
    then codes "timeout"
    else if f.op_error
    then codes "connection"
    else codes "other"

-- `body` is what can be read of the body, `none` an error.
pub record Response : Type 0 where
  pub status : ℕ
  pub body : Option Bytes

pub data Reply : Type 0 where
  failed : Failure → Reply
  answered : Response → Reply

-- The raw body where all is well.
pub data RestResult : Type 0 where
  accepted : Bytes → RestResult
  rejected : RestError → RestResult

abbrev pub http_rejected : Bytes
http_rejected = codes "HTTP_REJECTED"

abbrev pub invalid_envelope : Bytes
invalid_envelope = codes "INVALID_ENVELOPE"

abbrev pub upstream_rejected : Bytes
upstream_rejected = codes "UPSTREAM_REJECTED"

-- encoding/json: the member rt_cd of an object, raw (`none` where the text is no object or has
-- no such member); a raw member as a string; and the offset of the error of decoding the body
-- into the output.
module _ (rt_cd_of : Bytes → Option Bytes) (string_of : Bytes → Option Bytes)
    (output_error : Bytes → Option ℕ) where
  unfoldable pub is_zero_code : Option Bytes → Bool
  is_zero_code none = false
  is_zero_code (some rt) = text_eq rt (codes "0")

  unfoldable pub check_envelope : ℕ → Option Bytes → Option RestError
  unfolding is_zero_code
  check_envelope status none = some (RestError.api_error status invalid_envelope)
  check_envelope status (some raw) =
      if is_zero_code (string_of raw)
      then none
      else some (RestError.api_error status upstream_rejected)

  unfoldable pub decode_output : Bytes → Option ℕ → RestResult
  decode_output raw none = RestResult.accepted raw
  decode_output raw (some offset) =
      RestResult.rejected (RestError.decode_failed (length raw) offset)

  unfoldable pub after_envelope : Bool → Bytes → Option RestError → RestResult
  unfolding decode_output
  after_envelope has_output raw (some error) = RestResult.rejected error
  after_envelope has_output raw none =
      if has_output && not (is_empty (trim_space raw))
      then decode_output raw (output_error raw)
      else RestResult.accepted raw

  unfoldable pub check_body : Bool → Bool → ℕ → Option Bytes → RestResult
  unfolding check_envelope after_envelope
  check_body envelope has_output status none = RestResult.rejected RestError.read_failed
  check_body envelope has_output status (some raw) =
      if ltb response_limit (length raw)
      then RestResult.rejected RestError.too_large
      else if ltb status 200 || leb 300 status
      then RestResult.rejected (RestError.api_error status http_rejected)
      else after_envelope has_output raw
          (if envelope then check_envelope status (rt_cd_of raw) else none)

  -- The reader stops one byte after the limit.
  unfoldable pub limited : Option Bytes → Option Bytes
  limited none = none
  limited (some body) = some (take (response_limit + 1) body)

  unfoldable pub check_response : Bool → Bool → Bytes → Reply → RestResult
  unfolding check_body limited
  check_response envelope has_output path (Reply.failed f) =
      if f.redirect_blocked
      then RestResult.rejected RestError.redirect_blocked
      else RestResult.rejected (RestError.transport_failure (classify_transport_failure f) path)
  check_response envelope has_output path (Reply.answered r) =
      if leb 300 r.status && ltb r.status 400
      then RestResult.rejected RestError.redirect_blocked
      else check_body envelope has_output r.status (limited r.body)
