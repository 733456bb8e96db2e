-- ===== src/Kis/Client.antt =====
-- kis/client.go, kis/request.go and kis/auth.go: tokens, the read allowlist and the sending of a
-- request.
mod Logs
pub mod Sent
pub mod ReadOnly
pub mod Bearers
pub mod Reuse
pub mod Lifetime
use go_kis.Prelude.{
  ℕ, ◌+◌, ◌-◌, ◌*◌, ◌^◌, ◌%◌, Bool, true, false, not, ◌&&◌, ◌||◌, List, [], ◌∷◌, ◌++◌, Option, none,
  some, if◌then◌else◌, ltb, ◌==◌,
}
use go_kis.Text.{Bytes, codes, text_eq, elem, is_empty, contains_byte, has_prefix_byte}
use go_kis.Kis.Limiter.{Limiter, Call, Waited, wait}
use go_kis.Kis.Response.{RestError, RestResult, Reply, check_response}
use go_kis.Kis.Reads.{supported}

-- A request that was handed to http.Client.Do. `bearer` is the token of its authorization header,
-- `signed` says that it carries the app key and secret, tr_id and custtype.
pub record Transmission : Type 0 where
  pub method : Bytes
  pub path : Bytes
  pub tr_id : Bytes
  pub query : List (Bytes × Bytes)
  pub bearer : Option Bytes
  pub signed : Bool

-- The fields that the sending of a request uses. `access_token` is that of cachedToken;
-- `cached_until` is kept with 2 ^ 63 nanoseconds added, so that it is never below the zero time.
pub record Client : Type 0 where
  pub has_tokens : Bool
  pub limiter : Limiter
  pub access_token : Bytes
  pub cached_until : ℕ
  pub log : List Transmission

-- How one request fares: whether net/http builds it, its call of the limiter, what Do gives.
pub record Exchange : Type 0 where
  pub built : Bool
  pub call : Call
  pub reply : Reply

pub record OAuthToken : Type 0 where
  pub access_token : Bytes
  pub expires_in : ℕ

-- What `token` meets: the provider's answer (`none` is an error), two readings of the clock, and
-- the exchange of a token request.
pub record TokenAnswer : Type 0 where
  pub provided : Option Bytes
  pub now : ℕ
  pub exchange : Exchange
  pub issued_at : ℕ

abbrev pub token_path : Bytes
token_path = codes "/oauth2/tokenP"

abbrev pub method_get : Bytes
method_get = codes "GET"

abbrev pub method_post : Bytes
method_post = codes "POST"

unfoldable pub safe_header : Bytes → Bool
safe_header value = not (contains_byte 13 value) && not (contains_byte 10 value)

unfoldable pub new_request : Bytes → Bool → Option RestError
new_request path built =
    if not (has_prefix_byte b'/' path)
    then some RestError.invalid_path
    else if not built
    then some RestError.request_refused
    else none

-- A token that may be used: not empty, and without line breaks.
unfoldable pub usable : Option Bytes → Option Bytes
unfolding safe_header
usable none = none
usable (some token) = if is_empty token || not (safe_header token) then none else some token

abbrev pub second : ℕ
second = 1000000000

-- time.Duration(expires_in) * time.Second - time.Minute, wrapped to 64 bits, plus 2 ^ 63.
unfoldable pub lifetime : ℕ → ℕ
lifetime expires_in = (expires_in * second + 2 ^ 64 - 60 * second + 2 ^ 63) % 2 ^ 64

unfoldable pub store_token : Client → OAuthToken → ℕ → Client
unfolding lifetime
store_token c issued issued_at = record c {
  access_token = issued.access_token;
  cached_until = issued_at + lifetime issued.expires_in;
}

unfoldable pub cached_token : Client → ℕ → Option Bytes
cached_token c now =
    if not (is_empty c.access_token) && ltb (now + 2 ^ 63) c.cached_until
    then some c.access_token
    else none

-- The request for a token.
abbrev pub token_request : Transmission
token_request = record {
  method = method_post;
  path = token_path;
  tr_id = [];
  query = [];
  bearer = none;
  signed = false;
}

-- After the limiter, which leaves `c`.
unfoldable pub after_wait : Client → Transmission → RestResult → Waited → Client × RestResult
after_wait c t result Waited.cancelled = (c, RestResult.rejected RestError.cancelled)
after_wait c t result (Waited.passed at) = (record c { log = c.log ++ (t ∷ []) }, result)

-- From the limiter on.
unfoldable pub transmit :
    Client → Transmission → Exchange → (Reply → RestResult) → Client × RestResult
unfolding after_wait
transmit c t exchange check =
    let (limiter, waited) = wait c.limiter exchange.call in
    after_wait (record c { limiter = limiter }) t (check exchange.reply) waited

unfoldable pub keep_token : Client → Option OAuthToken → ℕ → Client × Option Bytes
unfolding store_token safe_header
keep_token c none issued_at = (c, none)
keep_token c (some issued) issued_at =
    if is_empty issued.access_token
      || issued.expires_in == 0
      || not (safe_header issued.access_token)
    then (c, none)
    else (store_token c issued issued_at, some issued.access_token)

-- encoding/json as in check_response; `token_error` and `token_of` for the token's type.
module _ (rt_cd_of : Bytes → Option Bytes) (string_of : Bytes → Option Bytes)
    (output_error : Bytes → Option ℕ) (token_error : Bytes → Option ℕ)
    (token_of : Bytes → OAuthToken) where
  unfoldable pub issued_token : RestResult → Option OAuthToken
  issued_token (RestResult.rejected error) = none
  issued_token (RestResult.accepted raw) =
      if is_empty (token_of raw).access_token then none else some (token_of raw)

  unfoldable pub issue_token : Client → Exchange → Client × Option OAuthToken
  unfolding transmit issued_token
  issue_token c exchange =
      if not exchange.built
      then (c, none)
      else (let (after, result) =
            transmit c token_request exchange
              (check_response rt_cd_of string_of token_error false true token_path) in
          (after, issued_token result))

  -- The token from the cache, or a new one. `expires_in` is never negative here: a negative one
  -- counts as 0, which is refused too.
  unfoldable pub own_token : Client → TokenAnswer → Option Bytes → Client × Option Bytes
  unfolding issue_token keep_token
  own_token c answer (some token) = (c, some token)
  own_token c answer none =
      let (after, issued) = issue_token c answer.exchange in
      keep_token after issued answer.issued_at

  unfoldable pub token : Client → TokenAnswer → Client × Option Bytes
  unfolding usable own_token cached_token
  token c answer =
      if c.has_tokens
      then (c, usable answer.provided)
      else own_token c answer (cached_token c answer.now)

  -- A request that Read sends: its path is on the allowlist, so that it needs a token.
  unfoldable pub with_token :
      Bytes
      → Bytes
      → List (Bytes × Bytes)
      → Bool
      → Exchange
      → Client × Option Bytes
      → Client × RestResult
  unfolding transmit
  with_token path tr_id query has_output exchange (c, none) =
      (c, RestResult.rejected RestError.token_unavailable)
  with_token path tr_id query has_output exchange (c, some bearer) =
      transmit c
        (record {
          method = method_get;
          path = path;
          tr_id = tr_id;
          query = query;
          bearer = some bearer;
          signed = true;
        })
        exchange (check_response rt_cd_of string_of output_error true has_output path)

  unfoldable pub send_read :
      Client
      → Bytes
      → Bytes
      → List (Bytes × Bytes)
      → Bool
      → TokenAnswer
      → Exchange
      → Client × RestResult
  unfolding new_request token with_token
  send_read c path tr_id query has_output answer exchange = elim (new_request path exchange.built) [
    | some error ↦ (c, RestResult.rejected error)
    | none ↦ with_token path tr_id query has_output exchange (token c answer)
  ]

  unfoldable pub read :
      Client
      → Bytes
      → Bytes
      → List (Bytes × Bytes)
      → Bool
      → TokenAnswer
      → Exchange
      → Client × RestResult
  unfolding supported send_read
  read c path tr_id query has_output answer exchange =
      if not (supported path tr_id)
      then (c, RestResult.rejected RestError.read_not_allowed)
      else send_read c path tr_id query has_output answer exchange
