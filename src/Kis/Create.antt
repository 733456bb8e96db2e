-- ===== src/Kis/Create.antt =====
-- kis/client.go: NewClient.
pub mod Ready
use go_kis.Prelude.{
  ℕ, zero, suc, ◌*◌, Bool, true, false, not, ◌&&◌, ◌||◌, [], Option, none, some, if◌then◌else◌, ℤ,
  pos, negsuc,
}
use go_kis.Text.{Bytes, text_eq, is_empty}
use go_kis.Kis.Client.{Client, safe_header}
use go_kis.Kis.Host.{Url, HostError, HostResult, host_vts, normalize_host}
use go_kis.Kis.Transport.{HttpTransport, RoundTripper, safe_transport}

-- The fields of an http.Client that are read.
pub record HttpClient : Type 0 where
  pub transport : Option RoundTripper
  pub timeout : ℤ

-- A duration of zero or less is none.
pub record ClientConfig : Type 0 where
  pub host : Bytes
  pub app_key : Bytes
  pub app_secret : Bytes
  pub http_client : Option HttpClient
  pub request_timeout : ℤ
  pub has_token_provider : Bool

-- What NewClient sets: the parts of Client that do not change, and the state of a fresh one.
pub record BuiltClient : Type 0 where
  pub host : Bytes
  pub app_key : Bytes
  pub app_secret : Bytes
  pub transport : RoundTripper
  pub timeout : ℤ
  pub client : Client

pub data ClientError : Type 0 where
  bad_host : HostError → ClientError
  credentials_required timeout_required unsafe_transport : ClientError

pub data ClientResult : Type 0 where
  built : BuiltClient → ClientResult
  failed : ClientError → ClientResult

unfoldable pub is_positive : ℤ → Bool
is_positive (pos zero) = false
is_positive (pos (suc n)) = true
is_positive (negsuc n) = false

unfoldable pub timeout_of : ℤ → Option HttpClient → ℤ
unfolding is_positive
timeout_of given none = given
timeout_of given (some h) = if not (is_positive given) then h.timeout else given

unfoldable pub base_of : Option HttpClient → Option RoundTripper
base_of none = none
base_of (some h) = h.transport

abbrev pub millisecond : ℕ
millisecond = 1000000

-- Nanoseconds between two transmissions.
unfoldable pub interval_of : Bytes → ℕ
interval_of host = if text_eq host host_vts then 500 * millisecond else 50 * millisecond

unfoldable pub fresh_client : Bytes → Bool → Client
unfolding interval_of
fresh_client host has_tokens = record {
  has_tokens = has_tokens;
  limiter = record { interval = interval_of host; next = 0 };
  access_token = [];
  cached_until = 0;
  log = [];
}

unfoldable pub missing_credentials : ClientConfig → Bool
missing_credentials cfg =
    is_empty cfg.app_key
    || is_empty cfg.app_secret
    || not (safe_header cfg.app_key)
    || not (safe_header cfg.app_secret)

unfoldable pub with_transport : ClientConfig → Bytes → ℤ → Option RoundTripper → ClientResult
unfolding fresh_client
with_transport cfg host timeout none = ClientResult.failed ClientError.unsafe_transport
with_transport cfg host timeout (some transport) = ClientResult.built (record {
  host = host;
  app_key = cfg.app_key;
  app_secret = cfg.app_secret;
  transport = transport;
  timeout = timeout;
  client = fresh_client host cfg.has_token_provider;
})

-- net/url, the case mappings of package strings, net/http's Clone and its DefaultTransport.
module _ (parse : Bytes → Option Url) (equal_fold : Bytes → Bytes → Bool) (to_lower : Bytes → Bytes)
    (clone : HttpTransport → HttpTransport) (default : RoundTripper) where
  unfoldable pub with_host : ClientConfig → HostResult → ClientResult
  unfolding missing_credentials timeout_of with_transport
  with_host cfg (HostResult.refused e) = ClientResult.failed (ClientError.bad_host e)
  with_host cfg (HostResult.host host) =
      if missing_credentials cfg
      then ClientResult.failed ClientError.credentials_required
      else if not (is_positive (timeout_of cfg.request_timeout cfg.http_client))
      then ClientResult.failed ClientError.timeout_required
      else with_transport cfg host (timeout_of cfg.request_timeout cfg.http_client)
          (safe_transport clone default (base_of cfg.http_client))

  unfoldable pub new_client : ClientConfig → ClientResult
  unfolding with_host
  new_client cfg = with_host cfg (normalize_host parse equal_fold to_lower cfg.host)
