-- ===== src/Tests/Build.antt =====
-- Hosts, transports, clients and sockets at concrete inputs.
use go_kis.Prelude.{
  ◌*◌, ◌≡◌, ◌↔◌, ◌++◌, refl, Bool, true, false, ◌&&◌, [], ◌∷◌, Option, none, some, if◌then◌else◌,
  pos,
}
use go_kis.Text.{Bytes, codes, text_eq, is_empty, trim_space}
use go_kis.Kis.Client.{Exchange, read, safe_header, second}
use go_kis.Kis.Domestic
use go_kis.Kis.Message.{error_message}
use go_kis.Kis.Message.Printable.{HasReadableError}
use go_kis.Kis.Message.Readable.{read-HasReadableError}
use go_kis.Kis.Response.{Reply, RestError, http_rejected}
use go_kis.Text.Format.{decimal}
use go_kis.Kis.Create.{BuiltClient, ClientConfig, ClientResult, millisecond, new_client}
use go_kis.Kis.Host.{HostResult, Url, host_vts, host_live, normalize_host}
use go_kis.Kis.Host.Allowed.{IsRestHost, normalize_host_iff}
use go_kis.Kis.Socket.{Connected, WebSocket, connect_ws}
use go_kis.Kis.Socket.Connect.{IsConnected, connect_ws_iff}
use go_kis.Kis.Subscribe.{endpoint_vts}
use go_kis.Kis.Transport.{
  CertPool, HttpTransport, Owner, RoundTripper, TlsConfig, empty_transport, owned_clone,
  safe_transport,
}
use go_kis.Kis.Transport.Safe.{IsSafe, safe_transport-IsSafe}
use go_kis.Tests.Rest.{
  rt_cd_of, string_of, no_error, fresh_client, exchange, token_of, token_answer,
}

abbrev vts_url : Url
vts_url = record {
  has_user = false;
  scheme = codes "HTTPS";
  hostname = codes "openapivts.koreainvestment.com";
  port = codes "29443";
  path = codes "/";
  raw_query = [];
  fragment = [];
}

-- A parser, a case folding and a lower case that know the one host of these tests.
abbrev vts_text : Bytes
vts_text = codes "HTTPS://openapivts.koreainvestment.com:29443/"

abbrev pub parse_vts : Bytes → Option Url
parse_vts raw = if text_eq raw vts_text then some vts_url else none

abbrev pub fold_https : Bytes → Bytes → Bool
fold_https a b = text_eq a (codes "HTTPS") && text_eq b (codes "https")

abbrev pub same_text : Bytes → Bytes
same_text s = s

normalize_host_iff_example :
    (normalize_host parse_vts fold_https same_text vts_text ≡ HostResult.host host_vts)
    ↔ IsRestHost parse_vts fold_https same_text vts_text host_vts
normalize_host_iff_example = normalize_host_iff parse_vts fold_https same_text vts_text host_vts

-- A standard transport with a proxy and a pool of the caller.
abbrev caller_tls : TlsConfig
caller_tls = record {
  insecure_skip_verify = false;
  verify_peer_certificate = false;
  verify_connection = false;
  time = false;
  get_certificate = false;
  get_client_certificate = false;
  get_config_for_client = false;
  client_session_cache = false;
  renegotiates = false;
  key_log_writer = false;
  rand = false;
  wrap_session = false;
  unwrap_session = false;
  encrypted_client_hello_rejection_verify = false;
  get_encrypted_client_hello_keys = false;
  min_version = 0x0303;
  max_version = 0;
  root_cas = some (record { roots = codes "R" ∷ []; owner = Owner.caller });
}

abbrev caller_transport : HttpTransport
caller_transport = record {
  proxy = true;
  dial = false;
  dial_context = true;
  dial_tls = false;
  dial_tls_context = false;
  tls_next_proto = false;
  tls_client_config = some caller_tls;
}

abbrev pub same_transport : HttpTransport → HttpTransport
same_transport t = t

abbrev owned : RoundTripper
owned = RoundTripper.standard (owned_clone same_transport caller_transport false)

owned-used :
    safe_transport same_transport
      (RoundTripper.custom 1)
      (some (RoundTripper.standard caller_transport))
    ≡ some owned
unfolding safe_transport go_kis.Kis.Transport.unsafe_config
owned-used = refl

safe_transport-IsSafe_example : IsSafe (some (RoundTripper.standard caller_transport)) owned
safe_transport-IsSafe_example =
    safe_transport-IsSafe same_transport (RoundTripper.custom 1)
      (some (RoundTripper.standard caller_transport)) owned-used

abbrev pub client_config : ClientConfig
client_config = record {
  host = vts_text;
  app_key = codes "A";
  app_secret = codes "S";
  http_client = some (record { transport = none; timeout = pos second });
  request_timeout = pos 0;
  has_token_provider = false;
}

abbrev pub built_client : BuiltClient
built_client = record {
  host = host_vts;
  app_key = codes "A";
  app_secret = codes "S";
  transport = RoundTripper.standard empty_transport;
  timeout = pos second;
  client = record fresh_client { limiter = record { interval = 500 * millisecond; next = 0 } };
}

pub client-built :
    new_client parse_vts fold_https same_text same_transport (RoundTripper.custom 1) client_config
    ≡ ClientResult.built built_client
unfolding new_client normalize_host safe_transport text_eq is_empty trim_space safe_header
    go_kis.Text.contains_byte go_kis.Kis.Host.contains_any go_kis.Kis.Create.base_of
client-built = refl

abbrev unavailable : Exchange
unavailable = record exchange {
  reply = Reply.answered (record { status = 503; body = some (10 ∷ codes "secret") });
}

read-HasReadableError_example :
    HasReadableError host_vts
      (read rt_cd_of string_of no_error no_error token_of built_client.client Domestic.balance_path
        (codes "VTTC8434R")
        []
        true
        token_answer
        unavailable).1
read-HasReadableError_example =
    read-HasReadableError rt_cd_of string_of no_error no_error token_of parse_vts fold_https
      same_text same_transport (RoundTripper.custom 1) client_config client-built
      built_client.client Domestic.balance_path (codes "VTTC8434R") [] true token_answer unavailable

message-unavailable :
    error_message host_vts (RestError.api_error 503 http_rejected)
    ≡ some (codes "kis: API error (status=503, code=HTTP_REJECTED): request rejected")
unfolding error_message is_empty text_eq decimal
message-unavailable = refl

message-timeout :
    error_message host_live (RestError.transport_failure (codes "timeout") Domestic.balance_path)
    ≡ some (
        codes "kis: transport failure (category=timeout, location="
        ++ codes "https://openapi.koreainvestment.com:9443"
        ++ codes "/uapi/domestic-stock/v1/trading/inquire-balance)")
unfolding error_message
message-timeout = refl

message-decoding :
    error_message host_vts (RestError.decode_failed 2097152 0)
    ≡ some (codes "kis: response decode failed (bytes=2097152, offset=0)")
unfolding error_message decimal
message-decoding = refl

abbrev key_of_body : Bytes → Bytes
key_of_body raw = codes "K"

abbrev plain_socket : WebSocket
plain_socket = record { connection = 4; approval = codes "K" }

connect_ws_iff_example :
    ((connect_ws rt_cd_of string_of no_error key_of_body fresh_client true endpoint_vts exchange
        (some 4)).result
      ≡ Connected.socket plain_socket)
    ↔ IsConnected rt_cd_of string_of no_error key_of_body fresh_client true endpoint_vts exchange
        (some 4)
        plain_socket
connect_ws_iff_example =
    connect_ws_iff rt_cd_of string_of no_error key_of_body fresh_client true endpoint_vts exchange
      (some 4) plain_socket
