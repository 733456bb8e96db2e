-- ===== src/Kis/Transport.antt =====
-- kis/client.go: the HTTP transport of a client. A field of http.Transport or tls.Config that holds
-- a function or an interface is a flag that says whether it is set.
pub mod Safe
use go_kis.Prelude.{
  ℕ, Bool, true, false, not, ◌&&◌, ◌||◌, List, [], Option, none, some, if◌then◌else◌, ltb, ◌==◌,
}
use go_kis.Text.{Bytes, text_eq}
use go_kis.Kis.Host.{host_vts, host_live}
use go_kis.Prelude.{◌++◌}

-- Who may change a pool of root certificates.
pub data Owner : Type 0 where
  caller : Owner
  client : Owner

pub record CertPool : Type 0 where
  pub roots : List Bytes
  pub owner : Owner

pub record TlsConfig : Type 0 where
  pub insecure_skip_verify : Bool
  pub verify_peer_certificate : Bool
  pub verify_connection : Bool
  pub time : Bool
  pub get_certificate : Bool
  pub get_client_certificate : Bool
  pub get_config_for_client : Bool
  pub client_session_cache : Bool
  pub renegotiates : Bool
  pub key_log_writer : Bool
  pub rand : Bool
  pub wrap_session : Bool
  pub unwrap_session : Bool
  pub encrypted_client_hello_rejection_verify : Bool
  pub get_encrypted_client_hello_keys : Bool
  pub min_version : ℕ
  pub max_version : ℕ
  pub root_cas : Option CertPool

-- `dial` and `dial_context`, which may open the TCP connection, are not looked at: they stay.
pub record HttpTransport : Type 0 where
  pub proxy : Bool
  pub dial : Bool
  pub dial_context : Bool
  pub dial_tls : Bool
  pub dial_tls_context : Bool
  pub tls_next_proto : Bool
  pub tls_client_config : Option TlsConfig

-- An http.RoundTripper: the standard one, or one of the caller's, by number.
pub data RoundTripper : Type 0 where
  standard : HttpTransport → RoundTripper
  custom : ℕ → RoundTripper

abbrev pub version_tls12 : ℕ
version_tls12 = 0x0303

-- A version that is set, and older than TLS 1.2.
unfoldable pub is_old : ℕ → Bool
is_old version = not (version == 0) && ltb version version_tls12

unfoldable pub unsafe_config : TlsConfig → Bool
unfolding is_old
unsafe_config c =
    c.insecure_skip_verify
    || c.verify_peer_certificate
    || c.verify_connection
    || c.time
    || c.get_certificate
    || c.get_client_certificate
    || c.get_config_for_client
    || c.client_session_cache
    || c.renegotiates
    || c.key_log_writer
    || c.rand
    || c.wrap_session
    || c.unwrap_session
    || c.encrypted_client_hello_rejection_verify
    || c.get_encrypted_client_hello_keys
    || is_old c.min_version
    || is_old c.max_version

unfoldable pub unsafe_config? : Option TlsConfig → Bool
unsafe_config? none = false
unsafe_config? (some c) = unsafe_config c

unfoldable pub unsafe_standard_transport : HttpTransport → Bool
unfolding unsafe_config?
unsafe_standard_transport t =
    if t.dial_tls || t.dial_tls_context || t.tls_next_proto
    then true
    else unsafe_config? t.tls_client_config

-- A pool that is there is replaced by a clone of the client's own.
unfoldable pub own_pool : Option CertPool → Option CertPool
own_pool none = none
own_pool (some pool) = some (record { roots = pool.roots; owner = Owner.client })

unfoldable pub own_config : Option TlsConfig → Option TlsConfig
unfolding own_pool
own_config none = none
own_config (some c) = some (record c { root_cas = own_pool c.root_cas })

abbrev pub standard_option : Option HttpTransport → Option RoundTripper
standard_option none = none
standard_option (some t) = some (RoundTripper.standard t)

abbrev pub empty_transport : HttpTransport
empty_transport = record {
  proxy = false;
  dial = false;
  dial_context = false;
  dial_tls = false;
  dial_tls_context = false;
  tls_next_proto = false;
  tls_client_config = none;
}

-- http.Transport's Clone is a parameter.
module _ (clone : HttpTransport → HttpTransport) where
  unfoldable pub owned_clone : HttpTransport → Bool → HttpTransport
  unfolding own_config
  owned_clone source implicit =
      let copy = clone source in
      record copy {
        proxy = false;
        tls_next_proto = if implicit then false else copy.tls_next_proto;
        tls_client_config = own_config copy.tls_client_config;
      }

  -- `none` is ErrUnsafeTransport.
  unfoldable pub owned_standard_transport : HttpTransport → Bool → Option HttpTransport
  unfolding owned_clone unsafe_standard_transport
  owned_standard_transport source implicit =
      if not implicit && unsafe_standard_transport source
      then none
      else if unsafe_standard_transport (owned_clone source implicit)
      then none
      else some (owned_clone source implicit)

  -- `default` is http.DefaultTransport; `base` the Transport of the caller's client, where both
  -- are given.
  unfoldable pub safe_transport : RoundTripper → Option RoundTripper → Option RoundTripper
  unfolding owned_standard_transport
  safe_transport (RoundTripper.standard t) none = standard_option (owned_standard_transport t true)
  safe_transport (RoundTripper.custom n) none = some (RoundTripper.standard empty_transport)
  safe_transport default (some (RoundTripper.standard t)) =
      standard_option (owned_standard_transport t false)
  safe_transport default (some (RoundTripper.custom n)) = some (RoundTripper.custom n)

-- The URL of a request, where it has one: its text, and its RequestURI.
unfoldable pub is_pinned : Option (Bytes × Bytes) → Bool
is_pinned none = false
is_pinned (some (url, request_uri)) =
    text_eq url (host_vts ++ request_uri) || text_eq url (host_live ++ request_uri)

-- `none` is ErrTransportPinned; `reply` is what the base transport gives.
unfoldable pub round_trip {ℓ} : {A : Type ℓ} → Option (Bytes × Bytes) → A → Option A
unfolding is_pinned
round_trip url reply = if not (is_pinned url) then none else some reply
