-- ===== src/Kis/Transport/Safe.antt =====
-- What holds of every transport that a client accepts.
use go_kis.Prelude.{ℕ, ◌≤◌, ◌≡◌, ◌⊎◌, refl, Bool, true, false, Option, none, some, arith}
use go_kis.Kis.Transport.{
  Owner, CertPool, TlsConfig, HttpTransport, RoundTripper, version_tls12, is_old, unsafe_config,
  unsafe_config?, unsafe_standard_transport, own_pool, own_config, owned_clone,
  owned_standard_transport, standard_option, empty_transport, safe_transport,
}

-- TLS as the standard library does it: the peer's certificate and name are verified by its own
-- rules, no version before 1.2 is asked for, nothing of the session leaks or is injected.
pub record IsPlainTls (c : TlsConfig) : Type 0 where
  pub verifies : c.insecure_skip_verify ≡ false
  pub peer : c.verify_peer_certificate ≡ false
  pub connection : c.verify_connection ≡ false
  pub time : c.time ≡ false
  pub certificate : c.get_certificate ≡ false
  pub client_certificate : c.get_client_certificate ≡ false
  pub config_for_client : c.get_config_for_client ≡ false
  pub session_cache : c.client_session_cache ≡ false
  pub renegotiates : c.renegotiates ≡ false
  pub key_log : c.key_log_writer ≡ false
  pub rand : c.rand ≡ false
  pub wrap : c.wrap_session ≡ false
  pub unwrap : c.unwrap_session ≡ false
  pub hello_rejection : c.encrypted_client_hello_rejection_verify ≡ false
  pub hello_keys : c.get_encrypted_client_hello_keys ≡ false
  pub min_version : (c.min_version ≡ 0) ⊎ (version_tls12 ≤ c.min_version)
  pub max_version : (c.max_version ≡ 0) ⊎ (version_tls12 ≤ c.max_version)

-- No certificates, or a pool that nobody else changes.
abbrev pub IsOwnPool : Option CertPool → Type 0
IsOwnPool none = Unit
IsOwnPool (some pool) = pool.owner ≡ Owner.client

abbrev pub IsPlainConfig : Option TlsConfig → Type 0
IsPlainConfig none = Unit
IsPlainConfig (some c) = IsPlainTls c × IsOwnPool c.root_cas

pub record IsSafeTransport (t : HttpTransport) : Type 0 where
  pub no_proxy : t.proxy ≡ false
  pub no_dial_tls : t.dial_tls ≡ false
  pub no_dial_tls_context : t.dial_tls_context ≡ false
  pub no_next_proto : t.tls_next_proto ≡ false
  pub config : IsPlainConfig t.tls_client_config

-- A standard transport is safe; one of the caller's is the one given.
abbrev pub IsSafe : Option RoundTripper → RoundTripper → Type 0
IsSafe base (RoundTripper.standard t) = IsSafeTransport t
IsSafe base (RoundTripper.custom n) = base ≡ some (RoundTripper.custom n)

safe_config-IsPlainTls : (c : TlsConfig) → unsafe_config c ≡ false → IsPlainTls c
unfolding unsafe_config is_old
safe_config-IsPlainTls c h = ground arith

own_pool-IsOwnPool : (pool : Option CertPool) → IsOwnPool (own_pool pool)
unfolding own_pool
own_pool-IsOwnPool none = tt
own_pool-IsOwnPool (some pool) = refl

own_config-IsPlainConfig :
    (c : Option TlsConfig) → unsafe_config? (own_config c) ≡ false → IsPlainConfig (own_config c)
unfolding own_config unsafe_config?
own_config-IsPlainConfig none h = tt
own_config-IsPlainConfig (some c) h = (
  safe_config-IsPlainTls (record c { root_cas = own_pool c.root_cas }) h,
  own_pool-IsOwnPool c.root_cas,
)

config_clean :
    (t : HttpTransport)
    → unsafe_standard_transport t ≡ false
    → unsafe_config? t.tls_client_config ≡ false
unfolding unsafe_standard_transport
config_clean t h = ground arith

empty-IsSafeTransport :
    (t : HttpTransport)
    → ◌≡◌ {A = Option HttpTransport} (some empty_transport) (some t)
    → IsSafeTransport t
empty-IsSafeTransport t e =
    let same : empty_transport ≡ t = cc in
    rw (← same) (record {
      no_proxy = refl;
      no_dial_tls = refl;
      no_dial_tls_context = refl;
      no_next_proto = refl;
      config = tt;
    })

module _ (clone : HttpTransport → HttpTransport) where
  owned-IsSafeTransport :
      (source : HttpTransport) (implicit : Bool) {t : HttpTransport}
      → owned_standard_transport clone source implicit ≡ some t
      → IsSafeTransport t
  unfolding owned_standard_transport owned_clone
  owned-IsSafeTransport source implicit {t} h =
      let clean : unsafe_standard_transport (owned_clone clone source implicit) ≡ false =
        ground arith in
      let same : owned_clone clone source implicit ≡ t = ground arith in
      rw (← same) (record {
        no_proxy = refl;
        no_dial_tls = ground arith;
        no_dial_tls_context = ground arith;
        no_next_proto = ground arith;
        config =
            own_config-IsPlainConfig (clone source).tls_client_config
              (config_clean (owned_clone clone source implicit) clean);
      })

  standard_option-IsSafe :
      (base : Option RoundTripper) (o : Option HttpTransport) {used : RoundTripper}
      → ((t : HttpTransport) → o ≡ some t → IsSafeTransport t)
      → standard_option o ≡ some used
      → IsSafe base used
  standard_option-IsSafe base none safe h = absurd (cc)
  standard_option-IsSafe base (some t) {used} safe h =
      let same : RoundTripper.standard t ≡ used = cc in rw (← same) (safe t refl)

  custom-IsSafe :
      (n : ℕ) {used : RoundTripper}
      → ◌≡◌ {A = Option RoundTripper} (some (RoundTripper.custom n)) (some used)
      → IsSafe (some (RoundTripper.custom n)) used
  custom-IsSafe n {used} e = let same : RoundTripper.custom n ≡ used = cc in rw (← same) refl

  -- Whatever transport a client is given, or finds as the default, the one it uses is safe: a
  -- standard one has no proxy, no hook for dialing TLS or for TLS protocols, plain TLS not older
  -- than 1.2 and its own pool of roots; a hook for dialing TCP may stay. A transport that is not standard is used as it is given, and only
  -- where one is given.
  pub safe_transport-IsSafe :
      (default : RoundTripper) (base : Option RoundTripper) {used : RoundTripper}
      → safe_transport clone default base ≡ some used
      → IsSafe base used
  unfolding safe_transport
  safe_transport-IsSafe (RoundTripper.standard t) none h =
      standard_option-IsSafe none (owned_standard_transport clone t true)
        (λ u e. owned-IsSafeTransport t true e) h
  safe_transport-IsSafe (RoundTripper.custom n) none h =
      standard_option-IsSafe none (some empty_transport) (λ u e. empty-IsSafeTransport u e) h
  safe_transport-IsSafe default (some (RoundTripper.standard t)) h =
      standard_option-IsSafe (some (RoundTripper.standard t))
        (owned_standard_transport clone t false) (λ u e. owned-IsSafeTransport t false e) h
  safe_transport-IsSafe default (some (RoundTripper.custom n)) h = custom-IsSafe n h
