-- ===== src/Kis/Create/Ready.antt =====
-- When a client is built, and what it is then.
use go_kis.Prelude.{
  ◌*◌, ◌≡◌, ◌≢◌, ◌↔◌, ◌⊎◌, refl, inl, inr, Bool, true, false, [], Option, some, arith, Option-cases,
  ◌∙◌, ap, sym,
}
use go_kis.Text.{Bytes, text_eq, is_empty_iff}
use go_kis.Kis.Client.{safe_header}
use go_kis.Kis.Host.{Url, HostError, HostResult, host_vts, host_live, normalize_host}
use go_kis.Kis.Host.Allowed.{IsRestHost, normalize_host_iff}
use go_kis.Kis.Transport.{HttpTransport, RoundTripper, safe_transport}
use go_kis.Kis.Create.{
  ClientConfig, BuiltClient, ClientResult, is_positive, timeout_of, base_of, millisecond,
  interval_of, fresh_client, missing_credentials, with_transport, with_host, new_client,
}

-- A credential that can stand in a header.
pub record IsCredential (text : Bytes) : Type 0 where
  pub ne_nil : text ≢ []
  pub one_line : safe_header text ≡ true

credentials_iff :
    (cfg : ClientConfig)
    → (missing_credentials cfg ≡ false) ↔ (IsCredential cfg.app_key × IsCredential cfg.app_secret)
unfolding missing_credentials
credentials_iff cfg = ground (arith, is_empty_iff cfg.app_key, is_empty_iff cfg.app_secret)

HostResult-cases :
    (r : HostResult)
    → ((h : Bytes) × (r ≡ HostResult.host h)) ⊎ ((e : HostError) × (r ≡ HostResult.refused e))
HostResult-cases (HostResult.host h) = inl (h, refl)
HostResult-cases (HostResult.refused e) = inr (e, refl)

pace_vts : interval_of host_vts ≡ 500 * millisecond
unfolding interval_of text_eq
pace_vts = refl

pace_live : interval_of host_live ≡ 50 * millisecond
unfolding interval_of text_eq
pace_live = refl

module _ (parse : Bytes → Option Url) (equal_fold : Bytes → Bytes → Bool) (to_lower : Bytes → Bytes)
    (clone : HttpTransport → HttpTransport) (default : RoundTripper) where
  -- What has to be given for the client `b` to be built.
  pub record IsReady (cfg : ClientConfig) (b : BuiltClient) : Type 0 where
    pub host : IsRestHost parse equal_fold to_lower cfg.host b.host
    pub app_key : IsCredential cfg.app_key
    pub app_secret : IsCredential cfg.app_secret
    pub positive : is_positive b.timeout ≡ true
    pub timeout : b.timeout ≡ timeout_of cfg.request_timeout cfg.http_client
    pub transport : safe_transport clone default (base_of cfg.http_client) ≡ some b.transport
    pub keeps_key : b.app_key ≡ cfg.app_key
    pub keeps_secret : b.app_secret ≡ cfg.app_secret
    pub fresh : b.client ≡ fresh_client b.host cfg.has_token_provider

  with_host-host :
      (cfg : ClientConfig) (h : Bytes) (b : BuiltClient)
      → with_host parse equal_fold to_lower clone default cfg (HostResult.host h)
        ≡ ClientResult.built b
      → b.host ≡ h
  unfolding with_host with_transport
  with_host-host cfg h b e =
      ground (arith, Option-cases (safe_transport clone default (base_of cfg.http_client)))

  with_host-IsReady :
      (cfg : ClientConfig) (h : Bytes) (b : BuiltClient)
      → with_host parse equal_fold to_lower clone default cfg (HostResult.host h)
        ≡ ClientResult.built b
      → IsRestHost parse equal_fold to_lower cfg.host h
      → IsReady cfg b
  unfolding with_host with_transport
  with_host-IsReady cfg h b e rest =
      elim (Option-cases (safe_transport clone default (base_of cfg.http_client))) [
        | inl bad ↦ absurd (ground arith)
        | inr (t, good) ↦ record {
          host = rw (with_host-host cfg h b e) rest;
          app_key = ground (arith, credentials_iff cfg);
          app_secret = ground (arith, credentials_iff cfg);
          positive = ground arith;
          timeout = ground arith;
          transport = ground arith;
          keeps_key = ground arith;
          keeps_secret = ground arith;
          fresh = ground arith;
        }
      ]

  new_client-IsReady :
      (cfg : ClientConfig) (b : BuiltClient)
      → new_client parse equal_fold to_lower clone default cfg ≡ ClientResult.built b
      → IsReady cfg b
  unfolding new_client with_host with_transport
  new_client-IsReady cfg b e =
      elim (HostResult-cases (normalize_host parse equal_fold to_lower cfg.host)) [
        | inl (h, good) ↦
            with_host-IsReady cfg h b
              (sym (ap (with_host parse equal_fold to_lower clone default cfg) good) ∙ e)
              ((normalize_host_iff parse equal_fold to_lower cfg.host h).0 good)
        | inr (failure, bad) ↦ absurd (ground arith)
      ]

  IsReady-new_client :
      (cfg : ClientConfig) (b : BuiltClient)
      → IsReady cfg b
      → new_client parse equal_fold to_lower clone default cfg ≡ ClientResult.built b
  unfolding new_client with_host with_transport
  IsReady-new_client cfg b w =
      let host = (normalize_host_iff parse equal_fold to_lower cfg.host b.host).1 w.host in
      rw (host, with_host)
        (ground (
          arith,
          host,
          credentials_iff cfg,
          w.app_key,
          w.app_secret,
          w.positive,
          w.timeout,
          w.transport,
          w.keeps_key,
          w.keeps_secret,
          w.fresh,
        ))

  pub new_client_iff :
      (cfg : ClientConfig) (b : BuiltClient)
      → (new_client parse equal_fold to_lower clone default cfg ≡ ClientResult.built b)
        ↔ IsReady cfg b
  new_client_iff cfg b = (new_client-IsReady cfg b, IsReady-new_client cfg b)

  -- A built client spaces its requests by the pace of its host, 500 ms for VTS and 50 ms for the
  -- live one, and there is no other host.
  pub new_client-pace :
      (cfg : ClientConfig) {b : BuiltClient}
      → new_client parse equal_fold to_lower clone default cfg ≡ ClientResult.built b
      → ((b.host ≡ host_vts) × (b.client.limiter.interval ≡ 500 * millisecond))
        ⊎ ((b.host ≡ host_live) × (b.client.limiter.interval ≡ 50 * millisecond))
  unfolding fresh_client interval_of
  new_client-pace cfg {b} e =
      let w = new_client-IsReady cfg b e in
      let interval : b.client.limiter.interval ≡ interval_of b.host =
        ap (λ c. c.limiter.interval) w.fresh in
      elim w.host.allowed.names [
        | inl (name, port, vts) ↦ inl (vts, interval ∙ ap interval_of vts ∙ pace_vts)
        | inr (name, port, live) ↦ inr (live, interval ∙ ap interval_of live ∙ pace_live)
      ]
