-- ===== src/Kis/Host/Allowed.antt =====
-- Which host texts are accepted, and what they become.
use go_kis.Prelude.{
  ◌≡◌, ◌≢◌, ◌↔◌, ◌⊎◌, inl, inr, Bool, true, false, [], Option, some, arith, Option-cases,
}
use go_kis.Text.{Bytes, codes, text_eq_iff, is_empty_iff, trim_space}
use go_kis.Kis.Host.{
  HostResult, Url, host_vts, host_live, vts_name, live_name, vts_port, live_port, contains_any,
  control_bytes, query_marks, is_bare, is_allowlisted, normalize_url, normalize_host,
}

-- Nothing but a scheme, a name, a port and perhaps a slash.
pub record IsBare (u : Url) : Type 0 where
  pub user : u.has_user ≡ false
  pub raw_query : u.raw_query ≡ []
  pub fragment : u.fragment ≡ []
  pub path : (u.path ≡ []) ⊎ (u.path ≡ codes "/")

is_bare_iff : (u : Url) → (is_bare u ≡ true) ↔ IsBare u
unfolding is_bare
is_bare_iff u = ground (
  arith,
  is_empty_iff u.raw_query,
  is_empty_iff u.fragment,
  is_empty_iff u.path,
  text_eq_iff u.path (codes "/"),
)

module _ (parse : Bytes → Option Url) (equal_fold : Bytes → Bytes → Bool)
    (to_lower : Bytes → Bytes) where
  -- What a URL is that stands for the host `h`.
  pub record IsRestUrl (u : Url) (h : Bytes) : Type 0 where
    pub bare : IsBare u
    pub https : equal_fold u.scheme (codes "https") ≡ true
    pub names :
        ((to_lower u.hostname ≡ vts_name) × (u.port ≡ vts_port) × (h ≡ host_vts))
        ⊎ ((to_lower u.hostname ≡ live_name) × (u.port ≡ live_port) × (h ≡ host_live))

  -- What a text is that stands for the host `h`.
  pub record IsRestHost (raw h : Bytes) : Type 0 where
    pub ne_nil : raw ≢ []
    pub trimmed : trim_space raw ≡ raw
    pub no_control : contains_any raw control_bytes ≡ false
    pub no_query : contains_any raw query_marks ≡ false
    pub url : Url
    pub parsed : parse raw ≡ some url
    pub allowed : IsRestUrl url h

  normalize_url-IsRestUrl :
      (u : Url) (h : Bytes)
      → normalize_url parse equal_fold to_lower (some u) ≡ HostResult.host h
      → IsRestUrl u h
  unfolding normalize_url is_allowlisted
  normalize_url-IsRestUrl u h e = record {
    bare = ground (arith, is_bare_iff u);
    https = ground arith;
    names = ground (
      arith,
      is_bare_iff u,
      text_eq_iff (to_lower u.hostname) vts_name,
      text_eq_iff (to_lower u.hostname) live_name,
      text_eq_iff u.port vts_port,
      text_eq_iff u.port live_port,
    );
  }

  IsRestUrl-normalize_url :
      (u : Url) (h : Bytes)
      → IsRestUrl u h
      → normalize_url parse equal_fold to_lower (some u) ≡ HostResult.host h
  unfolding normalize_url is_allowlisted
  IsRestUrl-normalize_url u h w = ground (
    arith,
    is_bare_iff u,
    w.bare,
    w.https,
    w.names,
    text_eq_iff (to_lower u.hostname) vts_name,
    text_eq_iff (to_lower u.hostname) live_name,
    text_eq_iff u.port vts_port,
    text_eq_iff u.port live_port,
  )

  normalize_host-IsRestHost :
      (raw h : Bytes)
      → normalize_host parse equal_fold to_lower raw ≡ HostResult.host h
      → IsRestHost raw h
  unfolding normalize_host
  normalize_host-IsRestHost raw h e = elim (Option-cases (parse raw)) [
    | inl bad ↦ absurd (ground arith)
    | inr (u, good) ↦ record {
      ne_nil =
          λ empty. ground (arith, is_empty_iff (trim_space raw), text_eq_iff (trim_space raw) raw);
      trimmed = ground (arith, text_eq_iff (trim_space raw) raw);
      no_control = ground arith;
      no_query = ground arith;
      url = u;
      parsed = good;
      allowed = normalize_url-IsRestUrl u h (ground arith);
    }
  ]

  IsRestHost-normalize_host :
      (raw h : Bytes)
      → IsRestHost raw h
      → normalize_host parse equal_fold to_lower raw ≡ HostResult.host h
  unfolding normalize_host
  IsRestHost-normalize_host raw h w = ground (
    arith,
    w.ne_nil,
    w.trimmed,
    w.no_control,
    w.no_query,
    w.parsed,
    is_empty_iff (trim_space raw),
    text_eq_iff (trim_space raw) raw,
    IsRestUrl-normalize_url w.url h w.allowed,
  )

  -- A host text is accepted exactly where it is not empty, has no white space around it, holds no
  -- control character, backslash, `?` or `#`, and parses as an https URL without user, query,
  -- fragment and path (a slash aside) whose name and port, the name in lower case, are one of the
  -- two allowed pairs. It becomes the canonical text of that pair.
  pub normalize_host_iff :
      (raw h : Bytes)
      → (normalize_host parse equal_fold to_lower raw ≡ HostResult.host h) ↔ IsRestHost raw h
  normalize_host_iff raw h = (normalize_host-IsRestHost raw h, IsRestHost-normalize_host raw h)
