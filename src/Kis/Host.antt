-- ===== src/Kis/Host.antt =====
-- kis/client.go: normalizeHost, the allowlist of REST hosts.
pub mod Allowed
use go_kis.Prelude.{Bool, true, false, not, ◌&&◌, ◌||◌, [], ◌∷◌, Option, none, some, if◌then◌else◌}
use go_kis.Text.{Bytes, codes, text_eq, is_empty, trim_space, contains_byte}

abbrev pub host_vts : Bytes
host_vts = codes "https://openapivts.koreainvestment.com:29443"

abbrev pub host_live : Bytes
host_live = codes "https://openapi.koreainvestment.com:9443"

abbrev pub vts_name : Bytes
vts_name = codes "openapivts.koreainvestment.com"

abbrev pub live_name : Bytes
live_name = codes "openapi.koreainvestment.com"

abbrev pub vts_port : Bytes
vts_port = codes "29443"

abbrev pub live_port : Bytes
live_port = codes "9443"

pub data HostError : Type 0 where
  host_required invalid_host not_https not_allowlisted : HostError

pub data HostResult : Type 0 where
  host : Bytes → HostResult
  refused : HostError → HostResult

-- What net/url makes of a text: the parts that are looked at, `hostname` and `port` being the
-- methods of these names.
pub record Url : Type 0 where
  pub has_user : Bool
  pub scheme : Bytes
  pub hostname : Bytes
  pub port : Bytes
  pub path : Bytes
  pub raw_query : Bytes
  pub fragment : Bytes

-- strings.ContainsAny with a set of ASCII characters.
unfoldable pub contains_any : Bytes → Bytes → Bool
contains_any s [] = false
contains_any s (c ∷ cs) = contains_byte c s || contains_any s cs

-- \r \n \t and the backslash.
abbrev pub control_bytes : Bytes
control_bytes = 13 ∷ 10 ∷ 9 ∷ 92 ∷ []

abbrev pub query_marks : Bytes
query_marks = codes "?#"

unfoldable pub is_bare : Url → Bool
is_bare u =
    not u.has_user
    && is_empty u.raw_query
    && is_empty u.fragment
    && (is_empty u.path || text_eq u.path (codes "/"))

-- The two pairs of a name and a port.
unfoldable pub is_allowlisted : Bytes → Bytes → Bool
is_allowlisted name port =
    (text_eq name vts_name && text_eq port vts_port)
    || (text_eq name live_name && text_eq port live_port)

-- net/url's Parse (`none` is an error) and the Unicode case mappings of package strings.
module _ (parse : Bytes → Option Url) (equal_fold : Bytes → Bytes → Bool)
    (to_lower : Bytes → Bytes) where
  unfoldable pub normalize_url : Option Url → HostResult
  unfolding is_bare is_allowlisted
  normalize_url none = HostResult.refused HostError.invalid_host
  normalize_url (some u) =
      if not (is_bare u)
      then HostResult.refused HostError.invalid_host
      else if not (equal_fold u.scheme (codes "https"))
      then HostResult.refused HostError.not_https
      else if not (is_allowlisted (to_lower u.hostname) u.port)
      then HostResult.refused HostError.not_allowlisted
      else if text_eq (to_lower u.hostname) vts_name
      then HostResult.host host_vts
      else HostResult.host host_live

  unfoldable pub normalize_host : Bytes → HostResult
  unfolding normalize_url
  normalize_host raw =
      if is_empty (trim_space raw)
        || not (text_eq (trim_space raw) raw)
        || contains_any raw control_bytes
      then HostResult.refused HostError.host_required
      else if contains_any raw query_marks
      then HostResult.refused HostError.invalid_host
      else normalize_url (parse raw)
