-- ===== src/Kis/Client/Bearers.antt =====
-- The tokens that the client sends.
use go_kis.Prelude.{
  ◌≡◌, refl, inl, inr, true, false, not, List, [], ◌∷◌, Option, none, some, arith, if-holds, All,
  Bool, Option-cases,
}
use go_kis.Text.{Bytes}
use go_kis.Kis.Client.Logs.{transmit-All, transmit-access_token, keep_token-log, if-Client}
use go_kis.Kis.Client.Sent.{ReadCall}
use go_kis.Kis.Client.ReadOnly.{read_all}
use go_kis.Kis.Client.{
  Client, Transmission, Exchange, OAuthToken, TokenAnswer, safe_header, token_path, token_request,
  transmit, usable, cached_token, store_token, keep_token, issue_token, own_token, token,
  with_token, send_read, read, new_request,
}
use go_kis.Kis.Response.{RestResult, Reply, check_response}
use go_kis.Kis.Reads.{supported}

-- A token, where there is one, can stand in a header.
unfoldable pub bearer_safe : Option Bytes → Bool
unfolding safe_header
bearer_safe none = true
bearer_safe (some bearer) = safe_header bearer

pub record HasSafeTokens (c : Client) : Type 0 where
  pub cached : safe_header c.access_token ≡ true
  pub sent : All (λ t. bearer_safe t.bearer ≡ true) c.log

-- A client and a token that was found with it.
record HasSafe (r : Client × Option Bytes) : Type 0 where
  tokens : HasSafeTokens r.0
  found : bearer_safe r.1 ≡ true

transmit-HasSafeTokens :
    (c : Client) (t : Transmission) (exchange : Exchange) (check : Reply → RestResult)
    → HasSafeTokens c
    → bearer_safe t.bearer ≡ true
    → HasSafeTokens (transmit c t exchange check).0
transmit-HasSafeTokens c t exchange check w one = record {
  cached = rw (transmit-access_token c t exchange check) w.cached;
  sent = transmit-All (λ t. bearer_safe t.bearer ≡ true) c t exchange check w.sent one;
}

usable-safe : (given : Option Bytes) → bearer_safe (usable given) ≡ true
unfolding usable bearer_safe
usable-safe none = refl
usable-safe (some token) = ground arith

cached_token-safe :
    (c : Client) (now : Prim.Native.Nat.ℕ)
    → HasSafeTokens c
    → bearer_safe (cached_token c now) ≡ true
unfolding cached_token bearer_safe
cached_token-safe c now w = ground (arith, w.cached)

keep_token-HasSafe :
    (c : Client) (issued : Option OAuthToken) (at : Prim.Native.Nat.ℕ)
    → HasSafeTokens c
    → HasSafe (keep_token c issued at)
unfolding keep_token store_token bearer_safe
keep_token-HasSafe c none at w = record { tokens = w; found = refl }
keep_token-HasSafe c (some issued) at w = record {
  tokens = record {
    cached = ground (arith, w.cached);
    sent = rw (keep_token-log c (some issued) at) w.sent;
  };
  found = ground arith;
}

module _ (rt_cd_of : Bytes → Option Bytes) (string_of : Bytes → Option Bytes)
    (output_error : Bytes → Option Prim.Native.Nat.ℕ)
    (token_error : Bytes → Option Prim.Native.Nat.ℕ) (token_of : Bytes → OAuthToken) where
  issue_token-HasSafeTokens :
      (c : Client) (exchange : Exchange)
      → HasSafeTokens c
      → HasSafeTokens
          (issue_token rt_cd_of string_of output_error token_error token_of c exchange).0
  unfolding issue_token bearer_safe
  issue_token-HasSafeTokens c exchange w =
      if-Client HasSafeTokens (not exchange.built) (c, none) _ w
        (transmit-HasSafeTokens c token_request exchange
          (check_response rt_cd_of string_of token_error false true token_path) w refl)

  own_token-HasSafe :
      (c : Client) (answer : TokenAnswer) (cached : Option Bytes)
      → HasSafeTokens c
      → bearer_safe cached ≡ true
      → HasSafe (own_token rt_cd_of string_of output_error token_error token_of c answer cached)
  unfolding own_token
  own_token-HasSafe c answer (some key) w h = record { tokens = w; found = h }
  own_token-HasSafe c answer none w h =
      keep_token-HasSafe _ _ answer.issued_at (issue_token-HasSafeTokens c answer.exchange w)

  token-HasSafe :
      (c : Client) (answer : TokenAnswer)
      → HasSafeTokens c
      → HasSafe (token rt_cd_of string_of output_error token_error token_of c answer)
  unfolding token
  token-HasSafe c answer w =
      if-holds HasSafe c.has_tokens (c, usable answer.provided) _
        (record { tokens = w; found = usable-safe answer.provided })
        (own_token-HasSafe c answer (cached_token c answer.now) w
          (cached_token-safe c answer.now w))

  with_token-HasSafeTokens :
      (path tr_id : Bytes) (query : List (Bytes × Bytes)) (has_output : Bool) (exchange : Exchange)
      (got : Client × Option Bytes)
      → HasSafe got
      → HasSafeTokens
          (with_token rt_cd_of string_of output_error token_error token_of path tr_id query
            has_output exchange got).0
  unfolding with_token
  with_token-HasSafeTokens path tr_id query has_output exchange (c, none) w = w.tokens
  with_token-HasSafeTokens path tr_id query has_output exchange (c, some bearer) w =
      transmit-HasSafeTokens c _ exchange
        (check_response rt_cd_of string_of output_error true has_output path) w.tokens w.found

  send_read-HasSafeTokens :
      (c : Client) (r : ReadCall)
      → HasSafeTokens c
      → HasSafeTokens
          (send_read rt_cd_of string_of output_error token_error token_of c r.path r.tr_id r.query
            r.has_output r.answer r.exchange).0
  unfolding send_read
  send_read-HasSafeTokens c r w = elim (Option-cases (new_request r.path r.exchange.built)) [
    | inl fine ↦
        rw (fine, send_read)
          (with_token-HasSafeTokens r.path r.tr_id r.query r.has_output r.exchange _
            (token-HasSafe c r.answer w))
    | inr (error, bad) ↦ rw (bad, send_read) w
  ]

  read-HasSafeTokens :
      (c : Client) (r : ReadCall)
      → HasSafeTokens c
      → HasSafeTokens
          (read rt_cd_of string_of output_error token_error token_of c r.path r.tr_id r.query
            r.has_output r.answer r.exchange).0
  unfolding read
  read-HasSafeTokens c r w =
      if-Client HasSafeTokens (not (supported r.path r.tr_id)) _ _ w (send_read-HasSafeTokens c r w)

  pub read_all-HasSafeTokens :
      (c : Client) (calls : List ReadCall)
      → HasSafeTokens c
      → HasSafeTokens (read_all rt_cd_of string_of output_error token_error token_of c calls)
  read_all-HasSafeTokens c [] w = w
  read_all-HasSafeTokens c (r ∷ calls) w =
      read_all-HasSafeTokens
        (read rt_cd_of string_of output_error token_error token_of c r.path r.tr_id r.query
          r.has_output r.answer r.exchange).0
        calls (read-HasSafeTokens c r w)
