-- ===== src/Kis/Client/Sent.antt =====
-- What holds of all that a client transmits.
use go_kis.Prelude.{
  ℕ, ◌≡◌, inl, inr, Bool, true, false, not, List, Option, none, some, All, Bool-cases, Option-cases,
}
use go_kis.Text.{Bytes}
use go_kis.Kis.Response.{check_response}
use go_kis.Kis.Client.Logs.{transmit-All, keep_token-log, if-Client}
use go_kis.Kis.Client.{
  Client, Transmission, Exchange, OAuthToken, TokenAnswer, method_get, new_request, token_request,
  issue_token, own_token, token, with_token, send_read, read, cached_token, usable, token_path,
}
use go_kis.Kis.Reads.{supported}

-- The arguments of a call of Read, with what it meets.
pub record ReadCall : Type 0 where
  pub path : Bytes
  pub tr_id : Bytes
  pub query : List (Bytes × Bytes)
  pub has_output : Bool
  pub answer : TokenAnswer
  pub exchange : Exchange

-- A request of Read.
abbrev pub reading : Bytes → Bytes → List (Bytes × Bytes) → Bytes → Transmission
reading path tr_id query bearer = record {
  method = method_get;
  path = path;
  tr_id = tr_id;
  query = query;
  bearer = some bearer;
  signed = true;
}

-- A predicate that holds of requests for a token.
module _ (P : Transmission → Type 0) (asked : P token_request) (rt_cd_of : Bytes → Option Bytes)
    (string_of : Bytes → Option Bytes) (output_error : Bytes → Option ℕ)
    (token_error : Bytes → Option ℕ) (token_of : Bytes → OAuthToken) where
  issue_token-All :
      (c : Client) (exchange : Exchange)
      → All P c.log
      → All P (issue_token rt_cd_of string_of output_error token_error token_of c exchange).0.log
  unfolding issue_token
  issue_token-All c exchange all =
      if-Client (λ c. All P c.log) (not exchange.built) (c, none) _ all
        (transmit-All P c token_request exchange
          (check_response rt_cd_of string_of token_error false true token_path) all asked)

  own_token-All :
      (c : Client) (answer : TokenAnswer) (cached : Option Bytes)
      → All P c.log
      → All P (own_token rt_cd_of string_of output_error token_error token_of c answer cached).0.log
  unfolding own_token
  own_token-All c answer (some key) all = all
  own_token-All c answer none all =
      rw
        (keep_token-log
          (issue_token rt_cd_of string_of output_error token_error token_of c answer.exchange).0 _
          answer.issued_at)
        (issue_token-All c answer.exchange all)

  token-All :
      (c : Client) (answer : TokenAnswer)
      → All P c.log
      → All P (token rt_cd_of string_of output_error token_error token_of c answer).0.log
  unfolding token
  token-All c answer all =
      if-Client (λ c. All P c.log) c.has_tokens (c, usable answer.provided) _ all
        (own_token-All c answer (cached_token c answer.now) all)

  with_token-All :
      (path tr_id : Bytes) (query : List (Bytes × Bytes)) (has_output : Bool) (exchange : Exchange)
      (got : Client × Option Bytes)
      → ((bearer : Bytes) → P (reading path tr_id query bearer))
      → All P got.0.log
      → All P
          (with_token rt_cd_of string_of output_error token_error token_of path tr_id query
            has_output exchange got).0.log
  unfolding with_token
  with_token-All path tr_id query has_output exchange (c, none) ok all = all
  with_token-All path tr_id query has_output exchange (c, some bearer) ok all =
      transmit-All P c (reading path tr_id query bearer) exchange
        (check_response rt_cd_of string_of output_error true has_output path) all (ok bearer)

  pub send_read-All :
      (c : Client) (r : ReadCall)
      → ((bearer : Bytes) → P (reading r.path r.tr_id r.query bearer))
      → All P c.log
      → All P
          (send_read rt_cd_of string_of output_error token_error token_of c r.path r.tr_id r.query
            r.has_output r.answer r.exchange).0.log
  unfolding send_read
  send_read-All c r known all = elim (Option-cases (new_request r.path r.exchange.built)) [
    | inl fine ↦
        rw (fine, send_read)
          (with_token-All r.path r.tr_id r.query r.has_output r.exchange _ known
            (token-All c r.answer all))
    | inr (error, bad) ↦ rw (bad, send_read) all
  ]

  pub read-All :
      (c : Client) (r : ReadCall)
      → (supported r.path r.tr_id ≡ true
          → (bearer : Bytes) → P (reading r.path r.tr_id r.query bearer))
      → All P c.log
      → All P
          (read rt_cd_of string_of output_error token_error token_of c r.path r.tr_id r.query
            r.has_output r.answer r.exchange).0.log
  unfolding read
  read-All c r ok all = elim (Bool-cases (supported r.path r.tr_id)) [
    | inl known ↦ rw (known, read) (send_read-All c r (ok known) all)
    | inr unknown ↦ rw (unknown, read) all
  ]
