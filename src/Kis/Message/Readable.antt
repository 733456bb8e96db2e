-- ===== src/Kis/Message/Readable.antt =====
-- What a server can bring into the text of an error of a read.
use go_kis.Prelude.{
  subst, ℕ, ◌≡◌, refl, inl, inr, Bool, true, not, ◌&&◌, ◌||◌, List, Option, none, some, if-holds,
  Bool-cases, leb, ltb, Option-cases, length,
}
use go_kis.Text.{Bytes, is_empty, trim_space}
use go_kis.Kis.Client.{
  Client, Exchange, OAuthToken, TokenAnswer, Transmission, read, transmit, after_wait, token,
  with_token, send_read, new_request,
}
use go_kis.Kis.Limiter.{Waited, wait}
use go_kis.Kis.Create.{BuiltClient, ClientConfig, ClientResult, new_client}
use go_kis.Kis.Create.Ready.{new_client_iff}
use go_kis.Kis.Host.{Url}
use go_kis.Kis.Message.{error_message}
use go_kis.Kis.Reads.{supported}
use go_kis.Kis.Response.{
  response_limit, RestError, RestResult, Reply, classify_transport_failure, check_envelope,
  decode_output, limited, is_zero_code, upstream_rejected, after_envelope, check_body,
  check_response,
}
use go_kis.Kis.Transport.{HttpTransport, RoundTripper}
use go_kis.Kis.Message.Printable.{
  host-IsPrintable, transport_failure-IsReadable, decode_failed-IsReadable, api_error-IsReadable,
  category-IsPrintable, new_request-IsReadableError, supported-IsPrintable, IsReadableError,
  printable, HasReadableError, IsPrintable,
}

module _ (rt_cd_of : Bytes → Option Bytes) (string_of : Bytes → Option Bytes)
    (output_error : Bytes → Option ℕ) where
  decode_output-HasReadableError :
      (host raw : Bytes) (o : Option ℕ)
      → HasReadableError host (decode_output rt_cd_of string_of output_error raw o)
  unfolding decode_output
  decode_output-HasReadableError host raw none = tt
  decode_output-HasReadableError host raw (some offset) =
      decode_failed-IsReadable host (length raw) offset

  after_envelope-HasReadableError :
      (host : Bytes) (has_output : Bool) (raw : Bytes) (o : Option RestError)
      → IsReadableError host o
      → HasReadableError host (after_envelope rt_cd_of string_of output_error has_output raw o)
  unfolding after_envelope
  after_envelope-HasReadableError host has_output raw (some error) h = h
  after_envelope-HasReadableError host has_output raw none h =
      if-holds (HasReadableError host) (has_output && not (is_empty (trim_space raw))) _
        (RestResult.accepted raw) (decode_output-HasReadableError host raw (output_error raw)) tt

  check_envelope-IsReadableError :
      (host : Bytes) (status : ℕ) (o : Option Bytes)
      → IsReadableError host (check_envelope rt_cd_of string_of output_error status o)
  unfolding check_envelope printable
  check_envelope-IsReadableError host status none = api_error-IsReadable host status _ refl
  check_envelope-IsReadableError host status (some rt) =
      if-holds (IsReadableError host) (is_zero_code rt_cd_of string_of output_error (string_of rt))
        none _ tt (api_error-IsReadable host status upstream_rejected refl)

  check_body-HasReadableError :
      (host : Bytes) (envelope has_output : Bool) (status : ℕ) (body : Option Bytes)
      → HasReadableError host
          (check_body rt_cd_of string_of output_error envelope has_output status body)
  unfolding check_body error_message printable
  check_body-HasReadableError host envelope has_output status none = refl
  check_body-HasReadableError host envelope has_output status (some raw) =
      if-holds (HasReadableError host) (ltb response_limit (length raw)) _ _ refl (
        if-holds (HasReadableError host) (ltb status 200 || leb 300 status) _ _
          (api_error-IsReadable host status _ refl)
          (after_envelope-HasReadableError host has_output raw _ (
            if-holds (IsReadableError host) envelope _ none
              (check_envelope-IsReadableError host status (rt_cd_of raw)) tt)))

  check_response-HasReadableError :
      (host path : Bytes) (envelope has_output : Bool) (reply : Reply)
      → IsPrintable host
      → IsPrintable path
      → HasReadableError host
          (check_response rt_cd_of string_of output_error envelope has_output path reply)
  unfolding check_response error_message printable
  check_response-HasReadableError host path envelope has_output (Reply.failed f) h p =
      if-holds (HasReadableError host) f.redirect_blocked _ _ refl (
        transport_failure-IsReadable host (classify_transport_failure f) path h
          (category-IsPrintable f) p)
  check_response-HasReadableError host path envelope has_output (Reply.answered r) h p =
      if-holds (HasReadableError host) (leb 300 r.status && ltb r.status 400) _ _ refl (
        check_body-HasReadableError host envelope has_output r.status
          (limited rt_cd_of string_of output_error r.body))

module _ (rt_cd_of : Bytes → Option Bytes) (string_of : Bytes → Option Bytes)
    (output_error : Bytes → Option ℕ) (token_error : Bytes → Option ℕ)
    (token_of : Bytes → OAuthToken) where
  after_wait-HasReadableError :
      (host : Bytes) (c : Client) (t : Transmission) (result : RestResult) (w : Waited)
      → HasReadableError host result
      → HasReadableError host (after_wait c t result w).1
  unfolding after_wait error_message
  after_wait-HasReadableError host c t result Waited.cancelled h = tt
  after_wait-HasReadableError host c t result (Waited.passed at) h = h

  transmit-HasReadableError :
      (host : Bytes) (c : Client) (t : Transmission) (x : Exchange) (check : Reply → RestResult)
      → HasReadableError host (check x.reply)
      → HasReadableError host (transmit c t x check).1
  unfolding transmit
  transmit-HasReadableError host c t x check h =
      after_wait-HasReadableError host _ t (check x.reply) (wait c.limiter x.call).1 h

  with_token-HasReadableError :
      (host path tr_id : Bytes) (query : List (Bytes × Bytes)) (has_output : Bool) (x : Exchange)
      → IsPrintable host
      → IsPrintable path
      → (got : Client × Option Bytes)
      → HasReadableError host
          (with_token rt_cd_of string_of output_error token_error token_of path tr_id query
            has_output x got).1
  unfolding with_token error_message printable
  with_token-HasReadableError host path tr_id query has_output x h p (c, none) = refl
  with_token-HasReadableError host path tr_id query has_output x h p (c, some bearer) =
      transmit-HasReadableError host c _ x
        (check_response rt_cd_of string_of output_error true has_output path)
        (check_response-HasReadableError rt_cd_of string_of output_error host path true has_output
          x.reply h p)

  send_read-HasReadableError :
      (host : Bytes) (c : Client) (path tr_id : Bytes) (query : List (Bytes × Bytes))
      → (has_output : Bool) (answer : TokenAnswer) (x : Exchange) → IsPrintable host
      → IsPrintable path
      → HasReadableError host
          (send_read rt_cd_of string_of output_error token_error token_of c path tr_id query
            has_output answer x).1
  unfolding send_read
  send_read-HasReadableError host c path tr_id query has_output answer x h p =
      elim (Option-cases (new_request path x.built)) [
        | inl fine ↦
            rw (fine, send_read)
              (with_token-HasReadableError host path tr_id query has_output x h p
                (token rt_cd_of string_of output_error token_error token_of c answer))
        | inr (error, bad) ↦
            rw (bad, send_read)
              (subst (IsReadableError host) bad (new_request-IsReadableError host path x.built))
      ]

  -- Whatever the server, the network and the token provider answer, the text of an error that a
  -- read gives is one line of printable ASCII, unless net/http or the context words it. The host
  -- in it is that of a client that NewClient has built, its tokens and its limiter are in any
  -- state.
  pub read-HasReadableError :
      (parse : Bytes → Option Url) (equal_fold : Bytes → Bytes → Bool) (to_lower : Bytes → Bytes)
      → (clone : HttpTransport → HttpTransport) (default : RoundTripper) (cfg : ClientConfig)
      → {b : BuiltClient}
      → new_client parse equal_fold to_lower clone default cfg ≡ ClientResult.built b
      → (c : Client) (path tr_id : Bytes) (query : List (Bytes × Bytes)) (has_output : Bool)
      → (answer : TokenAnswer) (x : Exchange)
      → HasReadableError b.host
          (read rt_cd_of string_of output_error token_error token_of c path tr_id query has_output
            answer x).1
  unfolding read error_message printable
  read-HasReadableError parse equal_fold to_lower clone default cfg {b} built c path tr_id query
        has_output answer x =
      let w = (new_client_iff parse equal_fold to_lower clone default cfg b).0 built in
      elim (Bool-cases (supported path tr_id)) [
        | inl known ↦ rw (known) (
            send_read-HasReadableError b.host c path tr_id query has_output answer x
              (host-IsPrintable parse equal_fold to_lower w.host.url b.host w.host.allowed)
              (supported-IsPrintable path tr_id known))
        | inr unknown ↦ rw (unknown) refl
      ]
