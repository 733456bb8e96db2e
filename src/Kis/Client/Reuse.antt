-- ===== src/Kis/Client/Reuse.antt =====
-- How long a token is used.
use go_kis.Prelude.{
  ℕ, ◌+◌, ◌<◌, ◌^◌, ◌≡◌, ◌≢◌, refl, sym, subst, ap, ◌∙◌, inl, inr, true, false, List, [], ◌∷◌, ◌++◌,
  Option, some, arith, append-nil, append_assoc, if-false, All, All-append, Bool-cases,
  Option-cases,
}
use go_kis.Text.{Bytes, is_empty_iff}
use go_kis.Kis.Client.Sent.{ReadCall}
use go_kis.Kis.Client.ReadOnly.{read_all}
use go_kis.Kis.Client.{
  Client, Transmission, Exchange, OAuthToken, TokenAnswer, after_wait, transmit, cached_token,
  own_token, token, with_token, send_read, read, new_request,
}
use go_kis.Kis.Limiter.{Waited}
use go_kis.Kis.Reads.{supported}
use go_kis.Kis.Response.{RestResult, Reply, check_response}

-- `d` is `c` after some requests that carry `key`.
pub record Reuses (key : Bytes) (c d : Client) : Type 0 where
  pub new : List Transmission
  pub log : d.log ≡ c.log ++ new
  pub sent : All (λ t. t.bearer ≡ some key) new
  pub has_tokens : d.has_tokens ≡ c.has_tokens
  pub access_token : d.access_token ≡ c.access_token
  pub cached_until : d.cached_until ≡ c.cached_until

Reuses-refl : (key : Bytes) (c : Client) → Reuses key c c
Reuses-refl key c = record {
  new = [];
  log = sym (append-nil c.log);
  sent = tt;
  has_tokens = refl;
  access_token = refl;
  cached_until = refl;
}

Reuses-trans : {key : Bytes} {c d e : Client} → Reuses key c d → Reuses key d e → Reuses key c e
Reuses-trans {key} {c} {d} {e} p q = record {
  new = p.new ++ q.new;
  log = q.log ∙ ap (λ l. l ++ q.new) p.log ∙ append_assoc c.log p.new q.new;
  sent = All-append (λ t. t.bearer ≡ some key) p.new q.new p.sent q.sent;
  has_tokens = q.has_tokens ∙ p.has_tokens;
  access_token = q.access_token ∙ p.access_token;
  cached_until = q.cached_until ∙ p.cached_until;
}

after_wait-Reuses :
    (key : Bytes) (c : Client) (t : Transmission) (result : RestResult) (waited : Waited)
    → t.bearer ≡ some key
    → Reuses key c (after_wait c t result waited).0
unfolding after_wait
after_wait-Reuses key c t result Waited.cancelled carries = Reuses-refl key c
after_wait-Reuses key c t result (Waited.passed at) carries = record {
  new = t ∷ [];
  log = refl;
  sent = (carries, tt);
  has_tokens = refl;
  access_token = refl;
  cached_until = refl;
}

transmit-Reuses :
    (key : Bytes) (c : Client) (t : Transmission) (exchange : Exchange) (check : Reply → RestResult)
    → t.bearer ≡ some key
    → Reuses key c (transmit c t exchange check).0
unfolding transmit
transmit-Reuses key c t exchange check carries =
    let w = after_wait-Reuses key _ t (check exchange.reply) _ carries in
    record {
      new = w.new;
      log = w.log;
      sent = w.sent;
      has_tokens = w.has_tokens;
      access_token = w.access_token;
      cached_until = w.cached_until;
    }

-- The cache of `c` has a token that lasts beyond `now`.
pub record IsLasting (c : Client) (now : ℕ) : Type 0 where
  pub own : c.has_tokens ≡ false
  pub given : c.access_token ≢ []
  pub lasts : now + 2 ^ 63 < c.cached_until

cached_token-IsLasting :
    (c : Client) (now : ℕ) → IsLasting c now → cached_token c now ≡ some c.access_token
unfolding cached_token
cached_token-IsLasting c now w = ground (arith, is_empty_iff c.access_token, w.given, w.lasts)

module _ (rt_cd_of : Bytes → Option Bytes) (string_of : Bytes → Option Bytes)
    (output_error : Bytes → Option ℕ) (token_error : Bytes → Option ℕ)
    (token_of : Bytes → OAuthToken) where
  token-IsLasting :
      (c : Client) (answer : TokenAnswer)
      → IsLasting c answer.now
      → token rt_cd_of string_of output_error token_error token_of c answer
        ≡ (c, some c.access_token)
  unfolding token own_token
  token-IsLasting c answer w =
      if-false c.has_tokens _ _ w.own
      ∙ ap (own_token rt_cd_of string_of output_error token_error token_of c answer)
          (cached_token-IsLasting c answer.now w)

  send_read-Reuses :
      (c : Client) (r : ReadCall)
      → IsLasting c r.answer.now
      → Reuses c.access_token c
          (send_read rt_cd_of string_of output_error token_error token_of c r.path r.tr_id r.query
            r.has_output r.answer r.exchange).0
  unfolding send_read with_token
  send_read-Reuses c r w = elim (Option-cases (new_request r.path r.exchange.built)) [
    | inl fine ↦
        rw (fine, send_read, token-IsLasting c r.answer w)
          (transmit-Reuses c.access_token c _ r.exchange
            (check_response rt_cd_of string_of output_error true r.has_output r.path) refl)
    | inr (error, bad) ↦ rw (bad, send_read) (Reuses-refl c.access_token c)
  ]

  read-Reuses :
      (c : Client) (r : ReadCall)
      → IsLasting c r.answer.now
      → Reuses c.access_token c
          (read rt_cd_of string_of output_error token_error token_of c r.path r.tr_id r.query
            r.has_output r.answer r.exchange).0
  unfolding read
  read-Reuses c r w = elim (Bool-cases (supported r.path r.tr_id)) [
    | inl known ↦ rw (known, read) (send_read-Reuses c r w)
    | inr unknown ↦ rw (unknown, read) (Reuses-refl c.access_token c)
  ]

  Reuses-IsLasting :
      (c d : Client) (calls : List ReadCall)
      → Reuses c.access_token c d
      → All (λ r. IsLasting c r.answer.now) calls
      → All (λ r. IsLasting d r.answer.now) calls
  Reuses-IsLasting c d [] w all = tt
  Reuses-IsLasting c d (r ∷ calls) w (here, all) = (
    record {
      own = w.has_tokens ∙ here.own;
      given = rw w.access_token here.given;
      lasts = rw w.cached_until here.lasts;
    },
    Reuses-IsLasting c d calls w all,
  )

  -- While the token of a client that has no provider lasts beyond each reading of the clock, the
  -- client asks for no other one: whatever is read, all requests that it sends carry that token,
  -- and it is still the cached one afterwards, with the same end.
  pub read_all-Reuses :
      (c : Client) (calls : List ReadCall)
      → All (λ r. IsLasting c r.answer.now) calls
      → Reuses c.access_token c
          (read_all rt_cd_of string_of output_error token_error token_of c calls)
  read_all-Reuses c [] all = Reuses-refl c.access_token c
  read_all-Reuses c (r ∷ calls) (here, all) =
      let d =
        (read rt_cd_of string_of output_error token_error token_of c r.path r.tr_id r.query
          r.has_output r.answer r.exchange).0 in
      let first = read-Reuses c r here in
      Reuses-trans first (
        subst
          (λ key.
            Reuses key d (read_all rt_cd_of string_of output_error token_error token_of d calls))
          first.access_token (read_all-Reuses d calls (Reuses-IsLasting c d calls first all)))
