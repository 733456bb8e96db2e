-- ===== src/Kis/Supported.antt =====
-- The operations of packages domestic and overseas, and what each of them sends.
use go_kis.Prelude.{
  ℕ, ◌≡◌, ◌≢◌, ◌⊎◌, inl, inr, refl, ap, ◌∙◌, true, List, All, All-weaken, Option, none, some,
}
use go_kis.Text.{Bytes, codes, text_eq, elem}
use go_kis.Kis.Client.{
  Client, Transmission, token_request, Exchange, OAuthToken, TokenAnswer, send_read, read,
}
use go_kis.Kis.Client.Sent.{reading, send_read-All}
use go_kis.Kis.Reads.{supported, reads_of}
use go_kis.Kis.Domestic
use go_kis.Kis.Mode.{mock, live, transaction_id, transaction_id-cases}
use go_kis.Kis.Overseas
use go_kis.Kis.Response.{RestError, RestResult}

pub data Operation : Type 0 where
  domestic_balance : Domestic.BalanceRequest → Operation
  domestic_history : Domestic.OrderHistoryRequest → Operation
  overseas_balance : Overseas.BalanceRequest → Operation
  overseas_history : Overseas.OrderHistoryRequest → Operation

-- Where an operation goes: its path, and its transaction in either mode.
pub record Route : Type 0 where
  pub path : Bytes
  pub mock_id : Bytes
  pub live_id : Bytes

abbrev pub route_of : Operation → Route
route_of (Operation.domestic_balance r) = record {
  path = codes "/uapi/domestic-stock/v1/trading/inquire-balance";
  mock_id = codes "VTTC8434R";
  live_id = codes "TTTC8434R";
}
route_of (Operation.domestic_history r) = record {
  path = codes "/uapi/domestic-stock/v1/trading/inquire-daily-ccld";
  mock_id = codes "VTTC8001R";
  live_id = codes "TTTC8001R";
}
route_of (Operation.overseas_balance r) = record {
  path = codes "/uapi/overseas-stock/v1/trading/inquire-balance";
  mock_id = codes "VTTS3012R";
  live_id = codes "TTTS3012R";
}
route_of (Operation.overseas_history r) = record {
  path = codes "/uapi/overseas-stock/v1/trading/inquire-ccnl";
  mock_id = codes "VTTS3035R";
  live_id = codes "TTTS3035R";
}

-- The transaction of the route in this mode.
abbrev pub IsIdOf : Bytes → Route → Bytes → Type 0
IsIdOf mode route tr_id =
    ((mode ≡ mock) × (tr_id ≡ route.mock_id)) ⊎ ((mode ≡ live) × (tr_id ≡ route.live_id))

-- A request for a token, or the request of the route in this mode.
abbrev pub IsOwn : Bytes → Route → List (Bytes × Bytes) → Transmission → Type 0
IsOwn mode route query t =
    (t ≡ token_request)
    ⊎ ((tr_id : Bytes) × (bearer : Bytes) × IsIdOf mode route tr_id
        × (t ≡ reading route.path tr_id query bearer))

abbrev pub query_of : Operation → Bytes → List (Bytes × Bytes)
query_of (Operation.domestic_balance r) mode = Domestic.balance_query r
query_of (Operation.domestic_history r) mode = Domestic.history_query r
query_of (Operation.overseas_balance r) mode = Overseas.balance_query r
query_of (Operation.overseas_history r) mode = Overseas.history_query r mode

module _ (rt_cd_of : Bytes → Option Bytes) (string_of : Bytes → Option Bytes)
    (output_error : Bytes → Option ℕ) (token_error : Bytes → Option ℕ)
    (token_of : Bytes → OAuthToken) where
  abbrev pub operate : Client → Bytes → Operation → TokenAnswer → Exchange → Client × RestResult
  operate c mode (Operation.domestic_balance r) answer exchange =
      Domestic.balance rt_cd_of string_of output_error token_error token_of c mode r answer exchange
  operate c mode (Operation.domestic_history r) answer exchange =
      Domestic.order_history rt_cd_of string_of output_error token_error token_of c mode r answer
        exchange
  operate c mode (Operation.overseas_balance r) answer exchange =
      Overseas.balance rt_cd_of string_of output_error token_error token_of c mode r answer exchange
  operate c mode (Operation.overseas_history r) answer exchange =
      Overseas.order_history rt_cd_of string_of output_error token_error token_of c mode r answer
        exchange

  read-supported :
      (c : Client) (path tr_id : Bytes) (query : List (Bytes × Bytes)) (answer : TokenAnswer)
      (exchange : Exchange)
      → supported path tr_id ≡ true
      → read rt_cd_of string_of output_error token_error token_of c path tr_id query true answer
          exchange
        ≡ send_read rt_cd_of string_of output_error token_error token_of c path tr_id query true
            answer exchange
  unfolding read
  read-supported c path tr_id query answer exchange h = rw (h, read) refl

  -- The request goes out under the transaction of the mode, or the mode is refused and nothing
  -- changes.
  abbrev pub IsDispatched :
      Client
      → Bytes
      → Route
      → List (Bytes × Bytes)
      → TokenAnswer
      → Exchange
      → Client × RestResult
      → Type 0
  IsDispatched c mode route query answer exchange result =
      ((tr_id : Bytes) × IsIdOf mode route tr_id
        × (result
            ≡ send_read rt_cd_of string_of output_error token_error token_of c route.path tr_id
                query true answer exchange))
      ⊎ ((mode ≢ mock) × (mode ≢ live) × (result ≡ (c, RestResult.rejected RestError.invalid_mode)))

  -- What the four operations have in common.
  abbrev dispatch :
      Client
      → Bytes
      → List (Bytes × Bytes)
      → TokenAnswer
      → Exchange
      → Option Bytes
      → Client × RestResult
  dispatch c path query answer exchange none = (c, RestResult.rejected RestError.invalid_mode)
  dispatch c path query answer exchange (some tr_id) =
      read rt_cd_of string_of output_error token_error token_of c path tr_id query true answer
        exchange

  dispatch-IsDispatched :
      (c : Client) (mode : Bytes) (route : Route) (query : List (Bytes × Bytes))
      (answer : TokenAnswer) (exchange : Exchange)
      → supported route.path route.mock_id ≡ true
      → supported route.path route.live_id ≡ true
      → IsDispatched c mode route query answer exchange (
          dispatch c route.path query answer exchange
            (transaction_id mode route.mock_id route.live_id))
  dispatch-IsDispatched c mode route query answer exchange sm sl =
      elim (transaction_id-cases mode route.mock_id route.live_id) [
        | inl (e, m) ↦ inl (
          route.mock_id,
          inl (m, refl),
          ap (dispatch c route.path query answer exchange) e
              ∙ read-supported c route.path route.mock_id query answer exchange sm,
        )
        | inr (inl (e, m)) ↦ inl (
          route.live_id,
          inr (m, refl),
          ap (dispatch c route.path query answer exchange) e
              ∙ read-supported c route.path route.live_id query answer exchange sl,
        )
        | inr (inr (e, m, l)) ↦ inr (m, l, ap (dispatch c route.path query answer exchange) e)
      ]

  dispatches :
      (c : Client) (mode : Bytes) (op : Operation) (answer : TokenAnswer) (exchange : Exchange)
      → IsDispatched c mode
          (route_of op)
          (query_of op mode)
          answer
          exchange
          (operate c mode op answer exchange)
  unfolding Domestic.balance Domestic.order_history Overseas.balance Overseas.order_history
      supported reads_of text_eq elem
  dispatches c mode (Operation.domestic_balance r) answer exchange =
      dispatch-IsDispatched c mode (route_of (Operation.domestic_balance r))
        (query_of (Operation.domestic_balance r) mode) answer exchange refl refl
  dispatches c mode (Operation.domestic_history r) answer exchange =
      dispatch-IsDispatched c mode (route_of (Operation.domestic_history r))
        (query_of (Operation.domestic_history r) mode) answer exchange refl refl
  dispatches c mode (Operation.overseas_balance r) answer exchange =
      dispatch-IsDispatched c mode (route_of (Operation.overseas_balance r))
        (query_of (Operation.overseas_balance r) mode) answer exchange refl refl
  dispatches c mode (Operation.overseas_history r) answer exchange =
      dispatch-IsDispatched c mode (route_of (Operation.overseas_history r))
        (query_of (Operation.overseas_history r) mode) answer exchange refl refl

  -- What a dispatched request adds to the transmissions.
  dispatched-All :
      (Q : Transmission → Type 0) (c : Client) (mode : Bytes) (route : Route)
      (query : List (Bytes × Bytes)) (answer : TokenAnswer) (exchange : Exchange)
      {result : Client × RestResult}
      → All Q c.log
      → IsDispatched c mode route query answer exchange result
      → All (λ t. Q t ⊎ IsOwn mode route query t) result.0.log
  dispatched-All Q c mode route query answer exchange all (inl (tr_id, own, e)) = rw (e) (
      send_read-All (λ t. Q t ⊎ IsOwn mode route query t) (inr (inl refl)) rt_cd_of string_of
        output_error token_error token_of c
        (record {
          path = route.path;
          tr_id = tr_id;
          query = query;
          has_output = true;
          answer = answer;
          exchange = exchange;
        })
        (λ bearer. inr (inr (tr_id, bearer, own, refl))) (All-weaken Q _ c.log (λ t h. inl h) all))
  dispatched-All Q c mode route query answer exchange all (inr (m, l, e)) =
      rw (e) (All-weaken Q _ c.log (λ t h. inl h) all)

  -- In the modes mock and live every operation sends its request, with its query, to its path under
  -- its transaction in that mode; in any other mode it fails with ErrInvalidMode and nothing
  -- changes. All that it transmits in either mode, beyond what was before, is a request for a token
  -- and that request.
  pub operate-IsDispatched :
      (Q : Transmission → Type 0) (c : Client) (mode : Bytes) (op : Operation)
      (answer : TokenAnswer) (exchange : Exchange)
      → All Q c.log
      → IsDispatched c mode
          (route_of op)
          (query_of op mode)
          answer
          exchange
          (operate c mode op answer exchange)
        × All
            (λ t. Q t ⊎ IsOwn mode (route_of op) (query_of op mode) t)
            (operate c mode op answer exchange).0.log
  operate-IsDispatched Q c mode op answer exchange all =
      let sent = dispatches c mode op answer exchange in
      (sent, dispatched-All Q c mode (route_of op) (query_of op mode) answer exchange all sent)
