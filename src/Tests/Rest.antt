-- ===== src/Tests/Rest.antt =====
-- The REST client, its limiter and the approval provider at concrete inputs.
use go_kis.Prelude.{
  ◌⊎◌, ◌^◌, ℕ, ◌+◌, ◌*◌, ◌≤◌, ◌<◌, ◌≡◌, ◌≢◌, ◌↔◌, refl, true, false, List, [], ◌∷◌, Option, none,
  some, arith, All, if◌then◌else◌,
}
use go_kis.Text.{Bytes, codes, text_eq}
use go_kis.Kis.Client.Lifetime.{cached_token-store_token}
use go_kis.Kis.Client.Sent.{ReadCall}
use go_kis.Kis.Client.ReadOnly.{IsReadOnly, read_all, read_all-IsReadOnly}
use go_kis.Kis.Client.Reuse.{IsLasting, Reuses, read_all-Reuses}
use go_kis.Kis.Client.{Client, Exchange, OAuthToken, TokenAnswer, cached_token, store_token, second}
use go_kis.Kis.Domestic
use go_kis.Kis.Limiter
use go_kis.Kis.Limiter.{Limiter, Waited, passes, wait, wait_until, pass, deadline_of}
use go_kis.Kis.Limiter.Spacing.{within, within-passes}
use go_kis.Kis.Mode.{mock}
use go_kis.Kis.Response.Accepted.{IsAccepted, check_response_iff}
use go_kis.Kis.Response.{Reply, RestResult, check_response}
use go_kis.Kis.Supported.{
  Operation, Route, IsOwn, IsDispatched, operate, route_of, query_of, operate-IsDispatched,
}
use go_kis.Ws.Approval
use go_kis.Ws.Approval.{ClientProvider, new_client_approval_provider, answer, serve}
use go_kis.Ws.Approval.Asking.{held, owed, reissues, failures, answer-held, serve-asked}

abbrev vts_limiter : Limiter
vts_limiter = record { interval = 500; next = 0 }

abbrev burst : List Limiter.Call
burst =
    record { now = 1000; ended = false }
    ∷ record { now = 1001; ended = false }
    ∷ record { now = 1002; ended = true }
    ∷ record { now = 1900; ended = false }
    ∷ []

within-passes_example : within 1000 (1000 + 2 * 500) (passes vts_limiter burst) ≤ 2
within-passes_example = within-passes vts_limiter burst 1000 2

passes-burst : passes vts_limiter burst ≡ 1000 ∷ 1500 ∷ 2500 ∷ []
unfolding passes wait wait_until pass deadline_of
passes-burst = refl

abbrev key_calls : List Approval.Call
key_calls =
    Approval.Call.approval_key_call (some (codes "K1"))
    ∷ Approval.Call.approval_key_call (some (codes "K2"))
    ∷ Approval.Call.reissue_call none
    ∷ Approval.Call.approval_key_call (some (codes "K3"))
    ∷ []

abbrev fresh_provider : ClientProvider
fresh_provider = new_client_approval_provider true

serve-asked_example :
    (serve fresh_provider key_calls).0.asked
    ≤ fresh_provider.asked
      + owed fresh_provider
      + reissues key_calls
      + failures (serve fresh_provider key_calls).1
serve-asked_example = serve-asked fresh_provider key_calls

answer-held_example :
    (answer fresh_provider (Approval.Call.reissue_call (some (codes "K1")))).1
    ≡ held (answer fresh_provider (Approval.Call.reissue_call (some (codes "K1")))).0
answer-held_example = answer-held fresh_provider (Approval.Call.reissue_call (some (codes "K1")))

-- Decoders that know the one body of these tests.
abbrev good_body : Bytes
good_body = codes "{\"rt_cd\":\"0\"}"

abbrev pub rt_cd_of : Bytes → Option Bytes
rt_cd_of raw = if text_eq raw good_body then some (codes "\"0\"") else none

abbrev pub string_of : Bytes → Option Bytes
string_of raw = if text_eq raw (codes "\"0\"") then some (codes "0") else none

abbrev pub no_error : Bytes → Option ℕ
no_error raw = none

abbrev day_token : OAuthToken
day_token = record { access_token = codes "T"; expires_in = 86400 }

abbrev pub token_of : Bytes → OAuthToken
token_of raw = day_token

abbrev good_reply : Reply
good_reply = Reply.answered (record { status = 200; body = some good_body })

check_response_iff_example :
    (check_response rt_cd_of string_of no_error true true (codes "/p") good_reply
      ≡ RestResult.accepted good_body)
    ↔ IsAccepted rt_cd_of string_of no_error true true good_reply good_body
check_response_iff_example =
    check_response_iff rt_cd_of string_of no_error true true (codes "/p") good_reply good_body

abbrev pub fresh_client : Client
fresh_client = record {
  has_tokens = false;
  limiter = vts_limiter;
  access_token = [];
  cached_until = 0;
  log = [];
}

cached_token-store_token_example :
    (cached_token (store_token fresh_client day_token 5) 1000 ≡ some (codes "T"))
    ↔ ((codes "T" ≡ codes "T") × (codes "T" ≢ []) × (1000 + 60 * second < 5 + 86400 * second))
cached_token-store_token_example =
    cached_token-store_token fresh_client day_token 5 1000 (codes "T") (omega arith)

abbrev pub exchange : Exchange
exchange = record { built = true; call = record { now = 10; ended = false }; reply = good_reply }

abbrev pub token_answer : TokenAnswer
token_answer = record { provided = none; now = 3; exchange = exchange; issued_at = 5 }

abbrev pub read_call : ReadCall
read_call = record {
  path = codes "/uapi/domestic-stock/v1/trading/inquire-balance";
  tr_id = codes "VTTC8434R";
  query = [];
  has_output = true;
  answer = token_answer;
  exchange = exchange;
}

read_all-IsReadOnly_example :
    All IsReadOnly
      (read_all rt_cd_of string_of no_error no_error token_of fresh_client
        (read_call ∷ record read_call { path = codes "/order" } ∷ [])).log
read_all-IsReadOnly_example =
    read_all-IsReadOnly rt_cd_of string_of no_error no_error token_of fresh_client
      (read_call ∷ record read_call { path = codes "/order" } ∷ []) tt

-- A day's token, issued five nanoseconds after the zero of the clock.
abbrev day_client : Client
day_client = record fresh_client {
  access_token = codes "T";
  cached_until = 5 + 2 ^ 63 + 86340 * second;
}

day-IsLasting : IsLasting day_client 3
day-IsLasting = record { own = refl; given = λ e. cc; lasts = omega arith }

read_all-Reuses_example :
    Reuses (codes "T") day_client (
      read_all rt_cd_of string_of no_error no_error token_of day_client
        (read_call ∷ read_call ∷ []))
read_all-Reuses_example =
    read_all-Reuses rt_cd_of string_of no_error no_error token_of day_client
      (read_call ∷ read_call ∷ []) (day-IsLasting, (day-IsLasting, tt))

abbrev balance_request : Domestic.BalanceRequest
balance_request = record {
  cano = codes "12345678";
  acnt_prdt_cd = codes "01";
  afhr_flpr_yn = [];
  ofl_yn = [];
  inqr_dvsn = [];
  unpr_dvsn = [];
  fund_sttl_icld_yn = [];
  fncg_amt_auto_rdpt_yn = [];
  prcs_dvsn = [];
  ctx_area_fk100 = [];
  ctx_area_nk100 = [];
}

-- The balance in the mode mock.
abbrev operated : Client × RestResult
operated =
    operate rt_cd_of string_of no_error no_error token_of fresh_client mock
      (Operation.domestic_balance balance_request) token_answer exchange

abbrev route : Route
route = route_of (Operation.domestic_balance balance_request)

abbrev query : List (Bytes × Bytes)
query = query_of (Operation.domestic_balance balance_request) mock

operate-IsDispatched_example :
    IsDispatched rt_cd_of string_of no_error no_error token_of fresh_client mock route query
      token_answer exchange operated
    × All (λ t. IsReadOnly t ⊎ IsOwn mock route query t) operated.0.log
operate-IsDispatched_example =
    operate-IsDispatched rt_cd_of string_of no_error no_error token_of IsReadOnly fresh_client mock
      (Operation.domestic_balance balance_request) token_answer exchange tt
