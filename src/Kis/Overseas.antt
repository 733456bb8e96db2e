-- ===== src/Kis/Overseas.antt =====
-- kis/overseas/overseas.go: the requests of overseas stocks. The decoding of a response is left to
-- encoding/json.
pub mod Query
use go_kis.Prelude.{ℕ, true, List, [], ◌∷◌, Option, none, some, if◌then◌else◌}
use go_kis.Text.{Bytes, codes, text_eq, is_empty}
use go_kis.Kis.Mode.{mock, transaction_id}
use go_kis.Kis.Response.{RestError, RestResult}
use go_kis.Kis.Client.{Client, Exchange, OAuthToken, TokenAnswer, read}

abbrev pub balance_path : Bytes
balance_path = codes "/uapi/overseas-stock/v1/trading/inquire-balance"

abbrev pub history_path : Bytes
history_path = codes "/uapi/overseas-stock/v1/trading/inquire-ccnl"

unfoldable pub value : Bytes → Bytes → Bytes
value given fallback = if is_empty given then fallback else given

pub record BalanceRequest : Type 0 where
  pub cano : Bytes
  pub acnt_prdt_cd : Bytes
  pub ovrs_excg_cd : Bytes
  pub tr_crcy_cd : Bytes
  pub ctx_area_fk200 : Bytes
  pub ctx_area_nk200 : Bytes

pub record OrderHistoryRequest : Type 0 where
  pub cano : Bytes
  pub acnt_prdt_cd : Bytes
  pub ovrs_excg_cd : Bytes
  pub sort_sqn : Bytes
  pub ord_strt_dt : Bytes
  pub ord_end_dt : Bytes
  pub sll_buy_dvsn : Bytes
  pub ccld_nccs_dvsn : Bytes
  pub pdno : Bytes
  pub ord_dt : Bytes
  pub ord_gno_brno : Bytes
  pub odno : Bytes
  pub ctx_area_fk200 : Bytes
  pub ctx_area_nk200 : Bytes

unfoldable pub balance_query : BalanceRequest → List (Bytes × Bytes)
unfolding value
balance_query r =
    (codes "CANO", r.cano)
    ∷ (codes "ACNT_PRDT_CD", r.acnt_prdt_cd)
    ∷ (codes "OVRS_EXCG_CD", value r.ovrs_excg_cd (codes "NASD"))
    ∷ (codes "TR_CRCY_CD", value r.tr_crcy_cd (codes "USD"))
    ∷ (codes "CTX_AREA_FK200", r.ctx_area_fk200)
    ∷ (codes "CTX_AREA_NK200", r.ctx_area_nk200)
    ∷ []

-- A map's assignment at a key.
unfoldable pub set : Bytes → Bytes → List (Bytes × Bytes) → List (Bytes × Bytes)
set key v [] = (key, v) ∷ []
set key v ((k, w) ∷ query) = if text_eq k key then (k, v) ∷ query else (k, w) ∷ set key v query

unfoldable pub live_query : OrderHistoryRequest → List (Bytes × Bytes)
unfolding value
live_query r =
    (codes "CANO", r.cano)
    ∷ (codes "ACNT_PRDT_CD", r.acnt_prdt_cd)
    ∷ (codes "OVRS_EXCG_CD", value r.ovrs_excg_cd (codes "NASD"))
    ∷ (codes "SORT_SQN", value r.sort_sqn (codes "DS"))
    ∷ (codes "ORD_STRT_DT", r.ord_strt_dt)
    ∷ (codes "ORD_END_DT", r.ord_end_dt)
    ∷ (codes "SLL_BUY_DVSN", r.sll_buy_dvsn)
    ∷ (codes "CCLD_NCCS_DVSN", r.ccld_nccs_dvsn)
    ∷ (codes "PDNO", r.pdno)
    ∷ (codes "ORD_DT", [])
    ∷ (codes "ORD_GNO_BRNO", r.ord_gno_brno)
    ∷ (codes "ODNO", r.odno)
    ∷ (codes "CTX_AREA_FK200", r.ctx_area_fk200)
    ∷ (codes "CTX_AREA_NK200", r.ctx_area_nk200)
    ∷ []

unfoldable pub mock_query : List (Bytes × Bytes) → List (Bytes × Bytes)
unfolding set
mock_query query = set (codes "SORT_SQN") (codes "DS") (
    set (codes "ODNO") [] (
      set (codes "CCLD_NCCS_DVSN") (codes "00") (
        set (codes "SLL_BUY_DVSN") (codes "00")
          (set (codes "OVRS_EXCG_CD") [] (set (codes "PDNO") [] query)))))

unfoldable pub history_query : OrderHistoryRequest → Bytes → List (Bytes × Bytes)
unfolding live_query mock_query
history_query r mode = if text_eq mode mock then mock_query (live_query r) else live_query r

-- encoding/json, as in read.
module _ (rt_cd_of : Bytes → Option Bytes) (string_of : Bytes → Option Bytes)
    (output_error : Bytes → Option ℕ) (token_error : Bytes → Option ℕ)
    (token_of : Bytes → OAuthToken) where
  unfoldable pub balance :
      Client → Bytes → BalanceRequest → TokenAnswer → Exchange → Client × RestResult
  balance c mode r answer exchange =
      elim (transaction_id mode (codes "VTTS3012R") (codes "TTTS3012R")) [
        | none ↦ (c, RestResult.rejected RestError.invalid_mode)
        | some tr_id ↦
            read rt_cd_of string_of output_error token_error token_of c balance_path tr_id
              (balance_query r) true answer exchange
      ]

  unfoldable pub order_history :
      Client → Bytes → OrderHistoryRequest → TokenAnswer → Exchange → Client × RestResult
  order_history c mode r answer exchange =
      elim (transaction_id mode (codes "VTTS3035R") (codes "TTTS3035R")) [
        | none ↦ (c, RestResult.rejected RestError.invalid_mode)
        | some tr_id ↦
            read rt_cd_of string_of output_error token_error token_of c history_path tr_id
              (history_query r mode) true answer exchange
      ]
