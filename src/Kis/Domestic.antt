-- ===== src/Kis/Domestic.antt =====
-- kis/domestic/domestic.go: the requests of domestic stocks. The decoding of a response is left to
-- encoding/json.
use go_kis.Prelude.{ℕ, true, List, [], ◌∷◌, Option, none, some, if◌then◌else◌}
use go_kis.Text.{Bytes, codes, is_empty}
use go_kis.Kis.Mode.{transaction_id}
use go_kis.Kis.Response.{RestError, RestResult}
use go_kis.Kis.Client.{Client, Exchange, OAuthToken, TokenAnswer, read}

abbrev pub balance_path : Bytes
balance_path = codes "/uapi/domestic-stock/v1/trading/inquire-balance"

abbrev pub history_path : Bytes
history_path = codes "/uapi/domestic-stock/v1/trading/inquire-daily-ccld"

unfoldable pub value : Bytes → Bytes → Bytes
value given fallback = if is_empty given then fallback else given

pub record BalanceRequest : Type 0 where
  pub cano : Bytes
  pub acnt_prdt_cd : Bytes
  pub afhr_flpr_yn : Bytes
  pub ofl_yn : Bytes
  pub inqr_dvsn : Bytes
  pub unpr_dvsn : Bytes
  pub fund_sttl_icld_yn : Bytes
  pub fncg_amt_auto_rdpt_yn : Bytes
  pub prcs_dvsn : Bytes
  pub ctx_area_fk100 : Bytes
  pub ctx_area_nk100 : Bytes

pub record OrderHistoryRequest : Type 0 where
  pub cano : Bytes
  pub acnt_prdt_cd : Bytes
  pub inqr_strt_dt : Bytes
  pub inqr_end_dt : Bytes
  pub sll_buy_dvsn_cd : Bytes
  pub inqr_dvsn : Bytes
  pub inqr_dvsn_3 : Bytes
  pub inqr_dvsn_1 : Bytes
  pub ctx_area_fk100 : Bytes
  pub ctx_area_nk100 : Bytes
  pub ord_gno_brno : Bytes
  pub odno : Bytes
  pub pdno : Bytes
  pub ccld_dvsn : Bytes
  pub excg_id_dvsn_cd : Bytes

unfoldable pub balance_query : BalanceRequest → List (Bytes × Bytes)
unfolding value
balance_query r =
    (codes "CANO", r.cano)
    ∷ (codes "ACNT_PRDT_CD", r.acnt_prdt_cd)
    ∷ (codes "AFHR_FLPR_YN", value r.afhr_flpr_yn (codes "N"))
    ∷ (codes "OFL_YN", r.ofl_yn)
    ∷ (codes "INQR_DVSN", value r.inqr_dvsn (codes "00"))
    ∷ (codes "UNPR_DVSN", value r.unpr_dvsn (codes "01"))
    ∷ (codes "FUND_STTL_ICLD_YN", value r.fund_sttl_icld_yn (codes "N"))
    ∷ (codes "FNCG_AMT_AUTO_RDPT_YN", value r.fncg_amt_auto_rdpt_yn (codes "N"))
    ∷ (codes "PRCS_DVSN", value r.prcs_dvsn (codes "01"))
    ∷ (codes "CTX_AREA_FK100", r.ctx_area_fk100)
    ∷ (codes "CTX_AREA_NK100", r.ctx_area_nk100)
    ∷ []

unfoldable pub history_query : OrderHistoryRequest → List (Bytes × Bytes)
unfolding value
history_query r =
    (codes "CANO", r.cano)
    ∷ (codes "ACNT_PRDT_CD", r.acnt_prdt_cd)
    ∷ (codes "INQR_STRT_DT", r.inqr_strt_dt)
    ∷ (codes "INQR_END_DT", r.inqr_end_dt)
    ∷ (codes "SLL_BUY_DVSN_CD", value r.sll_buy_dvsn_cd (codes "00"))
    ∷ (codes "INQR_DVSN", value r.inqr_dvsn (codes "00"))
    ∷ (codes "INQR_DVSN_3", value r.inqr_dvsn_3 (codes "00"))
    ∷ (codes "INQR_DVSN_1", r.inqr_dvsn_1)
    ∷ (codes "CTX_AREA_FK100", r.ctx_area_fk100)
    ∷ (codes "CTX_AREA_NK100", r.ctx_area_nk100)
    ∷ (codes "ORD_GNO_BRNO", r.ord_gno_brno)
    ∷ (codes "ODNO", r.odno)
    ∷ (codes "PDNO", r.pdno)
    ∷ (codes "CCLD_DVSN", value r.ccld_dvsn (codes "00"))
    ∷ (codes "EXCG_ID_DVSN_CD", value r.excg_id_dvsn_cd (codes "ALL"))
    ∷ []

-- encoding/json, as in read.
module _ (rt_cd_of : Bytes → Option Bytes) (string_of : Bytes → Option Bytes)
    (output_error : Bytes → Option ℕ) (token_error : Bytes → Option ℕ)
    (token_of : Bytes → OAuthToken) where
  unfoldable pub balance :
      Client → Bytes → BalanceRequest → TokenAnswer → Exchange → Client × RestResult
  balance c mode r answer exchange =
      elim (transaction_id mode (codes "VTTC8434R") (codes "TTTC8434R")) [
        | none ↦ (c, RestResult.rejected RestError.invalid_mode)
        | some tr_id ↦
            read rt_cd_of string_of output_error token_error token_of c balance_path tr_id
              (balance_query r) true answer exchange
      ]

  unfoldable pub order_history :
      Client → Bytes → OrderHistoryRequest → TokenAnswer → Exchange → Client × RestResult
  order_history c mode r answer exchange =
      elim (transaction_id mode (codes "VTTC8001R") (codes "TTTC8001R")) [
        | none ↦ (c, RestResult.rejected RestError.invalid_mode)
        | some tr_id ↦
            read rt_cd_of string_of output_error token_error token_of c history_path tr_id
              (history_query r) true answer exchange
      ]
