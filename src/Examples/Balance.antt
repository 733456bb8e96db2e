-- ===== src/Examples/Balance.antt =====
-- examples/balance/main.go: one reading of the balance of a mock account.
use go_kis.Prelude.{◌*◌, true, [], none, pos}
use go_kis.Text.{Bytes, codes}
use go_kis.Kis.Client.{second}
use go_kis.Kis.Create.{ClientConfig}
use go_kis.Kis.Domestic
use go_kis.Kis.Host.{host_vts}

unfoldable pub balance_config : (Bytes → Bytes) → ClientConfig
balance_config getenv = record {
  host = host_vts;
  app_key = getenv (codes "KIS_APP_KEY");
  app_secret = getenv (codes "KIS_APP_SECRET");
  http_client = none;
  request_timeout = pos (10 * second);
  has_token_provider = true;
}

-- The answer of the token provider.
unfoldable pub provided_token : (Bytes → Bytes) → Bytes
provided_token getenv = getenv (codes "KIS_ACCESS_TOKEN")

unfoldable pub balance_request : (Bytes → Bytes) → Domestic.BalanceRequest
balance_request getenv = record {
  cano = getenv (codes "KIS_CANO");
  acnt_prdt_cd = codes "01";
  afhr_flpr_yn = [];
  ofl_yn = [];
  inqr_dvsn = [];
  unpr_dvsn = [];
  fund_sttl_icld_yn = [];
  fncg_amt_auto_rdpt_yn = [];
  prcs_dvsn = [];
  ctx_area_fk100 = [];
  ctx_area_nk100 = [];
}
