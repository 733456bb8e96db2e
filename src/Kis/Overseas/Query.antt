-- ===== src/Kis/Overseas/Query.antt =====
-- What the query of an order history depends on.
use go_kis.Prelude.{◌≡◌, refl}
use go_kis.Text.{text_eq}
use go_kis.Kis.Mode.{mock}
use go_kis.Kis.Overseas.{OrderHistoryRequest, set, live_query, mock_query, history_query}

-- Two requests for the same account, period, branch and page.
pub record IsSameInMock (r q : OrderHistoryRequest) : Type 0 where
  pub cano : r.cano ≡ q.cano
  pub acnt_prdt_cd : r.acnt_prdt_cd ≡ q.acnt_prdt_cd
  pub ord_strt_dt : r.ord_strt_dt ≡ q.ord_strt_dt
  pub ord_end_dt : r.ord_end_dt ≡ q.ord_end_dt
  pub ord_gno_brno : r.ord_gno_brno ≡ q.ord_gno_brno
  pub ctx_area_fk200 : r.ctx_area_fk200 ≡ q.ctx_area_fk200
  pub ctx_area_nk200 : r.ctx_area_nk200 ≡ q.ctx_area_nk200

-- In mock mode the query of an order history is a function of the account, the period, the branch
-- and the page: a filter by product, exchange, side, fill, order number or sort order is ignored,
-- as is the order date.
pub history_query-mock :
    (r q : OrderHistoryRequest) → IsSameInMock r q → history_query r mock ≡ history_query q mock
unfolding history_query mock_query live_query set text_eq
history_query-mock r q w =
    rw
      (
        w.cano, w.acnt_prdt_cd, w.ord_strt_dt, w.ord_end_dt, w.ord_gno_brno, w.ctx_area_fk200,
        w.ctx_area_nk200,
      )
      refl
