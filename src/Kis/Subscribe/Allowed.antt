-- ===== src/Kis/Subscribe/Allowed.antt =====
-- Which WebSocket endpoints are allowed.
use go_kis.Prelude.{◌≡◌, ◌⊎◌, none, some, arith}
use go_kis.Text.{Bytes, text_eq_iff}
use go_kis.Kis.Subscribe.{validate_ws_url, endpoint_live, endpoint_vts}

pub validate_ws_url-cases :
    (raw : Bytes)
    → (validate_ws_url raw ≡ none)
      ⊎ ((validate_ws_url raw ≡ some raw) × ((raw ≡ endpoint_vts) ⊎ (raw ≡ endpoint_live)))
unfolding validate_ws_url
validate_ws_url-cases raw =
    ground (arith, text_eq_iff raw endpoint_vts, text_eq_iff raw endpoint_live)

pub validate_ws_url_allowed :
    (raw : Bytes) → (raw ≡ endpoint_vts) ⊎ (raw ≡ endpoint_live) → validate_ws_url raw ≡ some raw
unfolding validate_ws_url
validate_ws_url_allowed raw h =
    ground (arith, text_eq_iff raw endpoint_vts, text_eq_iff raw endpoint_live)
