-- ===== src/Kis/Subscribe.antt =====
-- kis/websocket.go: the subscribe request and the endpoint allowlist.
pub mod Allowed
pub mod Marshal
use go_kis.Prelude.{not, ◌&&◌, Option, none, some, if◌then◌else◌}
use go_kis.Text.{Bytes, codes, text_eq}

pub record SubscribeHeader : Type 0 where
  pub approval_key : Bytes
  pub cust_type : Bytes
  pub tr_type : Bytes
  pub content_type : Bytes

pub record SubscribeInput : Type 0 where
  pub tr_id : Bytes
  pub tr_key : Bytes

pub record SubscribeBody : Type 0 where
  pub input : SubscribeInput

pub record Subscribe : Type 0 where
  pub header : SubscribeHeader
  pub body : SubscribeBody

unfoldable pub new_subscribe : Bytes → Bytes → Bytes → Subscribe
new_subscribe approval_key tr_id tr_key = record {
  header = record {
    approval_key = approval_key;
    cust_type = codes "P";
    tr_type = codes "1";
    content_type = codes "utf-8";
  };
  body = record { input = record { tr_id = tr_id; tr_key = tr_key } };
}

abbrev pub endpoint_live : Bytes
endpoint_live = codes "ws://ops.koreainvestment.com:21000/tryitout"

abbrev pub endpoint_vts : Bytes
endpoint_vts = codes "ws://ops.koreainvestment.com:31000/tryitout"

-- `none` is the error that the endpoint is not allowlisted.
unfoldable pub validate_ws_url : Bytes → Option Bytes
validate_ws_url raw =
    if not (text_eq raw endpoint_vts) && not (text_eq raw endpoint_live) then none else some raw
