-- ===== src/Kis/ApprovalKey.antt =====
-- kis/auth.go: IssueApprovalKey.
use go_kis.Prelude.{ℕ, true, false, not, [], Option, none, some, if◌then◌else◌}
use go_kis.Text.{Bytes, codes, is_empty}
use go_kis.Kis.Client.{Client, Exchange, Transmission, method_post, transmit}
use go_kis.Kis.Response.{RestResult, check_response}

abbrev pub approval_path : Bytes
approval_path = codes "/oauth2/Approval"

abbrev pub approval_request : Transmission
approval_request = record {
  method = method_post;
  path = approval_path;
  tr_id = [];
  query = [];
  bearer = none;
  signed = false;
}

-- encoding/json as in check_response; `key_of` gives the member approval_key.
module _ (rt_cd_of : Bytes → Option Bytes) (string_of : Bytes → Option Bytes)
    (key_error : Bytes → Option ℕ) (key_of : Bytes → Bytes) where
  unfoldable pub issued_key : RestResult → Option Bytes
  issued_key (RestResult.rejected error) = none
  issued_key (RestResult.accepted raw) = if is_empty (key_of raw) then none else some (key_of raw)

  -- `none` is an error.
  unfoldable pub issue_approval_key : Client → Exchange → Client × Option Bytes
  unfolding issued_key
  issue_approval_key c exchange =
      if not exchange.built
      then (c, none)
      else (let (after, result) =
            transmit c approval_request exchange
              (check_response rt_cd_of string_of key_error false true approval_path) in
          (after, issued_key result))
