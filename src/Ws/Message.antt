-- ===== src/Ws/Message.antt =====
-- kis/ws/errors.go, kis/ws/reader.go and kis/ws/execution.go: the texts of the errors.
use go_kis.Prelude.{ℕ, [], ◌∷◌, ◌++◌}
use go_kis.Text.{Bytes, codes}
use go_kis.Text.Format.{decimal, sprint}
use go_kis.Ws.Errors.{SubscribeError, WsError}
use go_kis.Ws.Execution.{execution_field_count}

-- SubscribeError.Error.
unfoldable pub subscribe_error_text : SubscribeError → Bytes
unfolding sprint
subscribe_error_text e = sprint (
    codes "ws: subscribe rejected (tr="
    ∷ e.tr
    ∷ codes ", rt_cd="
    ∷ e.rt_cd
    ∷ codes ", msg_cd="
    ∷ e.msg_cd
    ∷ codes "): "
    ∷ e.msg1
    ∷ [])

-- approvalRejection.Error.
unfoldable pub approval_rejection_text : Bytes → Bytes
approval_rejection_text code = codes "ws: approval key rejected (msg_cd=" ++ code ++ codes ")"

-- executionFieldCountError.Error.
unfoldable pub field_count_text : ℕ → Bytes
unfolding sprint decimal
field_count_text n = sprint (
    codes "ws: execution record has "
    ∷ decimal n
    ∷ codes " fields, want "
    ∷ decimal execution_field_count
    ∷ [])

-- Error of each error; an external one words itself.
unfoldable pub ws_error_text : WsError → Bytes
unfolding subscribe_error_text approval_rejection_text
ws_error_text WsError.session_occupied = codes "ws: app key already holds a WebSocket session"
ws_error_text (WsError.approval_rejection code) = approval_rejection_text code
ws_error_text (WsError.subscribe_rejected e) = subscribe_error_text e
ws_error_text WsError.conn_closed = codes "ws: connection is closed"
ws_error_text WsError.approval_unavailable = codes "ws: approval key unavailable"
ws_error_text (WsError.external text) = text
