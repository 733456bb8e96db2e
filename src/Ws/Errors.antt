-- ===== src/Ws/Errors.antt =====
-- kis/ws/errors.go, and the verdicts of kis/ws/reader.go: the errors of the package, and how a
-- response envelope becomes one of them.
use go_kis.Prelude.{Bool, true, false, not, List, [], ◌∷◌, Option, none, some, if◌then◌else◌}
use go_kis.Text.{Bytes, codes, text_eq, elem}

abbrev pub msg_code_session_occupied : Bytes
msg_code_session_occupied = codes "OPSP8996"

abbrev pub msg_code_approval_rejected : Bytes
msg_code_approval_rejected = codes "OPSP0011"

abbrev pub reissuable_codes : List Bytes
reissuable_codes = msg_code_approval_rejected ∷ []

unfoldable pub reissuable : Bytes → Bool
reissuable msg_code = elem msg_code reissuable_codes

pub record SubscribeError : Type 0 where
  pub tr : Bytes
  pub rt_cd : Bytes
  pub msg_cd : Bytes
  pub msg1 : Bytes

-- The values of type error that the package makes or hands on. `external` is an error of a
-- Transport, a Dialer or a context, which wraps none of the others.
pub data WsError : Type 0 where
  session_occupied : WsError
  approval_rejection : Bytes → WsError
  subscribe_rejected : SubscribeError → WsError
  conn_closed : WsError
  approval_unavailable : WsError
  external : Bytes → WsError

-- errors.Is(err, ErrSessionOccupied).
unfoldable pub is_session_occupied : WsError → Bool
is_session_occupied WsError.session_occupied = true
is_session_occupied _ = false

-- errors.Is(err, ErrApprovalRejected), through approvalRejection.Unwrap.
unfoldable pub is_approval_rejected : WsError → Bool
is_approval_rejected (WsError.approval_rejection code) = true
is_approval_rejected _ = false

-- errors.As(err, &rejected) for a *SubscribeError.
unfoldable pub is_subscribe_error : WsError → Bool
is_subscribe_error (WsError.subscribe_rejected e) = true
is_subscribe_error _ = false

unfoldable pub rejection_code : WsError → Bytes
rejection_code (WsError.approval_rejection code) = code
rejection_code _ = []

-- `none` is the nil error.
unfoldable pub classify_ack : Bytes → Bytes → Bytes → Bytes → Option WsError
unfolding reissuable
classify_ack tr rt_cd msg_cd msg1 =
    if reissuable msg_cd
    then some (WsError.approval_rejection msg_cd)
    else if text_eq msg_cd msg_code_session_occupied
    then some WsError.session_occupied
    else if not (text_eq rt_cd (codes "0"))
    then some (
        WsError.subscribe_rejected
          (record { tr = tr; rt_cd = rt_cd; msg_cd = msg_cd; msg1 = msg1 }))
    else none
