-- ===== src/Ws/Reader.antt =====
-- kis/ws/reader.go: what the reader does with a frame. encoding/json's decoding of a system
-- message (`unmarshal`) and the AES block function (`block`) are parameters.
pub mod Ack
pub mod Publish
pub mod Notice
pub mod Handle
pub mod Link
use go_kis.Prelude.{
  ℕ, ◌+◌, ◌⊎◌, inl, inr, Bool, ◌||◌, List, [], ◌∷◌, ◌++◌, Option, none, some, if◌then◌else◌, ℤ, pos,
}
use go_kis.Text.{Bytes, codes, text_eq, is_empty, trim_space}
use go_kis.Ws.Conn.{PendingAck, Conn, Event, Effect, logged, resolve, take_pending}
use go_kis.Ws.Crypto.{
  AesMaterial, CryptoError, bad_material, bad_cipher, short_payload, Decoded, ok, err, new_material,
  decrypt,
}
use go_kis.Ws.Errors.{WsError, is_session_occupied, is_approval_rejected, classify_ack}
use go_kis.Ws.Execution.{
  Execution, ExecutionResult, parsed, field_count_error, is_execution, parse_execution,
}
use go_kis.Ws.Frame.{RealtimeFrame, parse_realtime, split_fields, field}

pub record AckOutput : Type 0 where
  pub iv : Bytes
  pub key : Bytes

pub record AckBody : Type 0 where
  pub rt_cd : Bytes
  pub msg_cd : Bytes
  pub msg1 : Bytes
  pub output : AckOutput

pub record AckHeader : Type 0 where
  pub tr_id : Bytes

pub record AckMessage : Type 0 where
  pub header : AckHeader
  pub body : AckBody

abbrev pub tr_ping_pong : Bytes
tr_ping_pong = codes "PINGPONG"

-- The texts of the errors of crypto.go.
unfoldable pub error_text : CryptoError → Bytes
error_text bad_material = codes "ws: decryption material has an unusable length"
error_text bad_cipher = codes "ws: encrypted payload is not decryptable"
error_text short_payload = codes "ws: encrypted payload is truncated"

unfoldable pub count_drop : Conn → Bytes → Bytes → Conn
count_drop c tr reason = record c {
  stats = record {
    dropped_frames = c.stats.dropped_frames + 1;
    last_drop_tr = tr;
    last_drop_reason = reason;
  };
}

unfoldable pub lookup : Bytes → List (Bytes × AesMaterial) → Option AesMaterial
lookup tr [] = none
lookup tr ((k, m) ∷ rest) = if text_eq k tr then some m else lookup tr rest

unfoldable pub insert :
    Bytes → AesMaterial → List (Bytes × AesMaterial) → List (Bytes × AesMaterial)
insert tr m [] = (tr, m) ∷ []
insert tr m ((k, n) ∷ rest) = if text_eq k tr then (k, m) ∷ rest else (k, n) ∷ insert tr m rest

unfoldable pub material_for : Conn → Bytes → Option AesMaterial
material_for c tr = lookup tr c.material

unfoldable pub store_material : Conn → Bytes → Bytes → Bytes → Conn
unfolding count_drop
store_material c tr raw_key raw_iv =
    if is_empty tr || is_empty (trim_space raw_key) || is_empty (trim_space raw_iv)
    then c
    else elim (new_material raw_key raw_iv) [
      | err _ ↦ count_drop c tr (codes "unusable decryption material")
      | ok m ↦ record c { material = insert tr m c.material }
    ]

unfoldable pub clear_rejection : Conn → Conn
clear_rejection c = record c { reissued_for = [] }

-- The transaction that an ACK is for: its own, or that of the oldest request.
unfoldable pub ack_tr : Bytes → Option PendingAck → Bytes
ack_tr tr none = tr
ack_tr tr (some waiter) = if is_empty tr then waiter.tr else tr

unfoldable pub accept : Conn → Option WsError → Bytes → AckOutput → Conn
unfolding clear_rejection
accept c (some _) tr output = c
accept c none tr output = store_material (clear_rejection c) tr output.key output.iv

unfoldable pub resolve_waiter : Conn → Option PendingAck → Option WsError → Conn
resolve_waiter c none verdict = c
resolve_waiter c (some waiter) verdict = resolve c waiter verdict

-- Only a verdict on the whole session ends the read loop.
unfoldable pub fatal : Option WsError → Option WsError
fatal none = none
fatal (some verdict) =
    if is_session_occupied verdict || is_approval_rejected verdict then some verdict else none

unfoldable pub apply_ack : Conn → AckMessage → Conn × Option WsError
unfolding accept resolve_waiter fatal
apply_ack c message =
    let (waiter, taken) = take_pending c message.header.tr_id in
    let tr = ack_tr message.header.tr_id waiter in
    let body = message.body in
    let verdict = classify_ack tr body.rt_cd body.msg_cd body.msg1 in
    (resolve_waiter (accept taken verdict tr body.output) waiter verdict, fatal verdict)

-- What the surroundings do while one frame is handled: the time, the outcome of WriteControl, and
-- whether the event is taken by the consumer. It is not taken where `done` is closed instead.
pub record Surroundings : Type 0 where
  pub now : ℕ
  pub pong_failure : Option Bytes
  pub event_taken : Bool

unfoldable pub failure_of : Option Bytes → Option WsError
failure_of none = none
failure_of (some text) = some (WsError.external text)

unfoldable pub pong : Conn → Surroundings → Bytes → Conn × Option WsError
unfolding failure_of
pong c env raw = elim c.transport [
  | none ↦ (c, some WsError.conn_closed)
  | some t ↦ (logged c (Effect.ponged t raw env.pong_failure), failure_of env.pong_failure)
]

execution_of : ExecutionResult → Option Execution
execution_of (parsed e) = some e
execution_of (field_count_error n) = none

error_of : ExecutionResult → Option ℕ
error_of (parsed e) = none
error_of (field_count_error n) = some n

-- The event of a frame whose payload is decrypted.
unfoldable pub event_of : RealtimeFrame → Bytes → Bytes → ℕ → Event
unfolding execution_of error_of
event_of frame payload raw now =
    let fields = split_fields payload in
    record {
      tr = frame.tr;
      key = field fields (pos 0);
      fields = fields;
      execution = if is_execution frame.tr then execution_of (parse_execution fields) else none;
      execution_error = if is_execution frame.tr then error_of (parse_execution fields) else none;
      raw = raw;
      received_at = now;
    }

unfoldable pub send_event : Conn → Surroundings → Event → Conn
send_event c env event =
    if env.event_taken then record c { events = c.events ++ (event ∷ []) } else c

module _ (block : Bytes → Bytes → Bytes) where
  -- The payload in the clear, or the reason why the frame is dropped.
  unfoldable pub open_payload : Conn → RealtimeFrame → Bytes ⊎ Bytes
  open_payload c frame =
      if frame.encrypted
      then elim (material_for c frame.tr) [
        | none ↦ inr (codes "no decryption material")
        | some m ↦ elim (decrypt block m frame.payload) [
          | err e ↦ inr (error_text e)
          | ok plain ↦ inl plain
        ]
      ]
      else inl frame.payload

  unfoldable pub publish : Conn → Surroundings → RealtimeFrame → Bytes → Conn
  unfolding count_drop event_of send_event
  publish c env frame raw = elim (open_payload c frame) [
    | inr reason ↦ count_drop c frame.tr reason
    | inl payload ↦ send_event c env (event_of frame payload raw env.now)
  ]

  module _ (unmarshal : Bytes → Option AckMessage) where
    -- A system message, or a text that is none.
    unfoldable pub handle_system : Conn → Surroundings → Bytes → Conn × Option WsError
    unfolding count_drop pong apply_ack
    handle_system c env raw = elim (unmarshal raw) [
      | none ↦ (count_drop c [] (codes "unrecognised frame"), none)
      | some message ↦
          if text_eq message.header.tr_id tr_ping_pong then pong c env raw else apply_ack c message
    ]

    unfoldable pub handle : Conn → Surroundings → Bytes → Conn × Option WsError
    unfolding publish handle_system
    handle c env raw = elim (parse_realtime raw) [
      | some frame ↦ (publish c env frame raw, none)
      | none ↦ handle_system c env raw
    ]
