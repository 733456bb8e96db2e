-- ===== src/Tests/Streams.antt =====
-- Whole histories and the example program at concrete inputs.
use go_kis.Prelude.{
  ◌+◌, length, ◌≤◌, ◌≡◌, ◌⊎◌, refl, true, false, List, [], ◌∷◌, ◌++◌, some, if◌then◌else◌,
}
use go_kis.Text.{Bytes, codes, text_eq, is_empty}
use go_kis.Examples.Executions.{Setup, Prepared, prepare, setup_of}
use go_kis.Examples.Executions.Agreeing.{IsAgreeing, prepare-IsAgreeing}
use go_kis.Kis.Host.{host_vts}
use go_kis.Kis.Subscribe.{Subscribe, endpoint_vts}
use go_kis.Ws.Conn.{Effect, Outcome, PendingAck, logged, tr_type_subscribe}
use go_kis.Ws.Dial.{Dialed, Opened, dial, new_conn, opened}
use go_kis.Ws.Errors.{WsError}
use go_kis.Ws.Frame.{tr_execution_vts}
use go_kis.Ws.Reconnect.{Move, Pc, Session}
use go_kis.Ws.System.{act, begin_or_refuse, Action, perform, start}
use go_kis.Ws.System.Forgetting.{perform-forgets}
use go_kis.Ws.Conn.{has_subscription}
use go_kis.Ws.System.Delivery.{IsDelivered, messages, perform-IsDelivered}
use go_kis.Ws.System.Registration.{perform-replay-dial, registry, replay, view}
use go_kis.Ws.System.Stopping.{awaits, progress, progress-bound}
use go_kis.Ws.System.Tally.{taken, taken_by, realtimes, perform-tally}
use go_kis.Ws.System.Tally.Level.{tally}
use go_kis.Tests.Samples.{
  plain_block, sample_unmarshal, busy, busy_session, calm, config, tr_notice,
}

-- Two requests, of which the server refuses the second, a frame, a broken socket, and Close.
abbrev wait_price : PendingAck
wait_price = record { id = 1; tr = codes "H0STCNT0" }

abbrev refused_price : Outcome
refused_price = Outcome.answered (
    some (
      WsError.subscribe_rejected (record {
        tr = codes "H0STCNT0";
        rt_cd = codes "1";
        msg_cd = codes "OPSP0002";
        msg1 = [];
      })))

abbrev refused_history : List Action
refused_history =
    Action.begins tr_type_subscribe tr_notice (codes "id")
    ∷ Action.begins tr_type_subscribe (codes "H0STCNT0") (codes "005930")
    ∷ Action.reader (Move.receive calm (codes "0|H0STCNT0|1|005930|70000"))
    ∷ Action.finishes tr_type_subscribe (codes "H0STCNT0") (codes "005930") wait_price refused_price
    ∷ Action.reader (Move.read_error (codes "EOF"))
    ∷ []

abbrev fresh_opened : Opened
fresh_opened = record { conn = new_conn config endpoint_vts (codes "k") 7; buffer = 256 }

fresh-dialed : dial config (some (codes "k")) (Dialed.transport 7) ≡ opened fresh_opened
unfolding dial go_kis.Kis.Subscribe.validate_ws_url text_eq is_empty go_kis.Ws.Dial.buffer_size
fresh-dialed = refl

perform-replay-dial_example :
    view tr_notice
      (codes "id")
      (perform plain_block sample_unmarshal (start fresh_opened.conn) refused_history).conn
    ≡ replay tr_notice (codes "id") (registry false false) refused_history
perform-replay-dial_example =
    perform-replay-dial plain_block sample_unmarshal config (some (codes "k")) (Dialed.transport 7)
      refused_history tr_notice (codes "id") fresh-dialed

replay-refused :
    (replay tr_notice (codes "id") (registry false false) refused_history ≡ registry false true)
    × (replay (codes "H0STCNT0") (codes "005930") (registry false false) refused_history
        ≡ registry false false)
unfolding replay go_kis.Ws.System.Registration.effect text_eq go_kis.Ws.Errors.is_subscribe_error
replay-refused = (refl, refl)

-- A closed connection whose socket still has a message, and then breaks.
abbrev closed_session : Session
closed_session = record busy_session { conn = record busy { closed = true; done = true } }

abbrev last_moves : List Action
last_moves =
    Action.reader (Move.receive calm (codes "0|H0STCNT0|1|005930|70000"))
    ∷ Action.begins tr_type_subscribe tr_notice (codes "id")
    ∷ Action.reader (Move.read_error (codes "EOF"))
    ∷ Action.reader (Move.proceed 5)
    ∷ Action.reader (Move.proceed 6)
    ∷ []

progress-bound_example :
    (progress plain_block sample_unmarshal closed_session last_moves ≤ 5)
    × (((perform plain_block sample_unmarshal closed_session last_moves).pc ≡ Pc.stopped)
        ⊎ ((m : Move) × (awaits
                (perform plain_block sample_unmarshal closed_session last_moves)
                (perform plain_block sample_unmarshal closed_session last_moves).pc
                m
              ≡ true)))
progress-bound_example = progress-bound plain_block sample_unmarshal closed_session last_moves refl

perform-IsDelivered_example :
    IsDelivered busy
      (perform plain_block sample_unmarshal busy_session refused_history).conn
      (messages refused_history)
perform-IsDelivered_example =
    perform-IsDelivered plain_block sample_unmarshal busy_session refused_history

-- The price frame is the one text that the reader takes.
taken-refused :
    taken plain_block sample_unmarshal busy_session refused_history
    ≡ codes "0|H0STCNT0|1|005930|70000" ∷ []
unfolding taken taken_by act begin_or_refuse go_kis.Ws.Conn.begin text_eq
    go_kis.Ws.Conn.add_subscription go_kis.Ws.Conn.has_subscription
taken-refused = refl

perform-tally_example :
    (tally busy + realtimes (taken plain_block sample_unmarshal busy_session refused_history)
      ≤ tally (perform plain_block sample_unmarshal busy_session refused_history).conn)
    × (tally (perform plain_block sample_unmarshal busy_session refused_history).conn
        ≤ tally busy + length (taken plain_block sample_unmarshal busy_session refused_history))
perform-tally_example =
    perform-tally plain_block sample_unmarshal busy_session refused_history
      (refl, (refl, (refl, (refl, (refl, tt)))))

-- An environment where every variable but the mode is set.
abbrev sample_env : Bytes → Bytes
sample_env name = if text_eq name (codes "KIS_MODE") then [] else codes "x"

abbrev sample_setup : Setup
sample_setup =
    setup_of sample_env (record { host = host_vts; endpoint = endpoint_vts }) tr_execution_vts

sample-prepared : prepare sample_env ≡ Prepared.ready sample_setup
unfolding prepare text_eq is_empty go_kis.Kis.Mode.transaction_id
sample-prepared = refl

prepare-IsAgreeing_example : IsAgreeing sample_env (codes "k") 7 sample_setup
prepare-IsAgreeing_example = prepare-IsAgreeing sample_env (codes "k") 7 sample-prepared (λ e. cc)

-- While the price is restored the socket breaks; the reader goes on to a new one.
abbrev lost_price : Outcome
lost_price = Outcome.write_failed (WsError.external (codes "broken pipe"))

abbrev next_socket : List Action
next_socket =
    Action.reader (Move.read_error (codes "EOF"))
    ∷ Action.reader (Move.proceed 1)
    ∷ Action.reader (Move.proceed 2)
    ∷ Action.reader (Move.proceed 3)
    ∷ Action.reader Move.timer
    ∷ Action.reader (Move.key_reply (some (codes "k")))
    ∷ Action.reader (Move.dial_reply (some 9))
    ∷ []

perform-forgets_example :
    has_subscription
      (codes "H0STCNT0")
      (codes "005930")
      (perform plain_block sample_unmarshal (start fresh_opened.conn) (
        (Action.begins tr_type_subscribe (codes "H0STCNT0") (codes "005930") ∷ [])
        ++ (Action.finishes tr_type_subscribe
              (codes "H0STCNT0")
              (codes "005930")
              wait_price
              lost_price
            ∷ next_socket))).conn.subs
    ≡ false
perform-forgets_example =
    perform-forgets plain_block sample_unmarshal config (some (codes "k")) (Dialed.transport 7)
      (Action.begins tr_type_subscribe (codes "H0STCNT0") (codes "005930") ∷ []) next_socket
      (codes "H0STCNT0") (codes "005930") wait_price lost_price fresh-dialed refl
      (refl, (refl, (refl, (refl, (refl, (refl, (refl, tt)))))))
