-- ===== src/Tests/Session.antt =====
-- The reader and whole histories of a connection at concrete inputs.
use go_kis.Prelude.{
  if◌then◌else◌, ◌+◌, ◌≤◌, ◌≡◌, refl, ◌⊎◌, false, List, [], ◌∷◌, ◌++◌, none, some, pos, All,
}
use go_kis.Text.{Bytes, codes, text_eq, is_empty}
use go_kis.Ws.Conn.Waiters.{IsFirstMatch}
use go_kis.Ws.Errors.{WsError}
use go_kis.Ws.Conn.{Writes, Outcome, close, verdict_of, matches, tr_type_subscribe}
use go_kis.Ws.Dial.{Dialed, Opened, opened, dial, new_conn}
use go_kis.Ws.Frame.{RealtimeFrame}
use go_kis.Ws.Reader.Ack.{verdict_for, fatal_by_code, apply_ack-delivers}
use go_kis.Ws.Reader.Publish.{IsPublished, IsDropped, publish_cases}
use go_kis.Ws.Reader.{apply_ack, publish}
use go_kis.Ws.Reconnect.Calm.{reissues, accepts}
use go_kis.Ws.Reconnect.Reissue.{reissues-le}
use go_kis.Ws.Reconnect.Recovery.{run-IsRecovered}
use go_kis.Ws.Reconnect.Tries.{
  IsRecovered, Try, without_key, without_socket, broken_then, tries_then,
}
use go_kis.Ws.Reconnect.Verdicts.{IsAck, occupied_stops, farewell, occupied_info}
use go_kis.Ws.Reconnect.{Session, Pc, Move, run}
use go_kis.Ws.System.Closing.{close_actions, after_close, perform-close_actions}
use go_kis.Ws.System.Invariant.{ConnInv, perform-dial-ConnInv}
use go_kis.Ws.System.{Action, start, perform}
use go_kis.Tests.Requests.{busy-WaitersInv}
use go_kis.Tests.Samples.{
  plain_block, sample_unmarshal, accepted_ack, occupied_ack, calm, busy, busy_session, notice,
  first_waiter, second_waiter, config, tr_notice,
}

first_match : IsFirstMatch tr_notice busy.pending first_waiter (second_waiter ∷ [])
unfolding matches text_eq is_empty
first_match = record {
  before = [];
  after = second_waiter ∷ [];
  splits = refl;
  skipped = tt;
  fits = refl;
  left = refl;
}

apply_ack-delivers_example :
    (verdict_of 0 (apply_ack busy accepted_ack).0.mailbox
      ≡ some (verdict_for first_waiter accepted_ack))
    × ((apply_ack busy accepted_ack).0.pending ≡ second_waiter ∷ [])
    × ((apply_ack busy accepted_ack).1 ≡ fatal_by_code (codes "OPSP0000"))
apply_ack-delivers_example = apply_ack-delivers busy accepted_ack busy-WaitersInv first_match

occupied-IsAck : IsAck sample_unmarshal (codes "{occupied}") occupied_ack
unfolding text_eq go_kis.Ws.Frame.parse_realtime go_kis.Text.has_prefix_byte
    go_kis.Text.trim_left_blank
occupied-IsAck = record { not_realtime = refl; decoded = refl; not_ping = refl }

abbrev after_occupied : Session
after_occupied =
    run plain_block sample_unmarshal busy_session
      (Move.receive calm (codes "{occupied}") ∷ Move.proceed 5 ∷ Move.proceed 6 ∷ Move.timer ∷ [])

occupied_stops_example :
    (after_occupied.pc ≡ Pc.stopped)
    × (after_occupied.conn.transport ≡ none)
    × (after_occupied.spawned ≡ [])
    × (after_occupied.conn.log ≡ busy.log ++ farewell busy 7 (occupied_info 0 6))
occupied_stops_example =
    occupied_stops plain_block sample_unmarshal busy_session 7 calm (codes "{occupied}") 5 6
      (Move.timer ∷ []) refl refl refl occupied-IsAck refl

-- The key is rejected, reissued, and rejected again on the new socket.
abbrev rejected_twice : List Move
rejected_twice =
    Move.receive calm (codes "{rejected}")
    ∷ Move.proceed 1
    ∷ Move.proceed 2
    ∷ Move.proceed 3
    ∷ Move.reissue_reply (some (codes "k2"))
    ∷ Move.timer
    ∷ Move.key_reply (some (codes "k2"))
    ∷ Move.dial_reply (some 8)
    ∷ Move.receive calm (codes "{rejected}")
    ∷ Move.proceed 4
    ∷ Move.proceed 5
    ∷ Move.proceed 6
    ∷ []

rejected_twice-quiet : All (λ m. accepts plain_block sample_unmarshal m ≡ false) rejected_twice
unfolding text_eq
rejected_twice-quiet = (
  refl,
  (refl, (refl, (refl, (refl, (refl, (refl, (refl, (refl, (refl, (refl, (refl, tt))))))))))),
)

reissues-le_example :
    reissues (run plain_block sample_unmarshal busy_session rejected_twice).conn.log
    ≤ reissues busy.log + 1
reissues-le_example =
    reissues-le plain_block sample_unmarshal busy_session rejected_twice tt rejected_twice-quiet

abbrev failed_tries : List Try
failed_tries = without_key 6 ∷ without_socket 7 (codes "k2") ∷ []

run-IsRecovered_example :
    IsRecovered busy_session
      (run plain_block sample_unmarshal busy_session
        (broken_then (codes "EOF") 5 (tries_then failed_tries (codes "k3") 9)))
      (codes "k3")
      9
      3
run-IsRecovered_example =
    run-IsRecovered plain_block sample_unmarshal busy_session (codes "EOF") 5 7 failed_tries
      (codes "k3") 9 refl refl refl (tt, ((λ e. cc), tt)) (λ e. cc)

abbrev price_frame : RealtimeFrame
price_frame = record {
  encrypted = false;
  tr = codes "H0STCNT0";
  count = pos 1;
  payload = codes "005930^70000";
}

publish_cases_example :
    IsPublished busy
      (publish plain_block busy calm price_frame (codes "raw"))
      price_frame
      (codes "raw")
      5
    ⊎ IsDropped busy (publish plain_block busy calm price_frame (codes "raw")) price_frame
publish_cases_example = publish_cases plain_block busy calm price_frame (codes "raw") refl

abbrev opening : Opened
opening = record { conn = new_conn config config.endpoint (codes "k") 7; buffer = 256 }

dial-opening : dial config (some (codes "k")) (Dialed.transport 7) ≡ opened opening
unfolding dial text_eq go_kis.Kis.Subscribe.validate_ws_url go_kis.Text.is_empty
dial-opening = refl

abbrev history : List Action
history =
    Action.begins tr_type_subscribe notice.tr notice.key
    ∷ Action.reader (Move.receive calm (codes "{accepted}"))
    ∷ Action.finishes tr_type_subscribe notice.tr notice.key first_waiter (Outcome.answered none)
    ∷ Action.reader (Move.read_error (codes "reset"))
    ∷ Action.reader (Move.proceed 9)
    ∷ Action.closing
    ∷ Action.ends_close none
    ∷ Action.reader (Move.proceed 9)
    ∷ []

perform-dial-ConnInv_example :
    ConnInv (perform plain_block sample_unmarshal (start opening.conn) history).conn
perform-dial-ConnInv_example =
    perform-dial-ConnInv plain_block sample_unmarshal config (some (codes "k")) (Dialed.transport 7)
      history dial-opening

-- The second write fails.
abbrev writes : Writes
writes s = if text_eq s.tr notice.tr then some (WsError.external (codes "broken pipe")) else none

perform-close_actions_example :
    (perform plain_block sample_unmarshal busy_session
        (close_actions busy writes ++ (Action.reader (Move.read_error (codes "closed")) ∷ []))
      ≡ perform plain_block sample_unmarshal
          (record busy_session { conn = after_close busy writes })
          (Action.reader (Move.read_error (codes "closed")) ∷ []))
    × (close busy writes ≡ after_close busy writes)
perform-close_actions_example =
    perform-close_actions plain_block sample_unmarshal busy_session writes
      (Action.reader (Move.read_error (codes "closed")) ∷ []) refl
