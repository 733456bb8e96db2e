-- ===== src/Tests/Requests.antt =====
-- Requests, waiters, Close and Dial at concrete inputs.
use go_kis.Prelude.{
  ◌≡◌, refl, sym, append-nil, inr, false, [], ◌∷◌, ◌++◌, none, some, arith, if◌then◌else◌, All,
}
use go_kis.Text.{codes}
use go_kis.Ws.Conn.Waiters.{WaitersInv, fail_pending-delivers}
use go_kis.Ws.Conn.{
  Effect, Outcome, Answer, request, fail_pending, verdict_of, has_subscription, tr_type_subscribe,
}
use go_kis.Ws.Dial.{Opened, new_conn}
use go_kis.Ws.Errors.{WsError}
use go_kis.Ws.Reconnect.Resubscribe.{resubscribe}
use go_kis.Ws.Reconnect.Resubscribe.Order.{frames, resubscribe-log}
use go_kis.Ws.Reconnect.Resubscribe.Steady.{IsSmooth}
use go_kis.Ws.Reconnect.Resubscribe.Restoring.{request-forgets}
use go_kis.Tests.Samples.{busy, notice, config}

pub busy-WaitersInv : WaitersInv busy
unfolding verdict_of
busy-WaitersInv = record {
  ascending = omega arith;
  quiet = (refl, (refl, tt));
  unused = λ j h. refl;
}

fail_pending-delivers_example :
    ((fail_pending busy WsError.conn_closed).pending ≡ [])
    × All
        (λ w.
          verdict_of w.id (fail_pending busy WsError.conn_closed).mailbox
          ≡ some (some WsError.conn_closed))
        busy.pending
fail_pending-delivers_example = fail_pending-delivers busy WsError.conn_closed busy-WaitersInv

-- The socket breaks while the subscription of the notices is restored.
abbrev broken : Answer
broken = record {
  write_failure = some (WsError.external (codes "broken pipe"));
  meanwhile = λ c. c;
  outcome = Outcome.stopped;
}

request-forgets_example :
    has_subscription notice.tr notice.key
      (request busy tr_type_subscribe notice.tr notice.key broken).0.subs
    ≡ false
request-forgets_example =
    request-forgets busy notice.tr notice.key broken refl
      (inr (WsError.external (codes "broken pipe"), refl))

abbrev opening : Opened
opening = record { conn = new_conn config config.endpoint (codes "k") 7; buffer = 256 }

-- Each frame is written and accepted, with nobody else about.
abbrev pub smooth : Answer
smooth = record { write_failure = none; meanwhile = λ c. c; outcome = Outcome.answered none }

pub smooth-IsSmooth : IsSmooth smooth
smooth-IsSmooth = record {
  verdict = none;
  written = refl;
  quiet = λ d. record {
    transport = refl;
    key = refl;
    generation = refl;
    closed = refl;
    has_on_reconnect = refl;
    log = sym (append-nil d.log);
  };
  answered = refl;
}

resubscribe-log_example :
    (resubscribe busy busy.generation 1 50 (smooth ∷ smooth ∷ [])).log
    ≡ busy.log
      ++ frames 7 busy.key busy.subs
      ++ (if busy.has_on_reconnect
          then Effect.notified (record {
            attempt = 1;
            subscriptions = 2;
            stopped = false;
            error = none;
            observed_at = 50;
          })
            ∷ []
          else [])
resubscribe-log_example =
    resubscribe-log busy 7 1 50 (smooth ∷ smooth ∷ []) refl refl
      (smooth-IsSmooth, (smooth-IsSmooth, tt))
