-- ===== src/Tests/Texts.antt =====
-- What goes out on the wire, at concrete inputs.
use go_kis.Prelude.{none, length, if◌then◌else◌, map, ◌≡◌, refl, ◌++◌, [], ◌∷◌, some, All}
use go_kis.Ws.Message.{field_count_text, ws_error_text}
use go_kis.Ws.Errors.{WsError}
use go_kis.Text.Format.{decimal}
use go_kis.Text.{codes, text_eq}
use go_kis.Json.Quote.{quote}
use go_kis.Json.{encode, comma_onto}
use go_kis.Kis.Client.ReadOnly.{read_all}
use go_kis.Kis.Request.OneLine.{AreSafe, read_all-one_line}
use go_kis.Kis.Request.{headers_of}
use go_kis.Kis.Subscribe.Marshal.{
  coerced_subscribe, marshal_subscribe, read_subscribe, read-marshal_subscribe,
}
use go_kis.Kis.Subscribe.{Subscribe, new_subscribe}
use go_kis.Kis.Transport.{RoundTripper}
use go_kis.Ws.Coder.Served.{request_for, served_by, written, served_by-close, served_by-resubscribe}
use go_kis.Ws.Conn.{Writes, close}
use go_kis.Ws.Reconnect.Resubscribe.{resubscribe}
use go_kis.Tests.Build.{
  parse_vts, fold_https, same_text, same_transport, client_config, built_client, client-built,
}
use go_kis.Tests.Requests.{smooth, smooth-IsSmooth}
use go_kis.Tests.Rest.{rt_cd_of, string_of, no_error, token_of, read_call}
use go_kis.Tests.Samples.{busy, notice}

-- A key that tries to end its string and to add a member.
abbrev hostile : Subscribe
hostile = new_subscribe (codes "k") (codes "H0STCNT0") (codes "1\",\"tr_type\":\"2\n<")

read-marshal_subscribe_example :
    read_subscribe (marshal_subscribe hostile) ≡ some (coerced_subscribe hostile)
read-marshal_subscribe_example = read-marshal_subscribe hostile

hostile-marshalled :
    marshal_subscribe hostile
    ≡ codes
        "{\"header\":{\"approval_key\":\"k\",\"custtype\":\"P\",\"tr_type\":\"1\",\"content-type\":\"utf-8\"},\"body\":{\"input\":{\"tr_id\":\"H0STCNT0\",\"tr_key\":\"1\\\",\\\"tr_type\\\":\\\"2\\n\\u003c\"}}}"
unfolding marshal_subscribe encode comma_onto quote new_subscribe
hostile-marshalled = refl

-- The frame of the notices cannot be written.
abbrev partly : Writes
partly s = if text_eq s.tr notice.tr then some (WsError.external (codes "broken pipe")) else none

served_by-close_example :
    served_by (close busy partly).log
    ≡ served_by busy.log ++ map (request_for busy.key (codes "2")) (written partly busy.subs)
served_by-close_example = served_by-close busy 7 partly refl refl

one-written : length (written partly busy.subs) ≡ 1
unfolding text_eq
one-written = refl

served_by-resubscribe_example :
    served_by (resubscribe busy busy.generation 1 50 (smooth ∷ smooth ∷ [])).log
    ≡ served_by busy.log ++ map (request_for busy.key (codes "1")) busy.subs
served_by-resubscribe_example =
    served_by-resubscribe busy 7 1 50 (smooth ∷ smooth ∷ []) refl refl
      (smooth-IsSmooth, (smooth-IsSmooth, tt))

read_all-one_line_example :
    All
      (λ t. AreSafe (headers_of built_client t))
      (read_all rt_cd_of string_of no_error no_error token_of built_client.client
        (read_call ∷ [])).log
read_all-one_line_example =
    read_all-one_line rt_cd_of string_of no_error no_error token_of parse_vts fold_https same_text
      same_transport (RoundTripper.custom 1) client_config (read_call ∷ []) client-built

field_count-thirteen : field_count_text 13 ≡ codes "ws: execution record has 13 fields, want 14"
unfolding field_count_text decimal
field_count-thirteen = refl

ws_errors-worded :
    (ws_error_text (
        WsError.subscribe_rejected (record {
          tr = codes "H0STCNI0";
          rt_cd = codes "1";
          msg_cd = codes "OPSP0002";
          msg1 = codes "ALREADY IN SUBSCRIBE";
        }))
      ≡ codes
          "ws: subscribe rejected (tr=H0STCNI0, rt_cd=1, msg_cd=OPSP0002): ALREADY IN SUBSCRIBE")
    × (ws_error_text (WsError.approval_rejection (codes "OPSP0011"))
        ≡ codes "ws: approval key rejected (msg_cd=OPSP0011)")
unfolding ws_error_text
ws_errors-worded = (refl, refl)
