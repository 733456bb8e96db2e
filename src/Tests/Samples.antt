-- ===== src/Tests/Samples.antt =====
-- Sample values that the tests share.
use go_kis.Prelude.{true, false, [], ◌∷◌, Option, none, some, if◌then◌else◌, pos}
use go_kis.Text.{Bytes, codes, text_eq}
use go_kis.Kis.Subscribe.{endpoint_vts}
use go_kis.Ws.Conn.{Conn, Subscription, PendingAck}
use go_kis.Ws.Dial.{Config}
use go_kis.Ws.Reader.{AckMessage, Surroundings}
use go_kis.Ws.Reconnect.{Pc, Session}

-- A block function that leaves every block as it is.
abbrev pub plain_block : Bytes → Bytes → Bytes
plain_block key b = b

abbrev pub ack : Bytes → Bytes → Bytes → AckMessage
ack tr rt_cd msg_cd = record {
  header = record { tr_id = tr };
  body = record {
    rt_cd = rt_cd;
    msg_cd = msg_cd;
    msg1 = [];
    output = record { iv = []; key = [] };
  };
}

abbrev pub tr_notice : Bytes
tr_notice = codes "H0STCNI9"

abbrev pub accepted_ack : AckMessage
accepted_ack = ack tr_notice (codes "0") (codes "OPSP0000")

abbrev pub occupied_ack : AckMessage
occupied_ack = ack [] (codes "9") (codes "OPSP8996")

abbrev pub rejected_ack : AckMessage
rejected_ack = ack [] (codes "9") (codes "OPSP0011")

-- A decoder that knows three messages.
abbrev pub sample_unmarshal : Bytes → Option AckMessage
sample_unmarshal raw =
    if text_eq raw (codes "{accepted}")
    then some accepted_ack
    else if text_eq raw (codes "{occupied}")
    then some occupied_ack
    else if text_eq raw (codes "{rejected}")
    then some rejected_ack
    else none

abbrev pub calm : Surroundings
calm = record { now = 5; pong_failure = none; event_taken = true }

abbrev pub notice : Subscription
notice = record { tr = tr_notice; key = codes "id" }

abbrev pub price : Subscription
price = record { tr = codes "H0STCNT0"; key = codes "005930" }

abbrev pub first_waiter : PendingAck
first_waiter = record { id = 0; tr = tr_notice }

abbrev pub second_waiter : PendingAck
second_waiter = record { id = 1; tr = codes "H0STCNT0" }

-- Two subscriptions, the second of which still waits for its ACK, as does a repeated first one.
abbrev pub busy : Conn
busy = record {
  endpoint = endpoint_vts;
  has_on_reconnect = true;
  transport = some 7;
  key = codes "k";
  generation = 0;
  subs = notice ∷ price ∷ [];
  material = [];
  pending = first_waiter ∷ second_waiter ∷ [];
  closed = false;
  done = false;
  stats = record { dropped_frames = 0; last_drop_tr = []; last_drop_reason = [] };
  reissued_for = [];
  next_waiter = 2;
  mailbox = [];
  events = [];
  log = [];
}

abbrev pub busy_session : Session
busy_session = record { conn = busy; pc = Pc.reading; attempt = 0; spawned = [] }

abbrev pub config : Config
config = record {
  endpoint = endpoint_vts;
  has_approval = true;
  has_client = false;
  has_dialer = true;
  event_buffer = pos 0;
  has_on_reconnect = true;
}
