-- ===== src/Ws/Reader/Handle.antt =====
-- What one frame leaves unchanged, and that it keeps the invariants.
use go_kis.Prelude.{refl, inl, inr, Option, arith, Bool-cases, Option-cases}
use go_kis.Text.{Bytes, text_eq}
use go_kis.Ws.Conn.Unchanged.{Keeps, SameState, SameState-Keeps}
use go_kis.Ws.Conn.{Conn}
use go_kis.Ws.Frame.{RealtimeFrame, parse_realtime}
use go_kis.Ws.Reader.Ack.{apply_ack-SameSubs, apply_ack-WaitersInv}
use go_kis.Ws.Reader.{
  AckMessage, Surroundings, tr_ping_pong, pong, publish, handle_system, handle, count_drop,
}

pong-SameState : (c : Conn) (env : Surroundings) (raw : Bytes) → SameState c (pong c env raw).0
unfolding pong
pong-SameState c env raw = ground arith

count_drop-SameState : (c : Conn) (tr reason : Bytes) → SameState c (count_drop c tr reason)
unfolding count_drop
count_drop-SameState c tr reason = record {
  waiters = record { pending = refl; next_waiter = refl; mailbox = refl };
  subs = record { subs = refl; closed = refl; done = refl };
}

module _ (block : Bytes → Bytes → Bytes) where
  publish-SameState :
      (c : Conn) (env : Surroundings) (frame : RealtimeFrame) (raw : Bytes)
      → SameState c (publish block c env frame raw)
  unfolding publish
  publish-SameState c env frame raw = ground arith

  module _ (unmarshal : Bytes → Option AckMessage) where
    handle_system-Keeps :
        (c : Conn) (env : Surroundings) (raw : Bytes)
        → Keeps c (handle_system block unmarshal c env raw).0
    unfolding handle_system
    handle_system-Keeps c env raw = elim (Option-cases (unmarshal raw)) [
      | inl e ↦ rw (e, handle_system) (SameState-Keeps (count_drop-SameState c _ _))
      | inr (m, e) ↦ elim (Bool-cases (text_eq m.header.tr_id tr_ping_pong)) [
        | inl ping ↦ rw (e, handle_system, ping) (SameState-Keeps (pong-SameState c env raw))
        | inr ack ↦
            rw (e, handle_system, ack)
              (record { subs = apply_ack-SameSubs c m; waiters = apply_ack-WaitersInv c m })
      ]
    ]

    pub handle-Keeps :
        (c : Conn) (env : Surroundings) (raw : Bytes) → Keeps c (handle block unmarshal c env raw).0
    unfolding handle
    handle-Keeps c env raw = elim (Option-cases (parse_realtime raw)) [
      | inl e ↦ rw (e, handle) (handle_system-Keeps c env raw)
      | inr (frame, e) ↦ rw (e, handle) (SameState-Keeps (publish-SameState c env frame raw))
    ]
