-- ===== src/Ws/Reader/Notice.antt =====
-- An execution notice, from the server's fields to the caller's event.
use go_kis.Prelude.{
  ℕ, ◌≤◌, ◌≡◌, ap, inl, true, List, [], ◌∷◌, ◌++◌, Option, none, some, arith, All, length, get_or,
}
use go_kis.Text.{Bytes, trim_space, join}
use go_kis.Text.Split.Joined.{IsFree, split-join, contains_byte-join}
use go_kis.Ws.Conn.{Conn, Event}
use go_kis.Ws.Crypto.{AesMaterial, has_length, key_lengths}
use go_kis.Ws.Crypto.Base64.Encoding.{IsByte}
use go_kis.Ws.Crypto.Blocks.{IsBlock, IsCipher}
use go_kis.Ws.Crypto.RoundTrip.{encrypt, decrypt-encrypt}
use go_kis.Ws.Execution.{Execution, is_execution, parse_side, parse_execution, parsed}
use go_kis.Ws.Frame.{RealtimeFrame, split_fields, field}
use go_kis.Ws.Frame.Parse.{render, IsWellFormed, parse_realtime-render}
use go_kis.Ws.Reader.{
  AckMessage, Surroundings, material_for, open_payload, event_of, send_event, publish, handle,
}

split_fields-join :
    (fields : List Bytes)
    → 2 ≤ length fields
    → All (IsFree b'^') fields
    → split_fields (join b'^' fields) ≡ fields
unfolding split_fields
split_fields-join [] h free = absurd (omega arith)
split_fields-join (x ∷ []) h free = absurd (omega arith)
split_fields-join (x ∷ y ∷ fields) h free =
    rw (contains_byte-join b'^' x y fields, split_fields)
      (split-join b'^' (x ∷ y ∷ fields) (λ e. cc) free)

-- The notice that fourteen fields stand for.
abbrev pub execution_of_fields : List Bytes → Execution
execution_of_fields fields = record {
  order_no = get_or fields 2 [];
  symbol = get_or fields 8 [];
  side = parse_side (get_or fields 4 []);
  qty = get_or fields 9 [];
  price = get_or fields 10 [];
  filled_at = get_or fields 11 [];
  filled = get_or fields 13 [];
}

abbrev pub notice_of : List Bytes → Bytes → Bytes → ℕ → Event
notice_of fields tr raw now = record {
  tr = tr;
  key = get_or fields 0 [];
  fields = fields;
  execution = some (execution_of_fields fields);
  execution_error = none;
  raw = raw;
  received_at = now;
}

parse_execution-fields :
    (fields : List Bytes)
    → length fields ≡ 14
    → parse_execution fields ≡ parsed (execution_of_fields fields)
unfolding parse_execution field
parse_execution-fields fields h = ground arith

event_of-notice :
    (frame : RealtimeFrame) (fields : List Bytes) (raw : Bytes) (now : ℕ)
    → length fields ≡ 14
    → All (IsFree b'^') fields
    → is_execution frame.tr ≡ true
    → event_of frame (join b'^' fields) raw now ≡ notice_of fields frame.tr raw now
unfolding event_of field
event_of-notice frame fields raw now size free execution =
    rw (split_fields-join fields (omega arith) free, execution, parse_execution-fields fields size)
      (ground arith)

module _ (encipher block : Bytes → Bytes → Bytes) (unmarshal : Bytes → Option AckMessage) where
  -- The server joins fourteen fields by carets, encrypts them under the material of the
  -- subscription and sends them as an encrypted frame of an execution transaction. Where that
  -- material is stored, the block function inverts the server's, no field holds a caret, the text
  -- has no white space at its ends and the consumer takes events, the connection publishes one
  -- event with exactly these fields and the execution they stand for, and nothing else changes.
  pub notice_delivered :
      (c : Conn) (env : Surroundings) (m : AesMaterial) (frame : RealtimeFrame)
      (fields : List Bytes) (count : Bytes)
      → IsCipher (encipher m.key) (block m.key)
      → has_length (length m.key) key_lengths ≡ true
      → IsBlock m.iv
      → material_for c frame.tr ≡ some m
      → is_execution frame.tr ≡ true
      → frame.encrypted ≡ true
      → frame.payload ≡ encrypt encipher m (join b'^' fields)
      → IsWellFormed frame count
      → length fields ≡ 14
      → All (IsFree b'^') fields
      → All IsByte (join b'^' fields)
      → trim_space (join b'^' fields) ≡ join b'^' fields
      → env.event_taken ≡ true
      → handle block unmarshal c env (render frame count) ≡ (
        record c {
          events = c.events ++ (notice_of fields frame.tr (render frame count) env.now ∷ []);
        },
        none,
      )
  unfolding handle publish send_event open_payload
  notice_delivered c env m frame fields count cipher usable iv stored execution hidden sent w size
        free bytes trimmed taken =
      let opened : open_payload block c frame ≡ inl (join b'^' fields) =
        rw
          (
            hidden,
            stored,
            sent,
            decrypt-encrypt encipher block m (join b'^' fields) cipher usable iv bytes,
            open_payload,
          )
          (ap inl trimmed) in
      let event = event_of-notice frame fields (render frame count) env.now size free execution in
      ground (arith, parse_realtime-render frame count w, opened, event)
