-- ===== src/Ws/Reader/Publish.antt =====
-- What happens to a realtime frame: published once, or counted as dropped.
use go_kis.Prelude.{ℕ, ◌+◌, ◌≡◌, refl, ◌⊎◌, inl, inr, [], ◌∷◌, ◌++◌, true, false, arith, Bool-cases}
use go_kis.Text.{Bytes}
use go_kis.Ws.Conn.{Conn, Event}
use go_kis.Ws.Frame.{RealtimeFrame, split_fields}
use go_kis.Ws.Reader.{Surroundings, event_of, open_payload, publish}

-- One event is added, which is made of the frame; no drop is counted.
pub record IsPublished (c d : Conn) (frame : RealtimeFrame) (raw : Bytes) (now : ℕ) : Type 0 where
  pub event : Event
  pub events : d.events ≡ c.events ++ (event ∷ [])
  pub tr : event.tr ≡ frame.tr
  pub as_received : event.raw ≡ raw
  pub received_at : event.received_at ≡ now
  pub in_clear : (frame.encrypted ≡ true) ⊎ (event.fields ≡ split_fields frame.payload)
  pub stats : d.stats ≡ c.stats

-- One drop is counted, of an encrypted frame; no event is added.
pub record IsDropped (c d : Conn) (frame : RealtimeFrame) : Type 0 where
  pub encrypted : frame.encrypted ≡ true
  pub events : d.events ≡ c.events
  pub counted : d.stats.dropped_frames ≡ c.stats.dropped_frames + 1
  pub tr : d.stats.last_drop_tr ≡ frame.tr

pub sum-cases : (x : Bytes ⊎ Bytes) → ((p : Bytes) × (x ≡ inl p)) ⊎ ((r : Bytes) × (x ≡ inr r))
sum-cases (inl p) = inl (p, refl)
sum-cases (inr r) = inr (r, refl)

module _ (block : Bytes → Bytes → Bytes) where
  open_payload-clear :
      (c : Conn) (frame : RealtimeFrame)
      → frame.encrypted ≡ false
      → open_payload block c frame ≡ inl frame.payload
  unfolding open_payload
  open_payload-clear c frame h = rw (h, open_payload)

  -- While the consumer takes events, a realtime frame is published or counted as dropped, never
  -- both and never neither; only an encrypted one is dropped. The event keeps the frame as it was
  -- received, and the fields of its payload where that came in the clear.
  pub publish_cases :
      (c : Conn) (env : Surroundings) (frame : RealtimeFrame) (raw : Bytes)
      → env.event_taken ≡ true
      → IsPublished c (publish block c env frame raw) frame raw env.now
        ⊎ IsDropped c (publish block c env frame raw) frame
  unfolding publish
  publish_cases c env frame raw taken = elim (sum-cases (open_payload block c frame)) [
    | inl (p, e) ↦
        rw (e, publish)
          (inl (record {
            event = event_of frame p raw env.now;
            events = ground arith;
            tr = refl;
            as_received = refl;
            received_at = refl;
            in_clear = elim (Bool-cases frame.encrypted) [
              | inl hidden ↦ inl hidden
              | inr shown ↦ inr (ground (arith, open_payload-clear c frame shown))
            ];
            stats = ground arith;
          }))
    | inr (r, e) ↦
        rw (e, publish)
          (inr (record {
            encrypted = ground (arith, open_payload-clear c frame);
            events = refl;
            counted = refl;
            tr = refl;
          }))
  ]
