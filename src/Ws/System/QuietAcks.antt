-- ===== src/Ws/System/QuietAcks.antt =====
-- Quiet steps: an ACK publishes no event and keeps the stored material usable.
use go_kis.Prelude.{
  ◌≡◌, refl, ◌∙◌, inl, inr, List, [], ◌∷◌, Option, none, some, arith, All, ◌||◌, Bool-cases,
}
use go_kis.Text.{Bytes, is_empty, text_eq, trim_space}
use go_kis.Ws.Crypto.Usable.{Decoded-cases, IsUsable, new_material-IsUsable}
use go_kis.Ws.Conn.{Conn, PendingAck, resolve, resolve_all, fail_pending, take_pending}
use go_kis.Ws.Crypto.{AesMaterial, new_material}
use go_kis.Ws.Errors.{WsError, classify_ack}
use go_kis.Ws.Reader.{
  AckMessage, AckOutput, count_drop, store_material, clear_rejection, accept, resolve_waiter,
  apply_ack, insert, ack_tr,
}

abbrev pub AllUsable : List (Bytes × AesMaterial) → Type 0
AllUsable = All (λ p. IsUsable p.1)

pub record IsQuiet (c d : Conn) : Type 0 where
  pub events : d.events ≡ c.events
  pub usable : AllUsable c.material → AllUsable d.material

pub same : {c d : Conn} → d.events ≡ c.events → d.material ≡ c.material → IsQuiet c d
same events material = record { events = events; usable = λ h. rw material h }

pub IsQuiet-trans : {c d e : Conn} → IsQuiet c d → IsQuiet d e → IsQuiet c e
IsQuiet-trans p q = record { events = q.events ∙ p.events; usable = λ h. q.usable (p.usable h) }

pub insert-AllUsable :
    (tr : Bytes) (m : AesMaterial) (material : List (Bytes × AesMaterial))
    → IsUsable m
    → AllUsable material
    → AllUsable (insert tr m material)
unfolding insert
insert-AllUsable tr m [] u h = (u, tt)
insert-AllUsable tr m ((k, n) ∷ rest) u h = elim (Bool-cases (text_eq k tr)) [
  | inl hit ↦ rw (hit, insert) (u, h.1)
  | inr miss ↦ rw (miss, insert) (h.0, insert-AllUsable tr m rest u h.1)
]

pub resolve-IsQuiet : (c : Conn) (w : PendingAck) (v : Option WsError) → IsQuiet c (resolve c w v)
unfolding resolve
resolve-IsQuiet c w v = same (ground arith) (ground arith)

pub resolve_all-IsQuiet :
    (c : Conn) (ws : List PendingAck) (e : WsError) → IsQuiet c (resolve_all c ws e)
unfolding resolve_all
resolve_all-IsQuiet c [] e = same refl refl
resolve_all-IsQuiet c (w ∷ ws) e =
    IsQuiet-trans (resolve-IsQuiet c w (some e)) (resolve_all-IsQuiet (resolve c w (some e)) ws e)

pub fail_pending-IsQuiet : (c : Conn) (e : WsError) → IsQuiet c (fail_pending c e)
unfolding fail_pending
fail_pending-IsQuiet c e =
    let rest = resolve_all-IsQuiet (record c { pending = [] }) c.pending e in
    record { events = rest.events; usable = rest.usable }

pub store_material-IsQuiet : (c : Conn) (tr key iv : Bytes) → IsQuiet c (store_material c tr key iv)
unfolding store_material count_drop
store_material-IsQuiet c tr key iv =
    elim (Bool-cases (is_empty tr || is_empty (trim_space key) || is_empty (trim_space iv))) [
      | inl missing ↦ rw (missing, store_material) (same refl refl)
      | inr given ↦ elim (Decoded-cases (new_material key iv)) [
        | inl (m, good) ↦
            rw (given, good, store_material)
              (record {
                events = refl;
                usable =
                    λ h. insert-AllUsable tr m c.material (new_material-IsUsable key iv good) h;
              })
        | inr (e, bad) ↦ rw (given, bad, store_material) (same refl refl)
      ]
    ]

pub accept-IsQuiet :
    (c : Conn) (v : Option WsError) (tr : Bytes) (o : AckOutput) → IsQuiet c (accept c v tr o)
unfolding accept clear_rejection
accept-IsQuiet c none tr o =
    let rest = store_material-IsQuiet (record c { reissued_for = [] }) tr o.key o.iv in
    record { events = rest.events; usable = rest.usable }
accept-IsQuiet c (some e) tr o = same refl refl

pub resolve_waiter-IsQuiet :
    (c : Conn) (w : Option PendingAck) (v : Option WsError) → IsQuiet c (resolve_waiter c w v)
unfolding resolve_waiter
resolve_waiter-IsQuiet c none v = same refl refl
resolve_waiter-IsQuiet c (some w) v = resolve-IsQuiet c w v

pub apply_ack-IsQuiet : (c : Conn) (m : AckMessage) → IsQuiet c (apply_ack c m).0
unfolding apply_ack take_pending
apply_ack-IsQuiet c m =
    let (waiter, taken) = take_pending c m.header.tr_id in
    let tr = ack_tr m.header.tr_id waiter in
    let verdict = classify_ack tr m.body.rt_cd m.body.msg_cd m.body.msg1 in
    let rest =
      IsQuiet-trans (accept-IsQuiet taken verdict tr m.body.output)
        (resolve_waiter-IsQuiet (accept taken verdict tr m.body.output) waiter verdict) in
    record { events = rest.events; usable = rest.usable }
