-- ===== src/Ws/Conn/WaitersInv.antt =====
-- Every operation on the outstanding requests keeps `WaitersInv`.
use go_kis.Prelude.{
  ℕ, suc, ◌≤◌, ◌<◌, ◌≡◌, ◌≢◌, refl, ◌∙◌, List, [], ◌∷◌, ◌++◌, Option, none, some, arith, ◌==◌, All,
  Bool-cases, inl, inr,
}
use go_kis.Text.{Bytes}
use go_kis.Ws.Conn.Pending.{
  verdict_of, resolve, take_pending, remove_waiter, forget, resolve_all, fail_pending,
}
use go_kis.Ws.Conn.State.{PendingAck, Conn}
use go_kis.Ws.Conn.Waiters.{
  Ascending, WaitersInv, take_first-IsFirstMatch, take_first-none, resolve-other, resolve-frame,
  resolve_all-frame,
}
use go_kis.Ws.Errors.{WsError}

Ascending-le : (lo hi : ℕ) (ws : List PendingAck) → Ascending lo ws hi → lo ≤ hi
Ascending-le lo hi [] a = a
Ascending-le lo hi (w ∷ ws) a = omega (arith, a.0, Ascending-le (suc w.id) hi ws a.1)

Ascending-mono :
    (lo lo' hi : ℕ) (ws : List PendingAck) → lo' ≤ lo → Ascending lo ws hi → Ascending lo' ws hi
Ascending-mono lo lo' hi [] h a = omega arith
Ascending-mono lo lo' hi (w ∷ ws) h a = (omega (arith, a.0), a.1)

Ascending-ne :
    (lo hi j : ℕ) (ws : List PendingAck) → j < lo → Ascending lo ws hi → All (λ x. j ≢ x.id) ws
Ascending-ne lo hi j [] h a = tt
Ascending-ne lo hi j (x ∷ ws) h a =
    (omega (arith, a.0), Ascending-ne (suc x.id) hi j ws (omega (arith, a.0)) a.1)

-- What taking one waiter out of the list leaves.
record Taken (lo hi : ℕ) (w : PendingAck) (ws : List PendingAck) : Type 0 where
  ascending : Ascending lo ws hi
  bounds : (lo ≤ w.id) × (w.id < hi)
  apart : All (λ x. w.id ≢ x.id) ws

Ascending-Taken :
    (lo hi : ℕ) (before after : List PendingAck) (w : PendingAck)
    → Ascending lo (before ++ (w ∷ after)) hi
    → Taken lo hi w (before ++ after)
Ascending-Taken lo hi [] after w a = record {
  ascending = Ascending-mono (suc w.id) lo hi after (omega (arith, a.0)) a.1;
  bounds = (a.0, omega (arith, Ascending-le (suc w.id) hi after a.1));
  apart = Ascending-ne (suc w.id) hi w.id after (omega arith) a.1;
}
Ascending-Taken lo hi (b ∷ before) after w a =
    let t = Ascending-Taken (suc b.id) hi before after w a.1 in
    record {
      ascending = (a.0, t.ascending);
      bounds = (omega (arith, a.0, t.bounds.0), t.bounds.1);
      apart = (omega (arith, t.bounds.0), t.apart);
    }

All-drop {κ} :
    (P : PendingAck → Type κ) (before after : List PendingAck) (w : PendingAck)
    → All P (before ++ (w ∷ after))
    → All P (before ++ after)
All-drop P [] after w a = a.1
All-drop P (b ∷ before) after w a = (a.0, All-drop P before after w a.1)

All-at {κ} :
    (P : PendingAck → Type κ) (before after : List PendingAck) (w : PendingAck)
    → All P (before ++ (w ∷ after))
    → P w
All-at P [] after w a = a.0
All-at P (b ∷ before) after w a = All-at P before after w a.1

quiet_resolve :
    (c : Conn) (w : PendingAck) (v : Option WsError) (ws : List PendingAck)
    → All (λ x. w.id ≢ x.id) ws
    → All (λ x. verdict_of x.id c.mailbox ≡ none) ws
    → All (λ x. verdict_of x.id (resolve c w v).mailbox ≡ none) ws
quiet_resolve c w v [] n q = tt
quiet_resolve c w v (x ∷ ws) n q =
    (resolve-other c w v x.id n.0 ∙ q.0, quiet_resolve c w v ws n.1 q.1)

pub resolve-WaitersInv :
    (c : Conn) (w : PendingAck) (v : Option WsError)
    → w.id < c.next_waiter
    → All (λ x. w.id ≢ x.id) c.pending
    → WaitersInv c
    → WaitersInv (resolve c w v)
resolve-WaitersInv c w v below apart inv =
    let (same, next) = resolve-frame c w v in
    record {
      ascending = rw (same, next) inv.ascending;
      quiet = rw same (quiet_resolve c w v c.pending apart inv.quiet);
      unused = λ j h. resolve-other c w v j (ground arith) ∙ inv.unused j (ground arith);
    }

-- A waiter that an ACK takes out of the list: it is known to be without a verdict, and giving it
-- one, whatever the verdict, keeps the invariant.
pub take_pending-WaitersInv :
    (c : Conn) (tr : Bytes) {w : PendingAck}
    → (take_pending c tr).0 ≡ some w
    → WaitersInv c
    → WaitersInv (take_pending c tr).1
      × (verdict_of w.id c.mailbox ≡ none)
      × (w.id < c.next_waiter)
      × All (λ x. w.id ≢ x.id) (take_pending c tr).1.pending
unfolding take_pending
take_pending-WaitersInv c tr {w} h inv =
    let m = take_first-IsFirstMatch tr c.pending h in
    let ascending = rw m.splits at inv.ascending in
    let quiet = rw m.splits at inv.quiet in
    let t = Ascending-Taken 0 c.next_waiter m.before m.after w ascending in
    (
      record {
        ascending = rw m.left t.ascending;
        quiet =
            rw m.left (All-drop (λ x. verdict_of x.id c.mailbox ≡ none) m.before m.after w quiet);
        unused = inv.unused;
      },
      All-at (λ x. verdict_of x.id c.mailbox ≡ none) m.before m.after w quiet,
      t.bounds.1,
      rw m.left t.apart,
    )

pub take_pending-none-WaitersInv :
    (c : Conn) (tr : Bytes)
    → (take_pending c tr).0 ≡ none
    → WaitersInv c
    → WaitersInv (take_pending c tr).1
unfolding take_pending
take_pending-none-WaitersInv c tr h inv =
    let (_, same) = take_first-none tr c.pending h in
    record { ascending = rw same inv.ascending; quiet = rw same inv.quiet; unused = inv.unused }

remove_waiter-Ascending :
    (id lo hi : ℕ) (ws : List PendingAck)
    → Ascending lo ws hi
    → Ascending lo (remove_waiter id ws) hi
unfolding remove_waiter
remove_waiter-Ascending id lo hi [] a = a
remove_waiter-Ascending id lo hi (w ∷ ws) a =
    ground
      (arith, Ascending-mono (suc w.id) lo hi ws, remove_waiter-Ascending id (suc w.id) hi ws a.1)

remove_waiter-All {κ} :
    (P : PendingAck → Type κ) (id : ℕ) (ws : List PendingAck)
    → All P ws
    → All P (remove_waiter id ws)
unfolding remove_waiter
remove_waiter-All P id [] a = tt
remove_waiter-All P id (w ∷ ws) a = elim (Bool-cases (w.id == id)) [
  | inl hit ↦ rw hit a.1
  | inr miss ↦ rw miss (a.0, remove_waiter-All P id ws a.1)
]

pub forget-WaitersInv : (c : Conn) (w : PendingAck) → WaitersInv c → WaitersInv (forget c w)
unfolding forget
forget-WaitersInv c w inv = record {
  ascending = remove_waiter-Ascending w.id 0 c.next_waiter c.pending inv.ascending;
  quiet = remove_waiter-All (λ x. verdict_of x.id c.mailbox ≡ none) w.id c.pending inv.quiet;
  unused = inv.unused;
}

resolve_all-unused :
    (c : Conn) (lo hi j : ℕ) (ws : List PendingAck) (e : WsError)
    → hi ≤ j
    → Ascending lo ws hi
    → verdict_of j (resolve_all c ws e).mailbox ≡ verdict_of j c.mailbox
unfolding resolve_all
resolve_all-unused c lo hi j [] e h a = refl
resolve_all-unused c lo hi j (w ∷ ws) e h a =
    resolve_all-unused (resolve c w (some e)) (suc w.id) hi j ws e h a.1
    ∙ resolve-other c w (some e) j (omega (arith, Ascending-le (suc w.id) hi ws a.1))

pub fail_pending-WaitersInv :
    (c : Conn) (e : WsError) → WaitersInv c → WaitersInv (fail_pending c e)
unfolding fail_pending
fail_pending-WaitersInv c e inv =
    let emptied = record c { pending = [] } in
    let (none_left, next) = resolve_all-frame emptied c.pending e in
    record {
      ascending = rw (none_left, next) (omega arith);
      quiet = rw none_left tt;
      unused = λ j h.
          resolve_all-unused emptied 0 c.next_waiter j c.pending e (ground arith) inv.ascending
          ∙ inv.unused j (ground arith);
    }
