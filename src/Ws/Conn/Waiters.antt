-- ===== src/Ws/Conn/Waiters.antt =====
-- Outstanding requests: which one an ACK is given to, and that each verdict reaches its waiter.
use go_kis.Prelude.{
  ℕ, suc, ◌≤◌, ◌<◌, ◌≡◌, ◌≢◌, refl, ap, ◌∙◌, inl, inr, List, [], ◌∷◌, ◌++◌, true, false, Option,
  none, some, arith, Bool-cases, All,
}
use go_kis.Text.{Bytes}
use go_kis.Ws.Conn.Pending.{
  verdict_of, resolve, matches, take_first, take_pending, resolve_all, fail_pending,
}
use go_kis.Ws.Conn.State.{PendingAck, Conn}
use go_kis.Ws.Errors.{WsError}

-- `wait` is the first of `pending` that an ACK of `tr` is for, and `rest` the others.
pub record IsFirstMatch (tr : Bytes) (pending : List PendingAck) (wait : PendingAck)
    (rest : List PendingAck) : Type 0 where
  pub before : List PendingAck
  pub after : List PendingAck
  pub splits : pending ≡ before ++ (wait ∷ after)
  pub skipped : All (λ w. matches tr w ≡ false) before
  pub fits : matches tr wait ≡ true
  pub left : rest ≡ before ++ after

IsFirstMatch-cons :
    {tr : Bytes} {pending rest : List PendingAck} {wait : PendingAck} (w : PendingAck)
    → matches tr w ≡ false
    → IsFirstMatch tr pending wait rest
    → IsFirstMatch tr (w ∷ pending) wait (w ∷ rest)
IsFirstMatch-cons w miss m = record {
  before = w ∷ m.before;
  after = m.after;
  splits = ap (◌∷◌ w) m.splits;
  skipped = (miss, m.skipped);
  fits = m.fits;
  left = ap (◌∷◌ w) m.left;
}

pub take_first-IsFirstMatch :
    (tr : Bytes) (pending : List PendingAck) {wait : PendingAck}
    → (take_first tr pending).0 ≡ some wait
    → IsFirstMatch tr pending wait (take_first tr pending).1
unfolding take_first
take_first-IsFirstMatch tr [] h = cc
take_first-IsFirstMatch tr (w ∷ ws) {wait} h = elim (Bool-cases (matches tr w)) [
  | inl hit ↦ rw hit (record {
    before = [];
    after = ws;
    splits = ground arith;
    skipped = tt;
    fits = ground arith;
    left = refl;
  })
  | inr miss ↦ rw miss (IsFirstMatch-cons w miss (take_first-IsFirstMatch tr ws (rw miss at h)))
]

-- An ACK that is given to nobody matches no waiter.
pub take_first-none :
    (tr : Bytes) (pending : List PendingAck)
    → (take_first tr pending).0 ≡ none
    → All (λ w. matches tr w ≡ false) pending × ((take_first tr pending).1 ≡ pending)
unfolding take_first
take_first-none tr [] h = (tt, refl)
take_first-none tr (w ∷ ws) h = ground (arith, take_first-none tr ws)

-- Identities rise along the list, from `lo` on, and stay below `hi`.
abbrev pub Ascending : ℕ → List PendingAck → ℕ → Type 0
Ascending lo [] hi = lo ≤ hi
Ascending lo (w ∷ ws) hi = (lo ≤ w.id) × Ascending (suc w.id) ws hi

-- No waiter shares its identity with another, none has a verdict yet, and no identity that is
-- still to be given out has one.
pub record WaitersInv (c : Conn) : Type 0 where
  pub ascending : Ascending 0 c.pending c.next_waiter
  pub quiet : All (λ w. verdict_of w.id c.mailbox ≡ none) c.pending
  pub unused : (j : ℕ) → c.next_waiter ≤ j → verdict_of j c.mailbox ≡ none

-- The waiters and their verdicts are the same.
pub record SameWaiters (c d : Conn) : Type 0 where
  pub pending : d.pending ≡ c.pending
  pub next_waiter : d.next_waiter ≡ c.next_waiter
  pub mailbox : d.mailbox ≡ c.mailbox

pub SameWaiters-WaitersInv : {c d : Conn} → SameWaiters c d → WaitersInv c → WaitersInv d
SameWaiters-WaitersInv {c} {d} same inv = record {
  ascending = rw (same.pending, same.next_waiter) inv.ascending;
  quiet = rw (same.pending, same.mailbox) inv.quiet;
  unused = λ j h. rw same.mailbox (inv.unused j (rw same.next_waiter at h));
}

pub resolve_self :
    (c : Conn) (w : PendingAck) (v : Option WsError)
    → verdict_of w.id c.mailbox ≡ none
    → verdict_of w.id (resolve c w v).mailbox ≡ some v
unfolding resolve verdict_of
resolve_self c w v h = ground arith

pub resolve-other :
    (c : Conn) (w : PendingAck) (v : Option WsError) (j : ℕ)
    → w.id ≢ j
    → verdict_of j (resolve c w v).mailbox ≡ verdict_of j c.mailbox
unfolding resolve verdict_of
resolve-other c w v j h = ground arith

-- A verdict that was sent stays.
pub resolve-keeps :
    (c : Conn) (w : PendingAck) (v : Option WsError) (j : ℕ) {u : Option WsError}
    → verdict_of j c.mailbox ≡ some u
    → verdict_of j (resolve c w v).mailbox ≡ some u
unfolding resolve verdict_of
resolve-keeps c w v j h = ground arith

pub resolve-frame :
    (c : Conn) (w : PendingAck) (v : Option WsError)
    → ((resolve c w v).pending ≡ c.pending) × ((resolve c w v).next_waiter ≡ c.next_waiter)
unfolding resolve
resolve-frame c w v = ground arith

-- Waiters from `lo` on are untouched by a verdict for one below.
quiet-resolve :
    (c : Conn) (w : PendingAck) (v : Option WsError) (lo hi : ℕ) (ws : List PendingAck)
    → w.id < lo
    → Ascending lo ws hi
    → All (λ x. verdict_of x.id c.mailbox ≡ none) ws
    → All (λ x. verdict_of x.id (resolve c w v).mailbox ≡ none) ws
quiet-resolve c w v lo hi [] h a q = tt
quiet-resolve c w v lo hi (x ∷ ws) h a q = (
  resolve-other c w v x.id (omega arith) ∙ q.0,
  quiet-resolve c w v (suc x.id) hi ws (omega arith) a.1 q.1,
)

pub resolve_all-keeps :
    (c : Conn) (ws : List PendingAck) (e : WsError) (j : ℕ) {u : Option WsError}
    → verdict_of j c.mailbox ≡ some u
    → verdict_of j (resolve_all c ws e).mailbox ≡ some u
unfolding resolve_all
resolve_all-keeps c [] e j h = h
resolve_all-keeps c (w ∷ ws) e j h =
    resolve_all-keeps (resolve c w (some e)) ws e j (resolve-keeps c w (some e) j h)

resolve_all-delivers :
    (c : Conn) (lo hi : ℕ) (ws : List PendingAck) (e : WsError)
    → Ascending lo ws hi
    → All (λ w. verdict_of w.id c.mailbox ≡ none) ws
    → All (λ w. verdict_of w.id (resolve_all c ws e).mailbox ≡ some (some e)) ws
unfolding resolve_all
resolve_all-delivers c lo hi [] e a q = tt
resolve_all-delivers c lo hi (w ∷ ws) e a q = (
  resolve_all-keeps (resolve c w (some e)) ws e w.id (resolve_self c w (some e) q.0),
  resolve_all-delivers (resolve c w (some e)) (suc w.id) hi ws e a.1
      (quiet-resolve c w (some e) (suc w.id) hi ws (omega arith) a.1 q.1),
)

pub resolve_all-frame :
    (c : Conn) (ws : List PendingAck) (e : WsError)
    → ((resolve_all c ws e).pending ≡ c.pending)
      × ((resolve_all c ws e).next_waiter ≡ c.next_waiter)
unfolding resolve_all
resolve_all-frame c [] e = (refl, refl)
resolve_all-frame c (w ∷ ws) e =
    ground (arith, resolve_all-frame (resolve c w (some e)) ws e, resolve-frame c w (some e))

-- When the socket dies no waiter is left over: each outstanding request has got the error.
pub fail_pending-delivers :
    (c : Conn) (e : WsError)
    → WaitersInv c
    → ((fail_pending c e).pending ≡ [])
      × All (λ w. verdict_of w.id (fail_pending c e).mailbox ≡ some (some e)) c.pending
unfolding fail_pending
fail_pending-delivers c e inv = (
  (resolve_all-frame (record c { pending = [] }) c.pending e).0,
  resolve_all-delivers (record c { pending = [] }) 0 c.next_waiter c.pending e inv.ascending
      inv.quiet,
)

take_first-append :
    (tr : Bytes) (before after : List PendingAck) (wait : PendingAck)
    → All (λ w. matches tr w ≡ false) before
    → matches tr wait ≡ true
    → take_first tr (before ++ (wait ∷ after)) ≡ (some wait, before ++ after)
unfolding take_first
take_first-append tr [] after wait skipped fits = rw fits
take_first-append tr (b ∷ before) after wait skipped fits =
    rw (skipped.0, take_first-append tr before after wait skipped.1 fits)

pub IsFirstMatch-take_pending :
    (c : Conn) (tr : Bytes) {wait : PendingAck} {rest : List PendingAck}
    → IsFirstMatch tr c.pending wait rest
    → take_pending c tr ≡ (some wait, record c { pending = rest })
unfolding take_pending
IsFirstMatch-take_pending c tr {wait} m =
    let found = take_first-append tr m.before m.after wait m.skipped m.fits in
    rw (m.splits, found, m.left)
