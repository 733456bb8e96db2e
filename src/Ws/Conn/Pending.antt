-- ===== src/Ws/Conn/Pending.antt =====
-- kis/ws/reconnect.go, the part on outstanding requests: takePending, forget, failPending, resolve.
use go_kis.Prelude.{ℕ, Bool, ◌||◌, List, [], ◌∷◌, Option, none, some, if◌then◌else◌, ◌==◌}
use go_kis.Text.{Bytes, text_eq, is_empty}
use go_kis.Ws.Conn.State.{PendingAck, Conn}
use go_kis.Ws.Errors.{WsError}

-- What was sent on a waiter's channel.
unfoldable pub verdict_of : ℕ → List (ℕ × Option WsError) → Option (Option WsError)
verdict_of id [] = none
verdict_of id ((j, v) ∷ box) = if j == id then some v else verdict_of id box

-- The channel holds one verdict; a second one is not sent.
unfoldable pub resolve : Conn → PendingAck → Option WsError → Conn
resolve c wait verdict = elim (verdict_of wait.id c.mailbox) [
  | some _ ↦ c
  | none ↦ record c { mailbox = (wait.id, verdict) ∷ c.mailbox }
]

unfoldable pub matches : Bytes → PendingAck → Bool
matches tr wait = is_empty tr || text_eq wait.tr tr

-- The first match of a list, and the list without it.
unfoldable pub take_first : Bytes → List PendingAck → Option PendingAck × List PendingAck
unfolding matches
take_first tr [] = (none, [])
take_first tr (wait ∷ rest) =
    if matches tr wait
    then (some wait, rest)
    else ((take_first tr rest).0, wait ∷ (take_first tr rest).1)

unfoldable pub take_pending : Conn → Bytes → Option PendingAck × Conn
take_pending c tr =
    let (found, rest) = take_first tr c.pending in (found, record c { pending = rest })

unfoldable pub remove_waiter : ℕ → List PendingAck → List PendingAck
remove_waiter id [] = []
remove_waiter id (wait ∷ rest) = if wait.id == id then rest else wait ∷ remove_waiter id rest

unfoldable pub forget : Conn → PendingAck → Conn
unfolding remove_waiter
forget c wait = record c { pending = remove_waiter wait.id c.pending }

unfoldable pub resolve_all : Conn → List PendingAck → WsError → Conn
unfolding resolve
resolve_all c [] error = c
resolve_all c (wait ∷ rest) error = resolve_all (resolve c wait (some error)) rest error

unfoldable pub fail_pending : Conn → WsError → Conn
fail_pending c error = resolve_all (record c { pending = [] }) c.pending error
