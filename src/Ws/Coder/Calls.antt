-- ===== src/Ws/Coder/Calls.antt =====
-- The calls behind lists of effects.
use go_kis.Prelude.{◌≡◌, refl, sym, List, [], ◌∷◌, ◌++◌, append_assoc}
use go_kis.Text.{Bytes}
use go_kis.Kis.Subscribe.{Subscribe}
use go_kis.Ws.Coder.{calls_of, all_calls}
use go_kis.Ws.Conn.{Effect}

pub all_calls-append :
    (marshal : Subscribe → Bytes) (xs ys : List Effect)
    → all_calls marshal (xs ++ ys) ≡ all_calls marshal xs ++ all_calls marshal ys
unfolding all_calls
all_calls-append marshal [] ys = refl
all_calls-append marshal (x ∷ xs) ys =
    rw (all_calls-append marshal xs ys)
      (sym (append_assoc (calls_of marshal x) (all_calls marshal xs) (all_calls marshal ys)))
