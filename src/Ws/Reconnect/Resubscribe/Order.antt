-- ===== src/Ws/Reconnect/Resubscribe/Order.antt =====
-- What a restoring pass sends, and in which order.
use go_kis.Prelude.{
  map, ℕ, ◌≡◌, refl, ap, ◌∙◌, Bool, true, false, List, [], ◌∷◌, ◌++◌, none, some, arith,
  if◌then◌else◌, append-nil, length, not, ap₂,
}
use go_kis.Text.{Bytes}
use go_kis.Ws.Conn.{
  Conn, Subscription, Effect, ReconnectInfo, Answer, request, request_frame, tr_type_subscribe,
}
use go_kis.Ws.Reconnect.Resubscribe.{generation_changed, is_failure, restore, resubscribe}
use go_kis.Ws.Reconnect.{notify}
use go_kis.Ws.Reconnect.Resubscribe.Steady.{IsSteady, IsSmooth, IsSteady-trans, request-IsSteady}

-- One such answer for each subscription.
abbrev pub AllSmooth : List Subscription → List Answer → Type 0
AllSmooth [] answers = Unit
AllSmooth (s ∷ subs) [] = ⊥
AllSmooth (s ∷ subs) (a ∷ answers) = IsSmooth a × AllSmooth subs answers

abbrev pub frames : ℕ → Bytes → List Subscription → List Effect
frames t key = map (λ s. Effect.wrote t (request_frame key tr_type_subscribe s.tr s.key) none)

unchanged :
    (c : Conn) (g : ℕ) → c.closed ≡ false → c.generation ≡ g → generation_changed c g ≡ false
unfolding generation_changed
unchanged c g is_open same = ground arith

-- With the first and the last test false, the second does not matter.
last-branch {ℓ} :
    {A : Type ℓ} (b failed later : Bool) (x y z : A)
    → b ≡ false
    → later ≡ false
    → (if b then x else if failed then (if later then y else z) else z) ≡ z
last-branch b true later x y z e f = rw (e, f) refl
last-branch b false later x y z e f = rw (e) refl

restore-next :
    (c : Conn) (g : ℕ) (s : Subscription) (subs : List Subscription) (a : Answer)
    (answers : List Answer)
    → c.closed ≡ false
    → c.generation ≡ g
    → (request c tr_type_subscribe s.tr s.key a).0.closed ≡ false
    → (request c tr_type_subscribe s.tr s.key a).0.generation ≡ g
    → restore c g (s ∷ subs) (a ∷ answers)
      ≡ restore (request c tr_type_subscribe s.tr s.key a).0 g subs answers
unfolding restore
restore-next c g s subs a answers is_open now still_open same =
    let (d, error) = request c tr_type_subscribe s.tr s.key a in
    last-branch (generation_changed c g) (is_failure error) (generation_changed d g) (c, false)
      (d, false) (restore d g subs answers) (unchanged c g is_open now)
      (unchanged d g still_open same)

restore-IsSteady :
    (c : Conn) (t g : ℕ) (k : Bytes) (subs : List Subscription) (answers : List Answer)
    → c.closed ≡ false
    → c.transport ≡ some t
    → c.generation ≡ g
    → c.key ≡ k
    → AllSmooth subs answers
    → IsSteady c (restore c g subs answers).0 (frames t k subs)
      × ((restore c g subs answers).1 ≡ true)
unfolding restore
restore-IsSteady c t g k [] answers is_open up now with_key w =
    (ground (arith, append-nil c.log), refl)
restore-IsSteady c t g k (s ∷ subs) [] is_open up now with_key w = elim w [ ]
restore-IsSteady c t g k (s ∷ subs) (a ∷ answers) is_open up now with_key w =
    let one = request-IsSteady c t k s.tr s.key a is_open up with_key w.0 in
    let d = (request c tr_type_subscribe s.tr s.key a).0 in
    let (rest, finished) =
      restore-IsSteady d t g k subs answers (one.closed ∙ is_open) (one.transport ∙ up)
        (one.generation ∙ now) (one.key ∙ with_key) w.1 in
    let next =
      restore-next c g s subs a answers is_open now (one.closed ∙ is_open) (one.generation ∙ now) in
    (rw (next) (IsSteady-trans one rest), ap (λ r. r.1) next ∙ finished)

notify-log :
    (d : Conn) (info : ReconnectInfo)
    → (notify d info).log ≡ d.log ++ (if d.has_on_reconnect then Effect.notified info ∷ [] else [])
unfolding notify
notify-log d info = ground (arith, append-nil d.log)

ends-notify :
    (finished changed : Bool) (d e : Conn)
    → finished ≡ true
    → changed ≡ false
    → (if not finished then d else if changed then d else e) ≡ e
ends-notify finished changed d e h g = rw (h, g) refl

-- A pass on a new socket that nothing disturbs writes one subscribe frame for each subscription,
-- in subscribe order and under the key in use, whatever the verdicts; then it reports, where
-- OnReconnect is set, the number of subscriptions that it started with, those that the server has
-- refused in this pass included, and makes no other call.
pub resubscribe-log :
    (c : Conn) (t attempt now : ℕ) (answers : List Answer)
    → c.closed ≡ false
    → c.transport ≡ some t
    → AllSmooth c.subs answers
    → (resubscribe c c.generation attempt now answers).log
      ≡ c.log
        ++ frames t c.key c.subs
        ++ (if c.has_on_reconnect
            then Effect.notified (record {
              attempt = attempt;
              subscriptions = length c.subs;
              stopped = false;
              error = none;
              observed_at = now;
            })
              ∷ []
            else [])
unfolding resubscribe notify
resubscribe-log c t attempt now answers is_open up w =
    let (steady, finished) =
      restore-IsSteady c t c.generation c.key c.subs answers is_open up refl refl w in
    let d = (restore c c.generation c.subs answers).0 in
    let info : ReconnectInfo = record {
      attempt = attempt;
      subscriptions = length c.subs;
      stopped = false;
      error = none;
      observed_at = now;
    } in
    ap (λ e. e.log)
      (ends-notify (restore c c.generation c.subs answers).1 (generation_changed d c.generation) d
        (notify d info) finished
        (unchanged d c.generation (steady.closed ∙ is_open) steady.generation))
    ∙ notify-log d info
    ∙ ap₂ (λ l b. l ++ (if b then Effect.notified info ∷ [] else [])) steady.log
        steady.has_on_reconnect
