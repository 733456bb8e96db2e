-- ===== src/Kis/Client/Logs.antt =====
-- What the parts of a request leave of the client.
use go_kis.Prelude.{
  ℕ, ◌≡◌, refl, Bool, [], ◌∷◌, Option, none, some, arith, if◌then◌else◌, if-holds, All, All-append,
}
use go_kis.Kis.Limiter.{Waited}
use go_kis.Kis.Response.{RestResult, Reply}
use go_kis.Kis.Client.{
  Client, Transmission, Exchange, OAuthToken, after_wait, transmit, keep_token, store_token,
}

-- What holds of all transmissions still does when one more goes out of which it holds.
module _ (P : Transmission → Type 0) where
  after_wait-All :
      (c : Client) (t : Transmission) (result : RestResult) (waited : Waited)
      → All P c.log
      → P t
      → All P (after_wait c t result waited).0.log
  unfolding after_wait
  after_wait-All c t result Waited.cancelled all one = all
  after_wait-All c t result (Waited.passed at) all one = All-append P c.log (t ∷ []) all (one, tt)

  pub transmit-All :
      (c : Client) (t : Transmission) (exchange : Exchange) (check : Reply → RestResult)
      → All P c.log
      → P t
      → All P (transmit c t exchange check).0.log
  unfolding transmit
  transmit-All c t exchange check all one = after_wait-All _ t _ _ all one

after_wait-access_token :
    (c : Client) (t : Transmission) (result : RestResult) (waited : Waited)
    → (after_wait c t result waited).0.access_token ≡ c.access_token
unfolding after_wait
after_wait-access_token c t result Waited.cancelled = refl
after_wait-access_token c t result (Waited.passed at) = refl

pub transmit-access_token :
    (c : Client) (t : Transmission) (exchange : Exchange) (check : Reply → RestResult)
    → (transmit c t exchange check).0.access_token ≡ c.access_token
unfolding transmit
transmit-access_token c t exchange check = after_wait-access_token _ t _ _

pub keep_token-log :
    (c : Client) (issued : Option OAuthToken) (at : ℕ) → (keep_token c issued at).0.log ≡ c.log
unfolding keep_token store_token
keep_token-log c none at = refl
keep_token-log c (some issued) at = ground arith

pub if-Client {ℓ} :
    {A : Type ℓ} (P : Client → Type 0) (b : Bool) (x y : Client × A)
    → P x.0
    → P y.0
    → P (if b then x else y).0
if-Client {A = A} P b x y = if-holds (λ (r : Client × A). P r.0) b x y
