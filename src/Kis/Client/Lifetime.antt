-- ===== src/Kis/Client/Lifetime.antt =====
-- How long a token stays in the cache.
use go_kis.Prelude.{ℕ, ◌+◌, ◌*◌, ◌^◌, ◌<◌, ◌≡◌, ◌≢◌, ◌↔◌, arith, some, []}
use go_kis.Text.{Bytes, is_empty_iff}
use go_kis.Kis.Client.{Client, OAuthToken, second, lifetime, store_token, cached_token}

lifetime-add :
    (expires_in : ℕ)
    → expires_in * second < 2 ^ 63
    → lifetime expires_in + 60 * second ≡ expires_in * second + 2 ^ 63
unfolding lifetime
lifetime-add expires_in h = omega arith

-- A token whose lifetime in nanoseconds fits in 63 bits is given from the cache exactly while the
-- clock stands more than a minute before its end, counted from the reading after its issue; an
-- empty one is never given.
pub cached_token-store_token :
    (c : Client) (issued : OAuthToken) (issued_at now : ℕ) (key : Bytes)
    → issued.expires_in * second < 2 ^ 63
    → (cached_token (store_token c issued issued_at) now ≡ some key) ↔ (
        (issued.access_token ≡ key)
        × (key ≢ [])
        × (now + 60 * second < issued_at + issued.expires_in * second))
unfolding cached_token store_token
cached_token-store_token c issued issued_at now key h =
    ground (arith, lifetime-add issued.expires_in h, is_empty_iff issued.access_token)
