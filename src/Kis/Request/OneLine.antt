-- ===== src/Kis/Request/OneLine.antt =====
-- No header of a transmission can be broken off.
use go_kis.Prelude.{
  ℕ, ◌≡◌, refl, inl, inr, Bool, true, List, [], ◌∷◌, ◌++◌, Option, none, some, arith, if-holds, All,
  All-append, not, Bool-cases, ◌&&◌,
}
use go_kis.Text.{Bytes, codes, text_eq, text_eq_iff, elem, is_empty, contains_byte}
use go_kis.Kis.Client.{Transmission, OAuthToken, safe_header}
use go_kis.Kis.Client.Bearers.{bearer_safe, read_all-HasSafeTokens}
use go_kis.Kis.Client.Sent.{ReadCall}
use go_kis.Kis.Client.ReadOnly.{IsReadOnly, read_all, read_all-IsReadOnly}
use go_kis.Kis.Create.{ClientConfig, BuiltClient, ClientResult, new_client, fresh_client}
use go_kis.Kis.Create.Ready.{new_client_iff}
use go_kis.Kis.Host.{Url}
use go_kis.Kis.Transport.{HttpTransport, RoundTripper}
use go_kis.Kis.Reads.{supported, reads_of, supported_reads}
use go_kis.Kis.Request.{headers_of, authorization, signature, is_auth, body_of, hashkey_path}

elem-All : (P : Bytes → Type 0) (k : Bytes) (xs : List Bytes) → All P xs → elem k xs ≡ true → P k
unfolding elem
elem-All P k [] all h = absurd cc
elem-All P k (x ∷ xs) all h = elim (Bool-cases (text_eq x k)) [
  | inl hit ↦ rw (← (text_eq_iff x k).0 hit) all.0
  | inr miss ↦ elem-All P k xs all.1 (ground arith)
]

reads_of-All :
    (P : Bytes → Type 0) (path : Bytes) (reads : List (Bytes × List Bytes))
    → All (λ r. All P r.1) reads
    → All P (reads_of path reads)
unfolding reads_of
reads_of-All P path [] all = tt
reads_of-All P path ((p, trs) ∷ reads) all =
    if-holds (All P) (text_eq p path) trs _ all.0 (reads_of-All P path reads all.1)

abbrev pub IsSafe : Bytes → Type 0
IsSafe s = safe_header s ≡ true

supported-IsSafe : (path tr_id : Bytes) → supported path tr_id ≡ true → IsSafe tr_id
unfolding supported safe_header contains_byte
supported-IsSafe path tr_id h =
    elem-All IsSafe tr_id (reads_of path supported_reads)
      (reads_of-All IsSafe path supported_reads
        ((refl, (refl, tt)), ((refl, (refl, tt)), ((refl, (refl, tt)), ((refl, (refl, tt)), tt)))))
      h

bearer-IsSafe : (token : Bytes) → IsSafe token → IsSafe (codes "Bearer " ++ token)
unfolding safe_header contains_byte
bearer-IsSafe token h = h

abbrev pub AreSafe : List (Bytes × Bytes) → Type 0
AreSafe = All (λ h. IsSafe h.1)

authorization-AreSafe : (o : Option Bytes) → bearer_safe o ≡ true → AreSafe (authorization o)
unfolding authorization bearer_safe
authorization-AreSafe none h = tt
authorization-AreSafe (some token) h = (bearer-IsSafe token h, tt)

headers_of-AreSafe :
    (b : BuiltClient) (t : Transmission)
    → IsSafe b.app_key
    → IsSafe b.app_secret
    → IsSafe t.tr_id
    → bearer_safe t.bearer ≡ true
    → AreSafe (headers_of b t)
unfolding headers_of signature safe_header contains_byte
headers_of-AreSafe b t key secret tr_id bearer =
    All-append _ _ _
      (All-append _ _ _
        (if-holds AreSafe (not (is_auth t.path) && not (text_eq t.path hashkey_path))
          (authorization t.bearer) [] (authorization-AreSafe t.bearer bearer) tt)
        (if-holds AreSafe (not (is_auth t.path)) (signature b t.tr_id) []
          (key, (secret, (tr_id, (refl, tt)))) tt))
      (if-holds AreSafe (not (is_empty (body_of b t.path)))
        ((codes "content-type", codes "application/json") ∷ []) [] (refl, tt) tt)

sent-safe :
    (b : BuiltClient) (log : List Transmission)
    → IsSafe b.app_key
    → IsSafe b.app_secret
    → All IsReadOnly log
    → All (λ t. bearer_safe t.bearer ≡ true) log
    → All (λ t. AreSafe (headers_of b t)) log
unfolding safe_header contains_byte
sent-safe b [] key secret reads bearers = tt
sent-safe b (t ∷ log) key secret (inl (get, ok, bearer), reads) (safe, bearers) = (
  headers_of-AreSafe b t key secret (supported-IsSafe t.path t.tr_id ok) safe,
  sent-safe b log key secret reads bearers,
)
sent-safe b (t ∷ log) key secret (inr is_token, reads) (safe, bearers) = (
  headers_of-AreSafe b t key secret (rw is_token refl) safe,
  sent-safe b log key secret reads bearers,
)

module _ (rt_cd_of : Bytes → Option Bytes) (string_of : Bytes → Option Bytes)
    (output_error : Bytes → Option ℕ) (token_error : Bytes → Option ℕ)
    (token_of : Bytes → OAuthToken) (parse : Bytes → Option Url) (equal_fold : Bytes → Bytes → Bool)
    (to_lower : Bytes → Bytes) (clone : HttpTransport → HttpTransport)
    (default : RoundTripper) where
  -- Whatever is read with a client that NewClient has built, and whatever tokens the caller's
  -- provider or the server give, no header of any request that the client sends holds a line
  -- break: not the credentials, the transaction, the token or the content type.
  pub read_all-one_line :
      (cfg : ClientConfig) (calls : List ReadCall) {b : BuiltClient}
      → new_client parse equal_fold to_lower clone default cfg ≡ ClientResult.built b
      → All
          (λ t. AreSafe (headers_of b t))
          (read_all rt_cd_of string_of output_error token_error token_of b.client calls).log
  unfolding fresh_client safe_header contains_byte
  read_all-one_line cfg calls {b} built =
      let w = (new_client_iff parse equal_fold to_lower clone default cfg b).0 built in
      sent-safe b _ (rw w.keeps_key w.app_key.one_line) (rw w.keeps_secret w.app_secret.one_line)
        (read_all-IsReadOnly rt_cd_of string_of output_error token_error token_of b.client calls
          (rw w.fresh tt))
        (read_all-HasSafeTokens rt_cd_of string_of output_error token_error token_of b.client calls
          (rw w.fresh (record { cached = refl; sent = tt }))).sent
