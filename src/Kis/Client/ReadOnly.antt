-- ===== src/Kis/Client/ReadOnly.antt =====
-- What the client ever transmits.
use go_kis.Prelude.{ℕ, ◌≡◌, ◌⊎◌, inl, inr, refl, true, List, [], ◌∷◌, Option, some, All}
use go_kis.Text.{Bytes}
use go_kis.Kis.Client.Sent.{ReadCall, read-All}
use go_kis.Kis.Client.{Client, Transmission, OAuthToken, method_get, token_request, read}
use go_kis.Kis.Reads.{supported}

-- A supported read with a token, or the request for a token.
abbrev pub IsReadOnly : Transmission → Type 0
IsReadOnly t =
    ((t.method ≡ method_get)
      × (supported t.path t.tr_id ≡ true)
      × ((bearer : Bytes) × (t.bearer ≡ some bearer)))
    ⊎ (t ≡ token_request)

module _ (rt_cd_of : Bytes → Option Bytes) (string_of : Bytes → Option Bytes)
    (output_error : Bytes → Option ℕ) (token_error : Bytes → Option ℕ)
    (token_of : Bytes → OAuthToken) where
  abbrev pub read_all : Client → List ReadCall → Client
  read_all c [] = c
  read_all c (r ∷ calls) =
      read_all
        (read rt_cd_of string_of output_error token_error token_of c r.path r.tr_id r.query
          r.has_output r.answer r.exchange).0
        calls

  -- Whatever is read, the client transmits nothing but GET requests of a supported path and
  -- transaction, each with a token, and requests for a token.
  pub read_all-IsReadOnly :
      (c : Client) (calls : List ReadCall)
      → All IsReadOnly c.log
      → All IsReadOnly (read_all c calls).log
  read_all-IsReadOnly c [] all = all
  read_all-IsReadOnly c (r ∷ calls) all =
      read_all-IsReadOnly
        (read rt_cd_of string_of output_error token_error token_of c r.path r.tr_id r.query
          r.has_output r.answer r.exchange).0
        calls
        (read-All IsReadOnly (inr refl) rt_cd_of string_of output_error token_error token_of c r
          (λ known bearer. inl (refl, known, (bearer, refl))) all)
