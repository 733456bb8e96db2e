-- ===== src/Kis/Message/Printable.antt =====
-- What a server can bring into the text of an error.
use go_kis.Prelude.{
  ℕ, zero, suc, ◌+◌, ◌/◌, ◌%◌, ◌≡◌, refl, inl, inr, Bool, true, not, ◌&&◌, ◌||◌, List, [], ◌∷◌,
  ◌++◌, Option, none, some, arith, if-holds, All, Bool-cases, leb, ltb,
}
use go_kis.Text.{Bytes, codes, text_eq, text_eq_iff, elem, is_empty, has_prefix_byte}
use go_kis.Text.Format.{decimal_on, decimal, sprint}
use go_kis.Kis.Client.{new_request}
use go_kis.Kis.Host.{Url}
use go_kis.Kis.Host.Allowed.{IsRestUrl}
use go_kis.Kis.Message.{
  transport_error_text, decode_error_text, api_error_text, api_message, error_message,
}
use go_kis.Kis.Reads.{supported, reads_of, supported_reads}
use go_kis.Kis.Response.{RestError, RestResult, Failure, classify_transport_failure}

-- From the space to the tilde: one line of ASCII.
unfoldable pub printable : Bytes → Bool
printable [] = true
printable (c ∷ s) = leb 32 c && ltb c 127 && printable s

abbrev pub IsPrintable : Bytes → Type 0
IsPrintable s = printable s ≡ true

append-IsPrintable : (s t : Bytes) → IsPrintable s → IsPrintable t → IsPrintable (s ++ t)
unfolding printable
append-IsPrintable [] t hs ht = ht
append-IsPrintable (c ∷ s) t hs ht = let rest = append-IsPrintable s t in ground arith

decimal_on-IsPrintable : (places n : ℕ) → IsPrintable (decimal_on places n)
unfolding decimal_on printable
decimal_on-IsPrintable zero n = refl
decimal_on-IsPrintable (suc places) n =
    let rest =
      append-IsPrintable (decimal_on places (n / 10)) ((b'0' + n % 10) ∷ [])
        (decimal_on-IsPrintable places (n / 10)) in
    ground arith

decimal-IsPrintable : (n : ℕ) → IsPrintable (decimal n)
unfolding decimal
decimal-IsPrintable n = decimal_on-IsPrintable 20 n

sprint-IsPrintable : (pieces : List Bytes) → All IsPrintable pieces → IsPrintable (sprint pieces)
unfolding sprint printable
sprint-IsPrintable [] all = refl
sprint-IsPrintable (s ∷ pieces) all =
    append-IsPrintable s (sprint pieces) all.0 (sprint-IsPrintable pieces all.1)

abbrev pub IsReadable : Option Bytes → Type 0
IsReadable none = Unit
IsReadable (some s) = IsPrintable s

-- The text of the error, where there is one.
abbrev pub HasReadableError : Bytes → RestResult → Type 0
HasReadableError host (RestResult.accepted raw) = Unit
HasReadableError host (RestResult.rejected error) = IsReadable (error_message host error)

abbrev pub IsReadableError : Bytes → Option RestError → Type 0
IsReadableError host none = Unit
IsReadableError host (some error) = IsReadable (error_message host error)

pub transport_failure-IsReadable :
    (host category path : Bytes)
    → IsPrintable host
    → IsPrintable category
    → IsPrintable path
    → HasReadableError host (RestResult.rejected (RestError.transport_failure category path))
unfolding error_message transport_error_text printable
transport_failure-IsReadable host category path h c p =
    sprint-IsPrintable
      (codes "kis: transport failure (category="
        ∷ category
        ∷ codes ", location="
        ∷ (host ++ path)
        ∷ codes ")"
        ∷ [])
      (refl, (c, (refl, (append-IsPrintable host path h p, (refl, tt)))))

pub decode_failed-IsReadable :
    (host : Bytes) (bytes offset : ℕ)
    → HasReadableError host (RestResult.rejected (RestError.decode_failed bytes offset))
unfolding error_message decode_error_text printable
decode_failed-IsReadable host bytes offset =
    sprint-IsPrintable
      (codes "kis: response decode failed (bytes="
        ∷ decimal bytes
        ∷ codes ", offset="
        ∷ decimal offset
        ∷ codes ")"
        ∷ [])
      (refl, (decimal-IsPrintable bytes, (refl, (decimal-IsPrintable offset, (refl, tt)))))

api_message-IsPrintable : (code : Bytes) → IsPrintable (api_message code)
unfolding api_message printable
api_message-IsPrintable code = if-holds IsPrintable (text_eq code _) _ _ refl refl

pub api_error-IsReadable :
    (host : Bytes) (status : ℕ) (code : Bytes)
    → IsPrintable code
    → HasReadableError host (RestResult.rejected (RestError.api_error status code))
unfolding error_message api_error_text printable
api_error-IsReadable host status code c =
    if-holds IsPrintable (not (is_empty code)) _ _
      (sprint-IsPrintable
        (codes "kis: API error (status="
          ∷ decimal status
          ∷ codes ", code="
          ∷ code
          ∷ codes "): "
          ∷ api_message code
          ∷ [])
        (
          refl,
          (decimal-IsPrintable status, (refl, (c, (refl, (api_message-IsPrintable code, tt))))),
        ))
      (sprint-IsPrintable
        (codes "kis: API error (status=" ∷ decimal status ∷ codes "): " ∷ api_message code ∷ [])
        (refl, (decimal-IsPrintable status, (refl, (api_message-IsPrintable code, tt)))))

pub category-IsPrintable : (f : Failure) → IsPrintable (classify_transport_failure f)
unfolding classify_transport_failure printable
category-IsPrintable f = if-holds IsPrintable f.deadline_exceeded _ _ refl (
    if-holds IsPrintable f.dns_error _ _ refl (
      if-holds IsPrintable (f.unknown_authority || f.hostname_error || f.certificate_invalid) _ _
        refl
        (if-holds IsPrintable f.network_timeout _ _ refl
          (if-holds IsPrintable f.op_error _ _ refl refl))))

pub new_request-IsReadableError :
    (host path : Bytes) (built : Bool) → IsReadableError host (new_request path built)
unfolding new_request error_message printable
new_request-IsReadableError host path built =
    if-holds (IsReadableError host) (not (has_prefix_byte b'/' path)) _ _ refl
      (if-holds (IsReadableError host) (not built) (some RestError.request_refused) none tt tt)

reads_of-path :
    (path tr_id : Bytes) (reads : List (Bytes × List Bytes))
    → All (λ r. IsPrintable r.0) reads
    → elem tr_id (reads_of path reads) ≡ true
    → IsPrintable path
unfolding reads_of elem
reads_of-path path tr_id [] all h = absurd cc
reads_of-path path tr_id ((p, trs) ∷ reads) all h = elim (Bool-cases (text_eq p path)) [
  | inl hit ↦ rw (← (text_eq_iff p path).0 hit) all.0
  | inr miss ↦ reads_of-path path tr_id reads all.1 (ground arith)
]

-- The path of a supported read is one of those of the table.
pub supported-IsPrintable : (path tr_id : Bytes) → supported path tr_id ≡ true → IsPrintable path
unfolding supported printable
supported-IsPrintable path tr_id h =
    reads_of-path path tr_id supported_reads (refl, (refl, (refl, (refl, tt)))) h

pub host-IsPrintable :
    (parse : Bytes → Option Url) (equal_fold : Bytes → Bytes → Bool) (to_lower : Bytes → Bytes)
    → (u : Url) (host : Bytes) → IsRestUrl parse equal_fold to_lower u host
    → IsPrintable host
unfolding printable
host-IsPrintable parse equal_fold to_lower u host r = elim r.names [
  | inl (name, port, e) ↦ rw (e) refl
  | inr (name, port, e) ↦ rw (e) refl
]
