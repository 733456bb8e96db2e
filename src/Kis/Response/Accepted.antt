-- ===== src/Kis/Response/Accepted.antt =====
-- Which exchanges the client accepts.
use go_kis.Prelude.{
  ℕ, zero, suc, ◌+◌, ◌≤◌, ◌<◌, ◌≡◌, ◌↔◌, ◌⊎◌, refl, ap, sym, ◌∙◌, inl, inr, Bool, true, false, [],
  ◌∷◌, Option, none, some, arith, if◌then◌else◌, length, take, Option-cases, ltb, leb, ◌&&◌,
}
use go_kis.Text.{Bytes, codes, text_eq_iff, is_empty, trim_space}
use go_kis.Kis.Response.{
  RestError, RestResult, Reply, response_limit, is_zero_code, check_envelope, decode_output,
  after_envelope, check_body, limited, check_response,
}

take-all : (n : ℕ) (body : Bytes) → length (take (suc n) body) ≤ n → take (suc n) body ≡ body
take-all zero [] h = refl
take-all zero (b ∷ body) h = absurd (omega arith)
take-all (suc n) [] h = refl
take-all (suc n) (b ∷ body) h = ap (◌∷◌ b) (take-all n body (omega arith))

take-short : (n : ℕ) (body : Bytes) → length body ≤ n → take (suc n) body ≡ body
take-short n [] h = refl
take-short zero (b ∷ body) h = absurd (omega arith)
take-short (suc n) (b ∷ body) h = ap (◌∷◌ b) (take-short n body (omega arith))

else-accepted :
    (b : Bool) (x : RestResult) (e : RestError) {raw : Bytes}
    → (if b then RestResult.rejected e else x) ≡ RestResult.accepted raw
    → x ≡ RestResult.accepted raw
else-accepted true x e h = absurd (ground arith)
else-accepted false x e h = h

accepted-else : (b : Bool) (x y z : RestResult) → b ≡ false → x ≡ y → (if b then z else x) ≡ y
accepted-else b x y z e h = rw (e) h

module _ (rt_cd_of : Bytes → Option Bytes) (string_of : Bytes → Option Bytes)
    (output_error : Bytes → Option ℕ) where
  -- The member rt_cd of the body is the string 0.
  pub record IsSuccess (raw : Bytes) : Type 0 where
    pub rt_cd : Bytes
    pub member : rt_cd_of raw ≡ some rt_cd
    pub string : string_of rt_cd ≡ some (codes "0")

  -- What an accepted body is.
  pub record IsGood (envelope has_output : Bool) (status : ℕ) (raw : Bytes) : Type 0 where
    pub low : 200 ≤ status
    pub high : status < 300
    pub fits : length raw ≤ response_limit
    pub success : (envelope ≡ false) ⊎ IsSuccess raw
    pub decodes :
        (has_output ≡ false) ⊎ (is_empty (trim_space raw) ≡ true) ⊎ (output_error raw ≡ none)

  check_envelope-IsSuccess :
      (status : ℕ) (raw : Bytes)
      → check_envelope rt_cd_of string_of output_error status (rt_cd_of raw) ≡ none
      → IsSuccess raw
  unfolding check_envelope is_zero_code
  check_envelope-IsSuccess status raw h = elim (Option-cases (rt_cd_of raw)) [
    | inl e ↦ absurd (ground arith)
    | inr (rt, e) ↦ elim (Option-cases (string_of rt)) [
      | inl bad ↦ absurd (ground arith)
      | inr (s, good) ↦ record {
        rt_cd = rt;
        member = e;
        string = good ∙ ap some (ground (arith, text_eq_iff s (codes "0")));
      }
    ]
  ]

  IsSuccess-check_envelope :
      (status : ℕ) (raw : Bytes)
      → IsSuccess raw
      → check_envelope rt_cd_of string_of output_error status (rt_cd_of raw) ≡ none
  unfolding check_envelope is_zero_code
  IsSuccess-check_envelope status raw w =
      rw (w.member, check_envelope)
        (rw (w.string, is_zero_code, (text_eq_iff (codes "0") (codes "0")).1 refl) refl)

  -- What the output asks of a body.
  abbrev pub Decodes : Bool → Bytes → Type 0
  Decodes has_output raw =
      (has_output ≡ false) ⊎ (is_empty (trim_space raw) ≡ true) ⊎ (output_error raw ≡ none)

  after_envelope-accepted :
      (has_output : Bool) (body raw : Bytes) (e : Option RestError)
      → after_envelope rt_cd_of string_of output_error has_output body e ≡ RestResult.accepted raw
      → (body ≡ raw) × (e ≡ none) × Decodes has_output body
  unfolding after_envelope decode_output
  after_envelope-accepted has_output body raw (some e) h = absurd (ground arith)
  after_envelope-accepted has_output body raw none h = elim (Option-cases (output_error body)) [
    | inl fine ↦ (ground arith, refl, inr (inr fine))
    | inr (offset, bad) ↦ (ground arith, refl, ground arith)
  ]

  Decodes-after_envelope :
      (has_output : Bool) (raw : Bytes)
      → Decodes has_output raw
      → after_envelope rt_cd_of string_of output_error has_output raw none ≡ RestResult.accepted raw
  unfolding after_envelope decode_output
  Decodes-after_envelope has_output raw d = ground arith

  envelope-IsSuccess :
      (envelope : Bool) (status : ℕ) (raw : Bytes)
      → (if envelope
          then check_envelope rt_cd_of string_of output_error status (rt_cd_of raw)
          else none)
        ≡ none
      → (envelope ≡ false) ⊎ IsSuccess raw
  envelope-IsSuccess false status raw h = inl refl
  envelope-IsSuccess true status raw h = inr (check_envelope-IsSuccess status raw h)

  IsSuccess-envelope :
      (envelope : Bool) (status : ℕ) (raw : Bytes)
      → (envelope ≡ false) ⊎ IsSuccess raw
      → (if envelope
          then check_envelope rt_cd_of string_of output_error status (rt_cd_of raw)
          else none)
        ≡ none
  IsSuccess-envelope envelope status raw (inl e) = rw (e) refl
  IsSuccess-envelope false status raw (inr w) = refl
  IsSuccess-envelope true status raw (inr w) = IsSuccess-check_envelope status raw w

  -- A body that is not refused by its size or status is judged by its envelope.
  check_body-passes :
      (envelope has_output : Bool) (status : ℕ) (body raw : Bytes)
      → check_body rt_cd_of string_of output_error envelope has_output status (some body)
        ≡ RestResult.accepted raw
      → (length body ≤ response_limit)
        × (200 ≤ status)
        × (status < 300)
        × (after_envelope rt_cd_of string_of output_error has_output body (
              if envelope
              then check_envelope rt_cd_of string_of output_error status (rt_cd_of body)
              else none)
            ≡ RestResult.accepted raw)
  unfolding check_body
  check_body-passes envelope has_output status body raw h = ground arith

  check_body-accepted :
      (envelope has_output : Bool) (status : ℕ) (body : Option Bytes) (raw : Bytes)
      → check_body rt_cd_of string_of output_error envelope has_output status body
        ≡ RestResult.accepted raw
      → (body ≡ some raw) × IsGood envelope has_output status raw
  unfolding check_body
  check_body-accepted envelope has_output status none raw h = absurd (ground arith)
  check_body-accepted envelope has_output status (some body) raw h =
      let (fits, low, high, after) = check_body-passes envelope has_output status body raw h in
      let (same, clean, decodes) = after_envelope-accepted has_output body raw _ after in
      (
        ap some same,
        rw (sym same) (record {
          low = low;
          high = high;
          fits = fits;
          success = envelope-IsSuccess envelope status body clean;
          decodes = decodes;
        }),
      )

  IsGood-check_body :
      (envelope has_output : Bool) (status : ℕ) (raw : Bytes)
      → IsGood envelope has_output status raw
      → check_body rt_cd_of string_of output_error envelope has_output status (some raw)
        ≡ RestResult.accepted raw
  unfolding check_body
  IsGood-check_body envelope has_output status raw w = ground (
    arith,
    w.low,
    w.high,
    w.fits,
    IsSuccess-envelope envelope status raw w.success,
    Decodes-after_envelope has_output raw w.decodes,
  )

  -- What an exchange is that is accepted.
  pub record IsAccepted (envelope has_output : Bool) (reply : Reply) (raw : Bytes) : Type 0 where
    pub status : ℕ
    pub answer : reply ≡ Reply.answered (record { status = status; body = some raw })
    pub good : IsGood envelope has_output status raw

  limited-some :
      (body : Option Bytes) (raw : Bytes)
      → limited rt_cd_of string_of output_error body ≡ some raw
      → length raw ≤ response_limit
      → body ≡ some raw
  unfolding limited
  limited-some none raw h fits = absurd (ground arith)
  limited-some (some body) raw h fits =
      let e : take (response_limit + 1) body ≡ raw = ground arith in
      ap some (sym (take-all response_limit body (rw (e) fits)) ∙ e)

  some-limited :
      (raw : Bytes)
      → length raw ≤ response_limit
      → limited rt_cd_of string_of output_error (some raw) ≡ some raw
  unfolding limited
  some-limited raw fits = ap some (take-short response_limit raw fits)

  check_response-IsAccepted :
      (envelope has_output : Bool) (path : Bytes) (reply : Reply) (raw : Bytes)
      → check_response rt_cd_of string_of output_error envelope has_output path reply
        ≡ RestResult.accepted raw
      → IsAccepted envelope has_output reply raw
  unfolding check_response
  check_response-IsAccepted envelope has_output path (Reply.failed f) raw h = absurd (ground arith)
  check_response-IsAccepted envelope has_output path (Reply.answered r) raw h =
      let rest = else-accepted (leb 300 r.status && ltb r.status 400) _ _ h in
      let (read, good) =
        check_body-accepted envelope has_output r.status
          (limited rt_cd_of string_of output_error r.body) raw rest in
      record {
        status = r.status;
        answer =
            ap (λ b. Reply.answered (record { status = r.status; body = b }))
              (limited-some r.body raw read good.fits);
        good = good;
      }

  IsAccepted-check_response :
      (envelope has_output : Bool) (path : Bytes) (reply : Reply) (raw : Bytes)
      → IsAccepted envelope has_output reply raw
      → check_response rt_cd_of string_of output_error envelope has_output path reply
        ≡ RestResult.accepted raw
  unfolding check_response
  IsAccepted-check_response envelope has_output path reply raw w =
      rw (w.answer, check_response)
        (accepted-else (leb 300 w.status && ltb w.status 400) _ _ _ (ground (arith, w.good.high)) (
          ap (check_body rt_cd_of string_of output_error envelope has_output w.status)
            (some-limited raw w.good.fits)
          ∙ IsGood-check_body envelope has_output w.status raw w.good))

  -- The client accepts an exchange exactly where the server answered with a status from 200 to
  -- 299 and a body within the limit, which it returns; where an envelope is expected, its rt_cd
  -- is the string 0, and where there is an output, the body is blank or decodes into it.
  pub check_response_iff :
      (envelope has_output : Bool) (path : Bytes) (reply : Reply) (raw : Bytes)
      → (check_response rt_cd_of string_of output_error envelope has_output path reply
          ≡ RestResult.accepted raw)
        ↔ IsAccepted envelope has_output reply raw
  check_response_iff envelope has_output path reply raw = (
    check_response-IsAccepted envelope has_output path reply raw,
    IsAccepted-check_response envelope has_output path reply raw,
  )
