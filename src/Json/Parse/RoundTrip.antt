-- ===== src/Json/Parse/RoundTrip.antt =====
-- What an encoded value reads as.
use go_kis.Prelude.{
  ℕ, zero, suc, ◌+◌, ◌≤◌, ◌≡◌, refl, Bool, true, false, [], ◌∷◌, Option, none, some, arith, length,
  length-append,
}
use go_kis.Text.{Bytes, is_empty}
use go_kis.Json.Quote.{quote, escape, escape_rune}
use go_kis.Json.Unquote.Characters.{coerced}
use go_kis.Json.Unquote.Escaped.{unquote-quote}
use go_kis.Json.Value.{comma_onto, Json, Members, encode, encode_members}
use go_kis.Json.Parse.{
  expect, parse_string, separated, parse_key, text_value, object_value, parse_value, parse_members,
  parse,
}

-- Every string coerced to valid UTF-8.
unfoldable mutual
  pub coerced_json : Json → Json
  coerced_json (Json.text s) = Json.text (coerced 0 s)
  coerced_json (Json.object ms) = Json.object (coerced_members ms)

  pub coerced_members : Members → Members
  coerced_members Members.no_members = Members.no_members
  coerced_members (Members.member k v ms) =
      Members.member (coerced 0 k) (coerced_json v) (coerced_members ms)

parse_string-quote : (s rest : Bytes) → parse_string (quote s rest) ≡ some (coerced 0 s, rest)
unfolding parse_string quote expect
parse_string-quote s rest = unquote-quote s rest

parse_key-quote :
    (first : Bool) (k rest : Bytes)
    → parse_key first (comma_onto first (quote k (b':' ∷ rest))) ≡ some (coerced 0 k, rest)
unfolding parse_key separated comma_onto expect
parse_key-quote true k rest = rw (parse_string-quote k (b':' ∷ rest)) refl
parse_key-quote false k rest = rw (parse_string-quote k (b':' ∷ rest)) refl

expect-member :
    (first : Bool) (k rest : Bytes) → expect b'}' (comma_onto first (quote k rest)) ≡ none
unfolding expect comma_onto quote
expect-member true k rest = refl
expect-member false k rest = refl

-- The number of values and of lists of members, which is the fuel that the reader takes.
unfoldable mutual
  size : Json → ℕ
  size (Json.text s) = 1
  size (Json.object ms) = suc (size_members ms)

  size_members : Members → ℕ
  size_members Members.no_members = 1
  size_members (Members.member k v ms) = suc (size v + size_members ms)

abbrev Reads {ℓ} :
    {A : Type ℓ} → (ℕ → Bytes → Option (A × Bytes)) → ℕ → (Bytes → Bytes) → A → Type ℓ
Reads p enough printed a = (f : ℕ) (rest : Bytes) → enough ≤ f → p f (printed rest) ≡ some (a, rest)

module _ {ℓ} {A : Type ℓ} (p : ℕ → Bytes → Option (A × Bytes)) (printed : Bytes → Bytes)
    (a : A) where
  -- The first unit of fuel.
  with_fuel :
      (n : ℕ)
      → ((f : ℕ) (rest : Bytes) → n ≤ f → p (suc f) (printed rest) ≡ some (a, rest))
      → Reads p (suc n) printed a
  with_fuel n step zero rest h = absurd (omega arith)
  with_fuel n step (suc f) rest h = step f rest (omega arith)

abbrev ReadsValue : Json → Type 0
ReadsValue v = Reads parse_value (size v) (encode v) (coerced_json v)

abbrev ReadsMembers : Members → Type 0
ReadsMembers ms =
    (first : Bool)
    → Reads (λ f. parse_members f first) (size_members ms) (encode_members first ms)
        (coerced_members ms)

parse_value_text : (s : Bytes) → ReadsValue (Json.text s)
unfolding size encode coerced_json parse_value expect quote text_value
parse_value_text s =
    with_fuel parse_value (encode (Json.text s)) (coerced_json (Json.text s)) 0
      λ f rest h. rw (parse_string-quote s rest) refl

parse_value_object : (ms : Members) → ReadsMembers ms → ReadsValue (Json.object ms)
unfolding size encode coerced_json parse_value expect object_value
parse_value_object ms ih =
    with_fuel parse_value (encode (Json.object ms)) (coerced_json (Json.object ms)) _
      λ f rest h. rw (ih true f rest h) refl

parse_members_nil : ReadsMembers Members.no_members
unfolding size_members encode_members coerced_members parse_members expect
parse_members_nil first =
    with_fuel (λ f. parse_members f first) (encode_members first Members.no_members)
      Members.no_members 0 λ f rest h. refl

parse_members_member :
    (k : Bytes) (v : Json) (ms : Members)
    → ReadsValue v
    → ReadsMembers ms
    → ReadsMembers (Members.member k v ms)
unfolding size_members encode_members coerced_members parse_members
parse_members_member k v ms ih ihs first =
    with_fuel (λ f. parse_members f first) (encode_members first (Members.member k v ms))
      (coerced_members (Members.member k v ms)) (size v + size_members ms)
      λ f rest h.
        rw
          (
            parse_members,
            encode_members,
            expect-member first k (b':' ∷ encode v (encode_members false ms rest)),
            parse_key-quote first k (encode v (encode_members false ms rest)),
            ih f (encode_members false ms rest) (omega arith),
            ihs false f rest (omega arith),
          )
          refl

parse_value-encode : (v : Json) → ReadsValue v
parse_value-encode v = elim v as ReadsValue ReadsMembers [
  | Json.text s ↦ parse_value_text s
  | Json.object (ms → ih) ↦ parse_value_object ms ih
  | Members.no_members ↦ parse_members_nil
  | Members.member k (v → ih) (ms → ihs) ↦ parse_members_member k v ms ih ihs
]

length-escape :
    (copied : Bool) (n : ℕ) (s rest : Bytes) → 1 + length rest ≤ length (escape copied n s rest)
unfolding escape
length-escape copied n [] rest = omega arith
length-escape true (suc n) (c ∷ s) rest = omega (arith, length-escape true n s rest)
length-escape false (suc n) (c ∷ s) rest = length-escape false n s rest
length-escape copied zero (c ∷ s) rest =
    let (piece, next, n) = escape_rune c s in
    omega (arith, length-append piece (escape next n s rest), length-escape next n s rest)

length-comma_onto : (first : Bool) (s : Bytes) → length s ≤ length (comma_onto first s)
unfolding comma_onto
length-comma_onto true s = omega arith
length-comma_onto false s = omega arith

length-quote : (s rest : Bytes) → 1 + length rest ≤ length (quote s rest)
unfolding quote
length-quote s rest = omega (arith, length-escape true 0 s rest)

abbrev IsLong : ℕ → (Bytes → Bytes) → Type 0
IsLong n printed = (rest : Bytes) → n + length rest ≤ length (printed rest)

length-encode : (v : Json) → IsLong (size v) (encode v)
unfolding size size_members encode encode_members
length-encode v =
    elim v
      as (λ v. IsLong (size v) (encode v)) (λ ms.
        (first : Bool) → IsLong (size_members ms) (encode_members first ms)) [
          | Json.text s ↦ λ rest. length-quote s rest
          | Json.object (ms → ih) ↦ λ rest. omega (arith, ih true rest)
          | Members.no_members ↦ λ first rest. omega arith
          | Members.member k (v → ih) (ms → ihs) ↦ λ first rest. omega (
            arith,
            length-comma_onto first (quote k (b':' ∷ encode v (encode_members false ms rest))),
            length-quote k (b':' ∷ encode v (encode_members false ms rest)),
            ih (encode_members false ms rest),
            ihs false rest,
          )
        ]

-- The text of a value reads back as that value, its strings coerced to valid UTF-8.
pub parse-encode : (v : Json) → parse (encode v []) ≡ some (coerced_json v)
unfolding parse is_empty
parse-encode v =
    rw (parse_value-encode v (suc (length (encode v []))) [] (omega (arith, length-encode v [])))
      refl
