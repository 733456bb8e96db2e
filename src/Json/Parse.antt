-- ===== src/Json/Parse.antt =====
-- A reader of JSON texts without white space, of objects and strings. What a call leaves of its
-- text is no structural part of it, so that each call takes a unit of fuel.
pub mod RoundTrip
use go_kis.Prelude.{
  ◌>>=◌, ℕ, zero, suc, Bool, true, false, not, ◌&&◌, [], ◌∷◌, Option, none, some, length, ◌==◌,
  if◌then◌else◌,
}
use go_kis.Text.{Bytes, is_empty}
use go_kis.Json.Unquote.{Mode, unquote}
use go_kis.Json.Value.{Json, Members}

-- A byte that has to come next.
unfoldable pub expect : ℕ → Bytes → Option Bytes
expect c [] = none
expect c (d ∷ s) = if c == d then some s else none

unfoldable pub starts_with : ℕ → Bytes → Bool
starts_with c [] = false
starts_with c (d ∷ s) = c == d

unfoldable pub parse_string : Bytes → Option (Bytes × Bytes)
unfolding expect unquote
parse_string s = do r ← expect 34 s; unquote Mode.plain r

unfoldable pub separated : Bool → Bytes → Option Bytes
unfolding expect
separated first s = if first then some s else expect b',' s

-- A key and the colon behind it.
unfoldable pub parse_key : Bool → Bytes → Option (Bytes × Bytes)
unfolding separated parse_string expect
parse_key first s = do
  r ← separated first s
  (k, after) ← parse_string r
  value ← expect b':' after
  some (k, value)

unfoldable pub text_value : Option (Bytes × Bytes) → Option (Json × Bytes)
text_value none = none
text_value (some (s, rest)) = some (Json.text s, rest)

unfoldable pub object_value : Option (Members × Bytes) → Option (Json × Bytes)
object_value none = none
object_value (some (ms, rest)) = some (Json.object ms, rest)

unfoldable mutual
  pub parse_value : ℕ → Bytes → Option (Json × Bytes)
  parse_value zero s = none
  parse_value (suc f) s = elim (expect b'{' s) [
    | some r ↦ object_value (parse_members f true r)
    | none ↦ text_value (parse_string s)
  ]

  pub parse_members : ℕ → Bool → Bytes → Option (Members × Bytes)
  parse_members zero first s = none
  parse_members (suc f) first s = elim (expect b'}' s) [
    | some r ↦ some (Members.no_members, r)
    | none ↦ do
      (k, r) ← parse_key first s
      (v, after) ← parse_value f r
      (ms, rest) ← parse_members f false after
      some (Members.member k v ms, rest)
  ]

-- A whole text; each unit of fuel is for a value or a member, which takes at least one byte.
unfoldable pub parse : Bytes → Option Json
parse s = do (v, rest) ← parse_value (suc (length s)) s; if is_empty rest then some v else none
