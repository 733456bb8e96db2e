-- ===== src/Json/Value.antt =====
-- Objects whose members are strings and objects, and the text that they become.
use go_kis.Prelude.{Bool, true, false, ◌∷◌, if◌then◌else◌}
use go_kis.Text.{Bytes}
use go_kis.Json.Quote.{quote}

mutual
  pub data Json : Type 0 where
    text : Bytes → Json
    object : Members → Json

  pub data Members : Type 0 where
    no_members : Members
    member : Bytes → Json → Members → Members

unfoldable pub comma_onto : Bool → Bytes → Bytes
comma_onto first rest = if first then rest else b',' ∷ rest

-- Each text stands in front of what follows it.
unfoldable mutual
  pub encode : Json → Bytes → Bytes
  encode (Json.text s) rest = quote s rest
  encode (Json.object ms) rest = b'{' ∷ encode_members true ms rest

  pub encode_members : Bool → Members → Bytes → Bytes
  encode_members first Members.no_members rest = b'}' ∷ rest
  encode_members first (Members.member k v ms) rest =
      comma_onto first (quote k (b':' ∷ encode v (encode_members false ms rest)))
