-- ===== src/Kis/Subscribe/Marshal.antt =====
-- kis/websocket.go: the text of a subscribe request, by the json tags of its types, and what the
-- server takes from such a text.
use go_kis.Prelude.{◌>>=◌, ◌≡◌, refl, [], Option, none, some, if◌then◌else◌}
use go_kis.Text.{Bytes, codes, text_eq}
use go_kis.Json.Parse.RoundTrip.{coerced_json, coerced_members, parse-encode}
use go_kis.Json.Unquote.Characters.{coerced}
use go_kis.Json.{Json, Members, encode, parse}
use go_kis.Kis.Subscribe.{SubscribeHeader, SubscribeInput, SubscribeBody, Subscribe}

unfoldable pub header_json : SubscribeHeader → Json
header_json h = Json.object (
    Members.member (codes "approval_key") (Json.text h.approval_key) (
      Members.member (codes "custtype") (Json.text h.cust_type) (
        Members.member (codes "tr_type") (Json.text h.tr_type)
          (Members.member (codes "content-type") (Json.text h.content_type) Members.no_members))))

unfoldable pub input_json : SubscribeInput → Json
input_json i = Json.object (
    Members.member (codes "tr_id") (Json.text i.tr_id)
      (Members.member (codes "tr_key") (Json.text i.tr_key) Members.no_members))

unfoldable pub body_json : SubscribeBody → Json
unfolding input_json
body_json b = Json.object (Members.member (codes "input") (input_json b.input) Members.no_members)

unfoldable pub subscribe_json : Subscribe → Json
unfolding header_json body_json
subscribe_json s = Json.object (
    Members.member (codes "header") (header_json s.header)
      (Members.member (codes "body") (body_json s.body) Members.no_members))

-- json.Marshal, which cannot fail on strings.
unfoldable pub marshal_subscribe : Subscribe → Bytes
unfolding subscribe_json
marshal_subscribe s = encode (subscribe_json s) []

-- The last member of a name, as a reader takes it that lets later ones replace earlier ones.
unfoldable pub member_of : Bytes → Members → Option Json
member_of name Members.no_members = none
member_of name (Members.member k v ms) = elim (member_of name ms) [
  | some later ↦ some later
  | none ↦ if text_eq k name then some v else none
]

unfoldable pub field_of : Bytes → Json → Option Json
unfolding member_of
field_of name (Json.text s) = none
field_of name (Json.object ms) = member_of name ms

unfoldable pub text_of : Option Json → Option Bytes
text_of (some (Json.text s)) = some s
text_of _ = none

-- What a server takes from a text, by the names of the members.
unfoldable pub read_subscribe : Bytes → Option Subscribe
unfolding field_of text_of
read_subscribe raw = do
  frame ← parse raw
  header ← field_of (codes "header") frame
  body ← field_of (codes "body") frame
  input ← field_of (codes "input") body
  approval_key ← text_of (field_of (codes "approval_key") header)
  cust_type ← text_of (field_of (codes "custtype") header)
  tr_type ← text_of (field_of (codes "tr_type") header)
  content_type ← text_of (field_of (codes "content-type") header)
  tr_id ← text_of (field_of (codes "tr_id") input)
  tr_key ← text_of (field_of (codes "tr_key") input)
  some (record {
    header = record {
      approval_key = approval_key;
      cust_type = cust_type;
      tr_type = tr_type;
      content_type = content_type;
    };
    body = record { input = record { tr_id = tr_id; tr_key = tr_key } };
  })

-- A frame whose texts are valid UTF-8, or made so.
abbrev pub coerced_subscribe : Subscribe → Subscribe
coerced_subscribe s = record {
  header = record {
    approval_key = coerced 0 s.header.approval_key;
    cust_type = coerced 0 s.header.cust_type;
    tr_type = coerced 0 s.header.tr_type;
    content_type = coerced 0 s.header.content_type;
  };
  body = record {
    input = record { tr_id = coerced 0 s.body.input.tr_id; tr_key = coerced 0 s.body.input.tr_key };
  };
}

-- Whatever bytes a frame's texts hold, quotes and braces among them, its text reads back as that
-- frame, member by member; only bytes that are no UTF-8 are replaced.
pub read-marshal_subscribe :
    (s : Subscribe) → read_subscribe (marshal_subscribe s) ≡ some (coerced_subscribe s)
unfolding read_subscribe marshal_subscribe subscribe_json header_json body_json input_json
    coerced_json coerced_members field_of member_of text_of text_eq coerced
read-marshal_subscribe s = rw (parse-encode (subscribe_json s), read_subscribe) refl
