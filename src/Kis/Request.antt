-- ===== src/Kis/Request.antt =====
-- kis/request.go and kis/auth.go: the headers and the body that a transmission has.
pub mod OneLine
use go_kis.Prelude.{Bool, not, ◌&&◌, ◌||◌, List, [], ◌∷◌, ◌++◌, Option, none, some, if◌then◌else◌}
use go_kis.Text.{Bytes, codes, text_eq, is_empty}
use go_kis.Json.{Json, Members, encode}
use go_kis.Kis.ApprovalKey.{approval_path}
use go_kis.Kis.Client.{Transmission, token_path}
use go_kis.Kis.Create.{BuiltClient}

-- json.Marshal on a value of strings, which cannot fail.
abbrev pub must_json : Json → Bytes
must_json v = encode v []

abbrev pub client_credentials : Bytes
client_credentials = codes "client_credentials"

unfoldable pub oauth_request : Bytes → Bytes → Bytes → Json
oauth_request grant_type app_key app_secret = Json.object (
    Members.member (codes "grant_type") (Json.text grant_type) (
      Members.member (codes "appkey") (Json.text app_key)
        (Members.member (codes "appsecret") (Json.text app_secret) Members.no_members)))

unfoldable pub approval_request_json : Bytes → Bytes → Bytes → Json
approval_request_json grant_type app_key secret_key = Json.object (
    Members.member (codes "grant_type") (Json.text grant_type) (
      Members.member (codes "appkey") (Json.text app_key)
        (Members.member (codes "secretkey") (Json.text secret_key) Members.no_members)))

-- The bodies of the two requests of kis/auth.go.
unfoldable pub token_body : BuiltClient → Bytes
unfolding oauth_request
token_body b = must_json (oauth_request client_credentials b.app_key b.app_secret)

unfoldable pub approval_body : BuiltClient → Bytes
unfolding approval_request_json
approval_body b = must_json (approval_request_json client_credentials b.app_key b.app_secret)

-- What the callers of send pass as the body: a read has none.
unfoldable pub body_of : BuiltClient → Bytes → Bytes
unfolding token_body approval_body
body_of b path =
    if text_eq path token_path
    then token_body b
    else if text_eq path approval_path
    then approval_body b
    else []

abbrev pub hashkey_path : Bytes
hashkey_path = codes "/uapi/hashkey"

unfoldable pub is_auth : Bytes → Bool
is_auth path = text_eq path token_path || text_eq path approval_path

-- The header that carries the token.
unfoldable pub authorization : Option Bytes → List (Bytes × Bytes)
authorization none = []
authorization (some token) = (codes "authorization", codes "Bearer " ++ token) ∷ []

unfoldable pub signature : BuiltClient → Bytes → List (Bytes × Bytes)
signature b tr_id =
    (codes "appkey", b.app_key)
    ∷ (codes "appsecret", b.app_secret)
    ∷ (codes "tr_id", tr_id)
    ∷ (codes "custtype", codes "P")
    ∷ []

-- The calls of Header.Set, in their order.
unfoldable pub headers_of : BuiltClient → Transmission → List (Bytes × Bytes)
unfolding is_auth authorization signature body_of
headers_of b t =
    (if not (is_auth t.path) && not (text_eq t.path hashkey_path)
      then authorization t.bearer
      else [])
    ++ (if not (is_auth t.path) then signature b t.tr_id else [])
    ++ (if not (is_empty (body_of b t.path))
        then (codes "content-type", codes "application/json") ∷ []
        else [])
