-- ===== src/Json.antt =====
-- Package encoding/json, as far as the requests of kis/websocket.go, kis/auth.go and
-- kis/ws/conn.go go: objects whose members are strings and objects. The children: the quoting of
-- strings and its reverse, values and their texts, and a reader of such texts.
pub mod Quote
pub mod Unquote
pub mod Value
pub mod Parse
unfoldable pub use Value.*
unfoldable pub use Parse.*
