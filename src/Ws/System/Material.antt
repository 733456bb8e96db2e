-- ===== src/Ws/System/Material.antt =====
-- The material that a connection stores.
use go_kis.Prelude.{
  ◌≡◌, ◌≢◌, inl, inr, false, Option, some, List, [], ◌∷◌, arith, Bool-cases, Option-cases,
}
use go_kis.Text.{Bytes, text_eq, trim_space}
use go_kis.Ws.Crypto.Base64.{base64_decode}
use go_kis.Ws.Crypto.Usable.{IsUsable}
use go_kis.Ws.Crypto.{AesMaterial, CryptoError, err, decrypt, decrypt_bytes, unpad_by, unpad_pkcs7}
use go_kis.Ws.Dial.{Config, Dialed, Opened, dial, new_conn, opened}
use go_kis.Ws.Dial.Opening.{dial_iff}
use go_kis.Ws.Reader.{AckMessage, lookup, material_for}
use go_kis.Ws.System.Delivery.{perform-IsStep}
use go_kis.Ws.System.QuietAcks.{AllUsable}
use go_kis.Ws.System.{Action, perform, start}

lookup-IsUsable :
    (tr : Bytes) (material : List (Bytes × AesMaterial)) {m : AesMaterial}
    → AllUsable material
    → lookup tr material ≡ some m
    → IsUsable m
unfolding lookup
lookup-IsUsable tr [] all found = absurd cc
lookup-IsUsable tr ((k, n) ∷ rest) {m} all found = elim (Bool-cases (text_eq k tr)) [
  | inl hit ↦ let is_m : n ≡ m = ground arith in rw (← is_m) all.0
  | inr miss ↦ lookup-IsUsable tr rest all.1 (ground arith)
]

dial-AllUsable :
    (cfg : Config) (key_reply : Option Bytes) (dialed : Dialed) {o : Opened}
    → dial cfg key_reply dialed ≡ opened o
    → AllUsable o.conn.material
unfolding new_conn
dial-AllUsable cfg key_reply dialed {o} h = rw ((dial_iff cfg key_reply dialed o).0 h).conn tt

module _ (block : Bytes → Bytes → Bytes) (unmarshal : Bytes → Option AckMessage) where
  decrypt_bytes-usable :
      (m : AesMaterial) (ciphertext : Bytes)
      → IsUsable m
      → decrypt_bytes block m ciphertext ≢ err CryptoError.bad_material
  unfolding decrypt_bytes unpad_pkcs7 unpad_by
  decrypt_bytes-usable m ciphertext u = λ e. ground (arith, u.key)

  decrypt-usable :
      (m : AesMaterial) (payload : Bytes)
      → IsUsable m
      → decrypt block m payload ≢ err CryptoError.bad_material
  unfolding decrypt
  decrypt-usable m payload u = elim (Option-cases (base64_decode false (trim_space payload))) [
    | inl bad ↦ λ e. ground arith
    | inr (c, good) ↦ λ e. ground (arith, decrypt_bytes-usable m c u)
  ]

  -- In every history of a connection that Dial has opened, the material that is stored for a
  -- transaction has a key of 16, 24 or 32 bytes and an IV of one block, whatever the ACKs brought;
  -- decrypting under it never fails for the material.
  pub perform-dial-IsUsable :
      (cfg : Config) (key_reply : Option Bytes) (dialed : Dialed) (actions : List Action)
      (tr payload : Bytes) {o : Opened} {m : AesMaterial}
      → dial cfg key_reply dialed ≡ opened o
      → material_for (perform block unmarshal (start o.conn) actions).conn tr ≡ some m
      → IsUsable m × (decrypt block m payload ≢ err CryptoError.bad_material)
  unfolding material_for
  perform-dial-IsUsable cfg key_reply dialed actions tr payload {o} {m} h stored =
      let all =
        (perform-IsStep block unmarshal (start o.conn) actions).usable
          (dial-AllUsable cfg key_reply dialed h) in
      let u =
        lookup-IsUsable tr (perform block unmarshal (start o.conn) actions).conn.material all
          stored in
      (u, decrypt-usable m payload u)
