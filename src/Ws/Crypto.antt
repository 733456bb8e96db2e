-- ===== src/Ws/Crypto.antt =====
-- kis/ws/crypto.go: the AES-CBC material of a subscription and the decryption of a payload.
-- The AES block function (package crypto/aes) is the argument `block` of `decrypt`.
pub mod Base64
pub mod Padding
pub mod Blocks
pub mod RoundTrip
pub mod Usable
use Prim.Native.Nat.{bit_xor}
use go_kis.Prelude.{
  ℕ, zero, suc, ◌+◌, ◌-◌, ◌/◌, ◌%◌, Bool, true, false, not, ◌||◌, List, [], ◌∷◌, ◌++◌, Option, none,
  some, if◌then◌else◌, ◌==◌, ltb, length, get_or, take, drop, replicate,
}
use go_kis.Text.{Bytes, codes, text_eq, is_empty, trim_space}
use Base64.{base64_decode}

pub record AesMaterial : Type 0 where
  pub key : Bytes
  pub iv : Bytes

pub data CryptoError : Type 0 where
  bad_material bad_cipher short_payload : CryptoError

-- A value or one of the errors.
pub data Decoded (A : Type 0) : Type 0 where
  ok : A → Decoded A
  err : CryptoError → Decoded A

infixl 5 ◌>>=◌
abbrev pub ◌>>=◌ : {A B : Type 0} → Decoded A → (A → Decoded B) → Decoded B
Decoded.ok a >>= f = f a
Decoded.err e >>= f = Decoded.err e

abbrev pub key_lengths : List ℕ
key_lengths = 16 ∷ 24 ∷ 32 ∷ []

abbrev pub iv_lengths : List ℕ
iv_lengths = 16 ∷ []

abbrev pub aes_block_size : ℕ
aes_block_size = 16

unfoldable pub has_length : ℕ → List ℕ → Bool
has_length n [] = false
has_length n (w ∷ ws) = if n == w then true else has_length n ws

decoded_material : Option Bytes → List ℕ → Decoded Bytes
decoded_material none want = Decoded.err CryptoError.bad_material
decoded_material (some decoded) want =
    if has_length (length decoded) want
    then Decoded.ok decoded
    else Decoded.err CryptoError.bad_material

-- The bytes as they are come first, then their Base64 decoding.
unfoldable pub decode_material : Bytes → List ℕ → Decoded Bytes
unfolding decoded_material
decode_material raw want =
    if has_length (length raw) want
    then Decoded.ok raw
    else decoded_material (base64_decode true raw) want

unfoldable pub new_material : Bytes → Bytes → Decoded AesMaterial
new_material raw_key raw_iv = do
  key ← decode_material raw_key key_lengths
  iv ← decode_material raw_iv iv_lengths
  Decoded.ok (record { key = key; iv = iv })

unfoldable pub xor_bytes : Bytes → Bytes → Bytes
xor_bytes (a ∷ s) (b ∷ t) = bit_xor a b ∷ xor_bytes s t
xor_bytes _ _ = []

-- CryptBlocks of a CBC decrypter over `n` blocks: each block is decrypted and combined with the
-- ciphertext block before it, the first one with the IV.
unfoldable pub cbc_decrypt : (Bytes → Bytes) → ℕ → Bytes → Bytes → Bytes
unfolding xor_bytes
cbc_decrypt block zero previous ciphertext = []
cbc_decrypt block (suc n) previous ciphertext =
    xor_bytes (block (take aes_block_size ciphertext)) previous
    ++ cbc_decrypt block n (take aes_block_size ciphertext) (drop aes_block_size ciphertext)

-- `pad_len` is the last byte.
unfoldable pub unpad_by : Bytes → ℕ → ℕ → Decoded Bytes
unpad_by plain block_size pad_len =
    if pad_len == 0 || ltb block_size pad_len || ltb (length plain) pad_len
    then Decoded.err CryptoError.bad_cipher
    else if not (text_eq (drop (length plain - pad_len) plain) (replicate pad_len pad_len))
    then Decoded.err CryptoError.bad_cipher
    else Decoded.ok (take (length plain - pad_len) plain)

unfoldable pub unpad_pkcs7 : Bytes → ℕ → Decoded Bytes
unpad_pkcs7 plain block_size =
    if length plain == 0 || not (length plain % block_size == 0)
    then Decoded.err CryptoError.short_payload
    else unpad_by plain block_size (get_or plain (length plain - 1) 0)

-- The plaintext of a ciphertext whose Base64 layer is off.
unfoldable pub decrypt_bytes : (Bytes → Bytes → Bytes) → AesMaterial → Bytes → Decoded Bytes
unfolding unpad_pkcs7 unpad_by cbc_decrypt
decrypt_bytes block m ciphertext =
    if not (has_length (length m.key) key_lengths)
    then Decoded.err CryptoError.bad_material
    else if length ciphertext == 0 || not (length ciphertext % aes_block_size == 0)
    then Decoded.err CryptoError.short_payload
    else do
      unpadded ←
          unpad_pkcs7
            (cbc_decrypt (block m.key) (length ciphertext / aes_block_size) m.iv ciphertext)
            aes_block_size
      Decoded.ok (trim_space unpadded)

unfoldable pub decrypt : (Bytes → Bytes → Bytes) → AesMaterial → Bytes → Decoded Bytes
unfolding decrypt_bytes
decrypt block m payload = elim (base64_decode false (trim_space payload)) [
  | none ↦ Decoded.err CryptoError.bad_cipher
  | some ciphertext ↦ decrypt_bytes block m ciphertext
]
