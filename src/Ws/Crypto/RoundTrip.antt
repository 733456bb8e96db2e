-- ===== src/Ws/Crypto/RoundTrip.antt =====
-- The encryption that the server uses, written out as PKCS#7, CBC and Base64 are specified: the
-- source holds the other direction only.
use go_kis.Prelude.{
  ℕ, zero, suc, ◌+◌, ◌-◌, ◌*◌, ◌/◌, ◌%◌, ◌<◌, ◌≡◌, refl, true, false, ◌++◌, ◌==◌, arith, All,
  All-append, length, replicate, length-append, length-replicate,
}
use go_kis.Text.{Bytes, trim_space}
use go_kis.Text.Trim.Plain.{trim_space-IsGraphic}
use go_kis.Ws.Crypto.Base64.Encoding.{
  IsByte, base64_encode, base64_encode-IsGraphic, base64_decode-encode,
}
use go_kis.Ws.Crypto.Blocks.{
  IsBlock, IsCipher, cbc_encrypt, cbc_encrypt-IsBlocks, cbc_decrypt-encrypt,
}
use go_kis.Ws.Crypto.Padding.{unpad_pkcs7_iff}
use go_kis.Ws.Crypto.{AesMaterial, ok, has_length, key_lengths, unpad_pkcs7, decrypt_bytes, decrypt}

-- The padding fills the last block, or is a block of its own.
abbrev pub pad_length : Bytes → ℕ
pad_length plain = 16 - length plain % 16

abbrev pub pad_pkcs7 : Bytes → Bytes
pad_pkcs7 plain = plain ++ replicate (pad_length plain) (pad_length plain)

abbrev pub encrypt : (Bytes → Bytes → Bytes) → AesMaterial → Bytes → Bytes
encrypt encipher m plain =
    base64_encode (cbc_encrypt (encipher m.key) (length plain / 16 + 1) m.iv (pad_pkcs7 plain))

replicate-IsByte : (n b : ℕ) → b < 256 → All IsByte (replicate n b)
replicate-IsByte zero b h = tt
replicate-IsByte (suc n) b h = (h, replicate-IsByte n b h)

pad_pkcs7-IsBlocks :
    (plain : Bytes)
    → All IsByte plain
    → (length (pad_pkcs7 plain) ≡ (length plain / 16 + 1) * 16) × All IsByte (pad_pkcs7 plain)
pad_pkcs7-IsBlocks plain h =
    let k = pad_length plain in
    (
      omega (arith, length-append plain (replicate k k), length-replicate k k),
      All-append IsByte plain (replicate k k) h (replicate-IsByte k k (omega arith)),
    )

unpad_pkcs7-pad : (plain : Bytes) → All IsByte plain → unpad_pkcs7 (pad_pkcs7 plain) 16 ≡ ok plain
unpad_pkcs7-pad plain h = (unpad_pkcs7_iff 16 (pad_pkcs7 plain) plain).1 (
  pad_length plain,
  record {
    pos = omega arith;
    le_block = omega arith;
    splits = refl;
    whole = omega (arith, (pad_pkcs7-IsBlocks plain h).0);
  },
)

decrypt_bytes-encrypt :
    (encipher block : Bytes → Bytes → Bytes) (m : AesMaterial) (plain : Bytes)
    → IsCipher (encipher m.key) (block m.key)
    → has_length (length m.key) key_lengths ≡ true
    → IsBlock m.iv
    → All IsByte plain
    → decrypt_bytes block m
        (cbc_encrypt (encipher m.key) (length plain / 16 + 1) m.iv (pad_pkcs7 plain))
      ≡ ok (trim_space plain)
unfolding decrypt_bytes
decrypt_bytes-encrypt encipher block m plain cipher usable iv h =
    let n = length plain / 16 + 1 in
    let padded = pad_pkcs7-IsBlocks plain h in
    let sent = cbc_encrypt (encipher m.key) n m.iv (pad_pkcs7 plain) in
    let blocks =
      cbc_encrypt-IsBlocks (encipher m.key) (block m.key) cipher n m.iv (pad_pkcs7 plain) iv
        padded in
    let count : length sent / 16 ≡ n = omega (arith, blocks.0) in
    let some_blocks : (length sent == 0) ≡ false = ground (arith, blocks.0) in
    let whole : (length sent % 16 == 0) ≡ true = ground (arith, blocks.0) in
    rw
      (
        usable,
        some_blocks,
        whole,
        count,
        cbc_decrypt-encrypt (encipher m.key) (block m.key) cipher n m.iv (pad_pkcs7 plain) iv
            padded,
        unpad_pkcs7-pad plain h,
      )
      refl

-- What the server encrypts under the material of a subscription is what `decrypt` returns, less
-- the white space around it, however long it is: for an AES key length, an IV of one block and a
-- block function that inverts the server's on blocks.
pub decrypt-encrypt :
    (encipher block : Bytes → Bytes → Bytes) (m : AesMaterial) (plain : Bytes)
    → IsCipher (encipher m.key) (block m.key)
    → has_length (length m.key) key_lengths ≡ true
    → IsBlock m.iv
    → All IsByte plain
    → decrypt block m (encrypt encipher m plain) ≡ ok (trim_space plain)
unfolding decrypt
decrypt-encrypt encipher block m plain cipher usable iv h =
    let n = length plain / 16 + 1 in
    let blocks =
      cbc_encrypt-IsBlocks (encipher m.key) (block m.key) cipher n m.iv (pad_pkcs7 plain) iv
        (pad_pkcs7-IsBlocks plain h) in
    let sent = cbc_encrypt (encipher m.key) n m.iv (pad_pkcs7 plain) in
    rw
      (
        trim_space-IsGraphic (base64_encode sent) (base64_encode-IsGraphic sent blocks.1),
        base64_decode-encode false sent blocks.1,
        decrypt,
      )
      (decrypt_bytes-encrypt encipher block m plain cipher usable iv h)
