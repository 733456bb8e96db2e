-- ===== src/Ws/Crypto/Blocks.antt =====
-- Cipher block chaining: the encryption that the server uses, block by block, and what the source's
-- decryption makes of it.
use go_kis.Prelude.{
  ℕ, zero, suc, ◌-◌, ◌*◌, ◌≤◌, ◌≡◌, refl, sym, ap, ap₂, ◌∙◌, [], ◌∷◌, ◌++◌, arith, All, All-append,
  length, take, drop, length-append, take-append, drop-append,
}
use go_kis.Prelude.Bits.{bit_xor_cancel, bit_xor-bound}
use go_kis.Text.{Bytes}
use go_kis.Ws.Crypto.Base64.Encoding.{IsByte}
use go_kis.Ws.Crypto.Padding.{take-append-drop}
use go_kis.Ws.Crypto.{xor_bytes, cbc_decrypt}

abbrev pub IsBlock : Bytes → Type 0
IsBlock b = (length b ≡ 16) × All IsByte b

-- Deciphering a block gives back what was enciphered, and blocks are enciphered to blocks.
pub record IsCipher (encipher decipher : Bytes → Bytes) : Type 0 where
  pub inverts : (b : Bytes) → IsBlock b → decipher (encipher b) ≡ b
  pub keeps : (b : Bytes) → IsBlock b → IsBlock (encipher b)

pub cbc_encrypt : (Bytes → Bytes) → ℕ → Bytes → Bytes → Bytes
cbc_encrypt encipher zero previous plain = []
cbc_encrypt encipher (suc n) previous plain =
    let block = encipher (xor_bytes (take 16 plain) previous) in
    block ++ cbc_encrypt encipher n block (drop 16 plain)

length-take : (n : ℕ) (s : Bytes) → n ≤ length s → length (take n s) ≡ n
length-take zero s h = refl
length-take (suc n) [] h = absurd (omega arith)
length-take (suc n) (x ∷ s) h = ap suc (length-take n s (omega arith))

length-drop : (n : ℕ) (s : Bytes) → length (drop n s) ≡ length s - n
length-drop zero s = omega arith
length-drop (suc n) [] = omega arith
length-drop (suc n) (x ∷ s) = omega (arith, length-drop n s)

take-IsByte : (n : ℕ) (s : Bytes) → All IsByte s → All IsByte (take n s)
take-IsByte zero s h = tt
take-IsByte (suc n) [] h = tt
take-IsByte (suc n) (x ∷ s) h = (h.0, take-IsByte n s h.1)

drop-IsByte : (n : ℕ) (s : Bytes) → All IsByte s → All IsByte (drop n s)
drop-IsByte zero s h = h
drop-IsByte (suc n) [] h = tt
drop-IsByte (suc n) (x ∷ s) h = drop-IsByte n s h.1

take-block : (b rest : Bytes) → length b ≡ 16 → take 16 (b ++ rest) ≡ b
take-block b rest h = ap (λ n. take n (b ++ rest)) (sym h) ∙ take-append b rest

drop-block : (b rest : Bytes) → length b ≡ 16 → drop 16 (b ++ rest) ≡ rest
drop-block b rest h = ap (λ n. drop n (b ++ rest)) (sym h) ∙ drop-append b rest

length-xor_bytes : (s t : Bytes) → length s ≡ length t → length (xor_bytes s t) ≡ length t
unfolding xor_bytes
length-xor_bytes [] [] h = refl
length-xor_bytes [] (b ∷ t) h = absurd (omega arith)
length-xor_bytes (a ∷ s) [] h = absurd (omega arith)
length-xor_bytes (a ∷ s) (b ∷ t) h = ap suc (length-xor_bytes s t (omega arith))

xor_bytes-IsByte : (s t : Bytes) → All IsByte s → All IsByte t → All IsByte (xor_bytes s t)
unfolding xor_bytes
xor_bytes-IsByte [] t hs ht = tt
xor_bytes-IsByte (a ∷ s) [] hs ht = tt
xor_bytes-IsByte (a ∷ s) (b ∷ t) hs ht =
    (bit_xor-bound 8 a b hs.0 ht.0, xor_bytes-IsByte s t hs.1 ht.1)

xor_bytes_cancel : (s t : Bytes) → length s ≡ length t → xor_bytes (xor_bytes s t) t ≡ s
unfolding xor_bytes
xor_bytes_cancel [] t h = refl
xor_bytes_cancel (a ∷ s) [] h = absurd (omega arith)
xor_bytes_cancel (a ∷ s) (b ∷ t) h =
    ap₂ ◌∷◌ (bit_xor_cancel a b) (xor_bytes_cancel s t (omega arith))

module _ (encipher decipher : Bytes → Bytes) (cipher : IsCipher encipher decipher) where
  -- `n` blocks of bytes.
  abbrev IsBlocks : ℕ → Bytes → Type 0
  IsBlocks n s = (length s ≡ n * 16) × All IsByte s

  mixed-IsBlock :
      (n : ℕ) (previous plain : Bytes)
      → IsBlock previous
      → IsBlocks (suc n) plain
      → IsBlock (xor_bytes (take 16 plain) previous)
  mixed-IsBlock n previous plain hp h =
      let size = length-take 16 plain (omega (arith, h.0)) in
      (
        length-xor_bytes (take 16 plain) previous (size ∙ sym hp.0) ∙ hp.0,
        xor_bytes-IsByte (take 16 plain) previous (take-IsByte 16 plain h.1) hp.1,
      )

  drop-IsBlocks : (n : ℕ) (plain : Bytes) → IsBlocks (suc n) plain → IsBlocks n (drop 16 plain)
  drop-IsBlocks n plain h = (omega (arith, length-drop 16 plain, h.0), drop-IsByte 16 plain h.1)

  -- The first block of the ciphertext, and the rest.
  abbrev first : Bytes → Bytes → Bytes
  first previous plain = encipher (xor_bytes (take 16 plain) previous)

  abbrev rest : Bytes → Bytes → ℕ → Bytes
  rest previous plain n = cbc_encrypt encipher n (first previous plain) (drop 16 plain)

  first-IsBlock :
      (n : ℕ) (previous plain : Bytes)
      → IsBlock previous
      → IsBlocks (suc n) plain
      → IsBlock (first previous plain)
  first-IsBlock n previous plain hp h =
      cipher.keeps (xor_bytes (take 16 plain) previous) (mixed-IsBlock n previous plain hp h)

  pub cbc_encrypt-IsBlocks :
      (n : ℕ) (previous plain : Bytes)
      → IsBlock previous
      → IsBlocks n plain
      → IsBlocks n (cbc_encrypt encipher n previous plain)
  unfolding cbc_encrypt
  cbc_encrypt-IsBlocks zero previous plain hp h = (refl, tt)
  cbc_encrypt-IsBlocks (suc n) previous plain hp h =
      let block = first-IsBlock n previous plain hp h in
      let more = rest previous plain n in
      let blocks =
        cbc_encrypt-IsBlocks n (first previous plain) (drop 16 plain) block
          (drop-IsBlocks n plain h) in
      (
        omega (arith, length-append (first previous plain) more, block.0, blocks.0),
        All-append IsByte (first previous plain) more block.1 blocks.1,
      )

  pub cbc_decrypt-encrypt :
      (n : ℕ) (previous plain : Bytes)
      → IsBlock previous
      → IsBlocks n plain
      → cbc_decrypt decipher n previous (cbc_encrypt encipher n previous plain) ≡ plain
  unfolding cbc_decrypt cbc_encrypt
  cbc_decrypt-encrypt zero previous [] hp h = refl
  cbc_decrypt-encrypt zero previous (x ∷ plain) hp h = absurd (omega (arith, h.0))
  cbc_decrypt-encrypt (suc n) previous plain hp h =
      let block = first-IsBlock n previous plain hp h in
      let size = length-take 16 plain (omega (arith, h.0)) in
      rw
        (
          take-block (first previous plain) (rest previous plain n) block.0,
          drop-block (first previous plain) (rest previous plain n) block.0,
          cipher.inverts (xor_bytes (take 16 plain) previous) (mixed-IsBlock n previous plain hp h),
          xor_bytes_cancel (take 16 plain) previous (size ∙ sym hp.0),
          cbc_decrypt-encrypt n (first previous plain) (drop 16 plain) block
              (drop-IsBlocks n plain h),
        )
        (take-append-drop 16 plain)
