-- ===== src/Ws/Crypto/Usable.antt =====
-- The material that newMaterial accepts.
use go_kis.Prelude.{ℕ, ◌≡◌, refl, inl, inr, ◌⊎◌, true, List, arith, length, Option-cases}
use go_kis.Text.{Bytes}
use go_kis.Ws.Crypto.Base64.{base64_decode}
use go_kis.Ws.Crypto.{
  AesMaterial, CryptoError, Decoded, ok, err, has_length, key_lengths, iv_lengths, decode_material,
  decoded_material, new_material,
}

-- Material of lengths that AES-CBC accepts.
pub record IsUsable (m : AesMaterial) : Type 0 where
  pub key : has_length (length m.key) key_lengths ≡ true
  pub iv : has_length (length m.iv) iv_lengths ≡ true

decode_material-length :
    (raw : Bytes) (want : List ℕ) {decoded : Bytes}
    → decode_material raw want ≡ ok decoded
    → has_length (length decoded) want ≡ true
unfolding decode_material decoded_material
decode_material-length raw want {decoded} h = ground (arith, Option-cases (base64_decode true raw))

pub Decoded-cases :
    {A : Type 0} (d : Decoded A) → ((a : A) × (d ≡ ok a)) ⊎ ((e : CryptoError) × (d ≡ err e))
Decoded-cases (ok a) = inl (a, refl)
Decoded-cases (err e) = inr (e, refl)

pub new_material-IsUsable :
    (raw_key raw_iv : Bytes) {m : AesMaterial} → new_material raw_key raw_iv ≡ ok m → IsUsable m
unfolding new_material
new_material-IsUsable raw_key raw_iv {m} h =
    elim (Decoded-cases (decode_material raw_key key_lengths)) [
      | inl (key, good) ↦ elim (Decoded-cases (decode_material raw_iv iv_lengths)) [
        | inl (iv, fine) ↦
            let is_m : ◌≡◌ {A = AesMaterial} (record { key = key; iv = iv }) m = ground arith in
            rw (← is_m) (record {
              key = decode_material-length raw_key key_lengths good;
              iv = decode_material-length raw_iv iv_lengths fine;
            })
        | inr (e, bad) ↦ absurd (ground arith)
      ]
      | inr (e, bad) ↦ absurd (ground arith)
    ]
