-- ===== src/Ws/Crypto/Padding.antt =====
-- What unpadPKCS7 accepts.
use go_kis.Prelude.{
  ℕ, zero, suc, ◌+◌, ◌-◌, ◌%◌, ◌≤◌, ◌<◌, ◌≡◌, ◌↔◌, refl, ◌∙◌, [], ◌∷◌, ◌++◌, arith, length, get_or,
  take, drop, replicate, length-append, length-replicate, take-append, drop-append,
}
use native.Mathlib.Nat.{zero-add, suc-add}
use go_kis.Text.{Bytes, text_eq_iff, text_eq_refl}
use go_kis.Ws.Crypto.{ok, unpad_by, unpad_pkcs7}

-- `plain` is `unpadded` and then `k` bytes of value `k`, in whole blocks.
pub record IsPadded (block_size : ℕ) (plain unpadded : Bytes) (k : ℕ) : Type 0 where
  pub pos : 1 ≤ k
  pub le_block : k ≤ block_size
  pub splits : plain ≡ unpadded ++ replicate k k
  pub whole : length plain % block_size ≡ 0

pub take-append-drop : (n : ℕ) (xs : Bytes) → take n xs ++ drop n xs ≡ xs
take-append-drop zero xs = refl
take-append-drop (suc n) [] = refl
take-append-drop (suc n) (x ∷ xs) = rw (take-append-drop n xs)

get_or-append : (xs ys : Bytes) (i : ℕ) → get_or (xs ++ ys) (length xs + i) 0 ≡ get_or ys i 0
get_or-append [] ys i = rw zero-add
get_or-append (x ∷ xs) ys i = rw suc-add (get_or-append xs ys i)

get_or-replicate : (n i a : ℕ) → i < n → get_or (replicate n a) i 0 ≡ a
get_or-replicate zero i a h = elim h [ ]
get_or-replicate (suc n) zero a h = refl
get_or-replicate (suc n) (suc i) a h = get_or-replicate n i a (omega arith)

-- The last byte of a padded text is the length of its padding.
last-replicate :
    (unpadded : Bytes) (k : ℕ)
    → 1 ≤ k
    → get_or (unpadded ++ replicate k k) (length (unpadded ++ replicate k k) - 1) 0 ≡ k
last-replicate u k h =
    let at_last : length (u ++ replicate k k) - 1 ≡ length u + (k - 1) =
      omega (arith, length-append u (replicate k k), length-replicate k k) in
    rw at_last
      (get_or-append u (replicate k k) (k - 1) ∙ get_or-replicate k (k - 1) k (omega arith))

module _ (block_size : ℕ) where
  unpad_by-IsPadded :
      (plain : Bytes) {unpadded : Bytes} (k : ℕ)
      → length plain % block_size ≡ 0
      → unpad_by plain block_size k ≡ ok unpadded
      → IsPadded block_size plain unpadded k
  unfolding unpad_by
  unpad_by-IsPadded plain {unpadded} k whole h = record {
    pos = ground arith;
    le_block = ground arith;
    splits = ground (
      arith,
      take-append-drop (length plain - k) plain,
      text_eq_iff (drop (length plain - k) plain) (replicate k k),
    );
    whole = whole;
  }

  append-unpad_by :
      (u : Bytes) (k : ℕ)
      → 1 ≤ k
      → k ≤ block_size
      → unpad_by (u ++ replicate k k) block_size k ≡ ok u
  unfolding unpad_by
  append-unpad_by u k h h' =
      let size : length (u ++ replicate k k) ≡ length u + k =
        omega (arith, length-append u (replicate k k), length-replicate k k) in
      let rest : length u + k - k ≡ length u = omega arith in
      rw (size, rest, drop-append u (replicate k k), take-append u (replicate k k), text_eq_refl)
        (ground arith)

  IsPadded-unpad_pkcs7 :
      (plain unpadded : Bytes) (k : ℕ)
      → IsPadded block_size plain unpadded k
      → unpad_pkcs7 plain block_size ≡ ok unpadded
  unfolding unpad_pkcs7
  IsPadded-unpad_pkcs7 plain unpadded k p =
      let last : get_or plain (length plain - 1) 0 ≡ k =
        rw p.splits (last-replicate unpadded k p.pos) in
      let by_last : unpad_by plain block_size k ≡ ok unpadded =
        rw p.splits (append-unpad_by unpadded k p.pos p.le_block) in
      let size : length plain ≡ length unpadded + k =
        rw p.splits (omega (arith, length-append unpadded (replicate k k), length-replicate k k)) in
      let pos : 1 ≤ k = p.pos in ground arith

-- `unpadPKCS7` returns `unpadded` exactly for the texts in whole blocks that are `unpadded` and
-- then some k bytes of value k, with 1 ≤ k ≤ the block size; every other text is an error.
pub unpad_pkcs7_iff :
    (block_size : ℕ) (plain unpadded : Bytes)
    → (unpad_pkcs7 plain block_size ≡ ok unpadded)
      ↔ ((k : ℕ) × IsPadded block_size plain unpadded k)
unfolding unpad_pkcs7
unpad_pkcs7_iff block_size plain unpadded = (
  λ h. (
    get_or plain (length plain - 1) 0,
    unpad_by-IsPadded block_size plain _ (ground arith) (ground arith),
  ),
  λ (k, p). IsPadded-unpad_pkcs7 block_size plain unpadded k p,
)
