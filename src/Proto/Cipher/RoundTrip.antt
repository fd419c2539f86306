-- ===== src/Proto/Cipher/RoundTrip.antt =====
-- Decryption undoes encryption, on headers and on slots of any length.
use longboy.Prelude.{
  ℕ, zero, suc, ◌+◌, ◌-◌, ◌*◌, ◌/◌, ◌≤◌, ◌≡◌, refl, ap, ◌∙◌, arith, List, [], ◌∷◌, ◌++◌, length,
  take, drop, length-append,
}
use longboy.Prelude.Slices.{length-slice, slice_front, drop-append}
use longboy.Proto.Cipher.{
  Rc5, Cipher, map_chunks, encrypt_header, decrypt_header, encrypt_slot, decrypt_slot,
}

length-take : (n : ℕ) (xs : List ℕ) → n ≤ length xs → length (take n xs) ≡ n
length-take n xs h = length-slice xs 0 n (omega arith)

length-drop : (n : ℕ) (xs : List ℕ) → length (drop n xs) ≡ length xs - n
length-drop zero xs = omega arith
length-drop (suc n) [] = omega arith
length-drop (suc n) (x ∷ xs) = omega (arith, length-drop n xs)

drop_front : (h xs : List ℕ) (n : ℕ) → length h ≡ n → drop n (h ++ xs) ≡ xs
drop_front h xs n e = let e' : n ≡ length h + 0 = omega arith in rw e' (drop-append h xs 0)

take-append-drop : (n : ℕ) (xs : List ℕ) → take n xs ++ drop n xs ≡ xs
take-append-drop zero xs = refl
take-append-drop (suc n) [] = refl
take-append-drop (suc n) (x ∷ xs) = ap (◌∷◌ x) (take-append-drop n xs)

drop-drop : (m n : ℕ) (xs : List ℕ) → drop m (drop n xs) ≡ drop (n + m) xs
drop-drop m zero xs = let e : 0 + m ≡ m = omega arith in rw e
drop-drop zero (suc n) [] = let e : suc n + 0 ≡ suc n = omega arith in rw e
drop-drop (suc m) (suc n) [] = let e : suc n + suc m ≡ suc (n + suc m) = omega arith in rw e
drop-drop m (suc n) (x ∷ xs) =
    let e : suc n + m ≡ suc (n + m) = omega arith in rw e (drop-drop m n xs)

module _ (f : List ℕ → List ℕ) (keeps : (b : List ℕ) → length b ≡ 8 → length (f b) ≡ 8) where
  length-map_chunks : (n : ℕ) (b : List ℕ) → 8 * n ≤ length b → length (map_chunks f n b) ≡ length b
  unfolding map_chunks
  length-map_chunks zero b h = refl
  length-map_chunks (suc n) b h = omega (
    arith,
    length-append (f (take 8 b)) (map_chunks f n (drop 8 b)),
    keeps (take 8 b) (length-take 8 b (omega arith)),
    length-drop 8 b,
    length-map_chunks n (drop 8 b) (omega (arith, length-drop 8 b)),
  )

  -- The bytes behind the last whole chunk.
  drop-map_chunks :
      (n : ℕ) (b : List ℕ) → 8 * n ≤ length b → drop (8 * n) (map_chunks f n b) ≡ drop (8 * n) b
  unfolding map_chunks
  drop-map_chunks zero b h = refl
  drop-map_chunks (suc n) b h =
      let eight : 8 * suc n ≡ 8 + 8 * n = omega arith in
      let first = keeps (take 8 b) (length-take 8 b (omega arith)) in
      let eight' : 8 + 8 * n ≡ length (f (take 8 b)) + 8 * n = omega (arith, first) in
      rw eight (
        ap (λ j. drop j (f (take 8 b) ++ map_chunks f n (drop 8 b))) eight'
        ∙ drop-append (f (take 8 b)) (map_chunks f n (drop 8 b)) (8 * n)
        ∙ drop-map_chunks n (drop 8 b) (omega (arith, length-drop 8 b))
        ∙ drop-drop (8 * n) 8 b)

module _ (f g : List ℕ → List ℕ) (keeps : (b : List ℕ) → length b ≡ 8 → length (f b) ≡ 8)
    (undo : (b : List ℕ) → length b ≡ 8 → g (f b) ≡ b) where
  map_chunks-map_chunks :
      (n : ℕ) (b : List ℕ) → 8 * n ≤ length b → map_chunks g n (map_chunks f n b) ≡ b
  unfolding map_chunks
  map_chunks-map_chunks zero b h = refl
  map_chunks-map_chunks (suc n) b h =
      let first : length (take 8 b) ≡ 8 = length-take 8 b (omega arith) in
      let rest = map_chunks f n (drop 8 b) in
      rw
        (
          slice_front (f (take 8 b)) rest 8 (keeps (take 8 b) first),
          drop_front (f (take 8 b)) rest 8 (keeps (take 8 b) first),
          undo (take 8 b) first,
          map_chunks-map_chunks n (drop 8 b) (omega (arith, length-drop 8 b)),
        )
        (take-append-drop 8 b)

module _ (rc5 : Rc5) (c : Cipher) where
  pub length-encrypt_header : (b : List ℕ) → length b ≡ 4 → length (encrypt_header rc5 c b) ≡ 4
  unfolding encrypt_header
  length-encrypt_header b h = rc5.word16.length-encrypt_block c.header_cipher b h

  pub length-decrypt_header : (b : List ℕ) → length b ≡ 4 → length (decrypt_header rc5 c b) ≡ 4
  unfolding decrypt_header
  length-decrypt_header b h = rc5.word16.length-decrypt_block c.header_cipher b h

  pub decrypt_header-encrypt_header :
      (b : List ℕ) → length b ≡ 4 → decrypt_header rc5 c (encrypt_header rc5 c b) ≡ b
  unfolding encrypt_header decrypt_header
  decrypt_header-encrypt_header b h = rc5.word16.decrypt_block-encrypt_block c.header_cipher b h

  pub length-encrypt_slot : (b : List ℕ) → length (encrypt_slot rc5 c b) ≡ length b
  unfolding encrypt_slot
  length-encrypt_slot b =
      length-map_chunks (rc5.word32.encrypt_block c.slot_cipher)
        (rc5.word32.length-encrypt_block c.slot_cipher) (length b / 8) b (omega arith)

  pub length-decrypt_slot : (b : List ℕ) → length (decrypt_slot rc5 c b) ≡ length b
  unfolding decrypt_slot
  length-decrypt_slot b =
      length-map_chunks (rc5.word32.decrypt_block c.slot_cipher)
        (rc5.word32.length-decrypt_block c.slot_cipher) (length b / 8) b (omega arith)

  -- A slot of any length, also one that is no whole number of cipher blocks, is recovered by
  -- decryption.
  pub decrypt_slot-encrypt_slot : (b : List ℕ) → decrypt_slot rc5 c (encrypt_slot rc5 c b) ≡ b
  decrypt_slot-encrypt_slot b =
      unfold decrypt_slot in
      rw (length-encrypt_slot b) (
        unfold encrypt_slot in
        map_chunks-map_chunks (rc5.word32.encrypt_block c.slot_cipher)
          (rc5.word32.decrypt_block c.slot_cipher) (rc5.word32.length-encrypt_block c.slot_cipher)
          (rc5.word32.decrypt_block-encrypt_block c.slot_cipher) (length b / 8) b (omega arith))

  -- The last SIZE % 8 bytes of a slot are not encrypted: they travel in the clear.
  pub drop-encrypt_slot :
      (b : List ℕ) → drop (8 * (length b / 8)) (encrypt_slot rc5 c b) ≡ drop (8 * (length b / 8)) b
  unfolding encrypt_slot
  drop-encrypt_slot b =
      drop-map_chunks (rc5.word32.encrypt_block c.slot_cipher)
        (rc5.word32.length-encrypt_block c.slot_cipher) (length b / 8) b (omega arith)
