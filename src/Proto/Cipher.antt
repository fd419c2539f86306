-- ===== src/Proto/Cipher.antt =====
-- crates/longboy/src/proto/cipher.rs. The block cipher of the `rc5` crate is a parameter.
pub mod RoundTrip
use longboy.Prelude.{ℕ, zero, suc, ◌/◌, ◌≡◌, List, ◌++◌, length, take, drop}
use longboy.Prelude.Bytes.{to_le_bytes}

-- `RC5<_, U20, U8>` at one word size, so with one block length in bytes: a key schedule is given by
-- its eight key bytes. What the crate documents of it: a block stays a block, and decryption
-- undoes encryption.
pub record BlockCipher (block_len : ℕ) : Type 0 where
  pub encrypt_block : List ℕ → List ℕ → List ℕ
  pub decrypt_block : List ℕ → List ℕ → List ℕ
  pub length-encrypt_block :
      (key block : List ℕ) → length block ≡ block_len → length (encrypt_block key block) ≡ block_len
  pub length-decrypt_block :
      (key block : List ℕ) → length block ≡ block_len → length (decrypt_block key block) ≡ block_len
  pub decrypt_block-encrypt_block :
      (key block : List ℕ)
      → length block ≡ block_len
      → decrypt_block key (encrypt_block key block) ≡ block

-- `RC5<u16, U20, U8>` works on 4 bytes and `RC5<u32, U20, U8>` on 8.
pub record Rc5 : Type 0 where
  pub word16 : BlockCipher 4
  pub word32 : BlockCipher 8

pub record Cipher : Type 0 where
  pub header_cipher : List ℕ
  pub slot_cipher : List ℕ

-- `to_ne_bytes` on a little-endian machine.
unfoldable pub new : ℕ → Cipher
new key = record { header_cipher = to_le_bytes 8 key; slot_cipher = to_le_bytes 8 key }

-- `as_chunks_mut().0`: the first `n` blocks of eight bytes; the rest of the array is left alone.
unfoldable pub map_chunks : (List ℕ → List ℕ) → ℕ → List ℕ → List ℕ
map_chunks f zero bytes = bytes
map_chunks f (suc n) bytes = f (take 8 bytes) ++ map_chunks f n (drop 8 bytes)

module _ (rc5 : Rc5) where
  unfoldable pub encrypt_header : Cipher → List ℕ → List ℕ
  encrypt_header c block = rc5.word16.encrypt_block c.header_cipher block

  unfoldable pub decrypt_header : Cipher → List ℕ → List ℕ
  decrypt_header c block = rc5.word16.decrypt_block c.header_cipher block

  unfoldable pub encrypt_slot : Cipher → List ℕ → List ℕ
  unfolding map_chunks
  encrypt_slot c block =
      map_chunks (rc5.word32.encrypt_block c.slot_cipher) (length block / 8) block

  unfoldable pub decrypt_slot : Cipher → List ℕ → List ℕ
  unfolding map_chunks
  decrypt_slot c block =
      map_chunks (rc5.word32.decrypt_block c.slot_cipher) (length block / 8) block
