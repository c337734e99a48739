-- ===== src/Crypto/Des.antt =====
-- internal/crypto/deswire.go: packing a user name and a password into DES-CBC blocks. The cipher
-- itself is Go's crypto/des, with the fixed key and vector: an interface with its two laws.
use alfred_identity_backend.Common.{
  ℕ, ◌+◌, ◌-◌, ◌%◌, ◌≤◌, ◌<◌, ◌≡◌, not, ◌||◌, [], ◌∷◌, ◌++◌, Option, none, some, ◌==◌,
  if◌then◌else◌, length, replicate, length-append, length-replicate, arith,
}
use alfred_identity_backend.Common.Bytes.{Bytes}

-- `CryptBlocks` in either direction, on whole blocks.
pub record DesCbc : Type 0 where
  pub encrypt_blocks : Bytes → Bytes
  pub decrypt_blocks : Bytes → Bytes
  pub length-encrypt : (p : Bytes) → length p % 8 ≡ 0 → length (encrypt_blocks p) ≡ length p
  pub decrypt-encrypt : (p : Bytes) → length p % 8 ≡ 0 → decrypt_blocks (encrypt_blocks p) ≡ p

unfoldable pub zero_pad : Bytes → ℕ → Bytes
zero_pad b block_size =
    if length b % block_size == 0 then b else b ++ replicate (block_size - length b % block_size) 0

-- `des.NewCipher` fails only on a key that has not 8 bytes, and the key is fixed.
unfoldable pub encrypt_des : DesCbc → Bytes → Bytes
unfolding zero_pad
encrypt_des des plain = des.encrypt_blocks (zero_pad plain 8)

unfoldable pub decrypt_des : DesCbc → Bytes → Option Bytes
decrypt_des des ct =
    if length ct == 0 || not (length ct % 8 == 0) then none else some (des.decrypt_blocks ct)

unfoldable pub pack_credentials : DesCbc → Bytes → Bytes → Bytes
unfolding encrypt_des
pack_credentials des username password = encrypt_des des (username ++ 0 ∷ (password ++ 0 ∷ []))

pub length-zero_pad : (b : Bytes) → length (zero_pad b 8) % 8 ≡ 0
unfolding zero_pad
length-zero_pad b = ground (
  arith,
  length-append b (replicate (8 - length b % 8) 0),
  length-replicate {A = ℕ} (8 - length b % 8) 0,
)

pub length-zero_pad_lt :
    (b : Bytes) → (length b ≤ length (zero_pad b 8)) × (length (zero_pad b 8) < length b + 8)
unfolding zero_pad
length-zero_pad_lt b = ground (
  arith,
  length-append b (replicate (8 - length b % 8) 0),
  length-replicate {A = ℕ} (8 - length b % 8) 0,
)

-- `EncryptDES` writes whole blocks, fewer than 8 bytes more than the text.
pub length-encrypt_des :
    (des : DesCbc) (plain : Bytes)
    → (length (encrypt_des des plain) % 8 ≡ 0)
      × (length plain ≤ length (encrypt_des des plain))
      × (length (encrypt_des des plain) < length plain + 8)
unfolding encrypt_des
length-encrypt_des des plain = omega (
  arith,
  des.length-encrypt (zero_pad plain 8) (length-zero_pad plain),
  length-zero_pad plain,
  length-zero_pad_lt plain,
)

-- Decryption gives the padded text back, for any text that is not empty.
pub decrypt_des-encrypt_des :
    (des : DesCbc) (plain : Bytes)
    → 0 < length plain
    → decrypt_des des (encrypt_des des plain) ≡ some (zero_pad plain 8)
unfolding decrypt_des encrypt_des
decrypt_des-encrypt_des des plain h = ground (
  arith,
  length-encrypt_des des plain,
  length-zero_pad plain,
  des.decrypt-encrypt (zero_pad plain 8) (length-zero_pad plain),
)
