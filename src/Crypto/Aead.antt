-- ===== src/Crypto/Aead.antt =====
-- internal/crypto/aead.go and token.go. AES-GCM, SHA-256 and HMAC are Go's: an interface with the
-- laws that the code relies on. The random nonce is an argument of `Seal`.
use alfred_identity_backend.Common.{
  ℕ, ◌≡◌, ◌++◌, Option, none, some, ltb, if◌then◌else◌, length, take, drop, arith, Text, take_at,
  drop_at, length-append,
}
use alfred_identity_backend.Common.Bytes.{Bytes}

-- `cipher.AEAD` for one key. Text is the list of its bytes here.
pub record Gcm : Type 0 where
  pub nonce_size : ℕ
  pub seal_with : Bytes → Bytes → Text → Bytes
  pub open_with : Bytes → Bytes → Text → Option Bytes
  pub open-seal_with :
      (nonce plain : Bytes) (aad : Text)
      → length nonce ≡ nonce_size
      → open_with nonce (seal_with nonce plain aad) aad ≡ some plain

module _ (gcm : Gcm) where
  -- `gcm.Seal(nonce, nonce, …)` appends to its first argument.
  unfoldable pub seal : Bytes → Bytes → Text → Bytes
  seal nonce plaintext aad = nonce ++ gcm.seal_with nonce plaintext aad

  unfoldable pub open_blob : Bytes → Text → Option Bytes
  open_blob blob aad =
      if ltb (length blob) gcm.nonce_size
      then none
      else gcm.open_with (take gcm.nonce_size blob) (drop gcm.nonce_size blob) aad

  -- What Seal made with a nonce of the right size for a column opens, for that column, to the plain
  -- text.
  pub open_blob-seal :
      (nonce plain : Bytes) (aad : Text)
      → length nonce ≡ gcm.nonce_size
      → open_blob (seal nonce plain aad) aad ≡ some plain
  unfolding open_blob seal
  open_blob-seal nonce plain aad h =
      let ct : Bytes = gcm.seal_with nonce plain aad in
      ground (
        arith,
        length-append nonce ct,
        take_at nonce ct gcm.nonce_size h,
        drop_at nonce ct gcm.nonce_size h,
        gcm.open-seal_with nonce plain aad h,
      )

-- What the store asks of internal/crypto.
pub record Vault : Type 0 where
  pub gcm : Gcm
  -- `HashToken` and `BlindIndex`, hex digests.
  pub hash_token : Text → Text
  pub blind_index : Text → Text
