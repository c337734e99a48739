-- ===== src/Store/Credentials.antt =====
-- internal/store/store.go: DecryptCredentials.
use alfred_identity_backend.Common.{
  ℕ, ◌≡◌, inl, inr, Bool, false, not, ◌&&◌, ◌||◌, none, some, ◌==◌, Text, codes, find, find-some,
  In, Option-cases, arith,
}
use alfred_identity_backend.Common.Bytes.{Bytes}
use alfred_identity_backend.Crypto.Aead.{Vault, open_blob}
use alfred_identity_backend.Store.Db.{
  Db, M, EqAccount, ok, err, unreadable, ◌>>=◌, return, query_row,
}

module _ (v : Vault) where
  -- `OpenString`, whose error is the cipher's.
  abbrev pub open_string : Bytes → Text → M Text
  open_string blob aad db = elim (open_blob v.gcm blob aad) [
    | none ↦ (err unreadable, db)
    | some plain ↦ (ok plain, db)
  ]

  unfoldable pub decrypt_credentials : ℕ → Bool → M (Text × Text)
  decrypt_credentials account include_disabled = do
    a ← query_row (λ db.
        find (λ (a : EqAccount). a.id == account && (include_disabled || not a.disabled))
          db.eq_accounts)
    username ← open_string a.username_cipher (codes "eq_accounts.username")
    password ← open_string a.password_cipher (codes "eq_accounts.password")
    return (username, password)

  -- The credentials that `DecryptCredentials` returns are those of an account with the number, which
  -- is not disabled.
  pub decrypt_credentials_inv :
      (account : ℕ) (db : Db) (u p : Text)
      → (decrypt_credentials account false db).0 ≡ ok (u, p)
      → (a : EqAccount) × In a db.eq_accounts
        × (a.id ≡ account)
        × (a.disabled ≡ false)
        × (open_blob v.gcm a.username_cipher (codes "eq_accounts.username") ≡ some u)
        × (open_blob v.gcm a.password_cipher (codes "eq_accounts.password") ≡ some p)
  unfolding decrypt_credentials
  decrypt_credentials_inv account db u p e =
      elim (Option-cases
        (find (λ (a : EqAccount). a.id == account && (false || not a.disabled)) db.eq_accounts)) [
          | inl q ↦ ground arith
          | inr (a, q) ↦
              let (i, t) =
                find-some (λ (a : EqAccount). a.id == account && (false || not a.disabled))
                  db.eq_accounts a q in
              elim (Option-cases
                (open_blob v.gcm a.username_cipher (codes "eq_accounts.username"))) [
                  | inl no_name ↦ ground arith
                  | inr (u2, name) ↦
                      elim (Option-cases
                        (open_blob v.gcm a.password_cipher (codes "eq_accounts.password"))) [
                          | inl no_word ↦ ground arith
                          | inr (p2, word) ↦
                              (a, i, ground arith, ground arith, ground arith, ground arith)
                        ]
                ]
        ]
