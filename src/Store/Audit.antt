-- ===== src/Store/Audit.antt =====
-- internal/store/store.go: AuditAccount. A failed insertion is ignored there, and left out here.
use alfred_identity_backend.Common.{
  ℕ, List, [], ◌∷◌, ◌++◌, Option, none, some, ltb, ◌==◌, if◌then◌else◌, length, Text, codes,
}
use alfred_identity_backend.Common.Bytes.{Bytes}
use alfred_identity_backend.Crypto.Aead.{Vault, seal}

pub record AuditRow : Type 0 where
  pub user_id : ℕ
  pub eq_account_id : Option ℕ
  pub action : Text
  pub detail_cipher : Option Bytes

-- The random nonce is an argument.
unfoldable pub audit_account : Vault → Bytes → ℕ → ℕ → Text → Bytes → List AuditRow → List AuditRow
unfolding seal
audit_account v nonce user account action detail rows =
    rows
    ++ record {
      user_id = user;
      eq_account_id = if ltb 0 account then some account else none;
      action = action;
      detail_cipher =
          if length detail == 0
          then none
          else some (seal v.gcm nonce detail (codes "audit_log.detail"));
    }
      ∷ []
