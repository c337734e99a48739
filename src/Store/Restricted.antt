-- ===== src/Store/Restricted.antt =====
-- internal/store/restricted_manage.go: who may change a private share outside the desktop client.
pub mod Rules
use alfred_identity_backend.Common.{
  ℕ, Bool, true, false, not, List, Option, none, some, ◌==◌, if◌then◌else◌, find,
}
use alfred_identity_backend.Store.Db.{
  Db, M, EqAccount, ok, err, no_rows, share_access_managed, share_password_managed, share_not_owner,
  ◌>>=◌, return, throw, query_row,
}

-- `OwnerUserID` is 0 for an account without an owner.
abbrev pub owner_or_zero : Option ℕ → ℕ
owner_or_zero none = 0
owner_or_zero (some o) = o

unfoldable pub check_restricted_account_manage : ℕ → ℕ → Bool → Bool → M (Unit {0})
check_restricted_account_manage account actor set_access set_password = do
  a ← query_row (λ db. find (λ (a : EqAccount). a.id == account) db.eq_accounts)
  if not a.restricted
      then return tt
      else if set_access
      then throw share_access_managed
      else if set_password
      then throw share_password_managed
      else if not (owner_or_zero a.owner_user_id == actor)
      then throw share_not_owner
      else return tt
