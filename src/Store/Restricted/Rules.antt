-- ===== src/Store/Restricted/Rules.antt =====
-- The rules for changes of a private share.
use alfred_identity_backend.Common.{ℕ, ◌≡◌, ◌⊎◌, ◌↔◌, Bool, false, some, ◌==◌, ==_iff, find, arith}
use alfred_identity_backend.Store.Db.{Db, EqAccount, Result, ok}
use alfred_identity_backend.Store.Restricted.{owner_or_zero, check_restricted_account_manage}

-- For an account that exists, CheckRestrictedAccountManage writes nothing and allows a change
-- exactly if the account is no private share, or the change sets neither access nor password and
-- the actor is the owner (0 for no owner).
pub check_restricted_account_manage_lem :
    (db : Db) (account actor : ℕ) (set_access set_password : Bool) (a : EqAccount)
    → find (λ (b : EqAccount). b.id == account) db.eq_accounts ≡ some a
    → (r : Result (Unit {0})) × (check_restricted_account_manage account actor set_access
          set_password db
        ≡ (r, db))
      × ((r ≡ ok tt) ↔ (
          (a.restricted ≡ false)
          ⊎ ((set_access ≡ false)
              × (set_password ≡ false)
              × (owner_or_zero a.owner_user_id ≡ actor))))
unfolding check_restricted_account_manage
check_restricted_account_manage_lem db account actor set_access set_password a row = (
  (check_restricted_account_manage account actor set_access set_password db).0,
  ground (arith, row),
  ground (arith, row, ==_iff (owner_or_zero a.owner_user_id) actor),
)
