-- ===== src/Sso/Sharing.antt =====
-- internal/sso/hub.go: handleShare, for messages that are decoded as in `Sso.Manage`. The notices to
-- new recipients, sent on Discord, are left out.
use alfred_identity_backend.Common.{
  ℕ, not, List, [], ◌++◌, map, Option, none, if◌then◌else◌, Text, codes, text_eq,
}
use alfred_identity_backend.Common.Strings.{trim_space}
use alfred_identity_backend.Common.Decimal.{decimal, bracketed}
use alfred_identity_backend.Store.Db.{
  Error, account_exists, password_required, user_not_found, access_revoked, not_shared, not_yours,
}
use alfred_identity_backend.Store.Shares.{share_local_account, unshare_local_account}
use alfred_identity_backend.Sso.Splice.{Setup}
use alfred_identity_backend.Sso.Validate.{validate_username, validate_password}
use alfred_identity_backend.Sso.Clients.{
  Outcome, failed, Server, Conn, refresh_user, Op, ◌>>=◌, ◌>>◌, finish, accept, decoded, run_store,
  fresh_nonce, audit,
}
use alfred_identity_backend.Sso.Manage.{is_ready, announce}

pub record ShareAccount : Type 0 where
  pub username : Text
  pub password : Text
  pub aliases : List Text
  pub user_ids : List ℕ
  pub role_ids : List Text
  pub group_ids : List ℕ

pub data ShareMessage : Type 0 where
  share_account : Option ShareAccount → ShareMessage
  unshare_account : Option Text → ShareMessage

-- The tests on the text of the error, in their order.
pub share_code : Error → Text
share_code account_exists = codes "account_exists"
share_code password_required = codes "password_required"
share_code user_not_found = codes "user_not_found"
share_code access_revoked = codes "user_revoked"
share_code e = codes "internal"

pub unshare_code : Error → Text
unshare_code not_shared = codes "not_shared"
unshare_code not_yours = codes "forbidden"
unshare_code e = codes "internal"

-- A password that is not blank is validated.
unfoldable pub validate_given : Text → Option Text
unfolding validate_password
validate_given pw = if text_eq (trim_space pw) [] then none else validate_password (trim_space pw)

abbrev pub share_detail : ℕ → ShareAccount → Text
unfolding decimal bracketed
share_detail id msg =
    codes "account="
    ++ (decimal id
        ++ (codes " users="
            ++ (bracketed (map decimal msg.user_ids)
                ++ (codes " roles="
                    ++ (bracketed msg.role_ids
                        ++ (codes " groups=" ++ bracketed (map decimal msg.group_ids)))))))

module _ (s : Setup) where
  unfoldable pub run_share_account : ℕ → Option ShareAccount → Op s ℕ
  unfolding validate_given run_store audit
  run_share_account actor body = do
    msg ← decoded s body
    let username = trim_space msg.username
    accept s (validate_username username)
    accept s (validate_given msg.password)
    name_nonce ← fresh_nonce s
    password_nonce ← fresh_nonce s
    shared ← run_store s share_code (
        share_local_account s.vault s.low actor username msg.password name_nonce password_nonce
          msg.aliases msg.user_ids msg.role_ids msg.group_ids)
    audit s actor shared.0 (codes "share_account") (share_detail shared.0 msg)
    finish s shared.0

  -- The reply of `unshare_account` names no account.
  unfoldable pub run_unshare_account : ℕ → Option Text → Op s ℕ
  unfolding run_store audit
  run_unshare_account actor body = do
    raw ← decoded s body
    let username = trim_space raw
    accept s (validate_username username)
    run_store s unshare_code (unshare_local_account s.vault s.low actor username)
    audit s actor 0 (codes "unshare_account") (codes "username=" ++ username)
    finish s 0

  unfoldable pub run_share : ℕ → ShareMessage → Op s ℕ
  unfolding run_share_account run_unshare_account
  run_share actor (share_account body) = run_share_account actor body
  run_share actor (unshare_account body) = run_unshare_account actor body

  unfoldable pub handle_share : Server s → Conn → ShareMessage → Server s × Conn × Outcome ℕ
  unfolding refresh_user run_share announce
  handle_share v c msg =
      let (v2, c2) = refresh_user s v c in
      if not (is_ready s c)
      then (v, c, failed (codes "unauthorized"))
      else if c2.user.access_revoked
      then (v2, c2, failed (codes "access_revoked"))
      else announce s c2 (run_share c2.user.id msg v2)
