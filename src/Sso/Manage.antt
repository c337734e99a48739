-- ===== src/Sso/Manage.antt =====
-- internal/sso/hub.go: handleAdmin, one function for each message. A message is decoded; `none` is
-- one that does not fit its struct, and the account 0 stands for each number that is not positive.
pub mod Foreign
pub mod Private
use alfred_identity_backend.Common.{
  ℕ, Bool, true, false, not, ◌&&◌, ◌||◌, List, [], ◌∷◌, ◌++◌, Option, none, some, ltb, ◌==◌,
  if◌then◌else◌, Text, codes, text_eq,
}
use alfred_identity_backend.Common.Strings.{trim_space}
use alfred_identity_backend.Common.Decimal.{decimal}
use alfred_identity_backend.Presence.{clear}
use alfred_identity_backend.Store.Db.{
  M, User, Error, alias_taken, alias_not_found, tag_not_found, character_not_found,
  account_not_found, share_access_managed, share_password_managed, share_not_owner,
}
use alfred_identity_backend.Store.Accounts.{
  add_eq_account, set_eq_password, set_eq_disabled, delete_eq_account,
}
use alfred_identity_backend.Store.Grants.{set_eq_required_role}
use alfred_identity_backend.Store.Names.{
  add_alias, remove_alias, add_tag, remove_tag, add_character, remove_character,
}
use alfred_identity_backend.Store.Restricted.{check_restricted_account_manage}
use alfred_identity_backend.Store.Tokens.{set_user_access_revoked}
use alfred_identity_backend.Sso.Splice.{Setup, Hub, allow_login}
use alfred_identity_backend.Sso.Validate.{
  validate_username, validate_password, validate_alias, validate_tag, validate_character,
}
use alfred_identity_backend.Sso.Clients.{
  WsClient, Outcome, done, failed, Server, is_admin, Conn, refresh_user, disconnect_user,
  broadcast_full_state, Op, ◌>>=◌, ◌>>◌, finish, fail, require, accept, decoded, run_store,
  fresh_nonce, audit, modify,
}

pub record AddAccount : Type 0 where
  pub username : Text
  pub password : Text
  pub required_role_id : Option Text

pub record UpdateAccount : Type 0 where
  pub account_id : ℕ
  pub password : Option Text
  pub disabled : Option Bool
  pub required_role_id : Option Text

-- An alias, tag or character of an account.
pub record NameOf : Type 0 where
  pub name : Text
  pub account_id : ℕ

pub record UserAccess : Type 0 where
  pub user_id : ℕ
  pub revoked : Bool

pub data AdminMessage : Type 0 where
  admin_add_account : Option AddAccount → AdminMessage
  admin_update_account : Option UpdateAccount → AdminMessage
  admin_add_alias admin_add_tag admin_add_character : Option NameOf → AdminMessage
  admin_remove_alias admin_remove_tag admin_remove_character : Option NameOf → AdminMessage
  admin_remove_account : Option ℕ → AdminMessage
  admin_set_user_access : Option UserAccess → AdminMessage
  admin_set_user_roles : AdminMessage

abbrev pub internal : Error → Text
internal e = codes "internal"

-- `strings.Contains(err.Error(), "already used")`
pub add_alias_code : Error → Text
add_alias_code alias_taken = codes "alias_taken"
add_alias_code e = codes "internal"

-- `strings.Contains(err.Error(), "not found")`
pub remove_code : Error → Text
remove_code alias_not_found = codes "not_found"
remove_code tag_not_found = codes "not_found"
remove_code character_not_found = codes "not_found"
remove_code e = codes "internal"

pub restricted_code : Error → Text
restricted_code share_access_managed = codes "share_access_managed_in_gui"
restricted_code share_password_managed = codes "share_password_managed_in_gui"
restricted_code share_not_owner = codes "share_not_owner"
restricted_code e = codes "not_found"

abbrev pub is_set {ℓ} : {A : Type ℓ} → Option A → Bool
is_set none = false
is_set (some a) = true

-- `msg.Password != nil && strings.TrimSpace(*msg.Password) != ""`
abbrev pub sets_password : Option Text → Bool
sets_password none = false
sets_password (some pw) = not (text_eq (trim_space pw) [])

module _ (s : Setup) where
  -- `rejectRestricted`
  unfoldable pub reject_restricted : ℕ → ℕ → Bool → Bool → Op s (Unit {0})
  unfolding run_store restricted_code
  reject_restricted actor account set_access set_password =
      run_store s restricted_code
        (check_restricted_account_manage account actor set_access set_password)

  unfoldable pub set_required_role : Option Text → ℕ → Op s (Unit {0})
  unfolding run_store
  set_required_role none account = finish s tt
  set_required_role (some role) account =
      run_store s internal (set_eq_required_role account (trim_space role))

  unfoldable pub add_account : ℕ → Option AddAccount → Op s ℕ
  unfolding run_store set_required_role audit
  add_account actor body = do
    msg ← decoded s body
    let username = trim_space msg.username
    accept s (validate_username username)
    accept s (validate_password msg.password)
    name_nonce ← fresh_nonce s
    password_nonce ← fresh_nonce s
    id ←
        run_store s internal
          (add_eq_account s.vault s.low username msg.password name_nonce password_nonce)
    set_required_role msg.required_role_id id
    audit s actor id (codes "admin_add_account") (codes "id=" ++ decimal id)
    finish s id

  -- The password of the message, unless it is absent or empty.
  unfoldable pub update_password : Option Text → ℕ → Op s (Unit {0})
  unfolding run_store
  update_password none account = finish s tt
  update_password (some pw) account = if text_eq pw [] then finish s tt else do
    accept s (validate_password pw)
    nonce ← fresh_nonce s
    run_store s internal (set_eq_password s.vault s.low account pw nonce)

  unfoldable pub update_disabled : Option Bool → ℕ → Op s (Unit {0})
  unfolding run_store
  update_disabled none account = finish s tt
  update_disabled (some flag) account = run_store s internal (set_eq_disabled account flag)

  abbrev pub is_change : Option Text → Bool
  is_change none = false
  is_change (some pw) = not (text_eq pw [])

  unfoldable pub update_account : ℕ → Option UpdateAccount → Op s ℕ
  unfolding reject_restricted update_password update_disabled set_required_role audit
  update_account actor body = do
    msg ← decoded s body
    require s (ltb 0 msg.account_id) (codes "invalid_account")
    reject_restricted actor msg.account_id (is_set msg.required_role_id)
        (sets_password msg.password)
    update_password msg.password msg.account_id
    update_disabled msg.disabled msg.account_id
    set_required_role msg.required_role_id msg.account_id
    require s (is_change msg.password || (is_set msg.disabled || is_set msg.required_role_id))
        (codes "nothing_to_update")
    audit s actor msg.account_id (codes "admin_update_account")
        (codes "account=" ++ decimal msg.account_id)
    finish s msg.account_id

  -- The steps of the five branches that validate a name first.
  unfoldable pub change_name :
      (Text → Option Text)
      → (Text → ℕ → M (Unit {0}))
      → (Error → Text)
      → Text
      → Text
      → ℕ
      → Option NameOf
      → Op s ℕ
  unfolding reject_restricted run_store audit
  change_name validate change code action label actor body = do
    msg ← decoded s body
    let name = trim_space msg.name
    accept s (validate name)
    require s (ltb 0 msg.account_id) (codes "invalid_account")
    reject_restricted actor msg.account_id false false
    run_store s code (change name msg.account_id)
    audit s actor msg.account_id action
        (label ++ (name ++ (codes " account=" ++ decimal msg.account_id)))
    finish s msg.account_id

  unfoldable pub delete_character : ℕ → Option NameOf → Op s ℕ
  unfolding reject_restricted run_store remove_code audit
  delete_character actor body = do
    msg ← decoded s body
    let name = trim_space msg.name
    require s (not (text_eq name []) && ltb 0 msg.account_id) (codes "invalid_character")
    reject_restricted actor msg.account_id false false
    run_store s remove_code (remove_character s.low name msg.account_id)
    audit s actor msg.account_id (codes "admin_remove_character")
        (codes "name=" ++ (name ++ (codes " account=" ++ decimal msg.account_id)))
    finish s msg.account_id

  abbrev pub clear_presence : ℕ → Server s → Server s
  clear_presence account v = record v {
    hub = record v.hub {
      presence = elim v.hub.presence [ none ↦ none | some t ↦ some (clear t account) ];
    };
  }

  unfoldable pub remove_account : ℕ → Option ℕ → Op s ℕ
  unfolding reject_restricted run_store audit
  remove_account actor body = do
    account ← decoded s body
    require s (ltb 0 account) (codes "invalid_account")
    reject_restricted actor account false false
    run_store s internal (delete_eq_account account)
    modify s (clear_presence account)
    audit s actor account (codes "admin_remove_account") (codes "id=" ++ decimal account)
    finish s account

  abbrev pub bool_text : Bool → Text
  bool_text true = codes "true"
  bool_text false = codes "false"

  unfoldable pub set_user_access : ℕ → Option UserAccess → Op s ℕ
  unfolding run_store audit disconnect_user
  set_user_access actor body = do
    msg ← decoded s body
    require s (ltb 0 msg.user_id) (codes "invalid_user")
    require s (not ((msg.user_id == actor) && msg.revoked)) (codes "cannot_revoke_self")
    run_store s internal (set_user_access_revoked msg.user_id msg.revoked)
    audit s actor 0 (codes "admin_set_user_access")
        (codes "user=" ++ (decimal msg.user_id ++ (codes " revoked=" ++ bool_text msg.revoked)))
    modify s (λ v. if msg.revoked then disconnect_user s v msg.user_id else v)
    finish s msg.user_id

  -- The `switch` of `handleAdmin`.
  unfoldable pub run_admin : ℕ → AdminMessage → Op s ℕ
  unfolding add_account update_account change_name delete_character remove_account set_user_access
  run_admin actor (admin_add_account body) = add_account actor body
  run_admin actor (admin_update_account body) = update_account actor body
  run_admin actor (admin_add_alias body) =
      change_name validate_alias (add_alias s.low) add_alias_code (codes "admin_add_alias")
        (codes "alias=") actor body
  run_admin actor (admin_add_tag body) =
      change_name validate_tag (add_tag s.low) internal (codes "admin_add_tag") (codes "tag=") actor
        body
  run_admin actor (admin_add_character body) =
      change_name validate_character (add_character s.low) internal (codes "admin_add_character")
        (codes "name=") actor body
  run_admin actor (admin_remove_alias body) =
      change_name validate_alias (remove_alias s.low) remove_code (codes "admin_remove_alias")
        (codes "alias=") actor body
  run_admin actor (admin_remove_tag body) =
      change_name validate_tag (remove_tag s.low) remove_code (codes "admin_remove_tag")
        (codes "tag=") actor body
  run_admin actor (admin_remove_character body) = delete_character actor body
  run_admin actor (admin_remove_account body) = remove_account actor body
  run_admin actor (admin_set_user_access body) = set_user_access actor body
  run_admin actor admin_set_user_roles = fail s (codes "roles_managed_by_discord")

  abbrev pub is_ready : Conn → Bool
  is_ready c = c.authed && is_set c.client

  -- A success is answered and broadcast, a failure is answered only.
  unfoldable pub announce : Conn → Outcome ℕ × Server s → Server s × Conn × Outcome ℕ
  unfolding broadcast_full_state
  announce c (done id, v) = (broadcast_full_state s v, c, done id)
  announce c (failed code, v) = (v, c, failed code)

  -- The limiter is asked, and the branch of the message run.
  unfoldable pub admin_allowed : Server s → Conn → AdminMessage → Server s × Conn × Outcome ℕ
  unfolding allow_login run_admin announce
  admin_allowed v c msg =
      let (allowed, h) = allow_login s v.hub c.user.id in
      if not allowed
      then (record v { hub = h }, c, failed (codes "rate_limited"))
      else announce c (run_admin c.user.id msg (record v { hub = h }))

  unfoldable pub handle_admin : Server s → Conn → AdminMessage → Server s × Conn × Outcome ℕ
  unfolding refresh_user is_admin admin_allowed
  handle_admin v c msg =
      let (v2, c2) = refresh_user s v c in
      if not (is_ready c)
      then (v, c, failed (codes "unauthorized"))
      else if not (is_admin s v2 c2.user)
      then (v2, c2, failed (codes "forbidden"))
      else admin_allowed v2 c2 msg
