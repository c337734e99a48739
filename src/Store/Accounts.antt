-- ===== src/Store/Accounts.antt =====
-- internal/store/store.go: AddEQAccount, FindEQAccountIDByUsername, SetEQPassword, SetEQDisabled
-- and DeleteEQAccount. The nonces are arguments, and the notes of an account are left out.
pub mod Laws
use alfred_identity_backend.Common.{
  ℕ, suc, Bool, true, false, not, List, [], ◌∷◌, Option, none, some, ◌==◌, if◌then◌else◌, Text,
  codes, text_eq, any, find, keep,
}
use alfred_identity_backend.Common.Bytes.{Bytes}
use alfred_identity_backend.Common.Strings.{trim_space, Lowering}
use alfred_identity_backend.Crypto.Aead.{Vault, seal}
use alfred_identity_backend.Store.Db.{
  Db, M, EqAccount, AccountName, AccountUser, AccountRole, GroupLink, ok, err, constraint,
  account_not_found, ◌>>=◌, return, throw, exec, query,
}
use alfred_identity_backend.Store.Grants.{update_account, account_exists_in}

module _ (v : Vault) (low : Lowering) where
  abbrev pub blind_of : Text → Text
  blind_of username = v.blind_index (low.to_lower (trim_space username))

  -- The row of a new account; the columns that the statement leaves out have their defaults.
  abbrev pub new_row : ℕ → Text → Text → Bytes → Bytes → EqAccount
  unfolding seal
  new_row id username password name_nonce password_nonce = record {
    id = id;
    username_cipher = seal v.gcm name_nonce username (codes "eq_accounts.username");
    username_blind = blind_of username;
    password_cipher = seal v.gcm password_nonce password (codes "eq_accounts.password");
    disabled = false;
    restricted = false;
    owner_user_id = none;
    required_discord_role_id = [];
    required_user_id = none;
  }

  -- `username_blind` is unique.
  unfoldable pub add_eq_account : Text → Text → Bytes → Bytes → M ℕ
  unfolding seal
  add_eq_account username password name_nonce password_nonce db =
      if any (λ (a : EqAccount). text_eq a.username_blind (blind_of username)) db.eq_accounts
      then (err constraint, db)
      else (
        ok db.next_account,
        record db {
          eq_accounts =
              new_row db.next_account username password name_nonce password_nonce ∷ db.eq_accounts;
          next_account = suc db.next_account;
        },
      )

  abbrev pub id_of : Option EqAccount → Option ℕ
  id_of none = none
  id_of (some a) = some a.id

  unfoldable pub find_eq_account_id_by_username : Text → M (Option ℕ)
  find_eq_account_id_by_username username =
      if text_eq (low.to_lower (trim_space username)) []
      then return none
      else query (λ db.
        id_of
          (find (λ (a : EqAccount). text_eq a.username_blind (blind_of username)) db.eq_accounts))

  unfoldable pub set_eq_password : ℕ → Text → Bytes → M (Unit {0})
  unfolding seal
  set_eq_password account password nonce = exec (
      update_account account (λ (a : EqAccount). record a {
        password_cipher = seal v.gcm nonce password (codes "eq_accounts.password");
      }))

unfoldable pub set_eq_disabled : ℕ → Bool → M (Unit {0})
set_eq_disabled account disabled =
    exec (update_account account (λ (a : EqAccount). record a { disabled = disabled }))

-- `DELETE FROM eq_accounts`, with what the foreign keys delete too.
abbrev pub delete_account : ℕ → Db → Db
delete_account account db = record db {
  eq_accounts = keep (λ (a : EqAccount). not (a.id == account)) db.eq_accounts;
  account_group_links =
      keep (λ (l : GroupLink). not (l.eq_account_id == account)) db.account_group_links;
  aliases = keep (λ (n : AccountName). not (n.eq_account_id == account)) db.aliases;
  account_tags = keep (λ (n : AccountName). not (n.eq_account_id == account)) db.account_tags;
  characters = keep (λ (n : AccountName). not (n.eq_account_id == account)) db.characters;
  account_shares = keep (λ (s : AccountUser). not (s.eq_account_id == account)) db.account_shares;
  account_access_roles =
      keep (λ (r : AccountRole). not (r.eq_account_id == account)) db.account_access_roles;
  account_access_users =
      keep (λ (g : AccountUser). not (g.eq_account_id == account)) db.account_access_users;
}

unfoldable pub delete_eq_account : ℕ → M (Unit {0})
delete_eq_account account db =
    if account_exists_in db account
    then (ok tt, delete_account account db)
    else (err account_not_found, db)
