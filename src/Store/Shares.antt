-- ===== src/Store/Shares.antt =====
-- internal/store/store.go: private shares (replaceAccountShares, SetRestrictedAccountShares,
-- DiffNewShareRecipients, ShareLocalAccount, UnshareLocalAccount). No transaction: what was written
-- before an error stays.
pub mod Laws
use alfred_identity_backend.Common.{
  ℕ, Bool, true, false, not, ◌&&◌, ◌||◌, List, [], ◌∷◌, ◌++◌, map, Option, none, some, ◌==◌,
  if◌then◌else◌, Text, text_eq, any, find, keep,
}
use alfred_identity_backend.Common.Bytes.{Bytes}
use alfred_identity_backend.Common.Sort.{sort_by_id}
use alfred_identity_backend.Common.Strings.{trim_space, clean_ids, clean_texts, Lowering}
use alfred_identity_backend.Crypto.Aead.{Vault}
use alfred_identity_backend.Store.Db.{
  Db, M, User, EqAccount, AccountUser, ok, err, constraint, no_rows, user_not_found, access_revoked,
  account_not_found, not_private_share, username_required, password_required, account_exists,
  not_shared, not_yours, ◌>>=◌, ◌>>◌, return, throw, exec, query,
}
use alfred_identity_backend.Store.Grants.{
  account_exists_in, for_each, update_account, replace_account_roles, replace_account_users,
  replace_account_groups,
}
use alfred_identity_backend.Store.Accounts.{
  add_eq_account, find_eq_account_id_by_username, set_eq_password, delete_eq_account,
}
use alfred_identity_backend.Store.Names.{add_alias}

abbrev pub delete_shares : ℕ → Db → Db
delete_shares account db = record db {
  account_shares = keep (λ (s : AccountUser). not (s.eq_account_id == account)) db.account_shares;
}

-- The body of the loop: the user is looked up, and the row inserted under its constraints.
unfoldable pub insert_share : ℕ → ℕ → M (Unit {0})
insert_share account user_id db = elim (find (λ (u : User). u.id == user_id) db.users) [
  | none ↦ (err user_not_found, db)
  | some u ↦
      if u.access_revoked
      then (err access_revoked, db)
      else if any (λ (s : AccountUser). s.eq_account_id == account && s.user_id == user_id)
            db.account_shares
          || not (account_exists_in db account)
      then (err constraint, db)
      else (
        ok tt,
        record db {
          account_shares =
              db.account_shares ++ record { eq_account_id = account; user_id = user_id } ∷ [];
        },
      )
]

unfoldable pub replace_account_shares : ℕ → List ℕ → M (Unit {0})
replace_account_shares account user_ids =
    exec (delete_shares account) >> for_each (insert_share account) (clean_ids [] user_ids)

abbrev pub find_account : Db → ℕ → Option EqAccount
find_account db account = find (λ (a : EqAccount). a.id == account) db.eq_accounts

abbrev pub owner_list : Option ℕ → List ℕ
owner_list none = []
owner_list (some o) = o ∷ []

-- The owner is skipped as one that has been seen.
unfoldable pub set_restricted_account_shares : ℕ → List ℕ → M (Unit {0})
set_restricted_account_shares account user_ids db = elim (find_account db account) [
  | none ↦ (err account_not_found, db)
  | some a ↦
      if not a.restricted
      then (err not_private_share, db)
      else replace_account_shares account (clean_ids (owner_list a.owner_user_id) user_ids) db
]

unfoldable pub diff_new_share_recipients : List ℕ → List ℕ → List ℕ
diff_new_share_recipients previous incoming =
    keep (λ id. not (any (λ k. k == id) previous)) incoming

unfoldable pub list_share_user_ids : ℕ → Db → List ℕ
list_share_user_ids account db =
    map (λ (s : AccountUser). s.user_id)
      (sort_by_id (λ (s : AccountUser). s.user_id)
        (keep (λ (s : AccountUser). s.eq_account_id == account) db.account_shares))

-- An error that the source discards.
abbrev pub ignored : {A : Type 0} → M A → M (Unit {0})
ignored m db = (ok tt, (m db).1)

abbrev pub is_owner : ℕ → Option ℕ → Bool
is_owner user_id none = false
is_owner user_id (some o) = o == user_id

abbrev pub is_owned : ℕ → EqAccount → Bool
is_owned owner a = a.restricted && is_owner owner a.owner_user_id

-- `UPDATE eq_accounts SET restricted=true, owner_user_id=$2, …`
abbrev pub claim : ℕ → ℕ → Db → Db
claim account owner db =
    update_account account
      (λ (a : EqAccount). record a {
        restricted = true;
        owner_user_id = some owner;
        required_discord_role_id = [];
        required_user_id = none;
      })
      db

module _ (v : Vault) (low : Lowering) (owner : ℕ) where
  -- The account has been found by the user name.
  unfoldable pub update_shared : ℕ → Text → Bytes → M (ℕ × List ℕ)
  update_shared account password nonce db =
      let previous = list_share_user_ids account db in
      elim (find_account db account) [
        | none ↦ (err no_rows, db)
        | some a ↦
            if not (is_owned owner a)
            then (err account_exists, db)
            else ((if text_eq (trim_space password) []
                    then return tt
                    else set_eq_password v low account password nonce)
                  >> (exec (claim account owner)
                      >> (ignored (replace_account_users account [])
                          >> return (account, previous))))
                db
      ]

  unfoldable pub create_shared : Text → Text → Bytes → Bytes → M (ℕ × List ℕ)
  create_shared username password name_nonce password_nonce =
      if text_eq (trim_space password) [] then throw password_required else do
        account ← add_eq_account v low username password name_nonce password_nonce
        exec (claim account owner)
        return (account, [])

  -- The body of the loop over the aliases.
  unfoldable pub share_alias : Text → ℕ → Text → M (Unit {0})
  share_alias username account raw =
      let alias = trim_space raw in
      if text_eq alias [] || low.equal_fold alias username
      then return tt
      else ignored (add_alias low alias account)

  unfoldable pub publish :
      Text → List Text → List ℕ → List Text → List ℕ → ℕ × List ℕ → M (ℕ × List ℕ)
  publish username aliases users roles groups found = do
    for_each (share_alias username found.0) aliases
    replace_account_shares found.0 users
    replace_account_roles found.0 roles
    replace_account_groups found.0 groups
    return (found.0, diff_new_share_recipients found.1 users)

  unfoldable pub share_local_account :
      Text → Text → Bytes → Bytes → List Text → List ℕ → List Text → List ℕ → M (ℕ × List ℕ)
  share_local_account raw password name_nonce password_nonce aliases share_users share_roles
        share_groups =
      let username = trim_space raw in
      if text_eq username [] then throw username_required else do
        known ← find_eq_account_id_by_username v low username
        found ← elim known [
          | some account ↦ update_shared account password password_nonce
          | none ↦ create_shared username password name_nonce password_nonce
        ]
        publish username aliases (clean_ids (owner ∷ []) share_users) (clean_texts [] share_roles)
            (clean_ids [] share_groups) found

  unfoldable pub unshare_account : ℕ → M (Unit {0})
  unshare_account account db = elim (find_account db account) [
    | none ↦ (err no_rows, db)
    | some a ↦ if is_owned owner a then delete_eq_account account db else (err not_yours, db)
  ]

  unfoldable pub unshare_local_account : Text → M (Unit {0})
  unfolding unshare_account
  unshare_local_account username = do
    known ← find_eq_account_id_by_username v low username
    elim known [ none ↦ throw not_shared | some account ↦ unshare_account account ]
