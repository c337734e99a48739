-- ===== src/Store/Grants.antt =====
-- internal/store/store.go: the role, user and group grants of an account (ReplaceAccountRoles,
-- ReplaceAccountUsers, ReplaceAccountGroups, SetAccountAccess). No transaction: what was written
-- before an error stays.
pub mod Loop
pub mod Rows
pub mod Laws
use alfred_identity_backend.Common.{
  ℕ, Bool, true, false, not, ◌&&◌, ◌||◌, List, [], ◌∷◌, ◌++◌, map, Option, none, some, leb, ◌==◌,
  if◌then◌else◌, Text, text_eq, any, keep,
}
use alfred_identity_backend.Common.Strings.{trim_space, clean_ids, clean_texts}
use alfred_identity_backend.Store.Db.{
  Db, M, User, EqAccount, AccountGroup, AccountUser, AccountRole, GroupLink, ok, err, constraint,
  ◌>>=◌, ◌>>◌, return, exec,
}

abbrev pub account_exists_in : Db → ℕ → Bool
account_exists_in db account = any (λ (a : EqAccount). a.id == account) db.eq_accounts

abbrev pub user_exists_in : Db → ℕ → Bool
user_exists_in db user_id = any (λ (u : User). u.id == user_id) db.users

abbrev pub group_exists_in : Db → ℕ → Bool
group_exists_in db group = any (λ (g : AccountGroup). g.id == group) db.account_groups

-- A loop that ends at the first error.
abbrev pub for_each : {A : Type 0} → (A → M (Unit {0})) → List A → M (Unit {0})
for_each f [] = return tt
for_each f (x ∷ xs) = f x >> for_each f xs

abbrev pub head_text : List Text → Text
head_text [] = []
head_text (r ∷ rs) = r

abbrev pub head_id : List ℕ → Option ℕ
head_id [] = none
head_id (x ∷ xs) = some x

-- `INSERT … ON CONFLICT DO NOTHING`, with the foreign keys of the table.
unfoldable pub insert_access_role : ℕ → Text → M (Unit {0})
insert_access_role account role db =
    if any (λ (r : AccountRole). r.eq_account_id == account && text_eq r.discord_role_id role)
      db.account_access_roles
    then (ok tt, db)
    else if not (account_exists_in db account)
    then (err constraint, db)
    else (
      ok tt,
      record db {
        account_access_roles =
            db.account_access_roles
            ++ record { eq_account_id = account; discord_role_id = role } ∷ [];
      },
    )

unfoldable pub insert_access_user : ℕ → ℕ → M (Unit {0})
insert_access_user account user_id db =
    if any (λ (g : AccountUser). g.eq_account_id == account && g.user_id == user_id)
      db.account_access_users
    then (ok tt, db)
    else if not (account_exists_in db account && user_exists_in db user_id)
    then (err constraint, db)
    else (
      ok tt,
      record db {
        account_access_users =
            db.account_access_users ++ record { eq_account_id = account; user_id = user_id } ∷ [];
      },
    )

unfoldable pub insert_group_link : ℕ → ℕ → M (Unit {0})
insert_group_link account group db =
    if any (λ (l : GroupLink). l.eq_account_id == account && l.group_id == group)
      db.account_group_links
    then (ok tt, db)
    else if not (account_exists_in db account && group_exists_in db group)
    then (err constraint, db)
    else (
      ok tt,
      record db {
        account_group_links =
            db.account_group_links ++ record { group_id = group; eq_account_id = account } ∷ [];
      },
    )

abbrev pub delete_access_roles : ℕ → Db → Db
delete_access_roles account db = record db {
  account_access_roles =
      keep (λ (r : AccountRole). not (r.eq_account_id == account)) db.account_access_roles;
}

abbrev pub delete_access_users : ℕ → Db → Db
delete_access_users account db = record db {
  account_access_users =
      keep (λ (g : AccountUser). not (g.eq_account_id == account)) db.account_access_users;
}

abbrev pub delete_group_links : ℕ → Db → Db
delete_group_links account db = record db {
  account_group_links =
      keep (λ (l : GroupLink). not (l.eq_account_id == account)) db.account_group_links;
}

-- `UPDATE eq_accounts SET … WHERE id=$1`
abbrev pub update_account : ℕ → (EqAccount → EqAccount) → Db → Db
update_account account f db = record db {
  eq_accounts = map (λ (a : EqAccount). if a.id == account then f a else a) db.eq_accounts;
}

unfoldable pub replace_account_roles : ℕ → List Text → M (Unit {0})
replace_account_roles account role_ids = do
  let cleaned = clean_texts [] role_ids
  exec (delete_access_roles account)
  for_each (insert_access_role account) cleaned
  exec (
      update_account account
        (λ (a : EqAccount). record a { required_discord_role_id = head_text cleaned }))

unfoldable pub replace_account_users : ℕ → List ℕ → M (Unit {0})
replace_account_users account user_ids = do
  let cleaned = clean_ids [] user_ids
  exec (delete_access_users account)
  for_each (insert_access_user account) cleaned
  exec (update_account account (λ (a : EqAccount). record a { required_user_id = head_id cleaned }))

unfoldable pub replace_account_groups : ℕ → List ℕ → M (Unit {0})
replace_account_groups account group_ids = do
  exec (delete_group_links account)
  for_each (insert_group_link account) (clean_ids [] group_ids)

unfoldable pub set_account_access : ℕ → List Text → List ℕ → List ℕ → M (Unit {0})
set_account_access account role_ids user_ids group_ids = do
  replace_account_roles account role_ids
  replace_account_users account user_ids
  replace_account_groups account group_ids

unfoldable pub set_eq_required_role : ℕ → Text → M (Unit {0})
set_eq_required_role account role_id =
    let role = trim_space role_id in
    if text_eq role []
    then replace_account_roles account []
    else replace_account_roles account (role ∷ [])

unfoldable pub set_eq_required_user : ℕ → ℕ → M (Unit {0})
set_eq_required_user account user_id =
    if leb user_id 0
    then replace_account_users account []
    else replace_account_users account (user_id ∷ [])
