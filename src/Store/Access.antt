-- ===== src/Store/Access.antt =====
-- internal/store/store.go: AllowedAccountIDs, ResolveLoginCandidates and the grants of accounts.
-- The queries are written as tests on the rows, in the order of the SQL text.
pub mod Spec
use alfred_identity_backend.Common.{
  ℕ, Bool, true, false, not, ◌&&◌, ◌||◌, List, [], ◌∷◌, map, Option, none, some, ltb, ◌==◌,
  if◌then◌else◌, Text, text_eq, any, keep, length,
}
use alfred_identity_backend.Common.Sort.{sort_by_id}
use alfred_identity_backend.Store.Db.{
  Db, M, User, EqAccount, GroupMember, GroupLink, AccountName, AccountUser, AccountRole, query,
}

abbrev pub is_some_of : ℕ → Option ℕ → Bool
is_some_of id none = false
is_some_of id (some k) = k == id

-- `EXISTS (SELECT 1 FROM users uu WHERE uu.id = $1 AND uu.role_ids_json::jsonb ? role)`
unfoldable pub user_has_role : Db → ℕ → Text → Bool
user_has_role db user_id role =
    any (λ (u : User). u.id == user_id && any (λ r. text_eq r role) u.role_ids) db.users

-- A member row with a role counts if the role is not empty and the user holds it.
abbrev pub member_by_role : Db → ℕ → Option Text → Bool
member_by_role db user_id none = false
member_by_role db user_id (some role) = not (text_eq role []) && user_has_role db user_id role

unfoldable pub shared_with : Db → ℕ → ℕ → Bool
shared_with db user_id account =
    any (λ (s : AccountUser). s.eq_account_id == account && s.user_id == user_id) db.account_shares

unfoldable pub granted_by_role : Db → ℕ → ℕ → Bool
granted_by_role db user_id account =
    any
      (λ (r : AccountRole).
        r.eq_account_id == account && user_has_role db user_id r.discord_role_id)
      db.account_access_roles

unfoldable pub granted_by_user : Db → ℕ → ℕ → Bool
granted_by_user db user_id account =
    any (λ (g : AccountUser). g.eq_account_id == account && g.user_id == user_id)
      db.account_access_users

abbrev pub is_member : Db → ℕ → ℕ → GroupMember → Bool
is_member db user_id group m =
    m.group_id == group
    && (is_some_of user_id m.user_id || member_by_role db user_id m.discord_role_id)

abbrev pub opens_to : Db → ℕ → ℕ → GroupLink → Bool
opens_to db user_id account l =
    l.eq_account_id == account && any (is_member db user_id l.group_id) db.group_members

unfoldable pub granted_by_group : Db → ℕ → ℕ → Bool
granted_by_group db user_id account = any (opens_to db user_id account) db.account_group_links

unfoldable pub has_no_grants : Db → ℕ → Bool
has_no_grants db account =
    not (any (λ (r : AccountRole). r.eq_account_id == account) db.account_access_roles)
    && not (any (λ (g : AccountUser). g.eq_account_id == account) db.account_access_users)
    && not (any (λ (l : GroupLink). l.eq_account_id == account) db.account_group_links)

-- The WHERE clause of `AllowedAccountIDs`.
unfoldable pub is_allowed : Db → ℕ → EqAccount → Bool
is_allowed db user_id a =
    not a.disabled
    && ((a.restricted
          && (is_some_of user_id a.owner_user_id
              || (shared_with db user_id a.id
                  || (granted_by_role db user_id a.id || granted_by_group db user_id a.id))))
        || (not a.restricted
            && (has_no_grants db a.id
                || (granted_by_role db user_id a.id
                    || (granted_by_user db user_id a.id || granted_by_group db user_id a.id)))))

abbrev pub account_id : EqAccount → ℕ
account_id a = a.id

unfoldable pub allowed_account_ids : ℕ → M (List ℕ)
unfolding is_allowed
allowed_account_ids user_id =
    query
      (λ db. map account_id (sort_by_id account_id (keep (is_allowed db user_id) db.eq_accounts)))
