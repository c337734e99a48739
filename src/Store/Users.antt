-- ===== src/Store/Users.antt =====
-- internal/store/store.go: the users as the Discord side writes and reads them (UpsertUser,
-- UserByDiscordID, SetUserRoles, ListUsersForRoleSync). Roles are a list; the JSON is left out.
pub mod Laws
use alfred_identity_backend.Common.{
  ℕ, suc, Bool, true, false, not, List, [], ◌∷◌, map, Option, none, some, ◌==◌, if◌then◌else◌, Text,
  text_eq, find, keep,
}
use alfred_identity_backend.Common.Sort.{sort_by_id}
use alfred_identity_backend.Common.Strings.{clean_texts}
use alfred_identity_backend.Store.Db.{Db, M, User, ok, err, query, query_row, exec}

abbrev pub is_discord : Text → User → Bool
is_discord discord_id u = text_eq u.discord_id discord_id

-- No roles leave the roles that the user has.
abbrev pub roles_or : List Text → List Text → List Text
roles_or [] old = old
roles_or (r ∷ rs) old = r ∷ rs

abbrev pub with_profile : Text → List Text → User → User
with_profile display_name role_ids u = record u {
  display_name = display_name;
  role_ids = roles_or role_ids u.role_ids;
}

-- `INSERT … ON CONFLICT (discord_id) DO UPDATE … RETURNING`
unfoldable pub upsert_user : Text → Text → List Text → M User
upsert_user discord_id display_name role_ids db = elim (find (is_discord discord_id) db.users) [
  | some u ↦ (
    ok (with_profile display_name role_ids u),
    record db {
      users =
          map
            (λ (x : User).
              if is_discord discord_id x then with_profile display_name role_ids x else x)
            db.users;
    },
  )
  | none ↦
      (let u : User = record {
        id = db.next_user;
        discord_id = discord_id;
        display_name = display_name;
        role_ids = role_ids;
        access_revoked = false;
      } in
        (ok u, record db { users = u ∷ db.users; next_user = suc db.next_user }))
]

unfoldable pub user_by_discord_id : Text → M User
user_by_discord_id discord_id = query_row (λ db. find (is_discord discord_id) db.users)

-- The trimmed roles, each once, without blanks.
unfoldable pub set_user_roles : ℕ → List Text → M (Unit {0})
unfolding clean_texts
set_user_roles user_id role_ids = exec (λ db. record db {
  users =
      map
        (λ (u : User).
          if u.id == user_id then record u { role_ids = clean_texts [] role_ids } else u)
        db.users;
})

-- `WHERE discord_id <> '' ORDER BY id`
unfoldable pub list_users_for_role_sync : M (List User)
unfolding sort_by_id
list_users_for_role_sync = query (λ db.
    sort_by_id (λ (u : User). u.id) (keep (λ (u : User). not (text_eq u.discord_id [])) db.users))
