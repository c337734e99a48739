-- ===== src/Store/Groups.antt =====
-- internal/store/store.go: groups, their members and links, and the default group. The order that a
-- listing has by the names of the groups is left out.
pub mod Laws
use alfred_identity_backend.Common.{
  ℕ, suc, Bool, true, false, not, ◌&&◌, ◌||◌, List, [], ◌∷◌, map, Option, none, some, leb, ◌==◌,
  if◌then◌else◌, length, Text, codes, text_eq, any, find, keep,
}
use alfred_identity_backend.Common.Strings.{trim_space, clean_ids, clean_texts, Lowering}
use alfred_identity_backend.Store.Db.{
  Db, M, AccountGroup, GroupMember, GroupLink, Result, ok, err, constraint, name_required,
  default_name_reserved, default_undeletable, group_not_found, bad_web_role, role_required, ◌>>=◌,
  ◌>>◌, return, throw, exec, query,
}
use alfred_identity_backend.Store.Grants.{
  for_each, user_exists_in, group_exists_in, account_exists_in, insert_group_link,
}
use alfred_identity_backend.Store.Commands.{joins}

-- Whatever fails undoes what was written before.
abbrev pub transaction : {A : Type 0} → M A → M A
transaction m db = elim (m db).0 [ ok a ↦ (ok a, (m db).1) | err e ↦ (err e, db) ]

-- `INSERT INTO group_members` for a user or a role; `upsert` is `ON CONFLICT DO NOTHING`.
abbrev pub has_user : ℕ → ℕ → GroupMember → Bool
has_user group user_id m =
    (m.group_id == group) && elim m.user_id [ none ↦ false | some u ↦ u == user_id ]

abbrev pub has_role : ℕ → Text → GroupMember → Bool
has_role group role m =
    (m.group_id == group) && elim m.discord_role_id [ none ↦ false | some r ↦ text_eq r role ]

unfoldable pub insert_member : Bool → ℕ → ℕ → M (Unit {0})
insert_member upsert group user_id db =
    if any (has_user group user_id) db.group_members
    then (if upsert then ok tt else err constraint, db)
    else if group_exists_in db group && user_exists_in db user_id
    then (
      ok tt,
      record db {
        group_members =
            record { group_id = group; user_id = some user_id; discord_role_id = none }
            ∷ db.group_members;
      },
    )
    else (err constraint, db)

unfoldable pub insert_role : Bool → ℕ → Text → M (Unit {0})
insert_role upsert group role db =
    if any (has_role group role) db.group_members
    then (if upsert then ok tt else err constraint, db)
    else if group_exists_in db group
    then (
      ok tt,
      record db {
        group_members =
            record { group_id = group; user_id = none; discord_role_id = some role }
            ∷ db.group_members;
      },
    )
    else (err constraint, db)

unfoldable pub add_group_user : ℕ → ℕ → M (Unit {0})
unfolding insert_member
add_group_user = insert_member true

unfoldable pub remove_group_user : ℕ → ℕ → M (Unit {0})
remove_group_user group user_id = exec (λ db. record db {
  group_members = keep (λ m. not (has_user group user_id m)) db.group_members;
})

unfoldable pub add_group_role : ℕ → Text → M (Unit {0})
unfolding insert_role
add_group_role group raw =
    let role = trim_space raw in
    if text_eq role [] then throw role_required else insert_role true group role

unfoldable pub remove_group_role : ℕ → Text → M (Unit {0})
remove_group_role group raw = exec (λ db. record db {
  group_members = keep (λ m. not (has_role group (trim_space raw) m)) db.group_members;
})

unfoldable pub link_account_group : ℕ → ℕ → M (Unit {0})
unfolding insert_group_link
link_account_group = insert_group_link

unfoldable pub unlink_account_group : ℕ → ℕ → M (Unit {0})
unlink_account_group account group = exec (λ db. record db {
  account_group_links =
      keep (λ (l : GroupLink). not ((l.group_id == group) && (l.eq_account_id == account)))
        db.account_group_links;
})

unfoldable pub replace_group_membership : ℕ → List ℕ → List Text → M (Unit {0})
replace_group_membership group user_ids role_ids = transaction (do
  exec (λ db. record db {
    group_members = keep (λ (m : GroupMember). not (m.group_id == group)) db.group_members;
  })
  for_each (insert_member false group) (clean_ids [] user_ids)
  for_each (insert_role false group) (clean_texts [] role_ids))

-- A link of the group to an account, without `ON CONFLICT`.
unfoldable pub insert_link : ℕ → ℕ → M (Unit {0})
insert_link group account db =
    if any (λ (l : GroupLink). (l.group_id == group) && (l.eq_account_id == account))
        db.account_group_links
      || not (group_exists_in db group && account_exists_in db account)
    then (err constraint, db)
    else (
      ok tt,
      record db {
        account_group_links =
            record { group_id = group; eq_account_id = account } ∷ db.account_group_links;
      },
    )

unfoldable pub replace_group_account_links : ℕ → List ℕ → M (Unit {0})
replace_group_account_links group account_ids = transaction (do
  exec (λ db. record db {
    account_group_links =
        keep (λ (l : GroupLink). not (l.group_id == group)) db.account_group_links;
  })
  for_each (insert_link group) (clean_ids [] account_ids))

unfoldable pub list_groups_for_user : ℕ → M (List AccountGroup)
list_groups_for_user user_id = query (λ db.
    keep (λ (g : AccountGroup). any (joins db user_id g.id) db.group_members) db.account_groups)
