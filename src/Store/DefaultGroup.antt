-- ===== src/Store/DefaultGroup.antt =====
-- internal/store/store.go: the rows of groups, their web roles, and the default group (CreateGroup,
-- FindGroupIDByName, NormalizeWebRole, HighestWebRoleForUser, IsDefaultGroup, EnsureDefaultGroup,
-- EnsureUserInDefaultGroupIfNone, UpdateGroupMeta, DeleteGroup).
pub mod Lock
pub mod WebRole
use alfred_identity_backend.Common.{
  ℕ, suc, Bool, true, false, not, ◌&&◌, ◌||◌, List, [], ◌∷◌, map, Option, none, some, leb, ◌==◌,
  if◌then◌else◌, length, Text, codes, text_eq, any, find, keep,
}
use alfred_identity_backend.Common.Strings.{trim_space, Lowering}
use alfred_identity_backend.Store.Db.{
  Db, M, AccountGroup, GroupMember, GroupLink, Result, ok, err, constraint, name_required,
  default_name_reserved, default_undeletable, group_not_found, bad_web_role, ◌>>=◌, ◌>>◌, return,
  throw, exec, query,
}
use alfred_identity_backend.Store.Commands.{normalize_discord_commands}
use alfred_identity_backend.Store.Groups.{list_groups_for_user, add_group_user}

abbrev pub default_group_name : Text
default_group_name = codes "Default"

abbrev pub default_commands : List Text
default_commands = codes "sso" ∷ codes "whoami" ∷ []

abbrev pub default_description : Text
default_description =
    codes
      "System group — auto-assigned when a user has no other group. Discord commands only (no web UI)."

-- `btrim(description)=''`: nothing but spaces.
abbrev pub is_blank : Text → Bool
is_blank t = not (any (λ c. not (c == 0x20)) t)

module _ (low : Lowering) where
  abbrev pub one_of : Text → List Text → Bool
  one_of t ts = any (λ s. text_eq s t) ts

  unfoldable pub normalize_web_role : Text → Result Text
  normalize_web_role raw =
      let role = low.to_lower (trim_space raw) in
      if one_of role ([] ∷ codes "none" ∷ codes "off" ∷ codes "disabled" ∷ [])
      then ok []
      else if text_eq role (codes "admin")
      then ok (codes "admin")
      else if one_of role
          (codes "readonly" ∷ codes "read_only" ∷ codes "read-only" ∷ codes "viewer" ∷ [])
      then ok (codes "readonly")
      else err bad_web_role

  -- `role, _ = NormalizeWebRole(role)`
  abbrev pub web_role_of : AccountGroup → Text
  unfolding normalize_web_role
  web_role_of g = elim (normalize_web_role g.web_role) [ ok r ↦ r | err e ↦ [] ]

  -- The loop of `HighestWebRoleForUser`, which ends at the first admin group.
  unfoldable pub highest_loop : Text → List AccountGroup → Text
  unfolding normalize_web_role
  highest_loop highest [] = highest
  highest_loop highest (g ∷ gs) =
      let raised = highest_loop (codes "readonly") gs in
      let same = highest_loop highest gs in
      if text_eq (web_role_of g) (codes "admin")
      then codes "admin"
      else if text_eq (web_role_of g) (codes "readonly")
      then raised
      else same

  unfoldable pub highest_web_role_for_user : ℕ → M Text
  unfolding highest_loop
  highest_web_role_for_user user_id = do
    groups ← list_groups_for_user user_id
    return (highest_loop [] groups)

  unfoldable pub is_default_group_name : Text → Bool
  is_default_group_name name = low.equal_fold (trim_space name) default_group_name

  abbrev pub group_row : Db → ℕ → Option AccountGroup
  group_row db group = find (λ (g : AccountGroup). g.id == group) db.account_groups

  unfoldable pub is_default_group : ℕ → Db → Bool
  unfolding is_default_group_name
  is_default_group group db =
      not (group == 0)
      && elim (group_row db group) [ none ↦ false | some g ↦ is_default_group_name g.name ]

  abbrev pub id_of : Option AccountGroup → Option ℕ
  id_of none = none
  id_of (some g) = some g.id

  unfoldable pub find_group_id_by_name : Text → Db → Option ℕ
  find_group_id_by_name raw db =
      let name = trim_space raw in
      if text_eq name []
      then none
      else id_of (
          find (λ (g : AccountGroup). text_eq (low.sql_lower g.name) (low.sql_lower name))
            db.account_groups)

  -- The names of groups are unique.
  unfoldable pub insert_group : Text → Text → Text → List Text → M ℕ
  insert_group name description web_role commands db =
      if any (λ (g : AccountGroup). text_eq g.name name) db.account_groups
      then (err constraint, db)
      else (
        ok db.next_group,
        record db {
          account_groups =
              record {
                id = db.next_group;
                name = name;
                description = description;
                web_role = web_role;
                discord_commands = commands;
              }
              ∷ db.account_groups;
          next_group = suc db.next_group;
        },
      )

  -- An operation from a result that needs no database.
  abbrev pub checked : {A : Type 0} → Result A → M A
  checked r db = (r, db)

  unfoldable pub create_group : Text → Text → Text → List Text → M ℕ
  create_group raw description web_role commands = do
    let name = trim_space raw
    if text_eq name [] then throw name_required else do
      default_id ← query (find_group_id_by_name default_group_name)
      if is_default_group_name name && elim default_id [ none ↦ false | some id ↦ true ]
          then throw default_name_reserved
          else do
            role ← checked (normalize_web_role web_role)
            keys ← normalize_discord_commands low commands
            insert_group name description role keys

  abbrev pub update_group : ℕ → (AccountGroup → AccountGroup) → Db → Db
  update_group group f db = record db {
    account_groups = map (λ (g : AccountGroup). if g.id == group then f g else g) db.account_groups;
  }

  unfoldable pub sync_default_group_base_perms : ℕ → M (Unit {0})
  sync_default_group_base_perms group = do
    keys ← normalize_discord_commands low default_commands
    exec (
        update_group group (λ (g : AccountGroup). record g {
          name = default_group_name;
          web_role = [];
          discord_commands = keys;
          description = if is_blank g.description then default_description else g.description;
        }))

  -- Another process that creates the group in between is left out, and with it the second search.
  unfoldable pub ensure_default_group : M ℕ
  unfolding sync_default_group_base_perms create_group
  ensure_default_group = do
    found ← query (find_group_id_by_name default_group_name)
    elim found [
      | some id ↦ sync_default_group_base_perms id >> return id
      | none ↦ create_group default_group_name default_description [] default_commands
    ]

  unfoldable pub ensure_user_in_default_group_if_none : ℕ → M (Unit {0})
  unfolding ensure_default_group
  ensure_user_in_default_group_if_none user_id = if user_id == 0 then return tt else do
    groups ← list_groups_for_user user_id
    if not (length groups == 0)
        then return tt
        else do group ← ensure_default_group; add_group_user group user_id

  -- The last step of `UpdateGroupMeta`: an unknown group is an error, a taken name a constraint.
  unfoldable pub write_group : ℕ → Text → Text → Text → List Text → M (Unit {0})
  write_group group name description web_role commands db =
      if not (any (λ (g : AccountGroup). g.id == group) db.account_groups)
      then (err group_not_found, db)
      else if any (λ (g : AccountGroup). text_eq g.name name && not (g.id == group))
          db.account_groups
      then (err constraint, db)
      else (
        ok tt,
        update_group group
            (λ (g : AccountGroup). record g {
              name = name;
              description = trim_space description;
              web_role = web_role;
              discord_commands = commands;
            })
            db,
      )

  unfoldable pub written : ℕ → Text → Text → Text → List Text → M (Unit {0})
  written group name description web_role commands = do
    role ← checked (normalize_web_role web_role)
    keys ← normalize_discord_commands low commands
    write_group group name description role keys

  unfoldable pub update_group_meta : ℕ → Text → Text → Text → List Text → M (Unit {0})
  update_group_meta group raw description web_role commands = do
    is_default ← query (is_default_group group)
    let name = trim_space raw
    if is_default
        then written group default_group_name description [] default_commands
        else if text_eq name []
        then throw name_required
        else if is_default_group_name name
        then throw default_name_reserved
        else written group name description web_role commands

  -- The members and links go with the group.
  abbrev pub without_group : ℕ → Db → Db
  without_group group db = record db {
    account_groups = keep (λ (g : AccountGroup). not (g.id == group)) db.account_groups;
    group_members = keep (λ (m : GroupMember). not (m.group_id == group)) db.group_members;
    account_group_links =
        keep (λ (l : GroupLink). not (l.group_id == group)) db.account_group_links;
  }

  unfoldable pub delete_group : ℕ → M (Unit {0})
  unfolding is_default_group
  delete_group group db =
      if is_default_group group db
      then (err default_undeletable, db)
      else if any (λ (g : AccountGroup). g.id == group) db.account_groups
      then (ok tt, without_group group db)
      else (err group_not_found, db)
