-- ===== src/Tests/Groups.antt =====
-- Tests of groups, on the small database.
use alfred_identity_backend.Common.{
  none, ◌≡◌, ◌⊎◌, ◌↔◌, refl, sym, ap, subst, inl, inr, Bool, true, [], ◌∷◌, none, some, Text, codes,
  arith,
}
use alfred_identity_backend.Common.Strings.{trim_space}
use alfred_identity_backend.Store.Db.{
  Db, AccountGroup, ok, err, unknown_command, default_name_reserved,
}
use alfred_identity_backend.Store.Commands.{user_can_use_discord_command}
use alfred_identity_backend.Store.Commands.Laws.{
  Known, Open, InGranting, user_can_use_discord_command_lem,
}
use alfred_identity_backend.Store.Groups.{list_groups_for_user}
use alfred_identity_backend.Store.DefaultGroup.{
  default_group_name, is_default_group_name, find_group_id_by_name, highest_web_role_for_user,
  create_group, update_group_meta, delete_group, sync_default_group_base_perms,
}
use alfred_identity_backend.Store.DefaultGroup.Lock.{Locked, default_group-Locked}
use alfred_identity_backend.Store.DefaultGroup.WebRole.{
  HasWebRole, readonly, admin, highest_web_role_for_user_lem,
}
use alfred_identity_backend.Tests.Data.{ascii, small}

abbrev managers : AccountGroup
managers = record {
  id = 2;
  name = codes "Managers";
  description = [];
  web_role = codes " Admin";
  discord_commands = [];
}

abbrev default_group : AccountGroup
default_group = record {
  id = 1;
  name = codes "Default";
  description = [];
  web_role = [];
  discord_commands = codes "sso" ∷ [];
}

-- User 8 is in both groups.
abbrev grouped : Db
grouped = record small {
  account_groups = default_group ∷ managers ∷ [];
  group_members =
      record { group_id = 1; user_id = some 8; discord_role_id = none }
      ∷ record { group_id = 2; user_id = some 8; discord_role_id = none }
      ∷ [];
}

abbrev command : Text
command = codes "sso"

user_can_use_discord_command_lem_example :
    ((Known command → ⊥)
      × (user_can_use_discord_command ascii 7 (codes "SSO") grouped
          ≡ (err unknown_command, grouped)))
    ⊎ (Known command
        × (b : Bool) × (user_can_use_discord_command ascii 7 (codes "SSO") grouped
            ≡ (ok b, grouped))
        × ((b ≡ true)
            ↔ (Open ascii grouped 7 (codes "SSO") ⊎ InGranting ascii grouped 7 (codes "SSO"))))
unfolding trim_space
user_can_use_discord_command_lem_example =
    user_can_use_discord_command_lem ascii grouped 7 (codes "SSO")

both_listed : list_groups_for_user 8 grouped ≡ (ok (default_group ∷ managers ∷ []), grouped)
unfolding list_groups_for_user
both_listed = refl

highest_web_role_for_user_lem_example :
    (r : Text) × (highest_web_role_for_user ascii 8 grouped ≡ (ok r, grouped))
    × ((r ≡ admin ascii) ↔ HasWebRole ascii (admin ascii) (default_group ∷ managers ∷ []))
    × ((r ≡ readonly ascii) ↔ (
        (HasWebRole ascii (admin ascii) (default_group ∷ managers ∷ []) → ⊥)
        × HasWebRole ascii (readonly ascii) (default_group ∷ managers ∷ [])))
    × ((r ≡ []) ↔ (
        (HasWebRole ascii (admin ascii) (default_group ∷ managers ∷ []) → ⊥)
        × (HasWebRole ascii (readonly ascii) (default_group ∷ managers ∷ []) → ⊥)))
highest_web_role_for_user_lem_example =
    highest_web_role_for_user_lem ascii 8 grouped (default_group ∷ managers ∷ []) both_listed

grouped-Locked : Locked ascii grouped
unfolding is_default_group_name trim_space
grouped-Locked g (inl p) named = ap (λ (x : AccountGroup). x.web_role) (sym p)
grouped-Locked g (inr (inl p)) named =
    let bad : is_default_group_name ascii (codes "Managers") ≡ true =
      subst (λ (x : AccountGroup). is_default_group_name ascii x.name ≡ true) (sym p) named in
    absurd (ground arith)
grouped-Locked g (inr (inr i)) named = absurd i

reserved :
    (create_group ascii (codes "DEFAULT ") [] (codes "admin") [] grouped).0
    ≡ err default_name_reserved
unfolding create_group is_default_group_name find_group_id_by_name trim_space
reserved = refl

default_group-Locked_example :
    Locked ascii (update_group_meta ascii 1 (codes "Renamed") [] (codes "admin") [] grouped).1
    × Locked ascii (delete_group ascii 1 grouped).1
    × Locked ascii (sync_default_group_base_perms ascii 1 grouped).1
    × ((find_group_id_by_name ascii default_group_name grouped ≡ none)
        ⊎ Locked ascii (create_group ascii (codes "Renamed") [] (codes "admin") [] grouped).1)
default_group-Locked_example =
    default_group-Locked ascii 1 (codes "Renamed") [] (codes "admin") [] grouped refl grouped-Locked
