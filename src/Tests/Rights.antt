-- ===== src/Tests/Rights.antt =====
-- Tests of the rights to change private shares and to see the web pages.
use alfred_identity_backend.Common.{◌≡◌, ◌⊎◌, ◌↔◌, refl, true, false, [], ◌∷◌, none, some, codes}
use alfred_identity_backend.Store.Db.{Db, EqAccount, err, share_not_owner}
use alfred_identity_backend.Store.Restricted.{check_restricted_account_manage}
use alfred_identity_backend.Sso.Admin.{user_is_admin}
use alfred_identity_backend.Web.Access.{Server, can_access_web, is_web_admin}
use alfred_identity_backend.Web.Access.Level.{IsHubAdmin, IsAdmin, IsReader, web_access_level_lem}
use alfred_identity_backend.Tests.Data.{ascii, small, box, raider}

-- User 8 owns the private share 3.
abbrev owned : EqAccount
owned = record box { restricted = true; owner_user_id = some 8 }

abbrev private : Db
private = record small { eq_accounts = owned ∷ [] }

stranger : (check_restricted_account_manage 3 7 false false private).0 ≡ err share_not_owner
unfolding check_restricted_account_manage
stranger = refl

abbrev server : Server
server = record {
  bootstrap_ids = codes "999" ∷ [];
  admin_role_id = codes "gm";
  access_role_id = codes "raid";
}

-- A group whose web role is for reading only, for those with the role of the raiders.
abbrev viewers : Db
viewers = record small {
  account_groups =
      record {
        id = 1;
        name = codes "Core";
        description = [];
        web_role = codes "viewer ";
        discord_commands = [];
      }
      ∷ [];
  group_members =
      record { group_id = 1; user_id = none; discord_role_id = some (codes "raid") } ∷ [];
}

web_access_level_lem_example :
    ((user_is_admin (codes "999" ∷ []) (codes "gm") raider ≡ true) ↔ IsHubAdmin server raider)
    × ((is_web_admin ascii server raider viewers ≡ true) ↔ IsAdmin server raider ascii viewers)
    × ((can_access_web ascii server raider viewers ≡ true)
        ↔ (IsAdmin server raider ascii viewers ⊎ IsReader server raider ascii viewers))
web_access_level_lem_example = web_access_level_lem server raider ascii viewers
