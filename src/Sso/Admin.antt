-- ===== src/Sso/Admin.antt =====
-- internal/sso/hub.go: userIsAdmin.
use alfred_identity_backend.Common.{Bool, true, false, List, [], Text, text_eq, any, if◌then◌else◌}
use alfred_identity_backend.Store.Db.{User}

abbrev pub is_bootstrap : List Text → User → Bool
is_bootstrap ids u = any (λ id. text_eq id u.discord_id) ids

abbrev pub lists_role : Text → User → Bool
lists_role role u = any (λ r. text_eq r role) u.role_ids

unfoldable pub user_is_admin : List Text → Text → User → Bool
user_is_admin bootstrap_ids admin_role u =
    if is_bootstrap bootstrap_ids u
    then true
    else if text_eq admin_role []
    then false
    else lists_role admin_role u
