-- ===== src/Web/Access.antt =====
-- internal/web/access.go: the level of access to the web pages.
pub mod Groups
pub mod Level
use alfred_identity_backend.Common.{
  ℕ, Bool, true, false, not, ◌&&◌, ◌||◌, List, [], ◌∷◌, if◌then◌else◌, Text, codes, text_eq, any,
}
use alfred_identity_backend.Common.Strings.{Lowering}
use alfred_identity_backend.Store.Db.{Db, User, Result, ok, err}
use alfred_identity_backend.Store.DefaultGroup.{highest_web_role_for_user}
use alfred_identity_backend.Sso.Admin.{is_bootstrap, lists_role}

-- The part of `Server` that decides.
pub record Server : Type 0 where
  pub bootstrap_ids : List Text
  pub admin_role_id : Text
  pub access_role_id : Text

module _ (low : Lowering) (s : Server) where
  -- An error of the store counts as no level.
  unfoldable pub group_level : User → Db → Text
  group_level u db = elim (highest_web_role_for_user low u.id db).0 [
    | ok level ↦ level
    | err e ↦ []
  ]

  unfoldable pub web_access_level : User → Db → Text
  web_access_level u db =
      if is_bootstrap s.bootstrap_ids u
      then codes "admin"
      else if not (text_eq s.admin_role_id []) && lists_role s.admin_role_id u
      then codes "admin"
      else if text_eq (group_level u db) (codes "admin")
      then codes "admin"
      else if text_eq (group_level u db) (codes "readonly")
      then codes "readonly"
      else if not (text_eq s.access_role_id [])
          && (not (text_eq s.access_role_id s.admin_role_id) && lists_role s.access_role_id u)
      then codes "readonly"
      else []

  unfoldable pub can_access_web : User → Db → Bool
  unfolding web_access_level
  can_access_web u db = not (text_eq (web_access_level u db) [])

  unfoldable pub is_web_admin : User → Db → Bool
  unfolding web_access_level
  is_web_admin u db = text_eq (web_access_level u db) (codes "admin")
