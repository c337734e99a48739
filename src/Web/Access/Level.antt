-- ===== src/Web/Access/Level.antt =====
-- Who has which level of access to the web pages.
use alfred_identity_backend.Common.{
  ◌≡◌, ◌≢◌, ◌⊎◌, ◌↔◌, inl, inr, Bool, true, false, not, ◌&&◌, ◌||◌, [], Text, codes, text_eq,
  text_eq_iff, any-text_eq, In, refl, arith, Bool-cases, or_states, and_states, if◌then◌else◌,
}
use alfred_identity_backend.Common.Strings.{Lowering}
use alfred_identity_backend.Store.Db.{Db, User}
use alfred_identity_backend.Sso.Admin.{is_bootstrap, lists_role, user_is_admin}
use alfred_identity_backend.Web.Access.{
  Server, group_level, web_access_level, can_access_web, is_web_admin,
}
use alfred_identity_backend.Web.Access.Groups.{GivesAdmin, GivesReading, InGroup, group_level_lem}

-- A text other than a given one.
differs_iff : (t r : Text) → (not (text_eq t r) ≡ true) ↔ (t ≢ r)
differs_iff t r = ground (arith, text_eq_iff t r)

-- The level that five tests give, in their order.
abbrev level_of : Bool → Bool → Bool → Bool → Bool → Text
level_of boot role all some_rights old =
    if boot
    then codes "admin"
    else if role
    then codes "admin"
    else if all
    then codes "admin"
    else if some_rights
    then codes "readonly"
    else if old
    then codes "readonly"
    else []

level_of-admin : (b r a c o : Bool) → text_eq (level_of b r a c o) (codes "admin") ≡ ((b || r) || a)
level_of-admin true r a c o = refl
level_of-admin false true a c o = refl
level_of-admin false false true c o = refl
level_of-admin false false false true o = refl
level_of-admin false false false false true = refl
level_of-admin false false false false false = refl

level_of_filled :
    (b r a c o : Bool) → not (text_eq (level_of b r a c o) []) ≡ (((b || r) || a) || (c || o))
level_of_filled true r a c o = refl
level_of_filled false true a c o = refl
level_of_filled false false true c o = refl
level_of_filled false false false true o = refl
level_of_filled false false false false true = refl
level_of_filled false false false false false = refl

module _ (s : Server) (u : User) where
  -- A bootstrap user, or one who has the admin role, if one is set.
  abbrev pub IsHubAdmin : Type 0
  IsHubAdmin =
      In u.discord_id s.bootstrap_ids ⊎ ((s.admin_role_id ≢ []) × In s.admin_role_id u.role_ids)

  -- The old role for reading, if it is set and another than the admin role.
  abbrev pub HasOldRole : Type 0
  HasOldRole =
      (s.access_role_id ≢ [])
      × ((s.access_role_id ≢ s.admin_role_id) × In s.access_role_id u.role_ids)

  is_bootstrap_iff : (is_bootstrap s.bootstrap_ids u ≡ true) ↔ In u.discord_id s.bootstrap_ids
  is_bootstrap_iff = any-text_eq u.discord_id s.bootstrap_ids

  admin_role_iff :
      ((not (text_eq s.admin_role_id []) && lists_role s.admin_role_id u) ≡ true)
      ↔ ((s.admin_role_id ≢ []) × In s.admin_role_id u.role_ids)
  admin_role_iff =
      and_states _ _ (differs_iff s.admin_role_id []) (any-text_eq s.admin_role_id u.role_ids)

  old_role_iff :
      ((not (text_eq s.access_role_id [])
          && (not (text_eq s.access_role_id s.admin_role_id) && lists_role s.access_role_id u))
        ≡ true)
      ↔ HasOldRole
  old_role_iff = and_states _ _ (differs_iff s.access_role_id []) (
      and_states _ _ (differs_iff s.access_role_id s.admin_role_id)
        (any-text_eq s.access_role_id u.role_ids))

  abbrev hub_admin : Bool
  hub_admin =
      is_bootstrap s.bootstrap_ids u
      || (not (text_eq s.admin_role_id []) && lists_role s.admin_role_id u)

  hub_admin_iff : (hub_admin ≡ true) ↔ IsHubAdmin
  hub_admin_iff = or_states _ _ is_bootstrap_iff admin_role_iff

  hub_admin_lem : user_is_admin s.bootstrap_ids s.admin_role_id u ≡ hub_admin
  unfolding user_is_admin
  hub_admin_lem = ground arith

  module _ (low : Lowering) (db : Db) where
    -- An admin of the hub, or a member of a group with the web role admin.
    abbrev pub IsAdmin : Type 0
    IsAdmin = IsHubAdmin ⊎ InGroup low s u db (GivesAdmin low)

    -- A member of a group with a web role for reading, or one who has the old role.
    abbrev pub IsReader : Type 0
    IsReader = InGroup low s u db (GivesReading low) ⊎ HasOldRole

    abbrev level : Text
    level = group_level low s u db

    admin_iff : ((hub_admin || text_eq level (codes "admin")) ≡ true) ↔ IsAdmin
    admin_iff =
        let (at, _) = group_level_lem low s u db in
        let same = text_eq_iff level (codes "admin") in
        or_states _ _ hub_admin_iff (λ h. at.0 (same.0 h), λ h. same.1 (at.1 h))

    reading_iff :
        (text_eq level (codes "readonly") ≡ true)
        ↔ ((InGroup low s u db (GivesAdmin low) → ⊥) × InGroup low s u db (GivesReading low))
    reading_iff =
        let (_, at) = group_level_lem low s u db in
        let same = text_eq_iff level (codes "readonly") in
        (λ h. at.0 (same.0 h), λ h. same.1 (at.1 h))

    -- A reader in a group, unless an admin.
    reader : IsReader → IsAdmin ⊎ ((text_eq level (codes "readonly") ≡ true) ⊎ HasOldRole)
    reader (inr old) = inr (inr old)
    reader (inl read) =
        let (at, _) = group_level_lem low s u db in
        elim (Bool-cases (text_eq level (codes "admin"))) [
          | inl e ↦ inl (inr (at.0 ((text_eq_iff level (codes "admin")).0 e)))
          | inr e ↦
              let none_gives : InGroup low s u db (GivesAdmin low) → ⊥ =
                λ h. ground (arith, (text_eq_iff level (codes "admin")).1 (at.1 h)) in
              inr (inl (reading_iff.1 (none_gives, read)))
        ]

    level_iff :
        (((hub_admin || text_eq level (codes "admin"))
            || (text_eq level (codes "readonly")
                || (not (text_eq s.access_role_id [])
                    && (not (text_eq s.access_role_id s.admin_role_id)
                        && lists_role s.access_role_id u))))
          ≡ true)
        ↔ (IsAdmin ⊎ IsReader)
    level_iff =
        let states = or_states _ _ admin_iff (or_states _ _ reading_iff old_role_iff) in
        (
          λ h. elim (states.0 h) [
            | inl all ↦ inl all
            | inr (inl (_, read)) ↦ inr (inl read)
            | inr (inr old) ↦ inr (inr old)
          ],
          λ h. elim h [
            | inl all ↦ states.1 (inl all)
            | inr some_rights ↦ elim (reader some_rights) [
              | inl all ↦ states.1 (inl all)
              | inr (inl read) ↦ states.1 (inr (inl (reading_iff.0 read)))
              | inr (inr old) ↦ states.1 (inr (inr old))
            ]
          ],
        )

    -- The hub takes a user for an admin exactly if the user is a bootstrap user or has the admin
    -- role, one being set. A user is a web admin exactly if this is so, or the user is a member of
    -- a group whose trimmed and lowered web role is admin. A user sees the web pages exactly if a
    -- web admin, or a member of a group whose web role is a word for reading only, or one who has
    -- the access role, if this is set and another than the admin role.
    pub web_access_level_lem :
        ((user_is_admin s.bootstrap_ids s.admin_role_id u ≡ true) ↔ IsHubAdmin)
        × ((is_web_admin low s u db ≡ true) ↔ IsAdmin)
        × ((can_access_web low s u db ≡ true) ↔ (IsAdmin ⊎ IsReader))
    unfolding is_web_admin can_access_web web_access_level
    web_access_level_lem = (
      rw hub_admin_lem hub_admin_iff,
      rw (level_of-admin (is_bootstrap s.bootstrap_ids u) _ _ _ _) admin_iff,
      rw (level_of_filled (is_bootstrap s.bootstrap_ids u) _ _ _ _) level_iff,
    )
