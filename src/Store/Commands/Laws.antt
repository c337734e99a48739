-- ===== src/Store/Commands/Laws.antt =====
-- Who may use a slash command.
use alfred_identity_backend.Common.{
  ℕ, ◌≡◌, ◌⊎◌, ◌↔◌, inl, inr, refl, Bool, true, false, ◌&&◌, Option, none, some, ◌==◌, Text, codes,
  text_eq_iff, any, any_iff, any-text_eq, found_any, not_any, In, arith, Bool-cases, or_states,
  and_states, subst,
}
use alfred_identity_backend.Common.Strings.{trim_space, Lowering}
use alfred_identity_backend.Store.Db.{Db, AccountGroup, GroupMember, ok, err, unknown_command}
use alfred_identity_backend.Store.Access.Spec.{HasRole, user_has_role_iff, some_of_iff}
use alfred_identity_backend.Store.Commands.{
  is_known_command, grants, holds_role, joins, is_granted_to, is_discord_command_restricted,
  user_can_use_discord_command,
}

-- The row makes the user a member of the group, by the user's number or by a role of the user.
abbrev pub IsIn : Db → ℕ → ℕ → GroupMember → Type 0
IsIn db user_id group m =
    (m.group_id ≡ group)
    × ((m.user_id ≡ some user_id)
        ⊎ ((role : Text) × (m.discord_role_id ≡ some role) × HasRole db user_id role))

holds_role_iff :
    (db : Db) (user_id : ℕ) (role : Option Text)
    → (holds_role db user_id role ≡ true) ↔ ((r : Text) × (role ≡ some r) × HasRole db user_id r)
holds_role_iff db user_id none = (λ h. cc, λ (r, e, _). cc)
holds_role_iff db user_id (some r) = (
  λ h. (r, refl, (user_has_role_iff db user_id r).0 h),
  λ (s, e, held).
      (user_has_role_iff db user_id r).1 (subst (HasRole db user_id) (ground arith) held),
)

same_number : (m n : ℕ) → ((m == n) ≡ true) ↔ (m ≡ n)
same_number m n = (λ h. ground arith, λ h. ground arith)

pub joins-IsIn :
    (db : Db) (user_id group : ℕ) (m : GroupMember)
    → (joins db user_id group m ≡ true) ↔ IsIn db user_id group m
joins-IsIn db user_id group m =
    and_states _ _ (same_number m.group_id group) (
      or_states _ _ (some_of_iff db user_id m.user_id)
        (holds_role_iff db user_id m.discord_role_id))

-- The group's row lists the command.
abbrev pub Grants : Text → AccountGroup → Type 0
Grants key g = In key g.discord_commands

grants_iff : (key : Text) (g : AccountGroup) → (grants key g ≡ true) ↔ Grants key g
grants_iff key g = any-text_eq key g.discord_commands

-- The two commands that exist.
abbrev pub Known : Text → Type 0
Known key = (key ≡ codes "sso") ⊎ (key ≡ codes "whoami")

is_known_command_iff : (key : Text) → (is_known_command key ≡ true) ↔ Known key
is_known_command_iff key =
    or_states _ _ (text_eq_iff key (codes "sso")) (text_eq_iff key (codes "whoami"))

module _ (low : Lowering) (db : Db) (user_id : ℕ) (cmd_key : Text) where
  abbrev key : Text
  key = low.to_lower (trim_space cmd_key)

  -- The user is in a group that grants the command.
  abbrev pub InGranting : Type 0
  InGranting =
      (g : AccountGroup) × (m : GroupMember) × In g db.account_groups
      × In m db.group_members
      × Grants key g
      × IsIn db user_id g.id m

  -- No group grants the command.
  abbrev pub Open : Type 0
  Open = (g : AccountGroup) → In g db.account_groups → Grants key g → ⊥

  granted_iff : (is_granted_to low key user_id db ≡ true) ↔ InGranting
  granted_iff = (
    λ h.
        let (g, i, t) =
          (any_iff
              (λ (g : AccountGroup). grants key g && any (joins db user_id g.id) db.group_members)
              db.account_groups).0
            h in
        let (m, j, k) = (any_iff (joins db user_id g.id) db.group_members).0 (ground arith) in
        (g, m, i, j, (grants_iff key g).0 (ground arith), (joins-IsIn db user_id g.id m).0 k),
    λ (g, m, i, j, t, k).
        found_any
          (λ (g : AccountGroup). grants key g && any (joins db user_id g.id) db.group_members) g
          db.account_groups i
          ((and_states _ _ (grants_iff key g) (any_iff (joins db user_id g.id) db.group_members)).1
            (t, (m, j, (joins-IsIn db user_id g.id m).1 k))),
  )

  Open-restricted : Open → any (grants key) db.account_groups ≡ true → ⊥
  Open-restricted nobody restricted =
      let (g, i, t) = (any_iff (grants key) db.account_groups).0 restricted in
      nobody g i ((grants_iff key g).0 t)

  unrestricted-Open : any (grants key) db.account_groups ≡ false → Open
  unrestricted-Open e g i t =
      ground (arith, not_any (grants key) g db.account_groups e i, (grants_iff key g).1 t)

  -- UserCanUseDiscordCommand writes nothing. It fails exactly if the trimmed and lowered key is
  -- neither sso nor whoami. For these it says yes exactly if no group's row lists the command, or
  -- one does of which a row makes the user a member, by the user's number or by a Discord role that
  -- the user's row lists.
  pub user_can_use_discord_command_lem :
      ((Known key → ⊥)
        × (user_can_use_discord_command low user_id cmd_key db ≡ (err unknown_command, db)))
      ⊎ (Known key
          × (b : Bool) × (user_can_use_discord_command low user_id cmd_key db ≡ (ok b, db))
          × ((b ≡ true) ↔ (Open ⊎ InGranting)))
  unfolding user_can_use_discord_command is_discord_command_restricted
  user_can_use_discord_command_lem = elim (Bool-cases (is_known_command key)) [
    | inr unknown ↦ inl (λ h. ground (arith, (is_known_command_iff key).1 h), ground arith)
    | inl known ↦ inr (elim (Bool-cases (any (grants key) db.account_groups)) [
      | inl restricted ↦ (
        (is_known_command_iff key).0 known,
        is_granted_to low key user_id db,
        ground arith,
        (
          λ h. inr (granted_iff.0 h),
          λ h. elim h [
            | inl nobody ↦ absurd (Open-restricted nobody restricted)
            | inr member ↦ granted_iff.1 member
          ],
        ),
      )
      | inr open_to_all ↦ (
        (is_known_command_iff key).0 known,
        true,
        ground arith,
        (λ h. inl (unrestricted-Open open_to_all), λ h. refl),
      )
    ])
  ]
