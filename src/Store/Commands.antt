-- ===== src/Store/Commands.antt =====
-- internal/store/discord_commands.go: the slash commands that groups grant.
pub mod Laws
use alfred_identity_backend.Common.{
  ℕ, Bool, true, false, not, ◌&&◌, ◌||◌, List, [], ◌∷◌, Option, none, some, ltb, ◌==◌,
  if◌then◌else◌, Text, codes, text_eq, any,
}
use alfred_identity_backend.Common.Strings.{trim_space, Lowering}
use alfred_identity_backend.Store.Db.{
  Db, M, AccountGroup, GroupMember, Result, ok, err, unknown_command, ◌>>=◌, return, throw, query,
}
use alfred_identity_backend.Store.Access.{is_some_of, user_has_role}

abbrev pub is_known_command : Text → Bool
is_known_command c = text_eq c (codes "sso") || text_eq c (codes "whoami")

-- The order of `sort.Strings`.
abbrev pub text_leb : Text → Text → Bool
text_leb [] t = true
text_leb (x ∷ s) [] = false
text_leb (x ∷ s) (y ∷ t) = ltb x y || ((x == y) && text_leb s t)

abbrev pub insert_text : Text → List Text → List Text
insert_text c [] = c ∷ []
insert_text c (d ∷ ds) =
    let rest = insert_text c ds in if text_leb c d then c ∷ d ∷ ds else d ∷ rest

unfoldable pub sort_texts : List Text → List Text
sort_texts [] = []
sort_texts (c ∷ cs) = insert_text c (sort_texts cs)

-- Has the key, as `discord_commands @> $1` does.
abbrev pub grants : Text → AccountGroup → Bool
grants key g = any (λ c. text_eq c key) g.discord_commands

abbrev pub holds_role : Db → ℕ → Option Text → Bool
holds_role db user_id none = false
holds_role db user_id (some role) = user_has_role db user_id role

-- The row makes the user a member of the group; unlike the query of `AllowedAccountIDs`, this one
-- does not ask that the role is not empty.
abbrev pub joins : Db → ℕ → ℕ → GroupMember → Bool
joins db user_id group m =
    m.group_id == group && (is_some_of user_id m.user_id || holds_role db user_id m.discord_role_id)

module _ (low : Lowering) where
  abbrev pub key_of : Text → Text
  key_of c = low.to_lower (trim_space c)

  -- The loop; `none` is the error for a key that is not known.
  unfoldable pub normal_commands : List Text → List Text → Option (List Text)
  normal_commands seen [] = some []
  normal_commands seen (c ∷ cs) =
      let skipped = normal_commands seen cs in
      let rest = normal_commands (key_of c ∷ seen) cs in
      if text_eq (key_of c) []
      then skipped
      else if not (is_known_command (key_of c))
      then none
      else if any (λ k. text_eq k (key_of c)) seen
      then skipped
      else elim rest [ none ↦ none | some keys ↦ some (key_of c ∷ keys) ]

  unfoldable pub normalize_discord_commands : List Text → M (List Text)
  unfolding normal_commands sort_texts
  normalize_discord_commands cmds = elim (normal_commands [] cmds) [
    | none ↦ throw unknown_command
    | some keys ↦ return (sort_texts keys)
  ]

  unfoldable pub is_discord_command_restricted : Text → M Bool
  is_discord_command_restricted cmd_key =
      if not (is_known_command (key_of cmd_key))
      then throw unknown_command
      else query (λ db. any (grants (key_of cmd_key)) db.account_groups)

  -- Some group that grants the key has the user as a member.
  abbrev pub is_granted_to : Text → ℕ → Db → Bool
  is_granted_to key user_id db =
      any (λ (g : AccountGroup). grants key g && any (joins db user_id g.id) db.group_members)
        db.account_groups

  unfoldable pub user_can_use_discord_command : ℕ → Text → M Bool
  user_can_use_discord_command user_id cmd_key = do
    restricted ← is_discord_command_restricted cmd_key
    if not restricted then return true else query (is_granted_to (key_of cmd_key) user_id)
