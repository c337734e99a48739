-- ===== src/Process.antt =====
-- internal/appprocess/role.go: the parts of the daemon that a process runs.
use alfred_identity_backend.Common.{
  Bool, true, false, ◌||◌, List, [], ◌∷◌, Option, none, some, if◌then◌else◌, Text, codes, text_eq,
}
use alfred_identity_backend.Common.Strings.{trim_space, Lowering}
use alfred_identity_backend.Common.Env.{has_prefix, trim_prefix}

pub data Role : Type 0 where
  role_all role_web role_discord : Role

module _ (low : Lowering) where
  -- `none` is an error: an unknown process.
  unfoldable pub parse_role : Text → Option Role
  parse_role raw =
      let name = low.to_lower (trim_space raw) in
      if text_eq name [] || text_eq name (codes "all")
      then some role_all
      else if text_eq name (codes "web")
      then some role_web
      else if text_eq name (codes "discord")
      then some role_discord
      else none

  abbrev is_flag : Text → Bool
  is_flag a = text_eq a (codes "-process") || text_eq a (codes "--process")

  -- The argument with the value in it.
  abbrev given_in : Text → Text → Text
  unfolding has_prefix trim_prefix
  given_in a raw =
      if has_prefix (codes "-process=") a
      then trim_prefix (codes "-process=") a
      else if has_prefix (codes "--process=") a
      then trim_prefix (codes "--process=") a
      else raw

  -- The loop over the arguments; `none` is a flag without a value.
  unfoldable pub last_given : List Text → Text → Option Text
  unfolding has_prefix trim_prefix
  last_given [] raw = some raw
  last_given (a ∷ []) raw = if is_flag a then none else some (given_in a raw)
  last_given (a ∷ value ∷ args) raw =
      let after_value = last_given args value in
      let after_arg = last_given (value ∷ args) (given_in a raw) in
      if is_flag a then after_value else after_arg

  unfoldable pub from_args_and_env : List Text → Text → Option Role
  unfolding last_given parse_role
  from_args_and_env args process_env = elim (last_given args (trim_space process_env)) [
    | none ↦ none
    | some raw ↦ parse_role raw
  ]

unfoldable pub wants_http : Role → Bool
wants_http role_all = true
wants_http role_web = true
wants_http role_discord = false

unfoldable pub wants_sso_hub : Role → Bool
unfolding wants_http
wants_sso_hub r = wants_http r

unfoldable pub wants_discord_gateway : Role → Bool
wants_discord_gateway role_all = true
wants_discord_gateway role_web = false
wants_discord_gateway role_discord = true

unfoldable pub wants_share_rest : Role → Bool
wants_share_rest role_web = true
wants_share_rest r = false
