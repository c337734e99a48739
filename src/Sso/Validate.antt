-- ===== src/Sso/Validate.antt =====
-- internal/sso/hub.go: validateUsername, validatePassword, validateAlias, validateTag and
-- validateCharacter. A text is the list of its code points; `none` is a nil error.
pub mod Fit
use alfred_identity_backend.Common.{
  ℕ, Bool, ◌||◌, List, [], ◌∷◌, Option, none, some, ltb, ◌==◌, if◌then◌else◌, length, any, Text,
  codes, text_eq,
}

abbrev pub max_username_len : ℕ
max_username_len = 64

abbrev pub max_password_len : ℕ
max_password_len = 128

abbrev pub max_alias_len : ℕ
max_alias_len = 64

abbrev pub max_tag_len : ℕ
max_tag_len = 64

abbrev pub max_character_len : ℕ
max_character_len = 64

-- `strings.ContainsAny(s, "\x00\n\r")`
abbrev pub has_control : Text → Bool
has_control s = any (λ c. (c == 0x00) || ((c == 0x0A) || (c == 0x0D))) s

unfoldable pub validate_username : Text → Option Text
validate_username s =
    if text_eq s []
    then some (codes "username_required")
    else if ltb max_username_len (length s)
    then some (codes "username_too_long")
    else if has_control s
    then some (codes "username_invalid")
    else none

unfoldable pub validate_password : Text → Option Text
validate_password s =
    if text_eq s []
    then some (codes "password_required")
    else if ltb max_password_len (length s)
    then some (codes "password_too_long")
    else if any (λ c. c == 0) s
    then some (codes "password_invalid")
    else none

unfoldable pub validate_alias : Text → Option Text
validate_alias s =
    if text_eq s []
    then some (codes "alias_required")
    else if ltb max_alias_len (length s)
    then some (codes "alias_too_long")
    else if has_control s
    then some (codes "alias_invalid")
    else none

unfoldable pub validate_tag : Text → Option Text
validate_tag s =
    if text_eq s []
    then some (codes "tag_required")
    else if ltb max_tag_len (length s)
    then some (codes "tag_too_long")
    else if has_control s
    then some (codes "tag_invalid")
    else none

unfoldable pub validate_character : Text → Option Text
validate_character s =
    if text_eq s []
    then some (codes "name_required")
    else if ltb max_character_len (length s)
    then some (codes "name_too_long")
    else if has_control s
    then some (codes "name_invalid")
    else none
