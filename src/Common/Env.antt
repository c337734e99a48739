-- ===== src/Common/Env.antt =====
-- What the code uses of Go's packages os, strings and strconv for the environment.
use Prim.Native.Nat.{ℕ, ◌+◌, ◌*◌, ◌-◌}
use mathlib.Core.List.{List, [], ◌∷◌, reverse}
use mathlib.Core.Option.{Option, none, some}
use mathlib.Core.Bool.{Bool, true, false, ◌&&◌}
use alfred_identity_backend.Common.Tests.{leb, ◌==◌, if◌then◌else◌}
use alfred_identity_backend.Common.Codes.{Text}

-- The parts of a text between separators, one at least.
unfoldable pub split : ℕ → Text → List Text
split sep [] = [] ∷ []
split sep (c ∷ cs) = elim (split sep cs) [
  | [] ↦ [] ∷ []
  | part ∷ parts ↦ if c == sep then [] ∷ part ∷ parts else (c ∷ part) ∷ parts
]

unfoldable pub has_prefix : Text → Text → Bool
has_prefix [] s = true
has_prefix (p ∷ ps) [] = false
has_prefix (p ∷ ps) (c ∷ cs) = (p == c) && has_prefix ps cs

-- What follows a prefix; a text without it stays.
unfoldable pub trim_prefix : Text → Text → Text
trim_prefix [] s = s
trim_prefix (p ∷ ps) [] = []
trim_prefix (p ∷ ps) (c ∷ cs) = trim_prefix ps cs

abbrev drop_leading : ℕ → Text → Text
drop_leading sep [] = []
drop_leading sep (c ∷ cs) = let rest = drop_leading sep cs in if c == sep then rest else c ∷ cs

-- `strings.TrimRight` with one character.
unfoldable pub trim_right : ℕ → Text → Text
trim_right sep s = reverse (drop_leading sep (reverse s))

unfoldable pub is_digit : ℕ → Bool
is_digit c = leb 48 c && leb c 57

-- The number that digits write, or none.
unfoldable pub read_digits : ℕ → Text → Option ℕ
unfolding is_digit
read_digits acc [] = some acc
read_digits acc (c ∷ cs) =
    let rest = read_digits (acc * 10 + (c - 48)) cs in if is_digit c then rest else none
