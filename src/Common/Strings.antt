-- ===== src/Common/Strings.antt =====
-- What the code uses of Go's package strings, on texts as lists of code points, and the loops that
-- drop blanks and repetitions.
use Prim.Native.Nat.{ℕ, ◌<◌}
use mathlib.Core.Path.{◌≡◌}
use mathlib.Core.Logic.{◌↔◌}
use mathlib.Core.List.{List, [], ◌∷◌, reverse, map}
use mathlib.Core.Bool.{Bool, false, ◌&&◌, ◌||◌}
use native.Mathlib.Omega.{arith}
use alfred_identity_backend.Common.Tests.{leb, ◌==◌, if◌then◌else◌}
use alfred_identity_backend.Common.Lists.{any, In}
use alfred_identity_backend.Common.Codes.{Text, text_eq, text_eq_iff}

-- `unicode.IsSpace`
abbrev pub is_space : ℕ → Bool
is_space c =
    (leb 9 c && leb c 13)
    || (c == 0x20)
    || (c == 0x85)
    || (c == 0xA0)
    || (c == 0x1680)
    || (leb 0x2000 c && leb c 0x200a)
    || (c == 0x2028)
    || (c == 0x2029)
    || (c == 0x202f)
    || (c == 0x205f)
    || (c == 0x3000)

unfoldable pub trim_left : Text → Text
trim_left [] = []
trim_left (c ∷ cs) = let rest = trim_left cs in if is_space c then rest else c ∷ cs

-- `strings.TrimSpace`
unfoldable pub trim_space : Text → Text
unfolding trim_left
trim_space s = reverse (trim_left (reverse (trim_left s)))

-- The numbers that are positive and not seen yet, each once, in order.
unfoldable pub clean_ids : List ℕ → List ℕ → List ℕ
clean_ids seen [] = []
clean_ids seen (x ∷ xs) =
    let rest = clean_ids (x ∷ seen) xs in
    let skipped = clean_ids seen xs in
    if leb x 0 || any (λ k. k == x) seen then skipped else x ∷ rest

-- The trimmed texts that are not empty and not seen yet, each once, in order.
unfoldable pub clean_texts : List Text → List Text → List Text
clean_texts seen [] = []
clean_texts seen (x ∷ xs) =
    let r = trim_space x in
    let rest = clean_texts (r ∷ seen) xs in
    let skipped = clean_texts seen xs in
    if text_eq r [] || any (λ k. text_eq k r) seen then skipped else r ∷ rest

pub clean_ids-In :
    (seen xs : List ℕ) (x : ℕ)
    → In x (clean_ids seen xs) ↔ (In x xs × (0 < x) × (any (λ k. k == x) seen ≡ false))
unfolding clean_ids
clean_ids-In seen [] x = (λ h. absurd h, λ h. absurd h.0)
clean_ids-In seen (y ∷ xs) x = ground (arith, clean_ids-In seen xs x, clean_ids-In (y ∷ seen) xs x)

pub clean_texts-In :
    (seen xs : List Text) (r : Text)
    → In r (clean_texts seen xs)
      ↔ (In r (map trim_space xs) × (text_eq r [] ≡ false) × (any (λ k. text_eq k r) seen ≡ false))
unfolding clean_texts
clean_texts-In seen [] r = (λ h. absurd h, λ h. absurd h.0)
clean_texts-In seen (y ∷ xs) r = ground (
  arith,
  text_eq_iff (trim_space y) r,
  clean_texts-In seen xs r,
  clean_texts-In (trim_space y ∷ seen) xs r,
)

-- Letter case goes by tables that stand outside the code: Go's `strings.ToLower` and `EqualFold`
-- (Unicode), and `lower` of the database (its locale).
pub record Lowering : Type 0 where
  pub to_lower : Text → Text
  pub equal_fold : Text → Text → Bool
  pub sql_lower : Text → Text
