-- ===== src/Common/Decimal.antt =====
-- Numbers in decimal, as `%d` prints them, and what `%v` makes of a list.
use Prim.Native.Nat.{ℕ, zero, suc, ◌+◌, ◌/◌, ◌%◌}
use mathlib.Core.List.{List, [], ◌∷◌, ◌++◌}
use alfred_identity_backend.Common.Tests.{ltb, if◌then◌else◌}
use alfred_identity_backend.Common.Codes.{Text, codes}

-- The digits of a number before those in `acc`; each round divides by ten.
unfoldable pub digits : ℕ → ℕ → Text → Text
digits zero n acc = acc
digits (suc fuel) n acc =
    let more = digits fuel (n / 10) ((48 + n % 10) ∷ acc) in
    if ltb n 10 then (48 + n) ∷ acc else more

unfoldable pub decimal : ℕ → Text
unfolding digits
decimal n = digits (suc n) n []

-- The items with a separator between them.
unfoldable pub join : Text → List Text → Text
join sep [] = []
join sep (x ∷ []) = x
join sep (x ∷ y ∷ r) = x ++ (sep ++ join sep (y ∷ r))

unfoldable pub bracketed : List Text → Text
unfolding join
bracketed xs = codes "[" ++ (join (codes " ") xs ++ codes "]")
