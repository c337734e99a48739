-- ===== src/Common/Int.antt =====
-- Integers over the native numbers, and `strconv.Atoi`.
use Prim.Native.Nat.{ℕ, zero, suc, ◌^◌}
use mathlib.Core.List.{[], ◌∷◌}
use mathlib.Core.Option.{Option, none, some}
use alfred_identity_backend.Common.Tests.{ltb, leb, ◌==◌, if◌then◌else◌}
use alfred_identity_backend.Common.Codes.{Text}
use alfred_identity_backend.Common.Env.{read_digits}

-- `negsuc n` is -(n + 1).
pub data ℤ : Type 0 where
  pos : ℕ → ℤ
  negsuc : ℕ → ℤ

abbrev pub negated : ℕ → ℤ
negated zero = pos 0
negated (suc n) = negsuc n

-- The number of a text of digits, if there is one at least.
abbrev magnitude : Text → Option ℕ
unfolding read_digits
magnitude [] = none
magnitude (c ∷ cs) = read_digits 0 (c ∷ cs)

abbrev positive : Option ℕ → Option ℤ
positive none = none
positive (some n) = if ltb n (2 ^ 63) then some (pos n) else none

abbrev negative : Option ℕ → Option ℤ
negative none = none
negative (some n) = if leb n (2 ^ 63) then some (negated n) else none

-- A sign and digits, of a number that fits 64 bits.
unfoldable pub atoi : Text → Option ℤ
unfolding read_digits
atoi [] = none
atoi (c ∷ cs) =
    if c == b'-'
    then negative (magnitude cs)
    else positive (if c == b'+' then magnitude cs else magnitude (c ∷ cs))
