-- ===== src/Common/Split.antt =====
-- Texts cut at a separator and joined again, and numbers written in decimal and read again.
use Prim.Native.Nat.{ℕ, zero, suc, ◌+◌, ◌/◌, ◌%◌, ◌<◌}
use mathlib.Core.Path.{◌≡◌, refl, sym, ap, ◌∙◌}
use mathlib.Core.Logic.{inl, inr}
use mathlib.Core.List.{List, [], ◌∷◌, ◌++◌}
use mathlib.Core.Option.{some}
use mathlib.Core.Bool.{false}
use native.Mathlib.Omega.{arith}
use alfred_identity_backend.Common.Tests.{ltb, ◌==◌, Bool-cases}
use alfred_identity_backend.Common.Lists.{any}
use alfred_identity_backend.Common.Codes.{Text}
use alfred_identity_backend.Common.Env.{split, is_digit, read_digits}
use alfred_identity_backend.Common.Decimal.{digits, decimal, join}

-- The separator does not occur.
abbrev pub Without : ℕ → Text → Type 0
Without sep s = any (λ c. c == sep) s ≡ false

-- The parts of a text, with one more character in front of the first.
abbrev onto_first : ℕ → List Text → List Text
onto_first c [] = [] ∷ []
onto_first c (p ∷ ps) = (c ∷ p) ∷ ps

pub split_cases : (sep : ℕ) (s : Text) → (p : Text) × (ps : List Text) × (split sep s ≡ p ∷ ps)
unfolding split
split_cases sep [] = ([], [], refl)
split_cases sep (c ∷ cs) =
    let (p, ps, e) = split_cases sep cs in
    elim (Bool-cases (c == sep)) [
      | inl at ↦ ([], p ∷ ps, ground (arith, e, at))
      | inr other ↦ (c ∷ p, ps, ground (arith, e, other))
    ]

pub split-Without : (sep : ℕ) (s : Text) → Without sep s → split sep s ≡ s ∷ []
unfolding split
split-Without sep [] h = refl
split-Without sep (c ∷ cs) h = ground (arith, split-Without sep cs)

pub split-append :
    (sep : ℕ) (s t : Text) → Without sep s → split sep (s ++ sep ∷ t) ≡ s ∷ split sep t
unfolding split
split-append sep [] t h = let (p, ps, e) = split_cases sep t in ground (arith, e)
split-append sep (c ∷ cs) t h = ground (arith, split-append sep cs t)

join-onto :
    (sep c : ℕ) (p : Text) (ps : List Text)
    → join (sep ∷ []) ((c ∷ p) ∷ ps) ≡ c ∷ join (sep ∷ []) (p ∷ ps)
unfolding join
join-onto sep c p [] = refl
join-onto sep c p (q ∷ r) = refl

-- Joining the parts with the separator gives the text back.
pub join-split : (sep : ℕ) (s : Text) → join (sep ∷ []) (split sep s) ≡ s
unfolding split join
join-split sep [] = refl
join-split sep (c ∷ cs) =
    let (p, ps, e) = split_cases sep cs in
    let ih = ap (◌∷◌ c) (sym (ap (join (sep ∷ [])) e) ∙ join-split sep cs) in
    elim (Bool-cases (c == sep)) [
      | inl at ↦ rw (e, split) (rw at (ground (arith, at, ih)))
      | inr other ↦ rw (e, split) (rw other (join-onto sep c p ps ∙ ih))
    ]

-- Reading the digits of a number goes on from the number.
read-digits :
    (fuel n : ℕ) (acc : Text) → n < fuel → read_digits 0 (digits fuel n acc) ≡ read_digits n acc
unfolding digits read_digits is_digit
read-digits zero n acc h = absurd (omega (arith, h))
read-digits (suc fuel) n acc h = elim (Bool-cases (ltb n 10)) [
  | inl small ↦ rw small (ground arith)
  | inr large ↦
      rw large (read-digits fuel (n / 10) ((48 + n % 10) ∷ acc) (ground arith) ∙ ground arith)
]

pub read-decimal : (n : ℕ) → read_digits 0 (decimal n) ≡ some n
unfolding decimal read_digits
read-decimal n = read-digits (suc n) n [] (omega arith)

Without-digits :
    (sep fuel n : ℕ) (acc : Text) → sep < 48 → Without sep acc → Without sep (digits fuel n acc)
unfolding digits
Without-digits sep zero n acc h w = w
Without-digits sep (suc fuel) n acc h w = elim (Bool-cases (ltb n 10)) [
  | inl small ↦ rw small (ground arith)
  | inr large ↦ rw large (Without-digits sep fuel (n / 10) ((48 + n % 10) ∷ acc) h (ground arith))
]

pub Without-decimal : (sep n : ℕ) → sep < 48 → Without sep (decimal n)
unfolding decimal
Without-decimal sep n h = Without-digits sep (suc n) n [] h refl
