-- ===== src/Common/Assoc.antt =====
-- A Go map with integer keys as an association list in which a key stands once. The order of the
-- list stands for nothing: Go's map iteration has no order.
use Prim.Native.Nat.{ℕ}
use mathlib.Core.Path.{◌≡◌, refl, ap, ◌∙◌}
use mathlib.Core.Logic.{◌≢◌, ◌⊎◌, inl, inr}
use mathlib.Core.List.{List, [], ◌∷◌}
use mathlib.Core.Option.{Option, none, some}
use mathlib.Core.Bool.{Bool, not}
use native.Mathlib.Omega.{arith}
use alfred_identity_backend.Common.Tests.{◌==◌, if◌then◌else◌, Bool-cases}
use alfred_identity_backend.Common.Lists.{keep, In}

module _ {V : Type 0} where
  abbrev pub lookup : ℕ → List (ℕ × V) → Option V
  lookup k [] = none
  lookup k ((j, v) ∷ m) = if j == k then some v else lookup k m

  abbrev pub insert : ℕ → V → List (ℕ × V) → List (ℕ × V)
  insert k v [] = (k, v) ∷ []
  insert k v ((j, w) ∷ m) = if j == k then (k, v) ∷ m else (j, w) ∷ insert k v m

  abbrev pub delete : ℕ → List (ℕ × V) → List (ℕ × V)
  delete k m = keep (λ p. not (p.0 == k)) m

  -- No key of the map is `k`.
  abbrev pub Fresh : ℕ → List (ℕ × V) → Type 0
  Fresh k [] = Unit {0}
  Fresh k ((j, v) ∷ m) = (j ≢ k) × Fresh k m

  abbrev pub Distinct : List (ℕ × V) → Type 0
  Distinct [] = Unit {0}
  Distinct ((j, v) ∷ m) = Fresh j m × Distinct m

  pub lookup-insert :
      (k j : ℕ) (v : V) (m : List (ℕ × V))
      → lookup j (insert k v m) ≡ (if k == j then some v else lookup j m)
  lookup-insert k j v [] = refl
  lookup-insert k j v ((i, w) ∷ m) = ground (arith, lookup-insert k j v m)

  pub lookup-Fresh : (k : ℕ) (m : List (ℕ × V)) → Fresh k m → lookup k m ≡ none
  lookup-Fresh k [] h = refl
  lookup-Fresh k ((j, v) ∷ m) h = ground (arith, lookup-Fresh k m h.1)

  pub insert-Fresh :
      (k j : ℕ) (v : V) (m : List (ℕ × V)) → k ≢ j → Fresh j m → Fresh j (insert k v m)
  insert-Fresh k j v [] n h = (n, tt)
  insert-Fresh k j v ((i, w) ∷ m) n h = ground (arith, insert-Fresh k j v m n h.1)

  pub insert-Distinct : (k : ℕ) (v : V) (m : List (ℕ × V)) → Distinct m → Distinct (insert k v m)
  insert-Distinct k v [] h = (tt, tt)
  insert-Distinct k v ((i, w) ∷ m) h =
      ground (arith, insert-Distinct k v m h.1, insert-Fresh k i v m)

  pub keep-Fresh : (f : ℕ × V → Bool) (k : ℕ) (m : List (ℕ × V)) → Fresh k m → Fresh k (keep f m)
  keep-Fresh f k [] h = tt
  keep-Fresh f k ((j, v) ∷ m) h = ground (arith, keep-Fresh f k m h.1)

  pub keep-Distinct : (f : ℕ × V → Bool) (m : List (ℕ × V)) → Distinct m → Distinct (keep f m)
  keep-Distinct f [] h = tt
  keep-Distinct f ((j, v) ∷ m) h = ground (arith, keep-Distinct f m h.1, keep-Fresh f j m h.0)

  -- What a map restricted by a test holds at a key.
  abbrev pub restrict : (ℕ × V → Bool) → ℕ → Option V → Option V
  restrict f k none = none
  restrict f k (some v) = if f (k, v) then some v else none

  pub lookup-keep :
      (f : ℕ × V → Bool) (k : ℕ) (m : List (ℕ × V))
      → Distinct m
      → lookup k (keep f m) ≡ restrict f k (lookup k m)
  lookup-keep f k [] h = refl
  lookup-keep f k ((j, v) ∷ m) h = ground (
    arith,
    lookup-keep f k m h.1,
    lookup-Fresh j (keep f m) (keep-Fresh f j m h.0),
    lookup-Fresh j m h.0,
  )

  pub In-Fresh : (k : ℕ) (p : ℕ × V) (m : List (ℕ × V)) → Fresh k m → In p m → p.0 ≢ k
  In-Fresh k p [] f h = absurd h
  In-Fresh k p ((j, w) ∷ m) f (inl e) = λ q. f.0 (ap (λ (t : ℕ × V). t.0) e ∙ q)
  In-Fresh k p ((j, w) ∷ m) f (inr h) = In-Fresh k p m f.1 h

  -- An entry of a map after an insertion is the new one or an old one under another key.
  pub In-insert :
      (k : ℕ) (v : V) (p : ℕ × V) (m : List (ℕ × V))
      → Distinct m
      → In p (insert k v m)
      → (p ≡ (k, v)) ⊎ ((p.0 ≢ k) × In p m)
  In-insert k v p [] d h = ground arith
  In-insert k v p ((j, w) ∷ m) d h = elim (Bool-cases (j == k)) [
    | inl e ↦ ground (arith, In-Fresh j p m d.0)
    | inr e ↦ ground (arith, In-insert k v p m d.1)
  ]

  pub In-lookup : (k : ℕ) (v : V) (m : List (ℕ × V)) → lookup k m ≡ some v → In (k, v) m
  In-lookup k v [] h = cc
  In-lookup k v ((j, w) ∷ m) h = ground (arith, In-lookup k v m)

  pub lookup-In :
      (k : ℕ) (v : V) (m : List (ℕ × V)) → Distinct m → In (k, v) m → lookup k m ≡ some v
  lookup-In k v [] d h = absurd h
  lookup-In k v ((j, w) ∷ m) d (inl e) = ground arith
  lookup-In k v ((j, w) ∷ m) d (inr h) =
      ground (arith, lookup-In k v m d.1 h, In-Fresh j (k, v) m d.0 h)
