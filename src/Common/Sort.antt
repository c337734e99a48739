-- ===== src/Common/Sort.antt =====
-- `sort.Slice` by a number, as an insertion sort: with distinct numbers every sort has this result.
use Prim.Native.Nat.{ℕ, ◌≤◌}
use native.Mathlib.Omega.{arith}
use alfred_identity_backend.Common.Tests.{ltb, if◌then◌else◌}
use alfred_identity_backend.Common.Lists.{In}
use mathlib.Core.Logic.{◌↔◌}
use mathlib.Core.List.{List, [], ◌∷◌}
use mathlib.Core.List.{Perm}
use mathlib.Core.List.Perm

module _ {A : Type 0} (id : A → ℕ) where
  pub insert_by_id : A → List A → List A
  insert_by_id a [] = a ∷ []
  insert_by_id a (x ∷ xs) = if ltb (id x) (id a) then x ∷ insert_by_id a xs else a ∷ x ∷ xs

  unfoldable pub sort_by_id : List A → List A
  unfolding insert_by_id
  sort_by_id [] = []
  sort_by_id (x ∷ xs) = insert_by_id x (sort_by_id xs)

  -- Each number is at most the next one.
  abbrev pub Ascending : List A → Type 0
  Ascending [] = Unit {0}
  Ascending (x ∷ []) = Unit {0}
  Ascending (x ∷ y ∷ r) = (id x ≤ id y) × Ascending (y ∷ r)

  insert_by_id-perm : (a : A) (xs : List A) → Perm (insert_by_id a xs) (a ∷ xs)
  unfolding insert_by_id
  insert_by_id-perm a [] = Perm.refl (a ∷ [])
  insert_by_id-perm a (x ∷ xs) =
      let ih = Perm.trans (Perm.cons x (insert_by_id-perm a xs)) (Perm.swap a x xs) in
      ground (arith, ih, Perm.refl (a ∷ x ∷ xs))

  pub sort_by_id-perm : (xs : List A) → Perm (sort_by_id xs) xs
  unfolding sort_by_id
  sort_by_id-perm [] = Perm.refl []
  sort_by_id-perm (x ∷ xs) =
      Perm.trans (insert_by_id-perm x (sort_by_id xs)) (Perm.cons x (sort_by_id-perm xs))

  insert_by_id-Ascending : (a : A) (xs : List A) → Ascending xs → Ascending (insert_by_id a xs)
  unfolding insert_by_id
  insert_by_id-Ascending a [] h = tt
  insert_by_id-Ascending a (x ∷ []) h = ground arith
  insert_by_id-Ascending a (x ∷ y ∷ r) h = ground (arith, insert_by_id-Ascending a (y ∷ r) h.1)

  pub sort_by_id-Ascending : (xs : List A) → Ascending (sort_by_id xs)
  unfolding sort_by_id
  sort_by_id-Ascending [] = tt
  sort_by_id-Ascending (x ∷ xs) = insert_by_id-Ascending x (sort_by_id xs) (sort_by_id-Ascending xs)

module _ {A : Type 0} (id : A → ℕ) where
  insert_by_id-In : (a b : A) (xs : List A) → In b (insert_by_id id a xs) ↔ In b (a ∷ xs)
  unfolding insert_by_id
  insert_by_id-In a b [] = (λ h. h, λ h. h)
  insert_by_id-In a b (x ∷ xs) = ground (arith, insert_by_id-In a b xs)

  -- Sorting keeps the members.
  pub sort_by_id-In : (b : A) (xs : List A) → In b (sort_by_id id xs) ↔ In b xs
  unfolding sort_by_id
  sort_by_id-In b [] = (λ h. h, λ h. h)
  sort_by_id-In b (x ∷ xs) =
      ground (arith, insert_by_id-In x b (sort_by_id id xs), sort_by_id-In b xs)
