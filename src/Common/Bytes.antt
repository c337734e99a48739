-- ===== src/Common/Bytes.antt =====
-- Go byte slices as lists of numbers: reading numbers, prefixes, sub-slices.
use Prim.Native.Nat.{ℕ, zero, suc, ◌+◌, ◌*◌, ◌/◌, ◌%◌, ◌<◌, ◌≤◌}
use mathlib.Core.Path.{◌≡◌, refl, ap}
use mathlib.Core.List.{List, [], ◌∷◌, ◌++◌}
use mathlib.Core.Bool.{Bool, true, false, ◌&&◌, ◌||◌}
use native.Mathlib.Omega.{arith}
use alfred_identity_backend.Common.Tests.{◌==◌}
use alfred_identity_backend.Common.Lists.{length, get_or, take, drop}

abbrev pub Bytes : Type 0
Bytes = List ℕ

abbrev pub IsByte : ℕ → Type 0
IsByte b = b < 256

-- The byte at an index, which the callers have checked to be in range.
abbrev pub byte_at : Bytes → ℕ → ℕ
byte_at b i = get_or b i 0

abbrev pub be16 : Bytes → ℕ → ℕ
be16 b i = byte_at b i * 256 + byte_at b (i + 1)

abbrev pub le16 : Bytes → ℕ → ℕ
le16 b i = byte_at b i + byte_at b (i + 1) * 256

abbrev pub be32 : Bytes → ℕ → ℕ
be32 b i = be16 b i * 0x10000 + be16 b (i + 2)

abbrev pub le32 : Bytes → ℕ → ℕ
le32 b i = le16 b i + le16 b (i + 2) * 0x10000

-- `binary.LittleEndian.PutUint32`
abbrev pub put_le32 : ℕ → Bytes
put_le32 v = v % 256 ∷ v / 0x100 % 256 ∷ v / 0x10000 % 256 ∷ v / 0x1000000 % 256 ∷ []

-- `bytes.HasPrefix` and `bytes.Contains`
abbrev pub has_prefix : Bytes → Bytes → Bool
has_prefix b [] = true
has_prefix [] (p ∷ ps) = false
has_prefix (b ∷ bs) (p ∷ ps) = b == p && has_prefix bs ps

abbrev pub contains : Bytes → Bytes → Bool
contains [] p = has_prefix [] p
contains (b ∷ bs) p = has_prefix (b ∷ bs) p || contains bs p

pub get_or-append_left :
    (xs ys : Bytes) (i : ℕ) → i < length xs → get_or (xs ++ ys) i 0 ≡ get_or xs i 0
get_or-append_left [] ys i h = elim h [ ]
get_or-append_left (x ∷ xs) ys zero h = refl
get_or-append_left (x ∷ xs) ys (suc i) h = get_or-append_left xs ys i (omega arith)

pub get_or-append_at : (xs ys : Bytes) (y : ℕ) → get_or (xs ++ y ∷ ys) (length xs) 0 ≡ y
get_or-append_at [] ys y = refl
get_or-append_at (x ∷ xs) ys y = get_or-append_at xs ys y

pub has_prefix-append : (p xs ys : Bytes) → has_prefix xs p ≡ true → has_prefix (xs ++ ys) p ≡ true
has_prefix-append [] xs ys h = refl
has_prefix-append (p ∷ ps) [] ys h = cc
has_prefix-append (p ∷ ps) (x ∷ xs) ys h = ground (arith, has_prefix-append ps xs ys)

pub has_prefix-take :
    (p xs : Bytes) (n : ℕ) → length p ≤ n → has_prefix xs p ≡ true → has_prefix (take n xs) p ≡ true
has_prefix-take [] xs n h e = refl
has_prefix-take (p ∷ ps) xs zero h e = absurd (omega arith)
has_prefix-take (p ∷ ps) [] (suc n) h e = cc
has_prefix-take (p ∷ ps) (x ∷ xs) (suc n) h e =
    ground (arith, has_prefix-take ps xs n (omega arith))

pub get_or-take : (xs : Bytes) (n i : ℕ) → i < n → get_or (take n xs) i 0 ≡ get_or xs i 0
get_or-take xs zero i h = elim h [ ]
get_or-take [] (suc n) i h = refl
get_or-take (x ∷ xs) (suc n) zero h = refl
get_or-take (x ∷ xs) (suc n) (suc i) h = get_or-take xs n i (omega arith)

-- A slice cut at an index in range.
pub split_at :
    (xs : Bytes) (n : ℕ) → n < length xs → xs ≡ take n xs ++ get_or xs n 0 ∷ drop (suc n) xs
split_at [] n h = elim h [ ]
split_at (x ∷ xs) zero h = refl
split_at (x ∷ xs) (suc n) h = ap (◌∷◌ x) (split_at xs n (omega arith))
