-- ===== src/Common/Bytes.antt =====
-- Strings and byte slices as lists of bytes: equality, prefixes and the order by bytes.
use any_sync.Common.Tests.{ltb, ◌==◌, if◌then◌else◌, ==_refl, Bool-cases}
use mathlib.Core.Logic.{inl, inr}
use Prim.Native.Nat.{ℕ}
use mathlib.Core.Path.{◌≡◌, refl, ap₂}
use mathlib.Core.Bool.{Bool, true, false, ◌&&◌}
use mathlib.Core.List.{List, [], ◌∷◌, ◌++◌}
use native.Mathlib.Omega.{arith}

abbrev pub Bytes : Type 0
Bytes = List ℕ

unfoldable pub same : Bytes → Bytes → Bool
same [] [] = true
same [] (y ∷ ys) = false
same (x ∷ xs) [] = false
same (x ∷ xs) (y ∷ ys) = (x == y) && same xs ys

-- `strings.HasPrefix`.
unfoldable pub has_prefix : Bytes → Bytes → Bool
has_prefix s [] = true
has_prefix [] (p ∷ ps) = false
has_prefix (x ∷ xs) (p ∷ ps) = (x == p) && has_prefix xs ps

-- The first is not after the second.
unfoldable pub up_to : Bytes → Bytes → Bool
up_to [] ys = true
up_to (x ∷ xs) [] = false
up_to (x ∷ xs) (y ∷ ys) = if x == y then up_to xs ys else ltb x y

pub same_refl : (xs : Bytes) → same xs xs ≡ true
unfolding same
same_refl [] = refl
same_refl (x ∷ xs) = rw (==_refl x, same_refl xs) refl

pub same→≡ : (xs ys : Bytes) → same xs ys ≡ true → xs ≡ ys
unfolding same
same→≡ [] [] e = refl
same→≡ [] (y ∷ ys) e = ground arith
same→≡ (x ∷ xs) [] e = ground arith
same→≡ (x ∷ xs) (y ∷ ys) e = ap₂ ◌∷◌ (ground arith) (same→≡ xs ys (ground arith))

pub has_prefix-++ : (p xs : Bytes) → has_prefix (p ++ xs) p ≡ true
unfolding has_prefix
has_prefix-++ [] xs = refl
has_prefix-++ (x ∷ p) xs = rw (==_refl x, has_prefix-++ p xs) refl

-- What starts with the start of a string starts with every start of that.
pub has_prefix_trans :
    (xs ys p : Bytes) → has_prefix xs ys ≡ true → has_prefix ys p ≡ true → has_prefix xs p ≡ true
unfolding has_prefix
has_prefix_trans [] ys [] e f = refl
has_prefix_trans (x ∷ xs) ys [] e f = refl
has_prefix_trans [] [] (b ∷ p) e f = f
has_prefix_trans [] (y ∷ ys) (b ∷ p) e f = e
has_prefix_trans (x ∷ xs) [] (b ∷ p) e f = ground arith
has_prefix_trans (x ∷ xs) (y ∷ ys) (b ∷ p) e f =
    ground (arith, has_prefix_trans xs ys p (ground arith) (ground arith))

pub up_to-has_prefix : (xs p : Bytes) → has_prefix xs p ≡ true → up_to p xs ≡ true
unfolding has_prefix up_to
up_to-has_prefix xs [] e = refl
up_to-has_prefix [] (b ∷ p) e = ground arith
up_to-has_prefix (x ∷ xs) (b ∷ p) e = ground (arith, up_to-has_prefix xs p (ground arith))

-- The strings with one prefix lie together: past the first that is not one of them, none is.
pub has_prefix-run :
    (p ys zs : Bytes)
    → up_to p ys ≡ true
    → has_prefix ys p ≡ false
    → up_to ys zs ≡ true
    → has_prefix zs p ≡ false
unfolding has_prefix up_to
has_prefix-run [] [] zs a b c = ground arith
has_prefix-run [] (y ∷ ys) zs a b c = ground arith
has_prefix-run (x ∷ p) [] zs a b c = ground arith
has_prefix-run (x ∷ p) (y ∷ ys) [] a b c = ground arith
has_prefix-run (x ∷ p) (y ∷ ys) (z ∷ zs) a b c = elim (Bool-cases (x == y)) [
  | inl e ↦ elim (Bool-cases (y == z)) [
    | inl f ↦ ground (arith, has_prefix-run p ys zs (ground arith) (ground arith) (ground arith))
    | inr f ↦ ground arith
  ]
  | inr e ↦ ground arith
]

pub up_to_trans : (xs ys zs : Bytes) → up_to xs ys ≡ true → up_to ys zs ≡ true → up_to xs zs ≡ true
unfolding up_to
up_to_trans [] ys zs a b = refl
up_to_trans (x ∷ xs) [] zs a b = ground arith
up_to_trans (x ∷ xs) (y ∷ ys) [] a b = ground arith
up_to_trans (x ∷ xs) (y ∷ ys) (z ∷ zs) a b = elim (Bool-cases (x == y)) [
  | inl e ↦ elim (Bool-cases (y == z)) [
    | inl f ↦ ground (arith, up_to_trans xs ys zs (ground arith) (ground arith))
    | inr f ↦ ground arith
  ]
  | inr e ↦ ground arith
]

pub up_to_total : (xs ys : Bytes) → up_to xs ys ≡ false → up_to ys xs ≡ true
unfolding up_to
up_to_total [] ys a = ground arith
up_to_total (x ∷ xs) [] a = refl
up_to_total (x ∷ xs) (y ∷ ys) a = elim (Bool-cases (x == y)) [
  | inl e ↦ ground (arith, up_to_total xs ys (ground arith))
  | inr e ↦ ground arith
]

pub up_to_antisym : (xs ys : Bytes) → up_to xs ys ≡ true → up_to ys xs ≡ true → same xs ys ≡ true
unfolding up_to same
up_to_antisym [] [] a b = refl
up_to_antisym [] (y ∷ ys) a b = ground arith
up_to_antisym (x ∷ xs) [] a b = ground arith
up_to_antisym (x ∷ xs) (y ∷ ys) a b = elim (Bool-cases (x == y)) [
  | inl e ↦ ground (arith, up_to_antisym xs ys (ground arith) (ground arith))
  | inr e ↦ ground arith
]
