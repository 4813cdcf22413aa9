-- ===== src/Prelude/Lists.antt =====
-- Lists measured by native numbers, membership of a number, and predicates on every element.
use Prim.Native.Nat.{ℕ, zero, suc, ◌+◌, ◌≤◌}
use mathlib.Core.Path.{◌≡◌, refl, ap}
use mathlib.Core.Bool.{Bool, true, false, ◌&&◌, ◌||◌}
use mathlib.Core.List.{List, [], ◌∷◌, ◌++◌}
use native.Mathlib.Omega.{arith}
use mathlib.Core.Logic.{inl, inr}
use intertexum.Prelude.Tests.{◌==◌, Bool-cases, if◌then◌else◌}

module _ {ℓ} {A : Type ℓ} where
  abbrev pub length : List A → ℕ
  length [] = 0
  length (x ∷ xs) = suc (length xs)

  abbrev pub take : ℕ → List A → List A
  take zero xs = []
  take (suc n) [] = []
  take (suc n) (x ∷ xs) = x ∷ take n xs

  -- `any(...)` and `all(...)` of the source.
  abbrev pub any : (A → Bool) → List A → Bool
  any p [] = false
  any p (x ∷ xs) = p x || any p xs

  abbrev pub all : (A → Bool) → List A → Bool
  all p [] = true
  all p (x ∷ xs) = p x && all p xs

  -- The elements that pass a test, in order.
  abbrev pub keep : (A → Bool) → List A → List A
  keep p [] = []
  keep p (x ∷ xs) = let rest = keep p xs in if p x then x ∷ rest else rest

  abbrev pub sum_by : (A → ℕ) → List A → ℕ
  sum_by f [] = 0
  sum_by f (x ∷ xs) = f x + sum_by f xs

module _ {ℓ κ} {A : Type ℓ} where
  abbrev pub All : (A → Type κ) → List A → Type κ
  All P [] = Unit
  All P (x ∷ xs) = P x × All P xs

-- `x in xs`
unfoldable pub elem : ℕ → List ℕ → Bool
elem x [] = false
elem x (y ∷ ys) = x == y || elem x ys

-- `INSERT OR IGNORE` into a table of one column.
unfoldable pub add : ℕ → List ℕ → List ℕ
unfolding elem
add x xs = if elem x xs then xs else xs ++ x ∷ []

pub elem-append : (x : ℕ) (xs ys : List ℕ) → elem x (xs ++ ys) ≡ (elem x xs || elem x ys)
unfolding elem
elem-append x [] ys = refl
elem-append x (z ∷ xs) ys = ground (arith, elem-append x xs ys)

pub elem-add : (x y : ℕ) (xs : List ℕ) → elem x (add y xs) ≡ (x == y || elem x xs)
unfolding add
elem-add x y xs = ground (arith, elem-append x xs (y ∷ []), elem_one x y, elem_congr x y xs)
  where
    elem_one : (x y : ℕ) → elem x (y ∷ []) ≡ (x == y)
    elem_one x y = ground arith

    elem_congr : (x y : ℕ) (xs : List ℕ) → x ≡ y → elem x xs ≡ elem y xs
    elem_congr x y xs e = ap (λ z. elem z xs) e

module _ {ℓ} {A : Type ℓ} where
  pub length-append : (xs ys : List A) → length (xs ++ ys) ≡ length xs + length ys
  length-append [] ys = omega arith
  length-append (x ∷ xs) ys = omega (arith, length-append xs ys)

  pub sum_by-append : (f : A → ℕ) (xs ys : List A) → sum_by f (xs ++ ys) ≡ sum_by f xs + sum_by f ys
  sum_by-append f [] ys = omega arith
  sum_by-append f (x ∷ xs) ys = omega (arith, sum_by-append f xs ys)

  pub length-keep-le : (p : A → Bool) (xs : List A) → length (keep p xs) ≤ length xs
  length-keep-le p [] = omega arith
  length-keep-le p (x ∷ xs) = ground (arith, length-keep-le p xs)

pub length-add-le : (x : ℕ) (xs : List ℕ) → length (add x xs) ≤ length xs + 1
unfolding add
length-add-le x xs = ground (arith, length-append xs (x ∷ []))

pub All-elem {κ} : (P : ℕ → Type κ) (x : ℕ) (xs : List ℕ) → All P xs → elem x xs ≡ true → P x
unfolding elem
All-elem P x [] h e = cc
All-elem P x (y ∷ ys) h e = elim (Bool-cases (x == y)) [
  | inl here ↦ let same : x ≡ y = ground arith in rw same h.0
  | inr later ↦ All-elem P x ys h.1 (ground arith)
]
