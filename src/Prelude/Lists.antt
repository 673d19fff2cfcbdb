-- ===== src/Prelude/Lists.antt =====
-- Lists over the native numbers, predicates on all entries, and dictionaries with text keys.
use Prim.Native.Nat.{ℕ, suc, ◌+◌, ◌≤◌}
use Prim.Native.String.{String}
use mathlib.Core.Path.{◌≡◌, refl}
use mathlib.Core.Logic.{◌⊎◌, ◌≢◌, inl, inr}
use mathlib.Core.Bool.{Bool, true, false, ◌||◌, ◌&&◌}
use mathlib.Core.Option.{Option, none, some}
use mathlib.Core.List.{List, [], ◌∷◌, ◌++◌}
use native.Mathlib.Omega.{arith}
use text.Mathlib.Text.{◌==◌}
use text.Mathlib.TextEquality.{eq_iff}
use infrabox.Prelude.Tests.{if◌then◌else◌}

module _ {ℓ} {A : Type ℓ} where
  abbrev pub length : List A → ℕ
  length [] = 0
  length (x ∷ xs) = suc (length xs)

  -- SELECT ... WHERE test
  unfoldable pub rows_where : (A → Bool) → List A → List A
  rows_where test [] = []
  rows_where test (x ∷ xs) = let rest = rows_where test xs in if test x then x ∷ rest else rest

  -- SELECT count(*) ... WHERE test
  unfoldable pub count_where : (A → Bool) → List A → ℕ
  count_where test [] = 0
  count_where test (x ∷ xs) = let rest = count_where test xs in if test x then suc rest else rest

  pub count_where-append :
      (test : A → Bool) (xs : List A) (x : A)
      → count_where test (xs ++ x ∷ []) ≡ count_where test xs + (if test x then 1 else 0)
  unfolding count_where
  count_where-append test [] x = ground arith
  count_where-append test (y ∷ ys) x = ground (arith, count_where-append test ys x)

  -- DELETE FROM ... WHERE test
  unfoldable pub delete_where : (A → Bool) → List A → List A
  delete_where test [] = []
  delete_where test (x ∷ xs) = let rest = delete_where test xs in if test x then rest else x ∷ rest

  pub count_where-delete_where-le :
      (test other : A → Bool) (xs : List A)
      → count_where test (delete_where other xs) ≤ count_where test xs
  unfolding count_where delete_where
  count_where-delete_where-le test other [] = omega arith
  count_where-delete_where-le test other (x ∷ xs) =
      ground (arith, count_where-delete_where-le test other xs)

  abbrev pub all : (A → Bool) → List A → Bool
  all p [] = true
  all p (x ∷ xs) = p x && all p xs

  abbrev pub any : (A → Bool) → List A → Bool
  any p [] = false
  any p (x ∷ xs) = p x || any p xs

module _ {ℓ κ} {A : Type ℓ} (P : A → Type κ) where
  abbrev pub All : List A → Type κ
  All [] = Unit
  All (x ∷ xs) = P x × All xs

  pub All-append : (xs ys : List A) → All xs → All ys → All (xs ++ ys)
  All-append [] ys _ k = k
  All-append (x ∷ xs) ys (p, h) k = (p, All-append xs ys h k)

module _ {ℓ κ μ} {A : Type ℓ} (P : A → Type κ) (Q : A → Type μ) (f : (a : A) → P a → Q a) where
  pub All-map : (xs : List A) → All P xs → All Q xs
  All-map [] h = tt
  All-map (x ∷ xs) (p, h) = (f x p, All-map xs h)

-- An entry of the list.
abbrev pub Member : {A : Type 0} → A → List A → Type 0
Member a [] = ⊥
Member a (x ∷ xs) = (a ≡ x) ⊎ Member a xs

-- `x in xs` for texts.
abbrev pub contains : List String → String → Bool
contains [] a = false
contains (x ∷ xs) a = a == x || contains xs a

-- The same as a type that the tactics read.
abbrev pub OneOf : String → List String → Type 0
OneOf a [] = ⊥
OneOf a (x ∷ xs) = (a ≡ x) ⊎ OneOf a xs

pub contains→OneOf : (xs : List String) (a : String) → contains xs a ≡ true → OneOf a xs
contains→OneOf [] a h = ground arith
contains→OneOf (x ∷ xs) a h = ground (arith, eq_iff a x, contains→OneOf xs a)

pub OneOf→contains : (xs : List String) (a : String) → OneOf a xs → contains xs a ≡ true
OneOf→contains [] a h = absurd h
OneOf→contains (x ∷ xs) a h = ground (arith, eq_iff a x, OneOf→contains xs a)

pub not-OneOf→contains : (xs : List String) (a : String) → ¬ OneOf a xs → contains xs a ≡ false
not-OneOf→contains [] a h = refl
not-OneOf→contains (x ∷ xs) a h =
    let tail = not-OneOf→contains xs a (λ m. h (inr m)) in
    let head : a ≢ x = λ e. h (inl e) in ground (arith, eq_iff a x)

pub contains→not-OneOf : (xs : List String) (a : String) → contains xs a ≡ false → ¬ OneOf a xs
contains→not-OneOf xs a h m = let e = OneOf→contains xs a m in ground arith

-- No text stands twice.
abbrev pub Distinct : List String → Type 0
Distinct [] = Unit
Distinct (x ∷ xs) = ¬ OneOf x xs × Distinct xs

module _ {ℓ} {V : Type ℓ} where
  -- `d.get(k)` of an association list.
  unfoldable pub lookup : String → List (String × V) → Option V
  lookup k [] = none
  lookup k ((j, v) ∷ m) = if j == k then some v else lookup k m
