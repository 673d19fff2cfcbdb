-- ===== src/Python/Laws.antt =====
-- Inversion of successful runs: of a chain, of a loop, and of a read from a dict.
use infrabox.Prelude.{
  ℕ, ◌+◌, String, ◌≡◌, refl, ◌⊎◌, inl, inr, Bool, true, false, none, some, List, [], ◌∷◌, All,
  arith, lookup, Option-cases, Option,
}
use infrabox.Python.{
  Json, null, bool, int, float, str, arr, obj, entries, Fields, Result, ok, err, Check, item,
  optional, on_item, steps, for_from, for_each, ◌>>=◌, ◌>>◌, require, has,
}

module _ {ℓ κ} {A : Type ℓ} {B : Type κ} where
  -- A run that returns has returned a value to what follows.
  pub bind-ok :
      (first : Result A) (next : A → Result B) {final : B}
      → (first >>= next) ≡ ok final
      → (value : A) × (next value ≡ ok final) × (first ≡ ok value)
  bind-ok (ok value) next run = (value, run, refl)
  bind-ok (err raised) next run = ground arith

pub then-ok {ℓ} :
    {B : Type ℓ} (m : Check) (k : Result B) {b : B} → (m >> k) ≡ ok b → (m ≡ ok tt) × (k ≡ ok b)
then-ok (ok tt) k h = (refl, h)
then-ok (err e) k h = ground arith

pub then_all {ℓ} :
    {B : Type ℓ} (m : Check) (k : Result B) {b : B} → m ≡ ok tt → k ≡ ok b → (m >> k) ≡ ok b
then_all m k p q = rw p q

pub steps-ok : (cs : List Check) → steps cs ≡ ok tt → All (λ c. c ≡ ok tt) cs
unfolding steps
steps-ok [] h = tt
steps-ok (c ∷ cs) h = let (p, q) = then-ok c (steps cs) h in (p, steps-ok cs q)

pub steps-All : (cs : List Check) → All (λ c. c ≡ ok tt) cs → steps cs ≡ ok tt
unfolding steps
steps-All [] h = refl
steps-All (ok tt ∷ cs) (p, h) = steps-All cs h
steps-All (err e ∷ cs) (p, h) = ground arith

pub require-ok : (b : Bool) (path message : String) → require b path message ≡ ok tt → b ≡ true
require-ok true path message h = refl
require-ok false path message h = ground arith

module _ {ℓ κ} {A : Type ℓ} (P : A → Type κ) where
  pub for_from-ok :
      (body : ℕ → A → Check)
      → ((i : ℕ) (x : A) → body i x ≡ ok tt → P x)
      → (i : ℕ) (xs : List A) → for_from body i xs ≡ ok tt
      → All P xs
  unfolding for_from
  for_from-ok body each i [] h = tt
  for_from-ok body each i (x ∷ xs) h =
      let (p, q) = then-ok (body i x) (for_from body (i + 1) xs) h in
      (each i x p, for_from-ok body each (i + 1) xs q)

  pub for_from-All :
      (body : ℕ → A → Check)
      → ((i : ℕ) (x : A) → P x → body i x ≡ ok tt)
      → (i : ℕ) (xs : List A) → All P xs
      → for_from body i xs ≡ ok tt
  unfolding for_from
  for_from-All body each i [] h = refl
  for_from-All body each i (x ∷ xs) (p, h) =
      let e = each i x p in let rest = for_from-All body each (i + 1) xs h in ground arith

  pub for_each-ok :
      (body : A → Check)
      → ((x : A) → body x ≡ ok tt → P x)
      → (xs : List A) → for_each body xs ≡ ok tt
      → All P xs
  unfolding for_each
  for_each-ok body each [] h = tt
  for_each-ok body each (x ∷ xs) h =
      let (p, q) = then-ok (body x) (for_each body xs) h in (each x p, for_each-ok body each xs q)

  pub for_each-All :
      (body : A → Check)
      → ((x : A) → P x → body x ≡ ok tt)
      → (xs : List A) → All P xs
      → for_each body xs ≡ ok tt
  unfolding for_each
  for_each-All body each [] h = refl
  for_each-All body each (x ∷ xs) (p, h) =
      let e = each x p in let rest = for_each-All body each xs h in ground arith

-- What a read of a dict entry says of the entry.
pub item-ok :
    (d : Json) (key : String) {v : Json}
    → item d key ≡ ok v
    → (fs : Fields) × (d ≡ obj fs) × (lookup key (entries fs) ≡ some v)
unfolding item
item-ok (obj fs) key h = (fs, refl, ground arith)
item-ok null key h = ground arith
item-ok (bool b) key h = ground arith
item-ok (int z) key h = ground arith
item-ok (float m k) key h = ground arith
item-ok (str s) key h = ground arith
item-ok (arr xs) key h = ground arith

pub on_item-ok :
    (fs : Fields) (key : String) (check : Json → Check)
    → on_item (obj fs) key check ≡ ok tt
    → (v : Json) × (lookup key (entries fs) ≡ some v) × (check v ≡ ok tt)
unfolding on_item
on_item-ok fs key check h = elim (Option-cases (lookup key (entries fs))) [
  | inl gone ↦ ground arith
  | inr (v, found) ↦ (v, found, ground arith)
]

pub optional-ok :
    (fs : Fields) (key : String) (check : Json → Check)
    → optional (obj fs) key check ≡ ok tt
    → (lookup key (entries fs) ≡ none)
      ⊎ ((v : Json) × (lookup key (entries fs) ≡ some v) × (check v ≡ ok tt))
unfolding optional
optional-ok fs key check h = elim (Option-cases (lookup key (entries fs))) [
  | inl gone ↦ inl gone
  | inr (v, found) ↦ inr (v, found, ground arith)
]

-- An optional entry, by what the dict has under the key.
abbrev pub given : Option Json → (Json → Check) → Check
given none check = ok tt
given (some v) check = check v

pub optional-given :
    (fs : Fields) (key : String) (check : Json → Check)
    → optional (obj fs) key check ≡ given (lookup key (entries fs)) check
unfolding optional
optional-given fs key check = ground arith

pub item-found :
    (fs : Fields) (key : String) {v : Json}
    → lookup key (entries fs) ≡ some v
    → item (obj fs) key ≡ ok v
unfolding item
item-found fs key h = ground arith

pub has-found :
    (fs : Fields) (key : String) {v : Json}
    → lookup key (entries fs) ≡ some v
    → has key (obj fs) ≡ ok true
unfolding has
has-found fs key h = ground arith
