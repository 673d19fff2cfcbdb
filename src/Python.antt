-- ===== src/Python.antt =====
-- The values that `json.load` returns, as Python sees them, and the built-in operations on them
-- which the validators under src/pyinfrabox use. A dict is its entries in order.
pub mod Laws
use infrabox.Prelude.{
  zero, suc, not, ℕ, ◌-◌, ◌*◌, ◌+◌, ◌^◌, String, Bool, true, false, ◌&&◌, Option, none, some, List,
  [], ◌∷◌, ◌==◌, eqb, length, any, lookup, if◌then◌else◌,
}
use text.Mathlib.Text.{find?}

-- `negsuc n` is -(n + 1).
pub data ℤ : Type 0 where
  pos : ℕ → ℤ
  negsuc : ℕ → ℤ

-- `float m k` is m / 2 ^ k: every finite double has this form.
mutual
  pub data Json : Type 0 where
    null : Json
    bool : Bool → Json
    int : ℤ → Json
    float : ℤ → ℕ → Json
    str : String → Json
    arr : Items → Json
    obj : Fields → Json

  pub data Items : Type 0 where
    nil : Items
    cons : Json → Items → Items

  pub data Fields : Type 0 where
    end : Fields
    field : String → Json → Fields → Fields

abbrev pub items : Items → List Json
items nil = []
items (cons v vs) = v ∷ items vs

abbrev pub entries : Fields → List (String × Json)
entries end = []
entries (field k v fs) = (k, v) ∷ entries fs

-- The text of an exception: a fixed text, or one that `%s` puts a value into.
pub data Message : Type 0 where
  plain : String → Message
  about : (before : String) (value : Json) (after : String) → Message

-- `invalid path message` is pyinfrabox's ValidationError; the others are Python's own exceptions.
pub data Error : Type 0 where
  invalid : (path : String) (message : Message) → Error
  type_error attribute_error recursion_error : Error
  key_error : String → Error
  failure : Message → Error

pub data Result {ℓ} (A : Type ℓ) : Type ℓ where
  ok : A → Result A
  err : Error → Result A

module _ {ℓ κ} {A : Type ℓ} {B : Type κ} where
  infixl 5 ◌>>=◌
  abbrev pub ◌>>=◌ : Result A → (A → Result B) → Result B
  ok value >>= next = next value
  err raised >>= next = err raised

module _ {ℓ} {B : Type ℓ} where
  infixl 5 ◌>>◌
  abbrev pub ◌>>◌ : Result (Unit {0}) → Result B → Result B
  check >> next = check >>= λ _. next

abbrev pub Check : Type 0
Check = Result (Unit {0})

-- `raise ValidationError(path, message)`
abbrev pub reject {ℓ} : {A : Type ℓ} → String → String → Result A
reject path message = err (invalid path (plain message))

-- `if not test: raise ValidationError(path, message)`
abbrev pub require : Bool → String → String → Check
require true path message = ok tt
require false path message = reject path message

-- `key in d`
unfoldable pub has : String → Json → Result Bool
has key (obj fs) = elim (lookup key (entries fs)) [ none ↦ ok false | some _ ↦ ok true ]
has key (arr xs) = ok (any (λ x. elim x [ str s ↦ s == key | _ ↦ false ]) (items xs))
has key (str s) = elim (find? s key) [ none ↦ ok false | some _ ↦ ok true ]
has key _ = err type_error

-- `d[key]` at a text key
unfoldable pub item : Json → String → Result Json
item (obj fs) key = elim (lookup key (entries fs)) [ none ↦ err (key_error key) | some v ↦ ok v ]
item _ key = err type_error

-- `if key in d: check(d[key])`
unfoldable pub optional : Json → String → (Json → Check) → Check
unfolding has item
optional d key check = do present ← has key d; if present then item d key >>= check else ok tt

-- `check(d[key])`
unfoldable pub on_item : Json → String → (Json → Check) → Check
unfolding item
on_item d key check = item d key >>= check

-- Statements that raise or go on, one after the other.
unfoldable pub steps : List Check → Check
steps [] = ok tt
steps (c ∷ cs) = c >> steps cs

module _ {ℓ} {A : Type ℓ} where
  -- `for i in range(0, len(xs)): body(i, xs[i])`
  unfoldable pub for_from : (ℕ → A → Check) → ℕ → List A → Check
  for_from body i [] = ok tt
  for_from body i (x ∷ xs) = do body i x; for_from body (i + 1) xs

  -- `for x in xs: body(x)`
  unfoldable pub for_each : (A → Check) → List A → Check
  for_each body [] = ok tt
  for_each body (x ∷ xs) = do body x; for_each body xs

-- `bool(v)`
abbrev pub truthy : Json → Bool
truthy null = false
truthy (bool b) = b
truthy (int (pos zero)) = false
truthy (int (pos (suc n))) = true
truthy (int (negsuc n)) = true
truthy (float (pos zero) k) = false
truthy (float (pos (suc n)) k) = true
truthy (float (negsuc n) k) = true
truthy (str s) = not (s == "")
truthy (arr nil) = false
truthy (arr (cons x xs)) = true
truthy (obj end) = false
truthy (obj (field k v fs)) = true

-- z * 2 ^ k
abbrev pub scale : ℤ → ℕ → ℤ
scale (pos n) k = pos (n * 2 ^ k)
scale (negsuc n) k = negsuc ((n + 1) * 2 ^ k - 1)

abbrev pub int_eq : ℤ → ℤ → Bool
int_eq (pos a) (pos b) = eqb a b
int_eq (negsuc a) (negsuc b) = eqb a b
int_eq _ _ = false

-- A number as m / 2 ^ k; `True` is 1 and `False` is 0.
abbrev pub number : Json → Option (ℤ × ℕ)
number (bool true) = some (pos 1, 0)
number (bool false) = some (pos 0, 0)
number (int z) = some (z, 0)
number (float m k) = some (m, k)
number _ = none

abbrev pub number_eq : Option (ℤ × ℕ) → Option (ℤ × ℕ) → Bool
number_eq (some (a, i)) (some (b, j)) = int_eq (scale a j) (scale b i)
number_eq _ _ = false

abbrev pub found : Option Json → (Json → Bool) → Bool
found none test = false
found (some v) test = test v

-- `a == b`
unfoldable mutual
  pub json_eq : Json → Json → Bool
  json_eq null null = true
  json_eq (str s) (str t) = s == t
  json_eq (arr xs) (arr ys) = items_eq xs ys
  json_eq (obj fs) (obj gs) =
      eqb (length (entries fs)) (length (entries gs)) && fields_in fs (entries gs)
  json_eq a b = number_eq (number a) (number b)

  pub items_eq : Items → Items → Bool
  items_eq nil nil = true
  items_eq (cons x xs) (cons y ys) = json_eq x y && items_eq xs ys
  items_eq _ _ = false

  pub fields_in : Fields → List (String × Json) → Bool
  fields_in end gs = true
  fields_in (field k v fs) gs = found (lookup k gs) (json_eq v) && fields_in fs gs
