-- ===== src/Checks/Laws.antt =====
-- What the checks of src/pyinfrabox/utils.py accept, stated without them.
use infrabox.Prelude.{
  ℕ, String, ◌≡◌, refl, ◌≢◌, ◌↔◌, none, List, [], ◌∷◌, ◌++◌, length, zero, suc, All, OneOf,
  contains→OneOf, OneOf→contains, arith, lookup, eq_iff, ◌+◌,
}
use infrabox.Python.{
  Items, nil, cons, Json, null, bool, int, float, str, arr, obj, entries, Fields, ok, has, ◌>>◌,
  reject, items,
}
use mathlib.Core.List.{cons≢nil}
use infrabox.Python.Laws.{then_all, for_each-ok, for_each-All, then-ok}
use infrabox.Checks.{
  check_text, check_allowed_properties, check_required_properties, check_strings, at_index,
  check_string_array,
}

abbrev pub IsText : Json → Type 0
IsText d = (s : String) × (d ≡ str s) × (s ≢ "")

pub check_text-ok : (d : Json) (path : String) → check_text d path ≡ ok tt → IsText d
unfolding check_text
check_text-ok (str s) path h = (s, refl, ground (arith, eq_iff s ""))
check_text-ok null path h = ground arith
check_text-ok (bool b) path h = ground arith
check_text-ok (int z) path h = ground arith
check_text-ok (float m k) path h = ground arith
check_text-ok (arr xs) path h = ground arith
check_text-ok (obj fs) path h = ground arith

pub check_text_all : (s path : String) → s ≢ "" → check_text (str s) path ≡ ok tt
unfolding check_text
check_text_all s path h = ground (arith, eq_iff s "")

-- A dict whose keys are among the allowed ones.
abbrev pub HasOnly : List String → Json → Type 0
HasOnly allowed d =
    (fs : Fields) × (d ≡ obj fs) × All (λ (e : String × Json). OneOf (e.0) allowed) (entries fs)

-- A dict that has each of the keys.
abbrev pub HasEach : List String → Json → Type 0
HasEach required d =
    (fs : Fields) × (d ≡ obj fs) × All (λ key. lookup key (entries fs) ≢ none) required

pub check_allowed_properties-ok :
    (d : Json) (path : String) (allowed : List String)
    → check_allowed_properties d path allowed ≡ ok tt
    → HasOnly allowed d
unfolding check_allowed_properties
check_allowed_properties-ok (obj fs) path allowed h = (
  fs,
  refl,
  for_each-ok (λ (e : String × Json). OneOf (e.0) allowed) _
      (λ (key, v) p. contains→OneOf allowed key (ground arith)) (entries fs) h,
)
check_allowed_properties-ok null path allowed h = ground arith
check_allowed_properties-ok (bool b) path allowed h = ground arith
check_allowed_properties-ok (int z) path allowed h = ground arith
check_allowed_properties-ok (float m k) path allowed h = ground arith
check_allowed_properties-ok (str s) path allowed h = ground arith
check_allowed_properties-ok (arr xs) path allowed h = ground arith

pub check_required_properties-ok :
    (d : Json) (path : String) (required : List String)
    → check_required_properties d path required ≡ ok tt
    → HasEach required d
unfolding check_required_properties has
check_required_properties-ok (obj fs) path required h = (
  fs,
  refl,
  for_each-ok (λ key. lookup key (entries fs) ≢ none) _ (λ key p. ground arith) required h,
)
check_required_properties-ok null path required h = ground arith
check_required_properties-ok (bool b) path required h = ground arith
check_required_properties-ok (int z) path required h = ground arith
check_required_properties-ok (float m k) path required h = ground arith
check_required_properties-ok (str s) path required h = ground arith
check_required_properties-ok (arr xs) path required h = ground arith

-- The same on a value that is known to be a dict.
pub required_entries-ok :
    (fs : Fields) (path : String) (required : List String)
    → check_required_properties (obj fs) path required ≡ ok tt
    → All (λ key. lookup key (entries fs) ≢ none) required
unfolding check_required_properties has
required_entries-ok fs path required h =
    for_each-ok (λ key. lookup key (entries fs) ≢ none) _ (λ key p. ground arith) required h

check_allowed_properties-All :
    (fs : Fields) (path : String) (allowed : List String)
    → All (λ (e : String × Json). OneOf (e.0) allowed) (entries fs)
    → check_allowed_properties (obj fs) path allowed ≡ ok tt
unfolding check_allowed_properties
check_allowed_properties-All fs path allowed h =
    for_each-All (λ (e : String × Json). OneOf (e.0) allowed) _
      (λ (key, v) p. let e = OneOf→contains allowed key p in ground arith) (entries fs) h

check_required_properties-All :
    (fs : Fields) (path : String) (required : List String)
    → All (λ key. lookup key (entries fs) ≢ none) required
    → check_required_properties (obj fs) path required ≡ ok tt
unfolding check_required_properties has
check_required_properties-All fs path required h =
    for_each-All (λ key. lookup key (entries fs) ≢ none) _ (λ key p. ground arith) required h

-- The two checks that start each validator of an object accept exactly the dicts that have each
-- required key and no key but the allowed ones, whatever the path.
pub check_properties_iff :
    (d : Json) (path : String) (allowed required : List String)
    → ((check_allowed_properties d path allowed >> check_required_properties d path required)
        ≡ ok tt)
      ↔ (HasOnly allowed d × HasEach required d)
check_properties_iff d path allowed required = (
  λ h.
      let (p, q) =
        then-ok (check_allowed_properties d path allowed)
          (check_required_properties d path required) h in
      (
        check_allowed_properties-ok d path allowed p,
        check_required_properties-ok d path required q,
      ),
  λ ((fs, e, only), (gs, e', each)).
      then_all (check_allowed_properties d path allowed) (check_required_properties d path required)
        (rw e (check_allowed_properties-All fs path allowed only))
        (rw e' (check_required_properties-All gs path required each)),
)

IsText-check : (d : Json) (path : String) → IsText d → check_text d path ≡ ok tt
IsText-check d path (s, e, h) = rw e (check_text_all s path h)

strings-ok :
    (path : String) (i : ℕ) (xs : List Json) → check_strings path i xs ≡ ok tt → All IsText xs
unfolding check_strings
strings-ok path i [] h = tt
strings-ok path i (x ∷ xs) h =
    let (p, q) =
      then-ok (check_text x (at_index path i)) (check_strings (at_index path i) (i + 1) xs) h in
    (check_text-ok x (at_index path i) p, strings-ok (at_index path i) (i + 1) xs q)

strings-All :
    (path : String) (i : ℕ) (xs : List Json) → All IsText xs → check_strings path i xs ≡ ok tt
unfolding check_strings
strings-All path i [] h = refl
strings-All path i (x ∷ xs) (p, h) =
    then_all (check_text x (at_index path i)) (check_strings (at_index path i) (i + 1) xs)
      (IsText-check x (at_index path i) p) (strings-All (at_index path i) (i + 1) xs h)

-- A list that is not empty and holds only non-empty texts.
abbrev pub IsStringArray : Json → Type 0
IsStringArray v = (xs : Items) × (v ≡ arr xs) × (items xs ≢ []) × All IsText (items xs)

check_string_array-IsStringArray :
    (v : Json) (path : String) → check_string_array v path ≡ ok tt → IsStringArray v
unfolding check_string_array
check_string_array-IsStringArray (arr nil) path h = ground arith
check_string_array-IsStringArray (arr (cons x xs)) path h =
    (cons x xs, refl, cons≢nil, strings-ok path 0 (x ∷ items xs) h)
check_string_array-IsStringArray null path h = ground arith
check_string_array-IsStringArray (bool b) path h = ground arith
check_string_array-IsStringArray (int z) path h = ground arith
check_string_array-IsStringArray (float m k) path h = ground arith
check_string_array-IsStringArray (str s) path h = ground arith
check_string_array-IsStringArray (obj fs) path h = ground arith

check_items :
    (xs : Items) (path : String)
    → items xs ≢ []
    → All IsText (items xs)
    → check_string_array (arr xs) path ≡ ok tt
unfolding check_string_array
check_items nil path filled texts = absurd (filled refl)
check_items (cons x xs) path filled texts = strings-All path 0 (x ∷ items xs) texts

-- Of all values, `check_string_array` accepts exactly the lists that are not empty and hold only non-empty
-- texts.
pub check_string_array_iff :
    (v : Json) (path : String)
    → (check_string_array v path ≡ ok tt)
      ↔ ((xs : Items) × (v ≡ arr xs) × (items xs ≢ []) × All IsText (items xs))
check_string_array_iff v path = (
  check_string_array-IsStringArray v path,
  λ (xs, e, filled, texts). rw e (check_items xs path filled texts),
)

-- The path that names the last of `n` elements, as the loop builds it up.
abbrev grown_path : String → ℕ → ℕ → String
grown_path path i zero = at_index path i
grown_path path i (suc n) = grown_path (at_index path i) (i + 1) n

-- When `n` good texts stand before an element that is no text, the error's path is not the path of that element
-- but the path of each element up to it, one after the other: `path[0][1]...[n]`.
pub check_strings_path :
    (path : String) (i : ℕ) (good : List Json) (bad : Json) (rest : List Json)
    → All IsText good
    → ((p : String) → check_text bad p ≡ reject p "is not a string")
    → check_strings path i (good ++ bad ∷ rest)
      ≡ reject (grown_path path i (length good)) "is not a string"
unfolding check_strings
check_strings_path path i [] bad rest h b = rw (b (at_index path i))
check_strings_path path i (x ∷ good) bad rest (p, h) b =
    rw (IsText-check x (at_index path i) p)
      (check_strings_path (at_index path i) (i + 1) good bad rest h b)
