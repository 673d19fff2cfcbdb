-- ===== src/Document/Shape.antt =====
-- The job list of an infrabox.json file, read without the validator: the name of each job and the
-- names of its parents. `parse_document` only lets documents pass that can be read so.
pub mod Types
use infrabox.Prelude.{
  String, ◌≡◌, refl, ◌≢◌, true, Option, none, some, List, [], ◌∷◌, All, arith, lookup, ◌<>◌, inl,
  inr,
}
use infrabox.Python.{
  null, Json, str, arr, obj, entries, items, ok, bool, int, float, Fields, optional, on_item,
}
use infrabox.Python.Laws.{steps-ok, on_item-ok, then-ok, for_from-ok, optional-ok}
use infrabox.Checks.{check_text, check_allowed_properties, at_index}
use infrabox.Checks.Laws.{check_text-ok, check_allowed_properties-ok}
use infrabox.Document.Parts.{
  special_match, match_name, check_name, parse_depends_on_condition, parse_dependency,
  parse_depends_on,
}

pub record Entry : Type 0 where
  pub name : String
  pub parents : List String

-- A dependency is a name, or a dict that has it under `job`.
unfoldable pub read_parent : Json → Option String
read_parent (str s) = some s
read_parent (obj fs) = elim (lookup "job" (entries fs)) [ some (str s) ↦ some s | _ ↦ none ]
read_parent _ = none

abbrev and_then {ℓ κ} : {A : Type ℓ} {B : Type κ} → Option A → (A → Option B) → Option B
and_then none f = none
and_then (some a) f = f a

module _ {ℓ} {A : Type ℓ} where
  abbrev read_all : (Json → Option A) → List Json → Option (List A)
  read_all read [] = some []
  read_all read (x ∷ xs) =
      and_then (read x) (λ a. and_then (read_all read xs) (λ more. some (a ∷ more)))

  read_all_of_All :
      (read : Json → Option A) (xs : List Json)
      → All (λ x. (a : A) × (read x ≡ some a)) xs
      → (ys : List A) × (read_all read xs ≡ some ys)
  read_all_of_All read [] h = ([], refl)
  read_all_of_All read (x ∷ xs) ((a, e), h) =
      let (ys, es) = read_all_of_All read xs h in (a ∷ ys, ground arith)

unfoldable pub read_parents : List Json → Option (List String)
unfolding read_parent
read_parents = read_all read_parent

-- A job without `depends_on` has no parents.
unfoldable pub read_depends_on : Option Json → Option (List String)
unfolding read_parents
read_depends_on none = some []
read_depends_on (some (arr xs)) = read_parents (items xs)
read_depends_on (some _) = none

unfoldable pub read_job : Json → Option Entry
unfolding read_depends_on
read_job (obj fs) = elim (lookup "name" (entries fs)) [
  | some (str n) ↦
      and_then (read_depends_on (lookup "depends_on" (entries fs)))
        (λ ps. some (record { name = n; parents = ps }))
  | _ ↦ none
]
read_job _ = none

unfoldable pub read_jobs : List Json → Option (List Entry)
unfolding read_job
read_jobs = read_all read_job

-- A name of the file: not empty, and of the characters [a-z0-9_-] alone.
abbrev pub IsName : String → Type 0
IsName s = (s ≢ "") × (special_match s ≡ true)

pub check_name-ok :
    (n : Json) (path : String) → check_name n path ≡ ok tt → (s : String) × (n ≡ str s) × IsName s
unfolding check_name
check_name-ok n path h =
    let good = steps-ok (check_text n path ∷ match_name n path ∷ []) h in
    let (s, e, nonempty) = check_text-ok n path good.0 in
    let matched = good.1.0 in (s, e, (nonempty, ground arith))

parse_dependency-ok :
    (path : String) (n : Json)
    → parse_dependency path n ≡ ok tt
    → (s : String) × (read_parent n ≡ some s)
unfolding read_parent parse_depends_on_condition
parse_dependency-ok path (obj fs) h =
    let good = steps-ok _ h in
    let (v, found, named) = on_item-ok fs "job" _ (good.1.1.0) in
    let (s, e, _) = check_name-ok v _ named in (s, ground arith)
parse_dependency-ok path (str s) h = (s, refl)
parse_dependency-ok path null h = let (s, e, _) = check_name-ok null path h in ground arith
parse_dependency-ok path (bool b) h = let (s, e, _) = check_name-ok (bool b) path h in ground arith
parse_dependency-ok path (int z) h = let (s, e, _) = check_name-ok (int z) path h in ground arith
parse_dependency-ok path (float m k) h =
    let (s, e, _) = check_name-ok (float m k) path h in ground arith
parse_dependency-ok path (arr xs) h = let (s, e, _) = check_name-ok (arr xs) path h in ground arith

parse_depends_on-ok :
    (v : Json) (path : String)
    → parse_depends_on v path ≡ ok tt
    → (ps : List String) × (read_depends_on (some v) ≡ some ps)
unfolding parse_depends_on read_depends_on
parse_depends_on-ok (arr xs) path h =
    let (_, looped) = then-ok _ _ h in
    read_all_of_All read_parent (items xs) (
      for_from-ok (λ n. (s : String) × (read_parent n ≡ some s)) _
        (λ i n p. parse_dependency-ok (at_index path i) n p) 0 (items xs) looped)
parse_depends_on-ok null path h = ground arith
parse_depends_on-ok (bool b) path h = ground arith
parse_depends_on-ok (int z) path h = ground arith
parse_depends_on-ok (float m k) path h = ground arith
parse_depends_on-ok (str s) path h = ground arith
parse_depends_on-ok (obj fs) path h = ground arith

-- A job that the second pass can read, with a proper name.
abbrev pub IsJob : Json → Type 0
IsJob d = (e : Entry) × (read_job d ≡ some e) × IsName e.name

optional_parents :
    (fs : Fields) (path : String)
    → optional (obj fs) "depends_on" (λ v. parse_depends_on v path) ≡ ok tt
    → (ps : List String) × (read_depends_on (lookup "depends_on" (entries fs)) ≡ some ps)
optional_parents fs path h = elim (optional-ok fs "depends_on" _ h) [
  | inl gone ↦ rw gone ([], unfold read_depends_on in refl)
  | inr (v, found, good) ↦ rw found (parse_depends_on-ok v path good)
]

obj-IsJob :
    (fs : Fields) (p q : String)
    → on_item (obj fs) "name" (λ v. check_name v p) ≡ ok tt
    → optional (obj fs) "depends_on" (λ v. parse_depends_on v q) ≡ ok tt
    → IsJob (obj fs)
unfolding read_job
obj-IsJob fs p q named depends =
    let (v, found, good) = on_item-ok fs "name" _ named in
    let (s, e, is_name) = check_name-ok v p good in
    let (ps, parents) = optional_parents fs q depends in
    (record { name = s; parents = ps }, ground arith, is_name)

-- A job that passed these three checks can be read.
pub checked-IsJob :
    (d : Json) (path : String) (allowed : List String)
    → check_allowed_properties d path allowed ≡ ok tt
    → on_item d "name" (λ v. check_name v (path <> ".name")) ≡ ok tt
    → optional d "depends_on" (λ v. parse_depends_on v (path <> ".depends_on")) ≡ ok tt
    → IsJob d
checked-IsJob d path allowed only named depends =
    let (fs, e, _) = check_allowed_properties-ok d path allowed only in
    rw e (obj-IsJob fs (path <> ".name") (path <> ".depends_on") (rw e at named) (rw e at depends))
