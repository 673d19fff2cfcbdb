-- ===== src/Document/Parents.antt =====
-- src/pyinfrabox/infrabox/__init__.py: the loop of `validate_json` over the dependencies of a job.
use mathlib.Core.Option.{none}
use infrabox.Python.Laws.{optional-given, given}
use infrabox.Document.Validate.{check_parents, parent_name, check_job_parents, as_list}
use infrabox.Prelude.{
  String, ◌<>◌, ◌≡◌, ◌↔◌, List, [], ◌∷◌, OneOf, arith, if◌then◌else◌, ◌==◌, eq_iff, contains,
  contains→OneOf, OneOf→contains, not-OneOf→contains, ◌≢◌, some, Option-cases, inl, inr, lookup,
  Option, refl,
}
use infrabox.Python.{
  arr, str, ok, err, invalid, Check, ◌>>=◌, ◌>>◌, about, item, Json, obj, bool, int, float, Fields,
  entries, null, items,
}
use infrabox.Document.Shape.{Entry, read_parent, read_parents, read_jobs, read_job, read_depends_on}

-- Each parent was seen, and none is named twice (nor is one of `deps`).
abbrev pub ParentsIn : List String → List String → List String → Type 0
ParentsIn seen deps [] = Unit
ParentsIn seen deps (p ∷ ps) = OneOf p seen × ¬ OneOf p deps × ParentsIn seen (p ∷ deps) ps

-- No name stands twice, and the parents of each job are distinct jobs before it.
abbrev pub IsOrdered : List String → List Entry → Type 0
IsOrdered seen [] = Unit
IsOrdered seen (e ∷ es) =
    ¬ OneOf e.name seen × ParentsIn seen [] e.parents × IsOrdered (e.name ∷ seen) es

-- The meaning of the three tests in the loop over the parents of one job.
parent_tests :
    (path job_name parent : String) (seen deps : List String) (rest : Check)
    → ¬ OneOf job_name seen
    → ((do
      if job_name == parent
          then err (invalid path (about "Job '" (str parent) "' may not depend on itself"))
          else ok tt
      if contains (job_name ∷ seen) parent
          then ok tt
          else err (invalid (path <> ".depends_on") (about "Job '" (str parent) "' not found"))
      if contains deps parent
          then err
              (invalid (path <> ".depends_on") (about "'" (str parent) "' duplicate dependencies"))
          else ok tt
      rest)
        ≡ ok tt)
      ↔ (OneOf parent seen × ¬ OneOf parent deps × (rest ≡ ok tt))
parent_tests path job_name parent seen deps rest fresh = (
  λ h. (
    contains→OneOf seen parent (ground (arith, eq_iff job_name parent, eq_iff parent job_name)),
    λ dup.
        let again = OneOf→contains deps parent dup in
        ground (arith, eq_iff job_name parent, eq_iff parent job_name),
    ground (arith, eq_iff job_name parent, eq_iff parent job_name),
  ),
  λ (known, single, go).
      let c = OneOf→contains seen parent known in
      let e = not-OneOf→contains deps parent single in
      let differ : job_name ≢ parent = λ same. fresh (rw same known) in
      ground (arith, eq_iff job_name parent),
)

parent_name-read : (d : Json) (p : String) → read_parent d ≡ some p → parent_name d ≡ ok p
unfolding read_parent item
parent_name-read (str s) p h = ground arith
parent_name-read (obj fs) p h = ground arith
parent_name-read null p h = ground arith
parent_name-read (bool b) p h = ground arith
parent_name-read (int z) p h = ground arith
parent_name-read (float m k) p h = ground arith
parent_name-read (arr xs) p h = ground arith

read_parents-nil : (ps : List String) → read_parents [] ≡ some ps → ps ≡ []
unfolding read_parents
read_parents-nil ps h = ground arith

pub read_jobs-nil : (es : List Entry) → read_jobs [] ≡ some es → es ≡ []
unfolding read_jobs
read_jobs-nil es h = ground arith

read_parents-cons :
    (d : Json) (ds : List Json) (ps : List String)
    → read_parents (d ∷ ds) ≡ some ps
    → (p : String) × (qs : List String) × (ps ≡ p ∷ qs)
      × (read_parent d ≡ some p)
      × (read_parents ds ≡ some qs)
unfolding read_parents
read_parents-cons d ds ps h = elim (Option-cases (read_parent d)) [
  | inl gone ↦ ground arith
  | inr (p, found) ↦ elim (Option-cases (read_parents ds)) [
    | inl gone ↦ ground arith
    | inr (qs, more) ↦ (p, qs, ground arith, found, more)
  ]
]

pub read_jobs-cons :
    (d : Json) (ds : List Json) (es : List Entry)
    → read_jobs (d ∷ ds) ≡ some es
    → (e : Entry) × (fs : List Entry) × (es ≡ e ∷ fs)
      × (read_job d ≡ some e)
      × (read_jobs ds ≡ some fs)
unfolding read_jobs
read_jobs-cons d ds es h = elim (Option-cases (read_job d)) [
  | inl gone ↦ ground arith
  | inr (e, found) ↦ elim (Option-cases (read_jobs ds)) [
    | inl gone ↦ ground arith
    | inr (fs, more) ↦ (e, fs, ground arith, found, more)
  ]
]

check_parents_iff :
    (path job_name : String) (seen deps : List String) (ds : List Json) (ps : List String)
    → ¬ OneOf job_name seen
    → read_parents ds ≡ some ps
    → (check_parents path (job_name ∷ seen) job_name deps ds ≡ ok tt) ↔ ParentsIn seen deps ps
unfolding check_parents
check_parents_iff path job_name seen deps [] ps fresh h =
    rw (read_parents-nil ps h) (λ _. tt, λ _. refl)
check_parents_iff path job_name seen deps (d ∷ ds) ps fresh h =
    let (p, qs, e, named, more) = read_parents-cons d ds ps h in
    let ih = check_parents_iff path job_name seen (p ∷ deps) ds qs fresh more in
    let tests =
      parent_tests path job_name p seen deps
        (check_parents path (job_name ∷ seen) job_name (p ∷ deps) ds) fresh in
    rw (e, parent_name-read d p named)
      (
        λ run. let (known, single, rest) = tests.0 run in (known, single, ih.0 rest),
        λ (known, single, rest). tests.1 (known, single, ih.1 rest),
      )

-- What `read_job` found, in the terms of the second pass.
pub read_job-found :
    (job : Json) (e : Entry)
    → read_job job ≡ some e
    → (fs : Fields) × (job ≡ obj fs)
      × (lookup "name" (entries fs) ≡ some (str e.name))
      × (read_depends_on (lookup "depends_on" (entries fs)) ≡ some e.parents)
unfolding read_job
read_job-found (obj fs) e h = elim (Option-cases (lookup "name" (entries fs))) [
  | inl gone ↦ ground arith
  | inr (v, found) ↦ (fs, refl, ground arith, ground arith)
]
read_job-found null e h = ground arith
read_job-found (bool b) e h = ground arith
read_job-found (int z) e h = ground arith
read_job-found (float m k) e h = ground arith
read_job-found (str s) e h = ground arith
read_job-found (arr xs) e h = ground arith

parents_given_iff :
    (path name : String) (seen : List String) (o : Option Json) (ps : List String)
    → ¬ OneOf name seen
    → read_depends_on o ≡ some ps
    → (given o (λ v. do ds ← as_list v; check_parents path (name ∷ seen) name [] ds) ≡ ok tt)
      ↔ ParentsIn seen [] ps
unfolding read_depends_on
parents_given_iff path name seen none ps fresh h =
    let e : ps ≡ [] = ground arith in rw e (λ _. tt, λ _. refl)
parents_given_iff path name seen (some (arr xs)) ps fresh h =
    check_parents_iff path name seen [] (items xs) ps fresh h
parents_given_iff path name seen (some null) ps fresh h = ground arith
parents_given_iff path name seen (some (bool b)) ps fresh h = ground arith
parents_given_iff path name seen (some (int z)) ps fresh h = ground arith
parents_given_iff path name seen (some (float m k)) ps fresh h = ground arith
parents_given_iff path name seen (some (str s)) ps fresh h = ground arith
parents_given_iff path name seen (some (obj fs)) ps fresh h = ground arith

pub job_parents_iff :
    (path name : String) (seen : List String) (fs : Fields) (ps : List String)
    → ¬ OneOf name seen
    → read_depends_on (lookup "depends_on" (entries fs)) ≡ some ps
    → (check_job_parents path (name ∷ seen) name (obj fs) ≡ ok tt) ↔ ParentsIn seen [] ps
unfolding check_job_parents
job_parents_iff path name seen fs ps fresh h =
    rw
      (optional-given fs "depends_on"
        (λ v. do ds ← as_list v; check_parents path (name ∷ seen) name [] ds))
      (parents_given_iff path name seen (lookup "depends_on" (entries fs)) ps fresh h)
