-- ===== src/Expand/Closed.antt =====
-- `get_job_list` of src/job/job.py: lists of jobs whose dependencies stand before them, and what the
-- steps on one job do to them.
use infrabox.Prelude.{
  List, String, OneOf, ◌∷◌, All, ◌++◌, map, inr, ◌≡◌, Bool-cases, [], inl, contains, refl, ◌<>◌,
  arith, ◌==◌, if◌then◌else◌, All-map,
}
use infrabox.Expand.{
  RawDep, named, conditional, RawJob, Job, Dep, inherit_deps, adopt, with_children, final_deps,
  final_job, include, rewrite_dep, prefix_job, prefix_dep, rewrite_depends_on,
}

-- Every name of one list is in the other.
abbrev pub Within : List String → List String → Type 0
Within xs ys = (a : String) → OneOf a xs → OneOf a ys

-- Each job of the list depends on names that are `seen`, or on jobs before it.
abbrev pub IsClosed : List String → List Job → Type 0
IsClosed seen [] = Unit
IsClosed seen (j ∷ js) =
    All (λ (d : Dep). OneOf (d.job) seen) j.depends_on × IsClosed (j.name ∷ seen) js

-- The names that are seen after a list of jobs.
abbrev pub after : List String → List Job → List String
after seen [] = seen
after seen (j ∷ js) = after (j.name ∷ seen) js

abbrev pub raw_name : RawDep → String
raw_name (named d) = d
raw_name (conditional j on) = j

-- The same of the jobs of a file.
abbrev pub IsFileClosed : List String → List RawJob → Type 0
IsFileClosed seen [] = Unit
IsFileClosed seen (r ∷ rs) =
    All (λ (d : RawDep). OneOf (raw_name d) seen) r.depends_on × IsFileClosed (r.name ∷ seen) rs

Within-cons : (x : String) (xs ys : List String) → Within xs ys → Within (x ∷ xs) (x ∷ ys)
Within-cons x xs ys h a (inl e) = inl e
Within-cons x xs ys h a (inr m) = inr (h a m)

IsClosed-Within :
    (seen more : List String) (js : List Job)
    → Within seen more
    → IsClosed seen js
    → IsClosed more js
IsClosed-Within seen more [] w h = tt
IsClosed-Within seen more (j ∷ js) w (deps, h) = (
  All-map _ _ (λ d. w (d.job)) j.depends_on deps,
  IsClosed-Within (j.name ∷ seen) (j.name ∷ more) js (Within-cons j.name seen more w) h,
)

after-Within :
    (js : List Job) (seen more : List String)
    → Within seen more
    → Within (after seen js) (after more js)
after-Within [] seen more w = w
after-Within (j ∷ js) seen more w =
    after-Within js (j.name ∷ seen) (j.name ∷ more) (Within-cons j.name seen more w)

pub Within-after : (js : List Job) (seen : List String) → Within seen (after seen js)
Within-after [] seen a m = m
Within-after (j ∷ js) seen a m = Within-after js (j.name ∷ seen) a (inr m)

pub append-IsClosed :
    (xs ys : List Job) (seen : List String)
    → IsClosed seen xs
    → IsClosed (after seen xs) ys
    → IsClosed seen (xs ++ ys)
append-IsClosed [] ys seen h k = k
append-IsClosed (x ∷ xs) ys seen (deps, h) k = (deps, append-IsClosed xs ys (x.name ∷ seen) h k)

after-append :
    (xs ys : List Job) (seen : List String) → after seen (xs ++ ys) ≡ after (after seen xs) ys
after-append [] ys seen = refl
after-append (x ∷ xs) ys seen = after-append xs ys (x.name ∷ seen)

-- Adoption gives a sub job the parents of its workflow, or leaves its own.
inherit_deps-All :
    (P : Dep → Type 0) (parents ds : List Dep)
    → All P parents
    → All P ds
    → All P (inherit_deps parents ds)
inherit_deps-All P parents [] h k = h
inherit_deps-All P parents (d ∷ ds) h k = k

adopt-IsClosed :
    (job : Job) (sub : List Job) (seen : List String)
    → All (λ (d : Dep). OneOf (d.job) seen) job.depends_on
    → IsClosed seen sub
    → IsClosed seen (map (adopt job) sub)
unfolding adopt
adopt-IsClosed job [] seen deps h = tt
adopt-IsClosed job (s ∷ ss) seen deps (own, h) = (
  inherit_deps-All _ job.depends_on s.depends_on deps own,
  adopt-IsClosed job ss (s.name ∷ seen) (All-map _ _ (λ d m. inr m) job.depends_on deps) h,
)

after-adopt :
    (job : Job) (sub : List Job) (seen : List String)
    → after seen (map (adopt job) sub) ≡ after seen sub
unfolding adopt
after-adopt job [] seen = refl
after-adopt job (s ∷ ss) seen = after-adopt job ss (s.name ∷ seen)

final_deps-All :
    (parents : List String) (sub : List Job) (seen : List String)
    → All (λ (d : Dep). OneOf (d.job) (after seen sub)) (final_deps parents sub)
unfolding final_deps
final_deps-All parents [] seen = tt
final_deps-All parents (s ∷ ss) seen = elim (Bool-cases (contains parents s.name)) [
  | inl child ↦ rw child (final_deps-All parents ss (s.name ∷ seen))
  | inr leaf ↦
      rw leaf (
        Within-after ss (s.name ∷ seen) s.name (inl refl),
        final_deps-All parents ss (s.name ∷ seen),
      )
]

pub include-IsClosed :
    (job : Job) (sub : List Job) (seen : List String)
    → All (λ (d : Dep). OneOf (d.job) seen) job.depends_on
    → IsClosed [] sub
    → IsClosed seen (include job sub)
unfolding include final_job
include-IsClosed job sub seen deps h =
    let closed = IsClosed-Within [] seen sub (λ a m. absurd m) h in
    append-IsClosed (map (adopt job) sub) (final_job job.name sub ∷ []) seen
      (adopt-IsClosed job sub seen deps closed)
      (rw (after-adopt job sub seen) (final_deps-All (with_children sub) sub seen, tt))

pub include-named :
    (job : Job) (sub : List Job) (seen : List String)
    → OneOf job.name (after seen (include job sub))
unfolding include final_job
include-named job sub seen =
    rw (after-append (map (adopt job) sub) (final_job job.name sub ∷ []) seen) (inl refl)

-- A name of a file under the name of the job that includes it.
abbrev pub under : String → String → String
under parent a = if parent == "" then a else parent <> "/" <> a

-- What is seen of a file, under the parent's name, is in a list of names.
abbrev pub Covers : String → List String → List String → Type 0
Covers parent seen more = (a : String) → OneOf a seen → OneOf (under parent a) more

rewritten-All :
    (parent : String) (seen more : List String) (ds : List RawDep)
    → Covers parent seen more
    → All (λ (d : RawDep). OneOf (raw_name d) seen) ds
    → All (λ (d : Dep). OneOf (under parent d.job) more) (map rewrite_dep ds)
unfolding rewrite_dep
rewritten-All parent seen more [] c h = tt
rewritten-All parent seen more (named a ∷ ds) c (m, h) =
    (c a m, rewritten-All parent seen more ds c h)
rewritten-All parent seen more (conditional a on ∷ ds) c (m, h) =
    (c a m, rewritten-All parent seen more ds c h)

prefixed-All :
    (parent : String) (more : List String) (ds : List Dep)
    → All (λ (d : Dep). OneOf (parent <> "/" <> d.job) more) ds
    → All (λ (d : Dep). OneOf (d.job) more) (map (prefix_dep parent) ds)
prefixed-All parent more [] h = tt
prefixed-All parent more (d ∷ ds) (m, h) = (m, prefixed-All parent more ds h)

prefix_job-name : (parent : String) (j : Job) → (prefix_job parent j).name ≡ under parent j.name
unfolding prefix_job
prefix_job-name parent j = ground arith

pub prefix_job-All :
    (parent : String) (more : List String) (j : Job)
    → All (λ (d : Dep). OneOf (under parent d.job) more) j.depends_on
    → All (λ (d : Dep). OneOf (d.job) more) (prefix_job parent j).depends_on
unfolding prefix_job
prefix_job-All parent more j h = elim (Bool-cases (parent == "")) [
  | inl top ↦ rw top (rw top at h)
  | inr sub ↦ rw sub (prefixed-All parent more j.depends_on (rw sub at h))
]

pub Covers-cons :
    (parent x : String) (seen more : List String)
    → Covers parent seen more
    → OneOf (under parent x) more
    → Covers parent (x ∷ seen) more
Covers-cons parent x seen more c m a (inl e) = rw e m
Covers-cons parent x seen more c m a (inr k) = c a k

-- The same of the two steps together.
pub rewritten-name :
    (parent : String) (r : RawJob)
    → (prefix_job parent (rewrite_depends_on r)).name ≡ under parent r.name
unfolding rewrite_depends_on
rewritten-name parent r = prefix_job-name parent (rewrite_depends_on r)

pub rewritten-deps :
    (parent : String) (seen more : List String) (r : RawJob)
    → Covers parent seen more
    → All (λ (d : RawDep). OneOf (raw_name d) seen) r.depends_on
    → All (λ (d : Dep). OneOf (under parent d.job) more) (rewrite_depends_on r).depends_on
unfolding rewrite_depends_on
rewritten-deps parent seen more r covers deps =
    rewritten-All parent seen more r.depends_on covers deps
