-- ===== src/JobApi/Leaves.antt =====
-- src/api/handlers/job_api.py: the leaf jobs that CreateJobs looks for after it has prefixed the names.
use infrabox.Expand.{dep_names}
use infrabox.JobApi.{find_leaf_jobs, NewJob, parent_jobs, prefix_names, leaves}
use infrabox.Prelude.{
  List, String, ◌<>◌, ◌∷◌, OneOf, [], ◌≡◌, ap, contains, false, ◌++◌, not-OneOf→contains, inl, refl,
  inr,
}

abbrev pub new_names : List NewJob → List String
new_names [] = []
new_names (j ∷ js) = j.name ∷ new_names js

abbrev pub prefixed : String → String → String
prefixed parent name = parent <> "/" <> name

prefix_names-parent_jobs :
    (parent : String) (js : List NewJob) → parent_jobs (prefix_names parent js) ≡ parent_jobs js
prefix_names-parent_jobs parent [] = refl
prefix_names-parent_jobs parent (j ∷ js) =
    ap (λ rest. dep_names j.depends_on ++ rest) (prefix_names-parent_jobs parent js)

all_leaves :
    (parent : String) (parents : List String) (js : List NewJob)
    → ((a : String) → OneOf a (new_names js) → ¬ OneOf (prefixed parent a) parents)
    → leaves parents (prefix_names parent js) ≡ prefix_names parent js
all_leaves parent parents [] h = refl
all_leaves parent parents (j ∷ js) h =
    let apart : contains parents (prefixed parent j.name) ≡ false =
      not-OneOf→contains parents (prefixed parent j.name) (h j.name (inl refl)) in
    rw apart (
      ap (λ rest. record j { name = prefixed parent j.name } ∷ rest)
        (all_leaves parent parents js (λ a m. h a (inr m))))

-- The handler prefixes the names of the jobs, but not the names that they depend on. So every job
-- counts as a leaf, also one that others depend on, if no dependency is on a name with the prefix.
pub find_leaf_jobs-prefix_names :
    (parent : String) (jobs : List NewJob)
    → ((a : String) → OneOf a (new_names jobs) → ¬ OneOf (prefixed parent a) (parent_jobs jobs))
    → find_leaf_jobs (prefix_names parent jobs) ≡ prefix_names parent jobs
unfolding find_leaf_jobs
find_leaf_jobs-prefix_names parent jobs h =
    rw (prefix_names-parent_jobs parent jobs) (all_leaves parent (parent_jobs jobs) jobs h)
