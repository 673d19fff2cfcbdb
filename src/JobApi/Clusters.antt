-- ===== src/JobApi/Clusters.antt =====
-- src/api/handlers/job_api.py: `assign_cluster`, the cluster of each created job.
use infrabox.Http.{Response, abort, bind-done}
use infrabox.JobApi.{
  Cluster, get_target_cluster, choose_cluster, assign_from, assign_cluster, NewJob, select_cluster,
  parent_cluster, done,
}
use infrabox.Prelude.{
  List, String, ◌∷◌, all, ◌≡◌, All, contains, some, [], OneOf, true, arith, ◌⊎◌, contains→OneOf,
  Bool-cases, ap, inl, refl, inr, ℕ, Option-cases, ◌≢◌,
}

-- A cluster of the list has the name, and every label that the selector wants.
abbrev pub Serves : List Cluster → List String → String → Type 0
Serves [] selector name = ⊥
Serves (c ∷ cs) selector name =
    ((name ≡ c.name) × All (λ (s : String). OneOf s c.labels) selector) ⊎ Serves cs selector name

all_labels :
    (c : Cluster) (selector : List String)
    → all (λ s. contains c.labels s) selector ≡ true
    → All (λ (s : String). OneOf s c.labels) selector
all_labels c [] h = tt
all_labels c (s ∷ selector) h =
    let head : contains c.labels s ≡ true = ground arith in
    (contains→OneOf c.labels s head, all_labels c selector (ground arith))

get_target_cluster-Serves :
    (cs : List Cluster) (selector : List String) (name : String)
    → get_target_cluster cs selector ≡ some name
    → Serves cs selector name
unfolding get_target_cluster
get_target_cluster-Serves [] selector name h = ground arith
get_target_cluster-Serves (c ∷ cs) selector name h =
    elim (Bool-cases (all (λ s. contains c.labels s) selector)) [
      | inl fits ↦ inl (ground (arith, fits), all_labels c selector fits)
      | inr other ↦ inr (get_target_cluster-Serves cs selector name (rw other at h))
    ]

-- The cluster of a job with a selector serves it.
abbrev pub Placed : List Cluster → NewJob × String → Type 0
Placed clusters (j, c) = (j.selector ≡ []) ⊎ Serves clusters j.selector c

aborted : {code : ℕ} {message c : String} → ◌≢◌ {A = Response String} (abort code message) (done c)
aborted h = ground arith

select_cluster-Serves :
    (clusters : List Cluster) (parent : String) (selector : List String) (c : String)
    → select_cluster clusters parent selector ≡ done c
    → (selector ≡ []) ⊎ Serves clusters selector c
unfolding select_cluster
select_cluster-Serves clusters parent [] c h = inl refl
select_cluster-Serves clusters parent (x ∷ xs) c h =
    elim (Option-cases (get_target_cluster clusters (x ∷ xs))) [
      | inl missing ↦ absurd (aborted (rw (select_cluster, missing) at h))
      | inr (name, found) ↦
          inr (get_target_cluster-Serves clusters (x ∷ xs) c (ground (arith, found, h)))
    ]

choose_cluster-Placed :
    (clusters : List Cluster) (assigned : List (String × String)) (j : NewJob) (c : String)
    → choose_cluster clusters assigned j ≡ done c
    → Placed clusters (j, c)
unfolding choose_cluster
choose_cluster-Placed clusters assigned j c h =
    select_cluster-Serves clusters (parent_cluster assigned j.depends_on) j.selector c h

-- The jobs of an assignment, in their order.
abbrev pub jobs_of : List (NewJob × String) → List NewJob
jobs_of [] = []
jobs_of ((j, c) ∷ rest) = j ∷ jobs_of rest

assign_from-Placed :
    (clusters : List Cluster) (assigned : List (String × String)) (jobs : List NewJob)
    (out : List (NewJob × String))
    → assign_from clusters assigned jobs ≡ done out
    → All (Placed clusters) out × (jobs_of out ≡ jobs)
unfolding assign_from
assign_from-Placed clusters assigned [] out h =
    let same : [] ≡ out = ground arith in rw (← same) (tt, refl)
assign_from-Placed clusters assigned (j ∷ js) out h =
    let (c, chosen, h₁) = bind-done (choose_cluster clusters assigned j) _ h in
    let (rest, later, h₂) = bind-done (assign_from clusters ((j.name, c) ∷ assigned) js) _ h₁ in
    let same : (j, c) ∷ rest ≡ out = ground arith in
    let (placed, order) = assign_from-Placed clusters ((j.name, c) ∷ assigned) js rest later in
    rw (← same)
      ((choose_cluster-Placed clusters assigned j c chosen, placed), ap (λ xs. j ∷ xs) order)

-- If `assign_cluster` returns, it has given a cluster to each job, in order, and that of a job with a
-- selector is in the list of clusters and has every label that the selector names.
pub assign_cluster-Placed :
    (clusters : List Cluster) (jobs : List NewJob) (out : List (NewJob × String))
    → assign_cluster clusters jobs ≡ done out
    → All (Placed clusters) out × (jobs_of out ≡ jobs)
unfolding assign_cluster
assign_cluster-Placed clusters jobs out h = assign_from-Placed clusters [] jobs out h
