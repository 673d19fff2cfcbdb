-- ===== src/Tests/Requests.antt =====
-- CreateJobs on two jobs and two clusters.
use infrabox.JobApi.Leaves.{new_names, find_leaf_jobs-prefix_names, prefixed}
use infrabox.JobApi.Clusters.{Placed, jobs_of, assign_cluster-Placed}
use infrabox.Http.{done}
use infrabox.Expand.{Dep}
use infrabox.JobApi.{
  assign_cluster, find_leaf_jobs, NewJob, Cluster, assign_from, prefix_names, choose_cluster,
  select_cluster, get_target_cluster, parent_jobs,
}
use infrabox.Prelude.{
  String, List, All, OneOf, ◌≡◌, false, ◌∷◌, [], none, refl, lookup, inl, arith, eq_iff, inr,
}

abbrev new_job : String → List Dep → List String → NewJob
new_job name deps selector = record {
  id = name;
  name = name;
  type = "docker";
  depends_on = deps;
  selector = selector;
  capabilities = false;
  timeout = none;
  kubernetes = false;
}

abbrev wait_on : String → Dep
wait_on name = record { job = name; on = "finished" ∷ [] }

-- `b` waits for `a`, and wants a cluster with a GPU.
abbrev a_and_b : List NewJob
a_and_b = new_job "a" [] [] ∷ new_job "b" (wait_on "a" ∷ []) ("gpu" ∷ []) ∷ []

abbrev clusters : List Cluster
clusters =
    record { name = "master"; labels = "default" ∷ [] }
    ∷ record { name = "lab"; labels = "gpu" ∷ "linux" ∷ [] }
    ∷ []

abbrev assignment : List (NewJob × String)
assignment =
    (new_job "a" [] [], "master") ∷ (new_job "b" (wait_on "a" ∷ []) ("gpu" ∷ []), "lab") ∷ []

assigned : assign_cluster clusters a_and_b ≡ done assignment
unfolding assign_cluster assign_from choose_cluster select_cluster get_target_cluster lookup
assigned = refl

assign_cluster-Placed_example : All (Placed clusters) assignment × (jobs_of assignment ≡ a_and_b)
assign_cluster-Placed_example = assign_cluster-Placed clusters a_and_b assignment assigned

apart :
    (a : String) → OneOf a (new_names a_and_b) → ¬ OneOf (prefixed "gen" a) (parent_jobs a_and_b)
apart a (inl e) = rw e (ground (arith, eq_iff "gen/a" "a"))
apart a (inr (inl e)) = rw e (ground (arith, eq_iff "gen/b" "a"))
apart a (inr (inr m)) = absurd m

-- Both jobs are leaves once the name of the sender is in front.
find_leaf_jobs-prefix_names_example :
    find_leaf_jobs (prefix_names "gen" a_and_b) ≡ prefix_names "gen" a_and_b
find_leaf_jobs-prefix_names_example = find_leaf_jobs-prefix_names "gen" a_and_b apart

-- Without a prefix only `b` is.
one_leaf : find_leaf_jobs a_and_b ≡ new_job "b" (wait_on "a" ∷ []) ("gpu" ∷ []) ∷ []
unfolding find_leaf_jobs
one_leaf = refl
