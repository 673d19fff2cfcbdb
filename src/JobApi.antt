-- ===== src/JobApi.antt =====
-- src/api/handlers/job_api.py: the requests of a running job that create jobs and set its state. A
-- request runs in one transaction, so one that aborts leaves the tables as they were.
pub mod Clusters
pub mod Leaves
pub mod Inserts
use infrabox.Http.{Response, done, ◌>>=◌, abort, key_error}
use infrabox.Prelude.{
  String, ℕ, List, Option, Bool, ◌∷◌, none, [], false, ◌&&◌, some, if◌then◌else◌, ◌++◌, contains,
  all, lookup, ◌<>◌, ◌==◌, ◌+◌, ltb, ◌||◌, not, any, true,
}
use infrabox.Jobs.{
  Job, Table, Dependency, State, JobType, update, run_project_container, run_docker_compose,
}
use infrabox.Expand.{Dep, dep_names}

-- An entry of `jobs` in the body of the request, with what the handler reads of it. `selector` is
-- empty where the job has none.
pub record NewJob : Type 0 where
  pub id : String
  pub name : String
  pub type : String
  pub depends_on : List Dep
  pub selector : List String
  pub capabilities : Bool
  pub timeout : Option ℕ
  pub kubernetes : Bool

pub record Cluster : Type 0 where
  pub name : String
  pub labels : List String

-- The keys of `parent_jobs`.
abbrev pub parent_jobs : List NewJob → List String
parent_jobs [] = []
parent_jobs (j ∷ js) = dep_names j.depends_on ++ parent_jobs js

abbrev pub leaves : List String → List NewJob → List NewJob
leaves parents [] = []
leaves parents (j ∷ js) =
    let rest = leaves parents js in if contains parents j.name then rest else j ∷ rest

unfoldable pub find_leaf_jobs : List NewJob → List NewJob
find_leaf_jobs jobs = leaves (parent_jobs jobs) jobs

-- The first cluster that has every label of the selector.
unfoldable pub get_target_cluster : List Cluster → List String → Option String
get_target_cluster [] selector = none
get_target_cluster (c ∷ cs) selector =
    let rest = get_target_cluster cs selector in
    if all (λ s. contains c.labels s) selector then some c.name else rest

abbrev pub or_master : Option String → String
or_master none = "master"
or_master (some c) = c

-- The cluster of the first dependency, as far as it is assigned.
abbrev pub parent_cluster : List (String × String) → List Dep → String
parent_cluster assigned [] = "master"
parent_cluster assigned (d ∷ ds) = or_master (lookup d.job assigned)

-- The cluster for a selector, and `parent` where it is empty.
unfoldable pub select_cluster : List Cluster → String → List String → Response String
select_cluster clusters parent [] = done parent
select_cluster clusters parent (x ∷ xs) = elim (get_target_cluster clusters (x ∷ xs)) [
  | some c ↦ done c
  | none ↦ abort 400 "Could not find a cluster which could satisfy the selector"
]

unfoldable pub choose_cluster : List Cluster → List (String × String) → NewJob → Response String
choose_cluster clusters assigned j =
    select_cluster clusters (parent_cluster assigned j.depends_on) j.selector

-- Each job with its cluster; `assigned` has the latest entry of a name in front.
unfoldable pub assign_from :
    List Cluster → List (String × String) → List NewJob → Response (List (NewJob × String))
assign_from clusters assigned [] = done []
assign_from clusters assigned (j ∷ js) = do
  c ← choose_cluster clusters assigned j
  rest ← assign_from clusters ((j.name, c) ∷ assigned) js
  done ((j, c) ∷ rest)

unfoldable pub assign_cluster : List Cluster → List NewJob → Response (List (NewJob × String))
assign_cluster clusters jobs = assign_from clusters [] jobs

-- The job that sends the request.
pub record Sender : Type 0 where
  pub id : String
  pub name : String
  pub build_id : String
  pub project_id : String

abbrev pub prefix_names : String → List NewJob → List NewJob
prefix_names parent [] = []
prefix_names parent (j ∷ js) = record j { name = parent <> "/" <> j.name } ∷ prefix_names parent js

-- name->id mapping; a later entry of a name wins.
unfoldable pub jobname_id : String → List NewJob → Option String
jobname_id name [] = none
jobname_id name (j ∷ js) = elim (jobname_id name js) [
  | some i ↦ some i
  | none ↦ if j.name == name then some j.id else none
]

-- What the variable `job_id` holds after the loop over the jobs.
abbrev pub last_id : String → List NewJob → String
last_id i [] = i
last_id i (j ∷ js) = last_id j.id js

abbrev pub names_job : String → List Dependency → Bool
names_job job_id [] = false
names_job job_id (d ∷ ds) = d.job_id == job_id || names_job job_id ds

-- The UPDATE for one leaf job: the rows that depend on `job_id` now wait for the leaf too.
abbrev pub wait_for : Sender → String → NewJob → Table → Table
wait_for sender job_id leaf =
    update
      (λ r.
        names_job job_id r.dependencies
        && r.build_id == sender.build_id
        && r.project_id == sender.project_id)
      (λ r. record r {
        dependencies =
            r.dependencies
            ++ record { job = leaf.name; job_id = leaf.id; on = "finished" ∷ [] } ∷ [];
      })

unfoldable pub wait_for_leaves : Sender → String → List NewJob → Table → Table
wait_for_leaves sender job_id [] t = t
wait_for_leaves sender job_id (leaf ∷ rest) t =
    wait_for_leaves sender job_id rest (wait_for sender job_id leaf t)

unfoldable pub job_type : String → Response JobType
job_type t =
    if t == "docker"
    then done run_project_container
    else if t == "docker-image"
    then done run_project_container
    else if t == "docker-compose"
    then done run_docker_compose
    else if t == "wait"
    then done JobType.wait
    else abort 400 "Unknown job type"

-- `dep['job-id'] = jobname_id[dep['job']]`, with the mapping made from the names before the prefix.
unfoldable pub link_deps : List NewJob → List Dep → Response (List Dependency)
link_deps jobs [] = done []
link_deps jobs (d ∷ ds) = elim (jobname_id d.job jobs) [
  | none ↦ key_error d.job
  | some i ↦ (do
    rest ← link_deps jobs ds
    done (record { job = d.job; job_id = i; on = d.on } ∷ rest))
]

-- A job without dependencies becomes a child of the sender.
unfoldable pub dependencies_of : Sender → List NewJob → NewJob → Response (List Dependency)
dependencies_of sender jobs j = elim j.depends_on [
  | [] ↦ done (record { job = sender.name; job_id = sender.id; on = "finished" ∷ [] } ∷ [])
  | d ∷ ds ↦ link_deps jobs (d ∷ ds)
]

abbrev pub timeout_or_default : Option ℕ → ℕ
timeout_or_default none = 3600
timeout_or_default (some t) = t

-- The INSERT of the `n`-th job; the loop sleeps between two, so that `created_at` grows.
unfoldable pub new_row : Sender → List NewJob → ℕ → NewJob → String → Response Job
new_row sender jobs now j cluster = do
  deps ← dependencies_of sender jobs j
  t ← job_type j.type
  done (record {
    id = j.id;
    build_id = sender.build_id;
    project_id = sender.project_id;
    name = j.name;
    type = t;
    state = State.queued;
    dependencies = deps;
    cluster_name = cluster;
    created_at = now;
    start_date = none;
    end_date = none;
    timeout = timeout_or_default j.timeout;
    console = none;
    message = none;
    kubernetes = j.kubernetes;
  })

unfoldable pub insert_jobs :
    Sender → List NewJob → ℕ → List (NewJob × String) → Table → Response Table
insert_jobs sender jobs now [] t = done t
insert_jobs sender jobs now ((j, cluster) ∷ rest) t = do
  row ← new_row sender jobs now j cluster
  insert_jobs sender jobs (now + 1) rest (t ++ row ∷ [])

-- `k.get('avg_duration', 0)`: a wait job has no average, and the average of a name that never finished
-- is None.
unfoldable pub duration : (String → Option ℕ) → NewJob → Option ℕ
duration avg j = if j.type == "wait" then some 0 else avg j.name

-- None is less than every number.
abbrev pub shorter : Option ℕ → Option ℕ → Bool
shorter none none = false
shorter none (some n) = true
shorter (some m) none = false
shorter (some m) (some n) = ltb m n

-- `jobs.sort(key=..., reverse=True)` keeps the order of equal keys.
unfoldable pub insert_by_duration : (String → Option ℕ) → NewJob → List NewJob → List NewJob
insert_by_duration avg j [] = j ∷ []
insert_by_duration avg j (k ∷ ks) =
    if shorter (duration avg j) (duration avg k)
    then k ∷ insert_by_duration avg j ks
    else j ∷ k ∷ ks

unfoldable pub sort_by_duration : (String → Option ℕ) → List NewJob → List NewJob
sort_by_duration avg [] = []
sort_by_duration avg (j ∷ js) = insert_by_duration avg j (sort_by_duration avg js)

-- CreateJobs.post, less the environment variables and secrets. `avg` is the average duration that
-- the database has for a name (only the order is read, so any unit will do), and `enabled` is the setting for capabilities.
unfoldable pub create_jobs :
    Bool → List Cluster → (String → Option ℕ) → Sender → ℕ → List NewJob → Table → Response Table
create_jobs enabled clusters avg sender now jobs t =
    if enabled || not (any (λ j. j.capabilities) jobs)
    then (let sorted = sort_by_duration avg jobs in
        let created = sender.name == "Create Jobs" in
        let named = if created then sorted else prefix_names sender.name sorted in
        let t' =
          if created
          then t
          else wait_for_leaves sender (last_id sender.id jobs) (find_leaf_jobs named) t in
        do assigned ← assign_cluster clusters named; insert_jobs sender jobs now assigned t')
    else abort 400 "Capabilities are disabled"
