-- ===== src/Scheduler.antt =====
-- src/scheduler/kubernetes/scheduler.py. The database is a value that each statement replaces
-- (autocommit), the Kubernetes API server answers by an oracle, and the requests to it are a log.
pub mod Cleanup
pub mod Parents
pub mod Conditions
pub mod Decisions
pub mod Queue
pub mod Progress
pub mod Drained
pub mod Round
use infrabox.Prelude.{
  String, ℕ, List, Bool, Option, some, ◌++◌, eqb, ◌∷◌, contains, false, true, ◌&&◌, if◌then◌else◌,
  [], ◌==◌, none, any, leb,
}
use infrabox.Jobs.{
  Job, Table, Dependency, State, JobType, state_name, select, update, has_id, is_active, queued,
}

-- A request to the Kubernetes API server, by the job that it is about.
pub data Request : Type 0 where
  post_namespace post_role post_role_binding post_discovery get_secrets : String → Request
  post_ibjob delete_ibjob delete_namespace : String → Request

-- `request_error` is what the library requests raises: a timeout, or a connection that fails.
pub data Exception : Type 0 where
  assertion_error index_error key_error request_error : Exception

pub record World : Type 0 where
  pub jobs : Table
  pub requests : List Request
  pub now : ℕ

pub data Outcome {ℓ} (A : Type ℓ) : Type ℓ where
  return : A → Outcome A
  raise : Exception → Outcome A

-- The API server: the status of its answer to a request, none where requests raises an exception; and
-- what `r.json()['items']` gives of the secrets in the namespace of a job: for each whether its data has
-- the keys that are read, or an exception.
pub record ApiServer : Type 0 where
  pub status : Request → Option ℕ
  pub secrets : String → Outcome (List Bool)

-- The state outlives an exception.
abbrev pub Action : Type 0 → Type 0
Action A = World → Outcome A × World

abbrev pub pure : {A : Type 0} → A → Action A
pure a = λ w. (return a, w)

abbrev pub throw : {A : Type 0} → Exception → Action A
throw e = λ w. (raise e, w)

module _ {A B : Type 0} where
  infixl 5 ◌>>=◌ ◌>>◌
  abbrev pub ◌>>=◌ : Action A → (A → Action B) → Action B
  ◌>>=◌ first next w =
      let (result, later) = first w in
      elim result [ return a ↦ next a later | raise e ↦ (raise e, later) ]

  abbrev pub ◌>>◌ : Action A → Action B → Action B
  first >> next = first >>= λ _. next

abbrev pub execute : (Table → Table) → Action (Unit {0})
execute f w = (return tt, record w { jobs = f w.jobs })

abbrev pub fetch : {A : Type 0} → (Table → A) → Action A
fetch f w = (return (f w.jobs), w)

abbrev pub current_time : Action ℕ
current_time w = (return w.now, w)

-- UPDATE job SET state = ... WHERE id = ...
abbrev pub set_state : String → State → Action (Unit {0})
set_state job_id s = execute (update (has_id job_id) (λ j. record j { state = s }))

abbrev pub or_raise : {A : Type 0} → Exception → Option A → Outcome A
or_raise e none = raise e
or_raise e (some a) = return a

-- `secret = data['items'][0]` and the reads of secret['data'].
abbrev pub read_secret : Outcome (List Bool) → Outcome Bool
read_secret (raise e) = raise e
read_secret (return []) = raise index_error
read_secret (return (true ∷ rest)) = return true
read_secret (return (false ∷ rest)) = raise key_error

module _ (api : ApiServer) where
  -- Sends a request and returns the status of the answer.
  abbrev pub send : Request → Action ℕ
  send r w = (or_raise request_error (api.status r), record w { requests = w.requests ++ r ∷ [] })

  unfoldable pub kube_delete_namespace : String → Action (Unit {0})
  kube_delete_namespace job_id = do send (delete_namespace job_id); pure tt

  unfoldable pub kube_delete_job : String → Action (Unit {0})
  kube_delete_job job_id = do send (delete_ibjob job_id); pure tt

  unfoldable pub kube_job : String → Action Bool
  kube_job job_id = do status ← send (post_ibjob job_id); pure (eqb status 201)

  abbrev pub first_secret : String → Action Bool
  first_secret job_id w = (read_secret (api.secrets job_id), w)

  -- Sends a request, and goes on if it has the expected status.
  abbrev pub expect : ℕ → Request → Action Bool → Action Bool
  expect code r next = do status ← send r; if eqb status code then next else pure false

  -- True stands for the list `env`, which is not empty.
  unfoldable pub create_kube_namespace : String → Action Bool
  create_kube_namespace job_id = expect 201 (post_namespace job_id) (
      expect 201 (post_role job_id) (
        expect 201 (post_role_binding job_id) (
          expect 201 (post_discovery job_id)
            (expect 200 (get_secrets job_id) (first_secret job_id)))))

  -- What `schedule_job` does if there is no namespace.
  abbrev pub check_namespace : Job → Bool → Action Bool
  check_namespace j made = if made then pure true else (do
    execute (
        update (has_id j.id) (λ r. record r {
          state = State.error;
          console = some "Failed to create kubernetes namespace";
        }))
    pure false)

  -- The part of `schedule_job` that prepares the namespace; false is its early return.
  unfoldable pub prepare : Job → Action Bool
  prepare j =
      if j.kubernetes
      then (do made ← create_kube_namespace j.id; check_namespace j made)
      else pure true

  unfoldable pub schedule_job : Job → Action (Unit {0})
  schedule_job j = do
    ready ← prepare j
    if ready
        then (do
          started ← kube_job j.id
          if started then set_state j.id State.scheduled else pure tt)
        else pure tt

-- The ids in the column `dependencies` of a job.
abbrev pub parent_ids : List Dependency → List String
parent_ids [] = []
parent_ids (d ∷ ds) = d.job_id ∷ parent_ids ds

-- SELECT id, state FROM job WHERE id IN (...)
abbrev pub parents_of : Job → Table → List Job
parents_of j = select (λ p. contains (parent_ids j.dependencies) p.id)

-- The loop `for dep in dependencies: if dep['job-id'] == parent_id: on = dep['on']`.
unfoldable pub find_on : String → Option (List String) → List Dependency → Option (List String)
find_on parent_id on [] = on
find_on parent_id on (d ∷ ds) =
    find_on parent_id (if d.job_id == parent_id then some d.on else on) ds

abbrev pub has_condition : Option (List String) → Bool
has_condition none = false
has_condition (some []) = false
has_condition (some (x ∷ xs)) = true

abbrev pub satisfies : State → Option (List String) → Bool
satisfies s none = false
satisfies s (some on) = contains on (state_name s)

-- The loop that checks the conditions: true if the job is skipped.
unfoldable pub check_conditions : Job → List Job → Action Bool
check_conditions j [] = pure false
check_conditions j (p ∷ ps) = do
  let on = find_on p.id none j.dependencies
  if has_condition on then pure tt else throw assertion_error
  if satisfies p.state on
      then check_conditions j ps
      else (do set_state j.id State.skipped; pure true)

abbrev pub is_wait : JobType → Bool
is_wait JobType.wait = true
is_wait _ = false

-- UPDATE job SET state = 'finished', start_date = now(), end_date = now() WHERE id = ...
abbrev pub finish_wait : Job → Action (Unit {0})
finish_wait j = do
  now ← current_time
  execute (
      update (has_id j.id)
        (λ r. record r { state = State.finished; start_date = some now; end_date = some now }))

-- ORDER BY j.created_at
unfoldable pub insert_by_age : Job → List Job → List Job
insert_by_age j [] = j ∷ []
insert_by_age j (k ∷ ks) =
    if leb j.created_at k.created_at then j ∷ k ∷ ks else k ∷ insert_by_age j ks

unfoldable pub by_age : List Job → List Job
by_age [] = []
by_age (j ∷ js) = insert_by_age j (by_age js)

abbrev pub is_queued : State → Bool
is_queued queued = true
is_queued _ = false

unfoldable pub queued_jobs : String → Table → List Job
queued_jobs cluster t = by_age (select (λ j. is_queued j.state && j.cluster_name == cluster) t)

module _ (api : ApiServer) where
  -- The body of the loop of `schedule`.
  unfoldable pub visit : Job → Action (Unit {0})
  visit j = do
    result ← fetch (parents_of j)
    if any (λ p. is_active p.state) result then pure tt else (do
      skip ← check_conditions j result
      if skip then pure tt else (if is_wait j.type then finish_wait j else schedule_job api j))

  unfoldable pub visit_all : List Job → Action (Unit {0})
  visit_all [] = pure tt
  visit_all (j ∷ js) = do visit j; visit_all js

  unfoldable pub schedule : String → Action (Unit {0})
  schedule cluster = do jobs ← fetch (queued_jobs cluster); visit_all jobs
