-- ===== src/Lifecycle.antt =====
-- How the state of a job changes from outside of the scheduler: the guard `job_token_required` of
-- src/pyinfraboxutils/ibflask.py, SetRunning and SetFinished of src/api/handlers/job_api.py, and
-- JobRestart of src/api/handlers/projects/jobs.py.
pub mod Calm
pub mod Ends
pub mod Ended
pub mod Orphans
pub mod Turns
pub mod Steps
pub mod Races
pub mod Restart
use infrabox.Prelude.{
  String, Bool, List, ℕ, some, Option, true, false, ◌∷◌, if◌then◌else◌, contains, not, none, any,
  ◌||◌, ◌&&◌, ◌==◌, suc, [], ◌++◌, eqb, length, zero,
}
use infrabox.Jobs.{
  Job, Table, Dependency, State, JobType, update, has_id, is_active, state_of, select, error,
  run_project_container, skipped, failure, run_docker_compose, finished, killed,
}

-- The request passes if the job of the token exists and is active; 401 otherwise.
unfoldable pub job_token_required : String → Table → (Table → Table) → Table
job_token_required job_id t handler = elim (state_of job_id t) [
  | none ↦ t
  | some s ↦ if is_active s then handler t else t
]

unfoldable pub set_running : String → ℕ → Table → Table
set_running job_id now t =
    job_token_required job_id t
      (update (has_id job_id) (λ j. record j { state = State.running; start_date = some now }))

unfoldable pub set_finished : String → State → Option String → String → ℕ → Table → Table
set_finished job_id state message output now t = job_token_required job_id t (
    update (has_id job_id) (λ j. record j {
      state = state;
      console = some output;
      end_date = some now;
      message = message;
    }))

-- restart_states
abbrev pub can_restart : State → Bool
can_restart error = true
can_restart failure = true
can_restart finished = true
can_restart killed = true
can_restart _ = false

abbrev pub is_restartable_type : JobType → Bool
is_restartable_type run_project_container = true
is_restartable_type run_docker_compose = true
is_restartable_type _ = false

abbrev pub depends_on_any : List String → List Dependency → Bool
depends_on_any restart [] = false
depends_on_any restart (d ∷ ds) = contains restart d.job_id || depends_on_any restart ds

-- One pass of the `for` loop over the jobs; `restart_jobs` grows on the way.
unfoldable pub grow : List Job → List String → List String
grow [] restart = restart
grow (j ∷ js) restart = grow js (
    if not (contains restart j.id) && depends_on_any restart j.dependencies
    then restart ++ j.id ∷ []
    else restart)

-- `while True`: until a pass finds nothing. A pass that finds something adds the id of another job.
unfoldable pub grow_all : ℕ → List Job → List String → Option (List String)
grow_all zero jobs restart = none
grow_all (suc fuel) jobs restart =
    let more = grow_all fuel jobs (grow jobs restart) in
    if eqb (length (grow jobs restart)) (length restart) then some restart else more

abbrev pub may_requeue : State → Bool
may_requeue skipped = true
may_requeue s = can_restart s

pub data Answer : Type 0 where
  restarted : Table → Answer
  refused : ℕ → String → Answer

abbrev pub job_with_id : String → String → Table → Option Job
job_with_id job_id project_id [] = none
job_with_id job_id project_id (j ∷ js) =
    let rest = job_with_id job_id project_id js in
    if j.id == job_id && j.project_id == project_id then some j else rest

-- UPDATE job SET state = 'queued', console = null, message = null, for each id of the list.
unfoldable pub requeue : List String → Table → Table
requeue [] t = t
requeue (i ∷ is') t =
    requeue is'
      (update (has_id i) (λ j. record j { state = State.queued; console = none; message = none }) t)

unfoldable pub restart_with : Table → List Job → List String → Answer
restart_with t jobs restart =
    if any (λ j. contains restart j.id && not (may_requeue j.state)) jobs
    then refused 400 "Some children jobs are still running"
    else restarted (requeue restart t)

-- JobRestart.get. The number of jobs of the build bounds the passes of the loop.
unfoldable pub restart_job : String → String → Table → Answer
restart_job job_id project_id t = elim (job_with_id job_id project_id t) [
  | none ↦ refused 404 ""
  | some j ↦
      if not (is_restartable_type j.type)
      then refused 400 "Job type cannot be restarted"
      else if not (can_restart j.state)
      then refused 400 "Job in this state cannot be restarted"
      else (let jobs = select (λ k. k.build_id == j.build_id && k.project_id == project_id) t in
          elim (grow_all (suc (length jobs)) jobs (job_id ∷ [])) [
            | none ↦ refused 500 ""
            | some restart ↦ restart_with t jobs restart
          ])
]
