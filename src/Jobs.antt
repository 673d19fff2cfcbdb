-- ===== src/Jobs.antt =====
-- The tables that the scheduler and the API share: `job` (src/db/migrations), `abort` and `console`.
-- A statement's WHERE clause is a test on rows, and an UPDATE maps over the table.
pub mod Rows
use infrabox.Prelude.{
  String, List, Bool, ℕ, true, ◌∷◌, ◌==◌, Option, false, none, if◌then◌else◌, some, [],
}

-- The enumeration job_state.
pub data State : Type 0 where
  queued scheduled running finished failure error skipped killed : State

pub data JobType : Type 0 where
  create_job_matrix run_project_container run_docker_compose wait : JobType

abbrev pub state_name : State → String
state_name queued = "queued"
state_name scheduled = "scheduled"
state_name running = "running"
state_name finished = "finished"
state_name failure = "failure"
state_name error = "error"
state_name skipped = "skipped"
state_name killed = "killed"

-- An entry of the column `dependencies`; `job_id` is its key 'job-id'.
pub record Dependency : Type 0 where
  pub job : String
  pub job_id : String
  pub on : List String

-- A row of `job`, less what no handler here reads. `resources` tells if the column has an entry
-- `kubernetes`. A `dependencies` that is null is the empty list.
pub record Job : Type 0 where
  pub id : String
  pub build_id : String
  pub project_id : String
  pub name : String
  pub type : JobType
  pub state : State
  pub dependencies : List Dependency
  pub cluster_name : String
  pub created_at : ℕ
  pub start_date : Option ℕ
  pub end_date : Option ℕ
  pub timeout : ℕ
  pub console : Option String
  pub message : Option String
  pub kubernetes : Bool

abbrev pub Table : Type 0
Table = List Job

-- state in ('scheduled', 'running', 'queued')
abbrev pub is_active : State → Bool
is_active queued = true
is_active scheduled = true
is_active running = true
is_active _ = false

-- SELECT ... WHERE test
unfoldable pub select : (Job → Bool) → Table → List Job
select test [] = []
select test (j ∷ js) = let rest = select test js in if test j then j ∷ rest else rest

-- UPDATE job SET ... WHERE test
unfoldable pub update : (Job → Bool) → (Job → Job) → Table → Table
update test set [] = []
update test set (j ∷ js) = (if test j then set j else j) ∷ update test set js

-- WHERE id = job_id
abbrev pub has_id : String → Job → Bool
has_id job_id j = j.id == job_id

-- SELECT state FROM job WHERE id = job_id
unfoldable pub state_of : String → Table → Option State
state_of job_id [] = none
state_of job_id (j ∷ js) = if j.id == job_id then some j.state else state_of job_id js
