-- ===== src/Builds.antt =====
-- The tables that a push, a pull request or a user's trigger reads and writes (src/db/migrations), and
-- the numbers of builds. A query gives the rows in the order of the table.
pub mod Queues
pub mod Numbers
use infrabox.Http.{Response, index_error, done, database_error}
use infrabox.Prelude.{
  String, List, ℕ, ◌++◌, Option, Bool, ◌∷◌, none, ◌==◌, [], some, if◌then◌else◌, ◌+◌, ◌&&◌, ltb,
  eqb,
}
use infrabox.Guards.{Collaborator}

pub record User : Type 0 where
  pub id : String
  pub github_api_token : Option String

pub record Repository : Type 0 where
  pub id : String
  pub name : String
  pub github_owner : String
  pub clone_url : String
  pub html_url : String
  pub github_id : ℕ
  pub github_hook_id : Option ℕ
  pub project_id : String
  pub private : Bool

pub record ProjectRow : Type 0 where
  pub id : String
  pub name : String
  pub type : String
  pub public : Bool
  pub build_on_push : Bool

pub record Signature : Type 0 where
  pub name : String
  pub email : String
  pub username : Option String

pub record Commit : Type 0 where
  pub id : String
  pub message : String
  pub repository_id : String
  pub timestamp : String
  pub author : Signature
  pub committer : Signature
  pub url : String
  pub branch : Option String
  pub project_id : String
  pub tag : Option String
  pub pull_request_id : Option String
  pub github_status_url : Option String

pub record Build : Type 0 where
  pub id : String
  pub commit_id : Option String
  pub build_number : ℕ
  pub restart_counter : ℕ
  pub project_id : String
  pub source_upload_id : Option String

-- The value of the column `repo`.
pub record GitRepo : Type 0 where
  pub commit : String
  pub clone_url : String
  pub github_private_repo : Option Bool
  pub branch : Option String
  pub fork : Bool
  pub clone_all : Bool

-- A new row of `job` that makes the other jobs of its build: state 'queued', type
-- 'create_job_matrix', name 'Create Jobs' and cluster 'master'.
pub record MatrixJob : Type 0 where
  pub build_id : String
  pub project_id : String
  pub repo : Option GitRepo
  pub env_var : Option (List (String × String))
  pub definition : Option String

pub record PullRequest : Type 0 where
  pub id : String
  pub project_id : String
  pub github_pull_request_id : ℕ
  pub title : String
  pub url : String

pub record Tables : Type 0 where
  pub users : List User
  pub repositories : List Repository
  pub projects : List ProjectRow
  pub collaborators : List Collaborator
  pub commits : List Commit
  pub builds : List Build
  pub jobs : List MatrixJob
  pub pull_requests : List PullRequest

-- `rows[0]`
abbrev pub first_row : {A : Type 0} → List A → Response A
first_row [] = index_error
first_row (r ∷ rs) = done r

abbrev pub larger : ℕ → Option ℕ → ℕ
larger n none = n
larger n (some m) = if ltb n m then m else n

-- SELECT max(value) ... WHERE test
unfoldable pub max_where : (Build → Bool) → (Build → ℕ) → List Build → Option ℕ
max_where test value [] = none
max_where test value (b ∷ bs) =
    let rest = max_where test value bs in if test b then some (larger (value b) rest) else rest

abbrev pub of_project : String → Build → Bool
of_project project_id b = b.project_id == project_id

-- WHERE build_number = number AND project_id = project_id
abbrev pub of_number : String → ℕ → Build → Bool
of_number project_id number b = of_project project_id b && eqb b.build_number number

-- max(build_number) + 1, or 1 where that is null.
unfoldable pub next_number : String → List Build → ℕ
next_number project_id builds = elim (max_where (of_project project_id) Build.build_number builds) [
  | none ↦ 1
  | some n ↦ n + 1
]

abbrev pub is_commit : String → String → Commit → Bool
is_commit id project_id c = c.id == id && c.project_id == project_id

-- INSERT INTO "commit". The column `branch` is NOT NULL (src/db/migrations/00001.sql).
unfoldable pub insert_row : Commit → Tables → Response Tables
insert_row c db = elim c.branch [
  | none ↦ database_error
  | some branch ↦ done (record db { commits = db.commits ++ c ∷ [] })
]

-- INSERT INTO build
unfoldable pub insert_build : Build → Tables → Tables
insert_build b db = record db { builds = db.builds ++ b ∷ [] }

-- INSERT INTO job
unfoldable pub insert_job : MatrixJob → Tables → Tables
insert_job j db = record db { jobs = db.jobs ++ j ∷ [] }
