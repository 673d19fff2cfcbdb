-- ===== src/Trigger/Requests.antt =====
-- src/api/handlers/trigger.py: Trigger.post; and restart_build of src/api/handlers/projects/build.py.
use infrabox.Builds.{
  Repository, Tables, MatrixJob, Build, ProjectRow, max_where, of_number, insert_job, insert_build,
  next_number,
}
use infrabox.Http.{Response, type_error, ◌>>=◌, done, abort}
use infrabox.Prelude.{
  ℕ, String, Option, List, if◌then◌else◌, rows_where, Bool, ◌==◌, any, some, ◌||◌, ◌&&◌, [], ◌+◌,
  none, ◌∷◌,
}
use infrabox.Guards.{is_row_of}
use infrabox.Trigger.{
  one, GithubApi, SourceCommit, create_github_commit, create_gerrit_commit, create_git_job,
  create_upload_job,
}

-- What a request brings from outside of the tables.
pub record Outside : Type 0 where
  pub api : GithubApi
  pub gerrit : String → String → Response SourceCommit
  pub new_id : String
  pub now : String

unfoldable pub git_trigger :
    Outside
    → ℕ
    → String
    → String
    → Repository
    → String
    → List (String × String)
    → Tables
    → Response Tables
git_trigger o build_no project_id project_type r branch_or_sha env db = do
  (commit, db') ←
      if project_type == "github"
      then create_github_commit o.api o.now project_id r branch_or_sha db
      else create_gerrit_commit o.gerrit o.now project_id r branch_or_sha db
  done (create_git_job o.new_id commit build_no project_id r project_type env db')

unfoldable pub trigger_typed :
    Outside → ℕ → String → String → String → List (String × String) → Tables → Response Tables
trigger_typed o build_no project_id project_type branch_or_sha env db =
    if project_type == "gerrit" || project_type == "github"
    then elim (rows_where (λ (r : Repository). r.project_id == project_id) db.repositories) [
      | [] ↦ abort 404 "repo not found"
      | r ∷ rs ↦ git_trigger o build_no project_id project_type r branch_or_sha env db
    ]
    else if project_type == "upload"
    then create_upload_job o.new_id project_id build_no env db
    else abort 404 ""

unfoldable pub post : Outside → String → String → List (String × String) → Tables → Response Tables
post o project_id branch_or_sha env db =
    elim (rows_where (λ (p : ProjectRow). p.id == project_id) db.projects) [
      | [] ↦ abort 404 "project not found"
      | p ∷ ps ↦
          trigger_typed o (next_number project_id db.builds) project_id p.type branch_or_sha env db
    ]

-- The first row of the query for the build: its rows are joined with those of the collaborators.
unfoldable pub restart_rows : String → String → String → Tables → List Build
restart_rows user_id project_id build_id db =
    if any (is_row_of user_id project_id) db.collaborators
    then rows_where (λ (b : Build). b.id == build_id && b.project_id == project_id) db.builds
    else []

abbrev pub is_matrix_job : String → String → MatrixJob → Bool
is_matrix_job project_id build_id j = j.project_id == project_id && j.build_id == build_id

-- max(restart_counter) + 1: null + 1 is a TypeError.
abbrev pub next_restart : Option ℕ → Response ℕ
next_restart none = type_error
next_restart (some n) = done (n + 1)

unfoldable pub restart_from : String → String → Build → Tables → Response Tables
restart_from new_id project_id b db = do
  restart_counter ←
      next_restart (max_where (of_number project_id b.build_number) Build.restart_counter db.builds)
  j ← one (rows_where (is_matrix_job project_id b.id) db.jobs)
  done (
      insert_job (record j { build_id = new_id; project_id = project_id })
        (insert_build
          record {
            id = new_id;
            commit_id = b.commit_id;
            build_number = b.build_number;
            restart_counter = restart_counter;
            project_id = project_id;
            source_upload_id = b.source_upload_id;
          }
          db))

unfoldable pub restart_build : String → String → String → String → Tables → Response Tables
restart_build new_id user_id project_id build_id db =
    elim (restart_rows user_id project_id build_id db) [
      | [] ↦ abort 404 ""
      | b ∷ bs ↦ restart_from new_id project_id b db
    ]
