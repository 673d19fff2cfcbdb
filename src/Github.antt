-- ===== src/Github.antt =====
-- src/github/trigger/trigger.py: the webhook of GitHub. The ids that the database makes are arguments,
-- and so is GitHub itself. A handler that raises an exception, or answers before it commits, leaves the
-- tables as they were (src/pyinfraboxutils/ibbottle.py rolls back).
pub mod Refs
pub mod Pushes
use infrabox.Http.{Response, done, ◌>>=◌}
use infrabox.Texts.{join_with, split, starts_with}
use infrabox.Builds.{
  Repository, Tables, Commit, Signature, insert_build, insert_job, first_row, next_number,
  is_commit, User, insert_row, ProjectRow, Build, GitRepo, MatrixJob,
}
use infrabox.Prelude.{
  ℕ, List, String, Option, Bool, none, if◌then◌else◌, some, eqb, ◌∷◌, ◌==◌, [], rows_where, false,
  any, not, ◌&&◌,
}
use infrabox.Guards.{Collaborator}

pub record Answer : Type 0 where
  pub status : ℕ
  pub message : String

abbrev pub drop_two : List String → List String
drop_two (a ∷ b ∷ rest) = rest
drop_two _ = []

unfoldable pub remove_ref : String → String
remove_ref ref = join_with "/" (drop_two (split b'/' ref))

-- `statuses_url` stands for the format of the URL, which takes the sha.
pub record EventRepository : Type 0 where
  pub id : ℕ
  pub clone_url : String
  pub full_name : String
  pub statuses_url : String → String

pub record PushCommit : Type 0 where
  pub id : String
  pub message : String
  pub timestamp : String
  pub url : String
  pub distinct : Bool
  pub author : Signature
  pub committer : Signature

pub record Push : Type 0 where
  pub base_ref : Option String
  pub ref : String
  pub head_commit : Option PushCommit
  pub commits : List PushCommit
  pub repository : EventRepository

abbrev pub of_github : ℕ → Repository → Bool
of_github github_id r = eqb r.github_id github_id

-- The tokens of the users that own the project of the repository: the joins of `get_owner_token`.
unfoldable pub owner_tokens :
    (Repository → Bool) → Tables → List Collaborator → List (Option String)
owner_tokens test db [] = []
owner_tokens test db (co ∷ rest) =
    let later = owner_tokens test db rest in
    elim (rows_where (λ (u : User). u.id == co.user_id) db.users) [
      | [] ↦ later
      | u ∷ us ↦
          if co.owner
            && any (λ (p : ProjectRow). p.id == co.project_id) db.projects
            && any (λ (r : Repository). test r && r.project_id == co.project_id) db.repositories
          then u.github_api_token ∷ later
          else later
    ]

-- `if not token` is also true of an empty token.
abbrev pub given : Option String → Option String
given none = none
given (some t) = if t == "" then none else some t

unfoldable pub get_owner_token : ℕ → Tables → Response (Option String)
get_owner_token github_id db = first_row (owner_tokens (of_github github_id) db db.collaborators)

abbrev pub new_build : String → String → String → Tables → Build
new_build new_id commit_id project_id db = record {
  id = new_id;
  commit_id = some commit_id;
  build_number = next_number project_id db.builds;
  restart_counter = 1;
  project_id = project_id;
  source_upload_id = none;
}

unfoldable pub create_build : String → String → String → Tables → Tables
create_build new_id commit_id project_id db =
    insert_build (new_build new_id commit_id project_id db) db

abbrev pub new_job : String → String → Option (List (String × String)) → GitRepo → MatrixJob
new_job build_id project_id env repo = record {
  build_id = build_id;
  project_id = project_id;
  repo = some repo;
  env_var = env;
  definition = none;
}

unfoldable pub create_job :
    String
    → String
    → String
    → String
    → Bool
    → Option String
    → Option (List (String × String))
    → Bool
    → Tables
    → Tables
create_job commit_id clone_url build_id project_id private branch env fork db =
    insert_job
      (new_job build_id project_id env record {
        commit = commit_id;
        clone_url = clone_url;
        github_private_repo = some private;
        branch = branch;
        fork = fork;
        clone_all = false;
      })
      db

-- UPDATE "commit" SET tag = ... WHERE id = ... AND project_id = ...
unfoldable pub set_tag : String → String → String → List Commit → List Commit
set_tag tag id project_id [] = []
set_tag tag id project_id (c ∷ cs) =
    (if is_commit id project_id c then record c { tag = some tag } else c)
    ∷ set_tag tag id project_id cs

abbrev pub tagged : Option String → String → String → Tables → Tables
tagged none id project_id db = db
tagged (some tag) id project_id db = record db { commits = set_tag tag id project_id db.commits }

unfoldable pub push_commit :
    PushCommit
    → EventRepository
    → Repository
    → Option String
    → Option String
    → Tables
    → Response Tables
push_commit c repository r branch tag db =
    if any (is_commit c.id r.project_id) db.commits
    then done db
    else insert_row
        record {
          id = c.id;
          message = c.message;
          repository_id = r.id;
          timestamp = c.timestamp;
          author = c.author;
          committer = c.committer;
          url = c.url;
          branch = branch;
          project_id = r.project_id;
          tag = tag;
          pull_request_id = none;
          github_status_url = some (repository.statuses_url c.id);
        }
        db

-- `create_push` past its first test.
unfoldable pub push_distinct :
    String → PushCommit → EventRepository → Option String → Option String → Tables → Response Tables
push_distinct new_id c repository branch tag db = do
  r ← first_row (rows_where (of_github repository.id) db.repositories)
  db₁ ← push_commit c repository r branch tag db
  let db₂ = tagged (given tag) c.id r.project_id db₁
  let db₃ = create_build new_id c.id r.project_id db₂
  done (create_job c.id repository.clone_url new_id r.project_id r.private branch none false db₃)

unfoldable pub create_push :
    String → PushCommit → EventRepository → Option String → Option String → Tables → Response Tables
create_push new_id c repository branch tag db =
    if not c.distinct then done db else push_distinct new_id c repository branch tag db

abbrev pub last : {A : Type 0} → List A → Option A
last [] = none
last (x ∷ []) = some x
last (x ∷ y ∷ ys) = last (y ∷ ys)

abbrev pub base_branch : Option String → Option String
base_branch none = none
base_branch (some base_ref) = some (remove_ref base_ref)

-- The branch, the tag and the commit that a push is about.
unfoldable pub pushed : Push → Option String × Option String × Option PushCommit
pushed event =
    if starts_with "refs/tags" event.ref
    then (base_branch (given event.base_ref), some (remove_ref event.ref), event.head_commit)
    else (some (remove_ref event.ref), none, last event.commits)

abbrev pub answer : ℕ → String → Tables → Tables × Answer
answer status message db = (db, record { status = status; message = message })

unfoldable pub push_with : String → Push → Option String → Tables → Response (Tables × Answer)
push_with new_id event none db = done (answer 200 "no token" db)
push_with new_id event (some token) db =
    let (branch, tag, commit) = pushed event in
    elim commit [
      | none ↦ done (answer 200 "ok" db)
      | some c ↦ (do
        db' ← create_push new_id c event.repository branch tag db
        done (answer 200 "ok" db'))
    ]

unfoldable pub handle_push : String → Push → Tables → Response (Tables × Answer)
handle_push new_id event db = do
  r ← first_row (rows_where (of_github event.repository.id) db.repositories)
  p ← first_row (rows_where (λ (p : ProjectRow). p.id == r.project_id) db.projects)
  if not p.build_on_push then done (answer 200 "build_on_push not set" db) else do
    token ← get_owner_token event.repository.id db
    push_with new_id event (given token) db
