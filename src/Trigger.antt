-- ===== src/Trigger.antt =====
-- src/api/handlers/trigger.py: a user or a project token triggers a build; and restart_build of
-- src/api/handlers/projects/build.py. `auth_required` stands before each. What GitHub and the Gerrit
-- service answer, the ids of new rows and the time are arguments.
pub mod Requests
pub mod Adds
pub mod Unique
pub mod Shas
use infrabox.Github.{given, owner_tokens}
use infrabox.Http.{Response, type_error, abort, ◌>>=◌, done}
use infrabox.Builds.{
  Build, Tables, Repository, insert_job, of_project, is_commit, insert_build, insert_row, first_row,
}
use infrabox.Prelude.{
  String, List, Option, ◌<>◌, ◌∷◌, none, ℕ, some, if◌then◌else◌, [], any, ◌==◌, ltb, false, true,
}

-- What both services tell of a commit. `branch` and `clone_url` may be missing.
pub record SourceCommit : Type 0 where
  pub sha : String
  pub branch : Option String
  pub url : String
  pub author_name : String
  pub author_email : String
  pub message : String
  pub clone_url : Option String

-- The JSON of GitHub's answer for a commit.
pub record GithubCommit : Type 0 where
  pub sha : String
  pub html_url : String
  pub author_name : String
  pub author_email : String
  pub message : String

-- GitHub under a token: none where the status is not 200. The sha of a branch is none if the answer is
-- empty.
pub record GithubApi : Type 0 where
  pub branch : (url token : String) → Option (Option String)
  pub commit : (url token : String) → Option GithubCommit

unfoldable pub get_sha_for_branch : GithubApi → String → String → String → String → Option String
get_sha_for_branch api owner repo branch_or_sha token =
    elim (api.branch ("/repos/" <> (owner <> ("/" <> (repo <> ("/branches/" <> branch_or_sha)))))
      token) [ none ↦ none | some sha ↦ sha ]

abbrev pub get_or : String → Option String → String
get_or d none = d
get_or d (some s) = s

abbrev pub branch_of : String → Option String → Option String
branch_of branch none = none
branch_of branch (some sha) = some branch

-- `if sha` is also false of an empty text.
unfoldable pub get_github_commit :
    GithubApi → String → String → String → String → Response SourceCommit
get_github_commit api owner token repo branch_or_sha =
    let sha = given (get_sha_for_branch api owner repo branch_or_sha token) in
    let url =
      "/repos/" <> (owner <> ("/" <> (repo <> ("/commits/" <> get_or branch_or_sha sha)))) in
    elim (api.commit url token) [
      | none ↦ abort 404 "sha not found"
      | some c ↦ done record {
        sha = c.sha;
        branch = branch_of branch_or_sha sha;
        url = c.html_url;
        author_name = c.author_name;
        author_email = c.author_email;
        message = c.message;
        clone_url = none;
      }
    ]

unfoldable pub insert_commit : String → String → String → SourceCommit → Tables → Response Tables
insert_commit now project_id repo_id commit db =
    if any (is_commit commit.sha project_id) db.commits
    then done db
    else insert_row
        record {
          id = commit.sha;
          message = commit.message;
          repository_id = repo_id;
          timestamp = now;
          author = record {
            name = commit.author_name;
            email = commit.author_email;
            username = some "";
          };
          committer = record { name = ""; email = ""; username = some "" };
          url = commit.url;
          branch = commit.branch;
          project_id = project_id;
          tag = none;
          pull_request_id = none;
          github_status_url = none;
        }
        db

-- `execute_one_dict` gives an empty list where there is no row, which has no items under a name.
abbrev pub one : {A : Type 0} → List A → Response A
one [] = type_error
one (r ∷ rs) = done r

abbrev pub token_text : Option String → Response String
token_text none = type_error
token_text (some t) = done t

unfoldable pub create_github_commit :
    GithubApi → String → String → Repository → String → Tables → Response (SourceCommit × Tables)
create_github_commit api now project_id r branch_or_sha db = do
  owner_token ← first_row (owner_tokens (λ (x : Repository). x.id == r.id) db db.collaborators)
  token ← token_text owner_token
  commit ← get_github_commit api r.github_owner token r.name branch_or_sha
  db' ← insert_commit now project_id r.id commit db
  done (commit, db')

-- The answer of the Gerrit service: a commit, or a status that is not 200 with a message.
unfoldable pub create_gerrit_commit :
    (String → String → Response SourceCommit)
    → String
    → String
    → Repository
    → String
    → Tables
    → Response (SourceCommit × Tables)
create_gerrit_commit service now project_id r branch_or_sha db = do
  commit ← service r.name branch_or_sha
  db' ← insert_commit now project_id r.id commit db
  done (commit, db')

-- The loop over `env`: a later entry for a name takes the place of the earlier one.
unfoldable pub set_key : String → String → List (String × String) → List (String × String)
set_key name value [] = (name, value) ∷ []
set_key name value ((n, v) ∷ rest) =
    let later = set_key name value rest in
    if n == name then (name, value) ∷ rest else (n, v) ∷ later

unfoldable pub set_keys : List (String × String) → List (String × String) → List (String × String)
set_keys [] vars = vars
set_keys ((name, value) ∷ env) vars = set_keys env (set_key name value vars)

abbrev pub env_var : List (String × String) → Option (List (String × String))
env_var [] = none
env_var (e ∷ env) = some (set_keys (e ∷ env) [])

abbrev pub numbered_build : String → Option String → ℕ → String → Option String → Build
numbered_build id commit_id build_no project_id upload_id = record {
  id = id;
  commit_id = commit_id;
  build_number = build_no;
  restart_counter = 1;
  project_id = project_id;
  source_upload_id = upload_id;
}

unfoldable pub create_git_job :
    String
    → SourceCommit
    → ℕ
    → String
    → Repository
    → String
    → List (String × String)
    → Tables
    → Tables
create_git_job new_id commit build_no project_id r project_type env db =
    insert_job
      record {
        build_id = new_id;
        project_id = project_id;
        repo = some record {
          commit = commit.sha;
          clone_url = get_or r.clone_url commit.clone_url;
          github_private_repo = if project_type == "github" then some r.private else none;
          branch = none;
          fork = false;
          clone_all = true;
        };
        env_var = env_var env;
        definition = none;
      }
      (insert_build (numbered_build new_id (some commit.sha) build_no project_id none) db)

abbrev pub later_build : Build → Option Build → Build
later_build b none = b
later_build b (some c) = if ltb b.build_number c.build_number then c else b

-- ORDER BY build_number DESC LIMIT 1, which leaves open which restart of the build it is.
unfoldable pub last_build : String → List Build → Option Build
last_build project_id [] = none
last_build project_id (b ∷ bs) =
    let rest = last_build project_id bs in
    if of_project project_id b then some (later_build b rest) else rest

unfoldable pub create_upload_job :
    String → String → ℕ → List (String × String) → Tables → Response Tables
create_upload_job new_id project_id build_no env db = elim (last_build project_id db.builds) [
  | none ↦ abort 400 "no build yet"
  | some b ↦ done (
      insert_job
        record {
          build_id = new_id;
          project_id = project_id;
          repo = none;
          env_var = env_var env;
          definition = none;
        }
        (insert_build (numbered_build new_id none build_no project_id b.source_upload_id) db))
]
