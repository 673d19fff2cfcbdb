-- ===== src/Projects.antt =====
-- src/api/handlers/projects/projects.py: to add and to delete a project. `auth_required` stands before
-- each. GitHub's answers and the ids that the database makes are arguments.
pub mod Owned
use infrabox.Texts.{split}
use infrabox.Http.{Response, done, abort, Guard, ◌>>=◌, ◌>>◌, index_error, demand, lookup_error}
use infrabox.Builds.{Repository, User, Tables, ProjectRow}
use infrabox.Prelude.{
  String, ℕ, List, Option, Bool, ◌∷◌, none, ◌++◌, if◌then◌else◌, false, count_where, ◌==◌,
  delete_where, rows_where, [], not, ◌&&◌, some, any, true, ◌+◌, leb,
}
use infrabox.Guards.{Collaborator}
use infrabox.Github.{given, of_github}
use infrabox.Trigger.{one, token_text}

pub record NewProject : Type 0 where
  pub name : String
  pub type : String
  pub private : Bool
  pub github_repo_name : Option String

-- GitHub's JSON of a repository; `admin` is `permissions.admin`.
pub record GithubRepo : Type 0 where
  pub id : ℕ
  pub name : String
  pub html_url : String
  pub clone_url : String
  pub private : Bool
  pub admin : Bool
  pub owner_login : String

-- GitHub for an owner, a repository and a token: none where the status is another than 200 of a
-- repository, or than 201 of a new hook, which has a number.
pub record RepoApi : Type 0 where
  pub repo : (owner name token : String) → Option GithubRepo
  pub hook : (owner name token : String) → Option ℕ

-- `split[0]` and `split[1]`
abbrev pub owner_and_name : List String → Response (String × String)
owner_and_name (owner ∷ name ∷ rest) = done (owner, name)
owner_and_name _ = index_error

-- What the branch for GitHub before the INSERT finds.
pub record Connected : Type 0 where
  pub owner : String
  pub repo_name : String
  pub token : String
  pub repo : GithubRepo

abbrev pub set_name : Option String → Response String
set_name none = abort 400 "github_repo_name not set"
set_name (some name) = done name

abbrev pub user_row : List User → Response User
user_row [] = abort 404 ""
user_row (u ∷ us) = done u

abbrev pub found_repo : Option GithubRepo → Response GithubRepo
found_repo none = abort 400 "Failed to get github repo"
found_repo (some repo) = done repo

-- `abort('Repo already connected')` names no status, for which flask raises a LookupError.
unfoldable pub connect : RepoApi → String → Option String → Tables → Response Connected
connect api user_id github_repo_name db = do
  full_name ← set_name (given github_repo_name)
  (owner, repo_name) ← owner_and_name (split b'/' full_name)
  user ← user_row (rows_where (λ (u : User). u.id == user_id) db.users)
  token ← token_text user.github_api_token
  repo ← found_repo (api.repo owner repo_name token)
  demand repo.admin 400 "You are not allowed to connect this repo"
  if any (of_github repo.id) db.repositories
      then lookup_error
      else done record { owner = owner; repo_name = repo_name; token = token; repo = repo }

-- INSERT INTO repository
unfoldable pub insert_repository : Repository → Tables → Tables
insert_repository r db = record db { repositories = db.repositories ++ r ∷ [] }

-- The two INSERTs that every project has.
unfoldable pub insert_project : String → String → NewProject → Tables → Tables
insert_project new_id user_id b db = record db {
  projects =
      db.projects
      ++ record {
        id = new_id;
        name = b.name;
        type = b.type;
        public = not b.private;
        build_on_push = true;
      }
        ∷ [];
  collaborators =
      db.collaborators ++ record { user_id = user_id; project_id = new_id; owner = true } ∷ [];
}

-- The repository of GitHub and its hook: the UPDATE of `github_hook_id` reaches each row of the id.
unfoldable pub set_hook : ℕ → ℕ → List Repository → List Repository
set_hook github_id hook [] = []
set_hook github_id hook (r ∷ rs) =
    (if of_github github_id r then record r { github_hook_id = some hook } else r)
    ∷ set_hook github_id hook rs

abbrev pub github_repository : String → String → Connected → Repository
github_repository repo_id project_id c = record {
  id = repo_id;
  name = c.repo.name;
  github_owner = c.repo.owner_login;
  clone_url = c.repo.clone_url;
  html_url = c.repo.html_url;
  github_id = c.repo.id;
  github_hook_id = none;
  project_id = project_id;
  private = c.repo.private;
}

unfoldable pub add_github : RepoApi → String → String → Connected → Tables → Response Tables
add_github api repo_id project_id c db =
    let db' = insert_repository (github_repository repo_id project_id c) db in
    elim (api.hook c.owner c.repo_name c.token) [
      | none ↦ abort 400 "Failed to create github webhook"
      | some hook ↦ done (record db' { repositories = set_hook c.repo.id hook db'.repositories })
    ]

unfoldable pub add_gerrit : String → String → String → Tables → Tables
add_gerrit repo_id project_id name = insert_repository record {
  id = repo_id;
  name = name;
  github_owner = "";
  clone_url = "";
  html_url = "";
  github_id = 0;
  github_hook_id = none;
  project_id = project_id;
  private = false;
}

unfoldable pub count_joined : String → List ProjectRow → List Collaborator → ℕ
count_joined user_id projects [] = 0
count_joined user_id projects (c ∷ cs) =
    count_where (λ (p : ProjectRow). p.id == c.project_id && c.user_id == user_id) projects
    + count_joined user_id projects cs

-- The projects that a user has: the rows of the join.
unfoldable pub count_projects : String → Tables → ℕ
count_projects user_id db = count_joined user_id db.projects db.collaborators

abbrev pub is_named : String → ProjectRow → Bool
is_named name p = p.name == name

unfoldable pub add_typed :
    RepoApi → String → String → String → NewProject → Tables → Response Tables
add_typed api new_id repo_id user_id b db =
    if b.type == "github"
    then (do
      c ← connect api user_id b.github_repo_name db
      add_github api repo_id new_id c (insert_project new_id user_id b db))
    else if b.type == "gerrit"
    then done (add_gerrit repo_id new_id b.name (insert_project new_id user_id b db))
    else done (insert_project new_id user_id b db)

unfoldable pub add_project :
    RepoApi → String → String → String → NewProject → Tables → Response Tables
add_project api new_id repo_id user_id b db = do
  demand (leb (count_projects user_id db) 50) 400 "too many projects"
  demand (not (any (is_named b.name) db.projects)) 400 "A project with this name already exists"
  add_typed api new_id repo_id user_id b db

abbrev pub has_project : String → ProjectRow → Bool
has_project project_id p = p.id == project_id

-- The last two statements, and the first.
unfoldable pub drop_project : String → Tables → Tables
drop_project project_id db = record db {
  projects = delete_where (has_project project_id) db.projects;
  repositories = delete_where (λ (r : Repository). r.project_id == project_id) db.repositories;
  collaborators = delete_where (λ (c : Collaborator). c.project_id == project_id) db.collaborators;
}

-- A project of GitHub takes its hook away there: its repository and the user's token are read for it.
unfoldable pub unhook : String → String → ProjectRow → Tables → Guard
unhook user_id project_id p db =
    if p.type == "github"
    then (do
      r ← one (rows_where (λ (r : Repository). r.project_id == project_id) db.repositories)
      u ← one (rows_where (λ (u : User). u.id == user_id) db.users)
      token ← token_text u.github_api_token
      done tt)
    else done tt

unfoldable pub delete_project : String → String → Tables → Response Tables
delete_project user_id project_id db = elim (rows_where (has_project project_id) db.projects) [
  | [] ↦ abort 404 ""
  | p ∷ ps ↦ (do unhook user_id project_id p db; done (drop_project project_id db))
]
