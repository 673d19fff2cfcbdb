-- ===== src/PullRequests.antt =====
-- src/github/trigger/trigger.py: pull requests, and the webhook's entry. GitHub's answers are arguments.
pub mod Webhook
use infrabox.Builds.{Repository, Tables, PullRequest, insert_row, first_row, is_commit, ProjectRow}
use infrabox.Http.{Response, type_error, unbound_local_error, done, ◌>>=◌}
use infrabox.Github.{
  Push, EventRepository, Answer, answer, create_build, handle_push, create_job, of_github,
  get_owner_token, given,
}
use infrabox.Prelude.{
  String, Bool, Option, List, none, ◌∷◌, ℕ, if◌then◌else◌, [], ◌==◌, any, not, some, contains, ◌&&◌,
  rows_where, eqb, ◌++◌,
}

-- `base.repo` and the rest of the event that goes into the environment of the job.
pub record Base : Type 0 where
  pub label : String
  pub ref : String
  pub sha : String
  pub clone_url : String

-- `head.repo` is null if the fork was deleted.
pub record HeadRepo : Type 0 where
  pub fork : Bool
  pub clone_url : String

pub record PullRequestEvent : Type 0 where
  pub action : String
  pub repository : EventRepository
  pub id : ℕ
  pub title : String
  pub html_url : String
  pub commits_url : String
  pub statuses_url : String
  pub head_sha : String
  pub head_ref : String
  pub head_repo : Option HeadRepo
  pub base : Base

-- A commit of the list that GitHub returns; `author_login` is none if `author` is null.
pub record ListedCommit : Type 0 where
  pub sha : String
  pub message : String
  pub date : String
  pub author_name : String
  pub author_email : String
  pub author_login : Option String
  pub committer_name : String
  pub committer_email : String
  pub committer_login : Option String
  pub html_url : String

unfoldable pub find_head : String → List ListedCommit → Option ListedCommit
find_head sha [] = none
find_head sha (c ∷ cs) = if c.sha == sha then some c else find_head sha cs

abbrev pub head_repo_of : Option HeadRepo → Response HeadRepo
head_repo_of none = type_error
head_repo_of (some r) = done r

abbrev pub login : Option String → Response String
login none = type_error
login (some l) = done l

-- The variable `pr_id`, which is assigned only where a row is inserted.
unfoldable pub find_pull_request :
    String → PullRequestEvent → Repository → Tables → Tables × Option String
find_pull_request new_id event r db =
    if any (λ (p : PullRequest). p.project_id == r.id && eqb p.github_pull_request_id event.id)
      db.pull_requests
    then (db, none)
    else (
      record db {
        pull_requests =
            db.pull_requests
            ++ record {
              id = new_id;
              project_id = r.project_id;
              github_pull_request_id = event.id;
              title = event.title;
              url = event.html_url;
            }
              ∷ [];
      },
      some new_id,
    )

abbrev pub assigned : Option String → Response String
assigned none = unbound_local_error
assigned (some pr_id) = done pr_id

abbrev pub environment : PullRequestEvent → List (String × String)
environment event =
    ("GITHUB_PULL_REQUEST_BASE_LABEL", event.base.label)
    ∷ ("GITHUB_PULL_REQUEST_BASE_REF", event.base.ref)
    ∷ ("GITHUB_PULL_REQUEST_BASE_SHA", event.base.sha)
    ∷ ("GITHUB_PULL_REQUEST_BASE_REPO_CLONE_URL", event.base.clone_url)
    ∷ ("GITHUB_REPOSITORY_FULL_NAME", event.repository.full_name)
    ∷ []

-- From `if not result` on, for a commit that the project does not have yet.
unfoldable pub build_head :
    String
    → PullRequestEvent
    → Repository
    → HeadRepo
    → ListedCommit
    → Option String
    → Tables
    → Response (Tables × Answer)
build_head new_build_id event r head hc pr db = do
  author ← login hc.author_login
  pr_id ← assigned pr
  db₁ ←
      insert_row
        record {
          id = hc.sha;
          message = hc.message;
          repository_id = r.id;
          timestamp = hc.date;
          author = record {
            name = hc.author_name;
            email = hc.author_email;
            username = some author;
          };
          committer = record {
            name = hc.committer_name;
            email = hc.committer_email;
            username = hc.committer_login;
          };
          url = hc.html_url;
          branch = some event.head_ref;
          project_id = r.project_id;
          tag = none;
          pull_request_id = some pr_id;
          github_status_url = some event.statuses_url;
        }
        db
  let db₂ = create_build new_build_id hc.sha r.project_id db₁
  done (
      answer 200 "ok" (
        create_job event.head_sha head.clone_url new_build_id r.project_id r.private
          (some event.head_ref) (some (environment event)) head.fork db₂))

-- From the search for the head commit on. Without `if not result` nothing is committed.
unfoldable pub pull_with :
    String
    → String
    → PullRequestEvent
    → Repository
    → List ListedCommit
    → Tables
    → Response (Tables × Answer)
pull_with new_pr_id new_build_id event r commits db = elim (find_head event.head_sha commits) [
  | none ↦ done (answer 500 "Internal Server Error" db)
  | some hc ↦ (do
    head ← head_repo_of event.head_repo
    let (db₁, pr) = find_pull_request new_pr_id event r db
    if any (is_commit hc.sha r.project_id) db.commits
        then done (answer 200 "ok" db)
        else build_head new_build_id event r head hc pr db₁)
]

unfoldable pub pull_known :
    (String → List ListedCommit)
    → String
    → String
    → PullRequestEvent
    → Repository
    → Tables
    → Response (Tables × Answer)
pull_known get_commits new_pr_id new_build_id event r db = do
  p ← first_row (rows_where (λ (p : ProjectRow). p.id == r.project_id) db.projects)
  if not p.build_on_push then done (answer 200 "build_on_push not set" db) else do
    token ← get_owner_token event.repository.id db
    elim (given token) [
      | none ↦ done (answer 200 "no token" db)
      | some t ↦ pull_with new_pr_id new_build_id event r (get_commits event.commits_url) db
    ]

unfoldable pub handle_pull_request :
    (String → List ListedCommit)
    → String
    → String
    → PullRequestEvent
    → Tables
    → Response (Tables × Answer)
handle_pull_request get_commits new_pr_id new_build_id event db =
    if not (contains ("opened" ∷ "reopened" ∷ "synchronize" ∷ []) event.action)
    then done (answer 200 "action ignored" db)
    else elim (rows_where (of_github event.repository.id) db.repositories) [
      | [] ↦ done (answer 404 "Unknown repository" db)
      | r ∷ rs ↦ pull_known get_commits new_pr_id new_build_id event r db
    ]

-- What `request.json` is, by the header X-Github-Event.
pub data Event : Type 0 where
  push_event : Push → Event
  pull_request_event : PullRequestEvent → Event
  other_event : Event

pub record Hook : Type 0 where
  pub event : Option Event
  pub signature : Option String
  pub body : String

unfoldable pub dispatch :
    (String → List ListedCommit) → String → String → Event → Tables → Response (Tables × Answer)
dispatch get_commits new_pr_id new_build_id (push_event push) db = handle_push new_build_id push db
dispatch get_commits new_pr_id new_build_id (pull_request_event pull) db =
    handle_pull_request get_commits new_pr_id new_build_id pull db
dispatch get_commits new_pr_id new_build_id other_event db = done (answer 200 "OK" db)

-- `sign_blob` stands for the HMAC of the body under INFRABOX_GITHUB_WEBHOOK_SECRET.
unfoldable pub trigger_build :
    (String → String)
    → (String → List ListedCommit)
    → String
    → String
    → Hook
    → Tables
    → Response (Tables × Answer)
trigger_build sign_blob get_commits new_pr_id new_build_id hook db = elim hook.event [
  | none ↦ done (answer 400 "X-Github-Event not set" db)
  | some event ↦ elim hook.signature [
    | none ↦ done (answer 400 "X-Hub-Signature not set" db)
    | some signature ↦
        if not (sign_blob hook.body == signature)
        then done (answer 400 "X-Hub-Signature does not match blob signature" db)
        else dispatch get_commits new_pr_id new_build_id event db
  ]
]
