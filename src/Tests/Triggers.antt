-- ===== src/Tests/Triggers.antt =====
-- src/github/trigger/trigger.py and src/api/handlers/trigger.py on small tables.
use infrabox.Texts.{strip_prefix, split, join_with}
use infrabox.PullRequests.Webhook.{trigger_build-Signed}
use infrabox.Github.Refs.{remove_ref-roundtrip}
use infrabox.Github.Pushes.{QueuesOne}
use infrabox.Builds.Numbers.{Unique}
use infrabox.Trigger.Unique.{restart, serve, BuildRequest, respond, serve-Unique, hook, trigger}
use infrabox.Trigger.Requests.{
  Outside, git_trigger, post, trigger_typed, restart_build, restart_rows, restart_from,
}
use infrabox.PullRequests.{trigger_build, ListedCommit, Hook, dispatch, push_event}
use infrabox.Builds.{
  Signature, Repository, Build, Tables, Commit, insert_row, insert_build, insert_job, next_number,
  max_where,
}
use infrabox.Prelude.{
  refl, none, some, String, ◌≡◌, List, count_where, false, ◌∷◌, true, ◌⊎◌, ◌<>◌, rows_where, [], ℕ,
  arith,
}
use infrabox.Http.{done, database_error, abort}
use infrabox.Trigger.{
  GithubCommit, get_sha_for_branch, create_github_commit, get_github_commit, insert_commit,
  create_git_job,
}
use infrabox.Github.{
  answer, PushCommit, remove_ref, owner_tokens, Push, create_job, create_build, handle_push,
  get_owner_token, push_with, pushed, create_push, push_distinct, push_commit,
}

abbrev person : Signature
person = record { name = "A"; email = "a@b.c"; username = none }

abbrev repository : Repository
repository = record {
  id = "r1";
  name = "infra";
  github_owner = "own";
  clone_url = "https://h/own/infra.git";
  html_url = "";
  github_id = 7;
  github_hook_id = none;
  project_id = "p1";
  private = false;
}

abbrev old_build : Build
old_build = record {
  id = "b1";
  commit_id = some "c0";
  build_number = 4;
  restart_counter = 1;
  project_id = "p1";
  source_upload_id = none;
}

abbrev before : Tables
before = record {
  users = record { id = "u1"; github_api_token = some "key" } ∷ [];
  repositories = repository ∷ [];
  projects =
      record { id = "p1"; name = "infra"; type = "github"; public = true; build_on_push = true }
      ∷ [];
  collaborators = record { user_id = "u1"; project_id = "p1"; owner = true } ∷ [];
  commits = [];
  builds = old_build ∷ [];
  jobs = [];
  pull_requests = [];
}

abbrev commit : PushCommit
commit = record {
  id = "c1";
  message = "m";
  timestamp = "t";
  url = "u";
  distinct = true;
  author = person;
  committer = person;
}

abbrev row : Commit
row = record {
  id = "c1";
  message = "m";
  repository_id = "r1";
  timestamp = "t";
  author = person;
  committer = person;
  url = "u";
  branch = some "feature/x";
  project_id = "p1";
  tag = none;
  pull_request_id = none;
  github_status_url = some "c1";
}

abbrev push_of : String → Push
push_of ref = record {
  base_ref = none;
  ref = ref;
  head_commit = some commit;
  commits = commit ∷ [];
  repository = record {
    id = 7;
    clone_url = "https://h/own/infra.git";
    full_name = "own/infra";
    statuses_url = λ sha. sha;
  };
}

abbrev sign : String → String
sign body = body

abbrev no_commits : String → List ListedCommit
no_commits url = []

abbrev call : String → Hook
call ref = record {
  event = some (push_event (push_of ref));
  signature = some "body";
  body = "body";
}

abbrev after : Tables
after =
    create_job "c1" "https://h/own/infra.git" "b2" "p1" false (some "feature/x") none false
      (create_build "b2" "c1" "p1" (record before { commits = row ∷ [] }))

pushes :
    trigger_build sign no_commits "q1" "b2" (call "refs/heads/feature/x") before
    ≡ done (answer 200 "ok" after)
unfolding trigger_build dispatch handle_push rows_where get_owner_token owner_tokens push_with
    pushed strip_prefix remove_ref split join_with create_push push_distinct push_commit insert_row
pushes = refl

trigger_build-Signed_example :
    (after ≡ before) ⊎ ((some "body" ≡ some (sign "body")) × QueuesOne "b2" before after)
trigger_build-Signed_example =
    trigger_build-Signed sign no_commits "q1" "b2" (call "refs/heads/feature/x") before after
      (answer 200 "ok" after).1 pushes

-- A tag that no branch goes with, of a new commit: the row of the commit has no branch.
pushes_tag : trigger_build sign no_commits "q1" "b2" (call "refs/tags/v1") before ≡ database_error
unfolding trigger_build dispatch handle_push rows_where get_owner_token owner_tokens push_with
    pushed strip_prefix remove_ref split join_with create_push push_distinct push_commit insert_row
pushes_tag = refl

remove_ref-roundtrip_example :
    remove_ref ("refs/" <> ("heads" <> ("/" <> "feature/x"))) ≡ "feature/x"
remove_ref-roundtrip_example = remove_ref-roundtrip "heads" "feature/x" refl

abbrev found : GithubCommit
found = record {
  sha = "c1";
  html_url = "u";
  author_name = "A";
  author_email = "a@b.c";
  message = "m";
}

abbrev outside : Outside
outside = record {
  api = record { branch = λ url token. none; commit = λ url token. some found };
  gerrit = λ name sha. abort 404 "";
  new_id = "b2";
  now = "today";
}

by_sha : git_trigger outside 5 "p1" "github" repository "c1" [] before ≡ database_error
unfolding git_trigger create_github_commit owner_tokens rows_where get_github_commit
    get_sha_for_branch insert_commit insert_row
by_sha = refl

abbrev with_branch : Outside
with_branch = record outside { api = record outside.api { branch = λ url token. some (some "c1") } }

abbrev calls : List BuildRequest
calls =
    hook sign no_commits "q1" "b2" (call "refs/heads/feature/x")
    ∷ trigger outside "p1" "c1" []
    ∷ restart "b3" "u1" "p1" "b2"
    ∷ []

abbrev numbers_of : List Build → List (ℕ × ℕ)
numbers_of [] = []
numbers_of (b ∷ bs) = (b.build_number, b.restart_counter) ∷ numbers_of bs

served : numbers_of (serve calls before).builds ≡ (4, 1) ∷ (5, 1) ∷ (6, 1) ∷ (5, 2) ∷ []
unfolding serve respond trigger_build dispatch handle_push rows_where get_owner_token owner_tokens
    push_with pushed strip_prefix remove_ref split join_with create_push push_distinct push_commit
    insert_row create_build create_job insert_build insert_job next_number max_where post
    trigger_typed git_trigger create_github_commit get_github_commit get_sha_for_branch
    insert_commit create_git_job restart_build restart_rows restart_from
served = refl

single : Unique before.builds
unfolding count_where
single p n c = ground arith

serve-Unique_example : Unique (serve calls before).builds
serve-Unique_example = serve-Unique calls before single
