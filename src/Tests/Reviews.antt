-- ===== src/Tests/Reviews.antt =====
-- src/github/review/review.py and the pages of src/github/trigger/trigger.py on small inputs.
use infrabox.Texts.{find, rfind, first, skip, strip_prefix}
use infrabox.PullRequests.{ListedCommit}
use infrabox.Review.Final.{handle_job_update-final}
use infrabox.Lifecycle.{set_finished, job_token_required}
use infrabox.Pages.{get_next_page, get_commits, Page, follow}
use infrabox.Jobs.Rows.{HasKey, find_row}
use infrabox.Lifecycle.Steps.{Steps, set_finished_step}
use infrabox.Review.{
  StatusUpdate, handle_job_update, status_of, status_with, project_tokens, target_url,
}
use infrabox.Builds.{Signature, Tables}
use infrabox.Prelude.{
  refl, none, some, String, ◌≡◌, [], ◌∷◌, true, arith, if◌then◌else◌, ◌==◌, rows_where, show_nat,
  false, ◌≢◌, eq_iff,
}
use infrabox.Http.{done}
use infrabox.Jobs.{finished, wait, Job, Table, State, state_of}

differs : (a b : String) → (a == b) ≡ false → a ≢ b
differs a b h e = ground (arith, eq_iff a b)

abbrev job : Job
job = record {
  id = "j1";
  build_id = "b1";
  project_id = "p1";
  name = "test";
  type = wait;
  state = finished;
  dependencies = [];
  cluster_name = "master";
  created_at = 0;
  start_date = some 1;
  end_date = some 2;
  timeout = 3600;
  console = none;
  message = none;
  kubernetes = true;
}

abbrev jobs : Table
jobs = job ∷ []

abbrev person : Signature
person = record { name = "A"; email = "a@b.c"; username = none }

abbrev db : Tables
db = record {
  users = record { id = "u1"; github_api_token = some "key" } ∷ [];
  repositories = [];
  projects =
      record { id = "p1"; name = "infra"; type = "github"; public = true; build_on_push = true }
      ∷ [];
  collaborators = record { user_id = "u1"; project_id = "p1"; owner = true } ∷ [];
  commits =
      record {
        id = "c1";
        message = "m";
        repository_id = "r1";
        timestamp = "t";
        author = person;
        committer = person;
        url = "u";
        branch = some "master";
        project_id = "p1";
        tag = none;
        pull_request_id = none;
        github_status_url = some "https://h/statuses/c1";
      }
      ∷ [];
  builds =
      record {
        id = "b1";
        commit_id = some "c1";
        build_number = 4;
        restart_counter = 1;
        project_id = "p1";
        source_upload_id = none;
      }
      ∷ [];
  jobs = [];
  pull_requests = [];
}

abbrev quote : String → String
quote s = s

abbrev update : StatusUpdate
update = record {
  url = some "https://h/statuses/c1";
  token = "key";
  state = "success";
  target_url = "https://i/dashboard/#/project/infra/build/4/1/job/test";
  context = "Job: test";
}

posted : handle_job_update quote "https://i" "j1" jobs db ≡ done (some update)
unfolding handle_job_update status_of status_with find_row rows_where project_tokens target_url
    show_nat
posted = refl

abbrev later : Table
later = set_finished "j1" State.failure none "" 101 jobs

posted_later : handle_job_update quote "https://i" "j1" later db ≡ done (some update)
unfolding handle_job_update status_of status_with find_row rows_where project_tokens target_url
    show_nat set_finished job_token_required state_of
posted_later = refl

late : Steps jobs later
late = Steps.go_on _ _ _ (set_finished_step "j1" State.failure none "" 101 _) (Steps.stop _)

jobs-HasKey : HasKey jobs
jobs-HasKey = (λ m. m, tt)

handle_job_update-final_example : update.state ≡ update.state
handle_job_update-final_example =
    handle_job_update-final quote "https://i" "j1" jobs later db db update update late jobs-HasKey
      posted (differs "success" "pending" refl) posted_later

abbrev listed : String → ListedCommit
listed sha = record {
  sha = sha;
  message = "m";
  date = "d";
  author_name = "A";
  author_email = "a@b.c";
  author_login = none;
  committer_name = "A";
  committer_email = "a@b.c";
  committer_login = none;
  html_url = "u";
}

-- Three pages, of which the first two name the next.
abbrev fetch : String → Page
fetch url =
    if url == "two"
    then record {
      link = some "<one>; rel=\"prev\", <three>; rel=\"next\"";
      commits = listed "b" ∷ [];
    }
    else if url == "three"
    then record { link = some "<one>; rel=\"first\""; commits = listed "c" ∷ [] }
    else record { link = some "<two>; rel=\"next\""; commits = listed "a" ∷ [] }

all_pages : get_commits fetch 2 "one" ≡ some (listed "a" ∷ listed "b" ∷ listed "c" ∷ [])
unfolding get_next_page find rfind first skip strip_prefix follow get_commits
all_pages = refl
